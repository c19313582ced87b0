-- ===== src/Watchdog/Limits.antt =====
-- `WatchdogLimits` of runpod_watchdog.py. Money is in billionths of a dollar, a rate in billionths of
-- a dollar an hour, a duration in billionths of an hour and the safety margin in billionths.
use model_forensics_value_le.Prelude.{
  ℕ, ◌+◌, ◌-◌, ◌*◌, Bool, true, false, not, ◌&&◌, ◌||◌, Option, none, some, ltb, leb, ◌==◌,
  if◌then◌else◌,
}
use model_forensics_value_le.Prelude.Outcome.{Result, ok, err, ◌>>=◌, ◌>>◌, raise_if}

-- Each `raise` that the models of the module meet; `overflow_error` stands for Python's
-- `OverflowError`, which is no `WatchdogError` and which no handler of the module catches.
pub data WatchdogError : Type 0 where
  not_numeric not_positive bad_margin prior_negative storage_negative : WatchdogError
  bad_total storage_not_below bad_compute parts_differ nothing_left no_budget : WatchdogError
  bad_image bad_gpu_count bad_family bad_provider_gpu bad_data_center no_cuda_versions :
      WatchdogError
  bad_cuda_version bad_inventory not_secure_cloud image_differs bad_disk bad_volume : WatchdogError
  bad_ports networking_enabled network_volume not_ready not_running locked_pod : WatchdogError
  interruptible_pod rate_exceeded bad_rate restarted identity_changed : WatchdogError
  no_metadata bad_arguments live_verification_failed armed_not_persisted : WatchdogError
  stop_not_persisted stop_unconfirmed overflow_error : WatchdogError

-- A number that `float` reads, in billionths, one below zero, or a Boolean or
-- value that is not finite.
pub data Numeric : Type 0 where
  billionths : ℕ → Numeric
  below_zero : Numeric
  not_finite : Numeric

-- The arguments of `WatchdogLimits`.
pub record RawLimits : Type 0 where
  pub gpu_hard_stop : Numeric
  pub maximum_runtime : Numeric
  pub safety_margin : Numeric
  pub approved_hourly_total : Option Numeric
  pub approved_storage_hourly : Numeric
  pub prior_committed_gpu : Numeric
  pub approved_compute_hourly : Option Numeric

pub record WatchdogLimits : Type 0 where
  pub gpu_hard_stop : ℕ
  pub maximum_runtime : ℕ
  pub safety_margin : ℕ
  pub approved_hourly_total : Option ℕ
  pub approved_storage_hourly : ℕ
  pub prior_committed_gpu : ℕ
  pub approved_compute_hourly : Option ℕ

abbrev is_numeric : Numeric → Bool
is_numeric (billionths n) = true
is_numeric below_zero = true
is_numeric not_finite = false

abbrev positive : Numeric → WatchdogError → Result WatchdogError ℕ
positive (billionths n) e = if n == 0 then err e else ok n
positive below_zero e = err e
positive not_finite e = err e

abbrev not_negative : Numeric → WatchdogError → Result WatchdogError ℕ
not_negative (billionths n) e = ok n
not_negative below_zero e = err e
not_negative not_finite e = err e

abbrev positive_or_none : Option Numeric → WatchdogError → Result WatchdogError (Option ℕ)
positive_or_none none e = ok none
positive_or_none (some v) e = positive v e >>= λ n. ok (some n)

-- `not math.isclose(a, b, rel_tol=0.0, abs_tol=1e-6)`
unfoldable pub not_close : ℕ → ℕ → Bool
not_close a b = ltb 1000 (a - b) || ltb 1000 (b - a)

-- `approved_storage >= approved`
abbrev reaches : ℕ → Option ℕ → Bool
reaches storage none = false
reaches storage (some approved) = leb approved storage

abbrev parts_apart : Option ℕ → ℕ → Option ℕ → Bool
parts_apart none storage total = false
parts_apart (some compute) storage none = false
parts_apart (some compute) storage (some total) = not_close (compute + storage) total

abbrev leaves_nothing : Option ℕ → ℕ → Option ℕ → Bool
leaves_nothing none storage none = false
leaves_nothing none storage (some total) = total - storage == 0
leaves_nothing (some compute) storage total = false

-- `global_safe_budget_usd` and `safe_budget_usd`, in billionths of billionths of a dollar.
unfoldable pub global_safe_budget : WatchdogLimits → ℕ
global_safe_budget limits = limits.gpu_hard_stop * (1_000_000_000 - limits.safety_margin)

unfoldable pub safe_budget : WatchdogLimits → ℕ
safe_budget limits = global_safe_budget limits - limits.prior_committed_gpu * 1_000_000_000

-- `approved_compute_hourly_usd`
unfoldable pub approved_compute : WatchdogLimits → Option ℕ
approved_compute limits = elim limits.approved_compute_hourly [
  | some compute ↦ some compute
  | none ↦ elim limits.approved_hourly_total [
    | none ↦ none
    | some total ↦ some (total - limits.approved_storage_hourly)
  ]
]

-- The last tests of `WatchdogLimits.__post_init__`.
unfoldable pub check_limits : WatchdogLimits → Result WatchdogError WatchdogLimits
check_limits limits = do
  raise_if
      (parts_apart limits.approved_compute_hourly limits.approved_storage_hourly
        limits.approved_hourly_total)
      parts_differ
  raise_if
      (leaves_nothing limits.approved_compute_hourly limits.approved_storage_hourly
        limits.approved_hourly_total)
      nothing_left
  raise_if (leb (global_safe_budget limits) (limits.prior_committed_gpu * 1_000_000_000)) no_budget
  ok limits

-- `WatchdogLimits.__post_init__`
unfoldable pub watchdog_limits : RawLimits → Result WatchdogError WatchdogLimits
watchdog_limits raw = do
  raise_if
      (not (
        is_numeric raw.gpu_hard_stop
        && (is_numeric raw.maximum_runtime
            && (is_numeric raw.safety_margin
                && (is_numeric raw.approved_storage_hourly
                    && is_numeric raw.prior_committed_gpu)))))
      not_numeric
  gpu_hard_stop ← positive raw.gpu_hard_stop not_positive
  maximum_runtime ← positive raw.maximum_runtime not_positive
  safety_margin ← positive raw.safety_margin bad_margin
  raise_if (leb 250_000_000 safety_margin) bad_margin
  prior ← not_negative raw.prior_committed_gpu prior_negative
  storage ← not_negative raw.approved_storage_hourly storage_negative
  total ← positive_or_none raw.approved_hourly_total bad_total
  raise_if (reaches storage total) storage_not_below
  compute ← positive_or_none raw.approved_compute_hourly bad_compute
  check_limits (record {
    gpu_hard_stop = gpu_hard_stop;
    maximum_runtime = maximum_runtime;
    safety_margin = safety_margin;
    approved_hourly_total = total;
    approved_storage_hourly = storage;
    prior_committed_gpu = prior;
    approved_compute_hourly = compute;
  })
