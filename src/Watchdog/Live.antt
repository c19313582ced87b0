-- ===== src/Watchdog/Live.antt =====
-- `PodMetadata`, `validate_live_metadata` and `derive_deadline` of runpod_watchdog.py. A moment is a
-- whole number of microseconds from the start of the year 1, UTC. Whether a name is of the expected GPU family is a parameter.
use model_forensics_value_le.Prelude.{
  ℕ, ◌+◌, ◌-◌, ◌*◌, ◌/◌, ◌%◌, String, Bool, true, false, not, ◌&&◌, ◌||◌, Option, none, some, List,
  [], ◌∷◌, any, ltb, leb, ◌==◌, str_eq, if◌then◌else◌,
}
use model_forensics_value_le.Prelude.Outcome.{Result, ok, err, ◌>>=◌, ◌>>◌, raise_if}
use model_forensics_value_le.Watchdog.Limits.{
  WatchdogError, bad_image, bad_gpu_count, bad_family, bad_provider_gpu, bad_data_center,
  no_cuda_versions, bad_cuda_version, bad_inventory, not_secure_cloud, image_differs, bad_disk,
  bad_volume, bad_ports, networking_enabled, network_volume, not_ready, not_running, locked_pod,
  interruptible_pod, rate_exceeded, bad_rate, overflow_error, WatchdogLimits, safe_budget,
  approved_compute,
}

-- `desiredStatus`
pub data Status : Type 0 where
  running exited terminated : Status

abbrev pub is_running : Status → Bool
is_running running = true
is_running exited = false
is_running terminated = false

-- `status in _TERMINAL_STATUSES`
abbrev pub is_terminal : Status → Bool
is_terminal s = not (is_running s)

-- `PodMetadata`, the fields that the watchdog reads.
pub record PodMetadata : Type 0 where
  pub gpu_count : ℕ
  pub provider_gpu_id : String
  pub gpu_display_name : String
  pub runtime_gpu_count : Option ℕ
  pub execution_identity_hash : String
  pub data_center_id : String
  pub cuda_version : Option String
  pub secure_cloud : Bool
  pub container_image : String
  pub container_disk_gb : ℕ
  pub persistent_volume_disk_gb : ℕ
  pub persistent_volume_mount_path : String
  pub ports : List String
  pub global_networking_enabled : Option Bool
  pub ssh_ready : Bool
  pub direct_ssh_ready : Bool
  pub direct_ssh_endpoint_hash : Option String
  pub environment_verified : Bool
  pub desired_status : Status
  pub cost_per_hr : ℕ
  pub adjusted_cost_per_hr : ℕ
  pub last_started_at : ℕ
  pub observed_at : ℕ
  pub locked : Option Bool
  pub interruptible : Option Bool
  pub network_volume_attached : Bool

-- The approved execution profile; `none` is an image that is no digest.
pub record Profile : Type 0 where
  pub is_family : String → Bool
  pub gpu_count : ℕ
  pub provider_gpu_id : String
  pub data_center_ids : List String
  pub cuda_versions : List String
  pub approved_image : Option String

abbrev pub max2 : ℕ → ℕ → ℕ
max2 a b = if leb a b then b else a

abbrev pub min2 : ℕ → ℕ → ℕ
min2 a b = if leb a b then a else b

-- `effective_hourly_usd`
unfoldable pub effective_hourly : PodMetadata → ℕ
effective_hourly m = max2 m.cost_per_hr m.adjusted_cost_per_hr

-- `runtime_seconds`, in microseconds.
unfoldable pub runtime : PodMetadata → ℕ
runtime m = m.observed_at - m.last_started_at

-- `math.ceil(metadata.runtime_seconds / 60)`
abbrev pub billed_minutes : PodMetadata → ℕ
billed_minutes m = (runtime m + 59_999_999) / 60_000_000

abbrev is_true : Option Bool → Bool
is_true none = false
is_true (some b) = b

abbrev differs : Option ℕ → ℕ → Bool
differs none n = false
differs (some k) n = not (k == n)

abbrev outside : Option String → List String → Bool
outside none names = false
outside (some name) names = not (any (str_eq name) names)

abbrev no_names : List String → Bool
no_names [] = true
no_names (n ∷ ns) = false

-- `metadata.ports != ("22/tcp",)`
abbrev other_ports : List String → Bool
other_ports [] = true
other_ports (p ∷ []) = not (str_eq p "22/tcp")
other_ports (p ∷ q ∷ ps) = true

abbrev not_image : Option String → String → Bool
not_image none image = true
not_image (some approved) image = not (str_eq image approved)

abbrev has_value : Option String → Bool
has_value none = false
has_value (some v) = true

-- `live_rate_ceiling > approved + 1e-6`
abbrev over_rate : Option ℕ → ℕ → Bool
over_rate none rate = false
over_rate (some approved) rate = ltb (approved + 1000) rate

-- The tests on where the machine is.
unfoldable pub check_place : Profile → PodMetadata → Result WatchdogError (Unit {0})
check_place profile m = do
  raise_if (not (has_value profile.approved_image)) bad_image
  raise_if (not (profile.gpu_count == 8) || not (m.gpu_count == profile.gpu_count)) bad_gpu_count
  raise_if (not (profile.is_family m.gpu_display_name) || not (profile.is_family m.provider_gpu_id))
      bad_family
  raise_if (not (str_eq m.provider_gpu_id profile.provider_gpu_id)) bad_provider_gpu
  raise_if
      (no_names profile.data_center_ids
        || not (any (str_eq m.data_center_id) profile.data_center_ids))
      bad_data_center
  raise_if (no_names profile.cuda_versions) no_cuda_versions
  raise_if (outside m.cuda_version profile.cuda_versions) bad_cuda_version
  raise_if (differs m.runtime_gpu_count profile.gpu_count) bad_inventory
  raise_if (not m.secure_cloud) not_secure_cloud
  raise_if (not_image profile.approved_image m.container_image) image_differs

-- The tests on its disks, its network and its rental.
unfoldable pub check_machine : PodMetadata → Result WatchdogError (Unit {0})
check_machine m = do
  raise_if (not (m.container_disk_gb == 50)) bad_disk
  raise_if
      (not (m.persistent_volume_disk_gb == 650)
        || not (str_eq m.persistent_volume_mount_path "/workspace"))
      bad_volume
  raise_if (other_ports m.ports) bad_ports
  raise_if (is_true m.global_networking_enabled) networking_enabled
  raise_if m.network_volume_attached network_volume
  raise_if
      (not m.ssh_ready
        || (not m.direct_ssh_ready
            || (not (has_value m.direct_ssh_endpoint_hash) || not m.environment_verified)))
      not_ready
  raise_if (is_terminal m.desired_status) not_running
  raise_if (is_true m.locked) locked_pod
  raise_if (is_true m.interruptible) interruptible_pod

-- `validate_live_metadata`
unfoldable pub validate_live_metadata :
    WatchdogLimits → Profile → PodMetadata → Result WatchdogError (Unit {0})
validate_live_metadata limits profile m = do
  check_place profile m
  check_machine m
  raise_if (over_rate (approved_compute limits) (max2 m.cost_per_hr (effective_hourly m)))
      rate_exceeded

-- `DerivedDeadline`
pub record DerivedDeadline : Type 0 where
  pub budget_deadline : ℕ
  pub runtime_deadline : ℕ
  pub deadline : ℕ
  pub calculation_hourly : ℕ
  pub incurred_cost : ℕ

-- The whole number of microseconds that is nearest to `n / k`, and the even one of two: what a
-- `timedelta` keeps of a number of hours.
unfoldable pub rounded : ℕ → ℕ → ℕ
rounded n k =
    if ltb (2 * (n % k)) k || (2 * (n % k) == k && n / k % 2 == 0) then n / k else n / k + 1

-- `timedelta.max` and `datetime.max`, in microseconds.
abbrev pub longest : ℕ
longest = 86_399_999_999_999_999_999

abbrev pub last_moment : ℕ
last_moment = 315_537_897_599_999_999

-- `timedelta` of `n / k` microseconds.
unfoldable pub timedelta : ℕ → ℕ → Result WatchdogError ℕ
timedelta n k = if ltb longest (rounded n k) then err overflow_error else ok (rounded n k)

-- The sum of a `datetime` and a `timedelta`.
unfoldable pub moment_after : ℕ → ℕ → Result WatchdogError ℕ
moment_after start time =
    if ltb last_moment (start + time) then err overflow_error else ok (start + time)

-- The time that the safe budget pays at a rate, and the longest time that is approved.
unfoldable pub budget_runtime : WatchdogLimits → ℕ → Result WatchdogError ℕ
budget_runtime limits rate = timedelta (safe_budget limits * 3_600_000_000) (rate * 1_000_000_000)

unfoldable pub runtime_limit : WatchdogLimits → Result WatchdogError ℕ
runtime_limit limits = timedelta (limits.maximum_runtime * 18) 5

-- `calculation_hourly_usd or metadata.effective_hourly_usd`
abbrev pub calculation_rate : Option ℕ → PodMetadata → ℕ
calculation_rate none m = effective_hourly m
calculation_rate (some rate) m = if rate == 0 then effective_hourly m else rate

-- The deadlines of a rate that is good.
unfoldable pub derived_of : PodMetadata → WatchdogLimits → ℕ → Result WatchdogError DerivedDeadline
derived_of m limits rate = do
  budget_time ← budget_runtime limits rate
  runtime_time ← runtime_limit limits
  budget_deadline ← moment_after m.last_started_at budget_time
  runtime_deadline ← moment_after m.last_started_at runtime_time
  ok (record {
    budget_deadline = budget_deadline;
    runtime_deadline = runtime_deadline;
    deadline = min2 budget_deadline runtime_deadline;
    calculation_hourly = rate;
    incurred_cost = rate * billed_minutes m / 60;
  })

-- `derive_deadline`
unfoldable pub derive_deadline :
    PodMetadata → WatchdogLimits → Option ℕ → Result WatchdogError DerivedDeadline
derive_deadline m limits calculation =
    let rate = calculation_rate calculation m in
    if rate == 0 then err bad_rate else derived_of m limits rate
