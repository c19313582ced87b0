-- ===== src/GpuBudget/Reserve.antt =====
-- `reserve_gpu_phase_budget` and `approved_gpu_phase_maximum_usd` of gpu_budget.py.
use model_forensics_value_le.Prelude.{
  ℕ, ◌+◌, ◌-◌, ◌*◌, ◌/◌, String, true, ◌&&◌, Option, none, some, [], ◌∷◌, ltb, ◌==◌, if◌then◌else◌,
}
use model_forensics_value_le.Prelude.Outcome.{Result, ok, err, ◌>>=◌, ◌>>◌, raise_if}
use model_forensics_value_le.Prelude.Text.{codes}
use model_forensics_value_le.Budget.Entry
use model_forensics_value_le.Budget.Entry.{CostEntry, Amount}
use model_forensics_value_le.Budget.Document.{BudgetLimits}
use model_forensics_value_le.Budget.Ceilings.{kind_total}
use model_forensics_value_le.Budget.Store.{Yaml}
use model_forensics_value_le.Budget.Ledger.{ReservationSnapshot, reserve_once}
use model_forensics_value_le.GpuBudget.Texts.{phase_matches, is_session_id}
use model_forensics_value_le.GpuBudget.Receipt.{
  GpuError, bad_phase, bad_session, not_positive, bad_margin, exceeds_ceiling, no_runtime,
  ledger_error, Digests, Receipt, reservation_description, safe_ceiling, safe_runtime, min2,
}

-- A value where a number is expected: one that `float` reads, in billionths, or another.
pub data Quantity : Type 0 where
  billionths : ℕ → Quantity
  below_zero boolean not_finite : Quantity

-- `_positive_finite`
unfoldable pub positive_finite : Quantity → Result GpuError ℕ
positive_finite (billionths n) = if n == 0 then err not_positive else ok n
positive_finite below_zero = err not_positive
positive_finite boolean = err not_positive
positive_finite not_finite = err not_positive

-- `_ceil_usd`, from billionths to millionths of a dollar.
unfoldable pub ceil_usd : ℕ → ℕ
ceil_usd n = (n + 999) / 1000

abbrev positive_count : Option ℕ → Result GpuError ℕ
positive_count none = err not_positive
positive_count (some n) = if n == 0 then err not_positive else ok n

abbrev not_negative : Quantity → Result GpuError ℕ
not_negative (billionths n) = ok n
not_negative below_zero = err not_positive
not_negative boolean = err not_positive
not_negative not_finite = err not_positive

-- `approved_gpu_phase_maximum_usd`; `none` is a count that is no integer.
unfoldable pub approved_gpu_phase_maximum_usd :
    Option ℕ → Quantity → Quantity → Quantity → Result GpuError ℕ
approved_gpu_phase_maximum_usd gpu_count hourly_per_gpu storage_hourly runtime_hours = do
  count ← positive_count gpu_count
  per_gpu ← positive_finite hourly_per_gpu
  storage ← not_negative storage_hourly
  runtime ← positive_finite runtime_hours
  ok (((count * per_gpu + storage) * runtime + 999_999_999_999) / 1_000_000_000_000)

-- The arguments of `reserve_gpu_phase_budget`; `none` is no text.
pub record GpuRequest : Type 0 where
  pub phase : Option String
  pub session_id : Option String
  pub approved_phase_maximum : Quantity
  pub approved_maximum_runtime : Quantity
  pub live_hourly_total : Quantity
  pub safety_margin : Quantity

-- What the tests of the request give.
pub record Checked : Type 0 where
  pub phase : String
  pub session_hash : String
  pub reservation_id : String
  pub phase_maximum : ℕ
  pub runtime : ℕ
  pub rate : ℕ
  pub margin : ℕ
  pub ceiling : ℕ

unfoldable pub checked_phase : Option String → Result GpuError String
checked_phase none = err bad_phase
checked_phase (some phase) = if phase_matches (codes phase) then ok phase else err bad_phase

unfoldable pub checked_session : Option String → Result GpuError String
checked_session none = err bad_session
checked_session (some session) =
    if is_session_id (codes session) then ok session else err bad_session

-- A margin in (0, 0.25).
unfoldable pub checked_margin : Quantity → Result GpuError ℕ
checked_margin (billionths n) = if ltb 0 n && ltb n 250_000_000 then ok n else err bad_margin
checked_margin below_zero = err bad_margin
checked_margin boolean = err bad_margin
checked_margin not_finite = err bad_margin

-- The part of `reserve_gpu_phase_budget` before the ledger is asked.
unfoldable pub checked_request : Digests → BudgetLimits → GpuRequest → Result GpuError Checked
checked_request digests limits q = do
  phase ← checked_phase q.phase
  session ← checked_session q.session_id
  maximum ← positive_finite q.approved_phase_maximum
  runtime ← positive_finite q.approved_maximum_runtime
  rate ← positive_finite q.live_hourly_total
  margin ← checked_margin q.safety_margin
  raise_if (ltb (safe_ceiling limits.gpu_limit margin) (ceil_usd maximum)) exceeds_ceiling
  ok (record {
    phase = phase;
    session_hash = digests.session session;
    reservation_id = digests.reservation phase (digests.session session);
    phase_maximum = ceil_usd maximum;
    runtime = runtime;
    rate = rate;
    margin = margin;
    ceiling = safe_ceiling limits.gpu_limit margin;
  })

-- The estimate that is reserved.
unfoldable pub phase_entry : Checked → CostEntry
phase_entry q = record {
  kind = some Entry.gpu;
  amount_usd = Entry.micros q.phase_maximum;
  description = some (reservation_description q.phase q.session_hash);
  status = some Entry.estimated;
  occurred_at = Entry.empty;
}

-- The receipt of a snapshot.
unfoldable pub receipt_of : BudgetLimits → Checked → ReservationSnapshot → Receipt
receipt_of limits q t =
    let remaining_gpu = q.ceiling - t.committed_before.gpu in
    let remaining = limits.total_limit - t.committed_before.total in
    record {
      reservation_id = q.reservation_id;
      phase = q.phase;
      session_hash = q.session_hash;
      approved_phase_maximum = q.phase_maximum;
      approved_maximum_runtime = q.runtime;
      live_hourly_total = q.rate;
      safety_margin = q.margin;
      global_gpu_hard_stop = limits.gpu_limit;
      safety_adjusted_ceiling = q.ceiling;
      prior_incurred_gpu = t.incurred_before.gpu;
      prior_reserved_gpu = t.committed_before.gpu - t.incurred_before.gpu;
      prior_committed_gpu = t.committed_before.gpu;
      prior_committed_total = t.committed_before.total;
      remaining_safe_gpu = remaining_gpu;
      remaining_total = remaining;
      maximum_safe_runtime =
          safe_runtime q.runtime (min2 (min2 q.phase_maximum remaining_gpu) remaining) q.rate;
      committed_gpu_after = t.committed_after.gpu;
      committed_total_after = t.committed_after.total;
    }

-- What is returned of a snapshot.
unfoldable pub issue_receipt :
    BudgetLimits → Checked → ReservationSnapshot → Result GpuError Receipt
issue_receipt limits q t =
    let r = receipt_of limits q t in if r.maximum_safe_runtime == 0 then err no_runtime else ok r

abbrev pub from_ledger : {A : Type 0} → Result Entry.Error A → Result GpuError A
from_ledger (ok a) = ok a
from_ledger (err e) = err (ledger_error e)

module _ (yaml : Yaml) (limits : BudgetLimits) (digests : Digests) (now : String) where
  -- The call of the ledger, with the safe ceiling, and no other GPU estimate outstanding.
  unfoldable pub reserve_checked :
      Checked → Option yaml.Text → Result Entry.Error ReservationSnapshot × Option yaml.Text
  reserve_checked q =
      reserve_once yaml limits now q.reservation_id (phase_entry q)
        ((some (kind_total Entry.gpu), Entry.micros q.ceiling) ∷ []) true

  -- `reserve_gpu_phase_budget`: its result, and the file as it leaves it.
  unfoldable pub reserve_gpu_phase_budget :
      GpuRequest → Option yaml.Text → Result GpuError Receipt × Option yaml.Text
  reserve_gpu_phase_budget request s = elim (checked_request digests limits request) [
    | err e ↦ (err e, s)
    | ok q ↦
        let (snapshot, s') = reserve_checked q s in
        (from_ledger snapshot >>= issue_receipt limits q, s')
  ]
