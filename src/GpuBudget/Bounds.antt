-- ===== src/GpuBudget/Bounds.antt =====
-- The bounds that a receipt of gpu_budget.py keeps.
use model_forensics_value_le.Prelude.{
  ℕ, ◌+◌, ◌-◌, ◌*◌, ◌/◌, ◌≤◌, ◌<◌, ◌≡◌, String, Option, List, arith, subst, sym,
}
use native.Mathlib.Nat.{div-mul-le_self, mul-le-mul}
use model_forensics_value_le.Prelude.Outcome.{ok}
use model_forensics_value_le.Budget.Entry
use model_forensics_value_le.Budget.Document.{BudgetLimits}
use model_forensics_value_le.Budget.Store.{Yaml}
use model_forensics_value_le.Budget.Calls.Frame.{Loads}
use model_forensics_value_le.Budget.Calls.Returned.{snapshot_of}
use model_forensics_value_le.GpuBudget.Receipt.{Digests, Receipt, safe_runtime, min2}
use model_forensics_value_le.GpuBudget.Reserve.{
  GpuRequest, Checked, receipt_of, reserve_gpu_phase_budget,
}
use model_forensics_value_le.GpuBudget.Balanced.{IsBalanced, safe_ceiling-le}
use model_forensics_value_le.GpuBudget.Granted.{ledger_entry, reserve_gpu_phase_budget-IsGranted}
use model_forensics_value_le.GpuBudget.Accepted.{IsGranted-IsBalanced}
use model_forensics_value_le.Budget.Ledger.{ReservationSnapshot}

safe_runtime-le : (approved spend rate : ℕ) → safe_runtime approved spend rate ≤ approved
unfolding safe_runtime
safe_runtime-le approved spend rate = ground arith

min2-le : (a b : ℕ) → min2 a b ≤ a
min2-le a b = ground arith

mul_le_of_le_div : (m n rate : ℕ) → m ≤ n / rate → m * rate ≤ n
mul_le_of_le_div m n rate low =
    let scaled : m * rate ≤ n / rate * rate = mul-le-mul low (omega arith) in
    omega (arith, div-mul-le_self n rate)

-- Running for the safe time costs no more than what may be spent.
safe_runtime-mul :
    (approved spend rate : ℕ) → safe_runtime approved spend rate * rate ≤ spend * 1_000_000_000_000
unfolding safe_runtime
safe_runtime-mul approved spend rate =
    mul_le_of_le_div (safe_runtime approved spend rate) (spend * 1_000_000_000_000) rate
      (ground arith)

-- What a receipt promises, under these hard stops.
pub record IsBounded (limits : BudgetLimits) (r : Receipt) : Type 0 where
  pub gpu : r.committed_gpu_after ≤ r.safety_adjusted_ceiling
  pub ceiling : r.safety_adjusted_ceiling ≤ limits.gpu_limit
  pub total : r.committed_total_after ≤ limits.total_limit
  pub reserved : r.prior_committed_gpu + r.approved_phase_maximum ≡ r.committed_gpu_after
  pub runs : 0 < r.maximum_safe_runtime
  pub runtime : r.maximum_safe_runtime ≤ r.approved_maximum_runtime
  pub cost :
      r.maximum_safe_runtime * r.live_hourly_total ≤ r.approved_phase_maximum * 1_000_000_000_000

module _ (limits : BudgetLimits) (q : Checked) (t : ReservationSnapshot) where
  receipt_of-IsBounded : IsBalanced limits q t → IsBounded limits (receipt_of limits q t)
  unfolding receipt_of
  receipt_of-IsBounded b =
      let gpu_left = q.ceiling - t.committed_before.gpu in
      let left = limits.total_limit - t.committed_before.total in
      let spend = min2 (min2 q.phase_maximum gpu_left) left in
      let stop = safe_ceiling-le limits.gpu_limit q.margin in
      let less : spend ≤ q.phase_maximum =
        omega
          (arith, min2-le q.phase_maximum gpu_left, min2-le (min2 q.phase_maximum gpu_left) left) in
      record {
        gpu = b.low;
        ceiling = omega (arith, b, stop);
        total = b.total_low;
        reserved = sym b.after;
        runs = ground (arith, b.runs);
        runtime = safe_runtime-le q.runtime spend q.rate;
        cost = omega (arith, safe_runtime-mul q.runtime spend q.rate, less);
      }

-- A receipt that a reservation returns keeps its phase within the hard stops: the committed GPU
-- costs stay under the safe ceiling, which is no higher than the GPU hard stop, and the committed
-- total under the total hard stop; the maximum is exactly what is added to the GPU costs; the safe
-- runtime is positive, no longer than the approved one, and at the live rate costs no more than the
-- approved maximum.
pub reserve_gpu_phase_budget-IsBounded :
    (yaml : Yaml) (limits : BudgetLimits) (digests : Digests) (now : String) (request : GpuRequest)
    (s s' : Option yaml.Text) (es : List Entry.Entry) (r : Receipt)
    → Loads yaml limits s es
    → reserve_gpu_phase_budget yaml limits digests now request s ≡ (ok r, s')
    → IsBounded limits r
reserve_gpu_phase_budget-IsBounded yaml limits digests now request s s' es r loads h =
    let g = reserve_gpu_phase_budget-IsGranted yaml limits digests now request s s' es r loads h in
    let b = IsGranted-IsBalanced yaml limits digests now request es r s' g in
    subst (IsBounded limits) g.receipt
      (receipt_of-IsBounded limits g.q (snapshot_of es (ledger_entry now g.q)) b)
