-- ===== src/Watchdog/Handover.antt =====
-- The limits that a receipt of gpu_budget.py hands to the watchdog: `watchdog_budget_kwargs`.
use model_forensics_value_le.Prelude.{
  ℕ, ◌+◌, ◌-◌, ◌*◌, ◌≤◌, ◌<◌, ◌≡◌, refl, sym, subst, false, Option, none, List, arith, leb, ◌==◌,
  String,
}
use native.Mathlib.Nat.{div-mul-le_self, mul_right_comm}
use model_forensics_value_le.Prelude.Outcome.{ok}
use model_forensics_value_le.Budget.Entry
use model_forensics_value_le.Budget.Document.{BudgetLimits}
use model_forensics_value_le.Budget.Ledger.{ReservationSnapshot}
use model_forensics_value_le.Budget.Store.{Yaml}
use model_forensics_value_le.Budget.Calls.Frame.{Loads}
use model_forensics_value_le.Budget.Calls.Returned.{snapshot_of}
use model_forensics_value_le.GpuBudget.Receipt.{Digests, Receipt, safe_ceiling}
use model_forensics_value_le.GpuBudget.Reserve.{
  GpuRequest, Checked, receipt_of, reserve_gpu_phase_budget,
}
use model_forensics_value_le.GpuBudget.Balanced.{IsBalanced, safe_ceiling-le}
use model_forensics_value_le.GpuBudget.Granted.{ledger_entry, reserve_gpu_phase_budget-IsGranted}
use model_forensics_value_le.GpuBudget.Accepted.{IsGranted-IsBalanced}
use model_forensics_value_le.GpuBudget.Bounds.{reserve_gpu_phase_budget-IsBounded}
use model_forensics_value_le.Watchdog.Limits.{
  billionths, RawLimits, WatchdogLimits, global_safe_budget, safe_budget, check_limits,
  watchdog_limits,
}

-- `watchdog_budget_kwargs`; the other limits have their defaults.
unfoldable pub watchdog_budget_kwargs : Receipt → RawLimits
watchdog_budget_kwargs r = record {
  gpu_hard_stop = billionths (r.global_gpu_hard_stop * 1000);
  maximum_runtime = billionths r.maximum_safe_runtime;
  safety_margin = billionths r.safety_margin;
  approved_hourly_total = none;
  approved_storage_hourly = billionths 0;
  prior_committed_gpu = billionths (r.prior_committed_gpu * 1000);
  approved_compute_hourly = none;
}

-- The limits that a receipt stands for.
abbrev limits_of : Receipt → WatchdogLimits
limits_of r = record {
  gpu_hard_stop = r.global_gpu_hard_stop * 1000;
  maximum_runtime = r.maximum_safe_runtime;
  safety_margin = r.safety_margin;
  approved_hourly_total = none;
  approved_storage_hourly = 0;
  prior_committed_gpu = r.prior_committed_gpu * 1000;
  approved_compute_hourly = none;
}

-- What the watchdog makes of a receipt: limits that leave at least the phase maximum, and the safe
-- runtime.
pub record IsHandedOver (r : Receipt) : Type 0 where
  pub limits : WatchdogLimits
  pub accepted : watchdog_limits (watchdog_budget_kwargs r) ≡ ok limits
  pub runtime : limits.maximum_runtime ≡ r.maximum_safe_runtime
  pub budget : r.approved_phase_maximum * 1_000_000_000_000 ≤ safe_budget limits

-- The safe ceiling, as the watchdog computes it.
ceiling_le :
    (stop margin c : ℕ)
    → c ≤ safe_ceiling stop margin
    → c * 1_000_000_000_000 ≤ stop * 1000 * (1_000_000_000 - margin)
unfolding safe_ceiling
ceiling_le stop margin c h =
    let n = stop * (1_000_000_000 - margin) in
    let low = div-mul-le_self n 1_000_000_000 in
    let swap : stop * 1000 * (1_000_000_000 - margin) ≡ n * 1000 =
      mul_right_comm stop 1000 (1_000_000_000 - margin) in
    omega (arith, low, h, swap)

accepted_of :
    (r : Receipt)
    → 0 < r.global_gpu_hard_stop
    → 0 < r.maximum_safe_runtime
    → 0 < r.safety_margin
    → r.safety_margin < 250_000_000
    → r.prior_committed_gpu * 1000 * 1_000_000_000 < global_safe_budget (limits_of r)
    → watchdog_limits (watchdog_budget_kwargs r) ≡ ok (limits_of r)
unfolding watchdog_limits check_limits watchdog_budget_kwargs
accepted_of r stop runtime margin low prior =
    let a : (r.global_gpu_hard_stop * 1000 == 0) ≡ false = ground arith in
    let b : (r.maximum_safe_runtime == 0) ≡ false = ground arith in
    let c : (r.safety_margin == 0) ≡ false = ground arith in
    let d : leb 250_000_000 r.safety_margin ≡ false = ground arith in
    let e : leb (global_safe_budget (limits_of r)) (r.prior_committed_gpu * 1000 * 1_000_000_000)
        ≡ false =
      ground arith in
    rw (a, b, c, d, e)

module _ (limits : BudgetLimits) (q : Checked) (t : ReservationSnapshot) where
  left_over :
      IsBalanced limits q t
      → t.committed_before.gpu * 1_000_000_000_000 + q.phase_maximum * 1_000_000_000_000
        ≤ global_safe_budget (limits_of (receipt_of limits q t))
  unfolding receipt_of global_safe_budget
  left_over b = omega (
    arith,
    b.low,
    b.after,
    ceiling_le limits.gpu_limit q.margin q.ceiling (omega (arith, b.ceiling)),
  )

  receipt_of-IsHandedOver :
      IsBalanced limits q t
      → 0 < (receipt_of limits q t).maximum_safe_runtime
      → IsHandedOver (receipt_of limits q t)
  unfolding safe_budget receipt_of
  receipt_of-IsHandedOver b runs =
      let r = receipt_of limits q t in
      let all = left_over b in
      let stop = safe_ceiling-le limits.gpu_limit q.margin in
      record {
        limits = limits_of r;
        accepted =
            accepted_of r (omega (arith, b, stop)) runs b.margin_pos b.margin_lt
              (omega (arith, all, b.maximum_pos));
        runtime = refl;
        budget = omega (arith, all);
      }

-- A reserved phase is handed over to the watchdog: it accepts the limits that the receipt stands
-- for, its longest runtime is the safe runtime of the receipt, and the budget that it may spend, at
-- the same safety margin and after all earlier commitments, is at least the phase maximum.
pub reserve_gpu_phase_budget-IsHandedOver :
    (yaml : Yaml) (limits : BudgetLimits) (digests : Digests) (now : String) (request : GpuRequest)
    (s s' : Option yaml.Text) (es : List Entry.Entry) (r : Receipt)
    → Loads yaml limits s es
    → reserve_gpu_phase_budget yaml limits digests now request s ≡ (ok r, s')
    → IsHandedOver r
reserve_gpu_phase_budget-IsHandedOver yaml limits digests now request s s' es r loads h =
    let g = reserve_gpu_phase_budget-IsGranted yaml limits digests now request s s' es r loads h in
    let b = IsGranted-IsBalanced yaml limits digests now request es r s' g in
    let runs =
      (reserve_gpu_phase_budget-IsBounded yaml limits digests now request s s' es r loads h).runs in
    subst IsHandedOver g.receipt (
      receipt_of-IsHandedOver limits g.q (snapshot_of es (ledger_entry now g.q)) b
        (subst (λ (r : Receipt). 0 < r.maximum_safe_runtime) (sym g.receipt) runs))
