-- ===== src/GpuBudget/Balanced.antt =====
-- The accounts of a receipt that gpu_budget.py issues pass `_validate_receipt_invariants`.
use model_forensics_value_le.Prelude.{ℕ, ◌+◌, ◌-◌, ◌≤◌, ◌<◌, ◌≡◌, false, arith, ltb, leb, ◌==◌}
use native.Mathlib.Nat.{mul-le-mul_left}
use model_forensics_value_le.Prelude.Outcome.{ok}
use model_forensics_value_le.Budget.Document.{BudgetLimits}
use model_forensics_value_le.Budget.Ledger.{ReservationSnapshot}
use model_forensics_value_le.GpuBudget.Receipt.{
  Receipt, safe_ceiling, safe_runtime, apart, min2, some_not_positive, check_accounts,
}
use model_forensics_value_le.GpuBudget.Reserve.{Checked, receipt_of}

pub apart_near : (a b : ℕ) → a ≤ b + 1 → b ≤ a + 1 → apart 1 a b ≡ false
unfolding apart
apart_near a b h k = ground arith

pub safe_ceiling-le : (g m : ℕ) → safe_ceiling g m ≤ g
unfolding safe_ceiling
safe_ceiling-le g m =
    omega (arith, mul-le-mul_left {m = 1_000_000_000 - m} {n = 1_000_000_000} g (omega arith))

-- The tests on the accounts, one by one.
check_accounts_of_tests :
    (r : Receipt)
    → some_not_positive r ≡ false
    → leb 250_000_000 r.safety_margin ≡ false
    → apart 1 r.safety_adjusted_ceiling (safe_ceiling r.global_gpu_hard_stop r.safety_margin)
      ≡ false
    → apart 1 (r.prior_reserved_gpu + r.prior_incurred_gpu) r.prior_committed_gpu ≡ false
    → apart 1
        (r.remaining_safe_gpu + r.prior_committed_gpu)
        (safe_ceiling r.global_gpu_hard_stop r.safety_margin)
      ≡ false
    → apart 1 r.committed_gpu_after (r.prior_committed_gpu + r.approved_phase_maximum) ≡ false
    → ltb (r.safety_adjusted_ceiling + 1) r.committed_gpu_after ≡ false
    → apart 1 r.committed_total_after (r.prior_committed_total + r.approved_phase_maximum) ≡ false
    → ltb (r.prior_committed_total + r.remaining_total + 1) r.committed_total_after ≡ false
    → apart 1 r.maximum_safe_runtime (
        safe_runtime r.approved_maximum_runtime
          (min2 (min2 r.approved_phase_maximum r.remaining_safe_gpu) r.remaining_total)
          r.live_hourly_total)
      ≡ false
    → check_accounts r ≡ ok tt
unfolding check_accounts
check_accounts_of_tests r a b c d e f g h i j = rw (a, b, c, d, e, f, g, h, i, j)

-- A receipt whose accounts agree exactly.
pub record IsBalanced (limits : BudgetLimits) (q : Checked) (t : ReservationSnapshot) : Type 0 where
  pub ceiling : q.ceiling ≡ safe_ceiling limits.gpu_limit q.margin
  pub prior : t.incurred_before.gpu ≤ t.committed_before.gpu
  pub after : t.committed_after.gpu ≡ t.committed_before.gpu + q.phase_maximum
  pub low : t.committed_after.gpu ≤ q.ceiling
  pub total_after : t.committed_after.total ≡ t.committed_before.total + q.phase_maximum
  pub total_low : t.committed_after.total ≤ limits.total_limit
  pub maximum_pos : 0 < q.phase_maximum
  pub runtime_pos : 0 < q.runtime
  pub rate_pos : 0 < q.rate
  pub margin_pos : 0 < q.margin
  pub margin_lt : q.margin < 250_000_000
  pub runs : ((receipt_of limits q t).maximum_safe_runtime == 0) ≡ false

nonzero : (n : ℕ) → 0 < n → (n == 0) ≡ false
nonzero n h = ground arith

some_not_positive_of :
    (r : Receipt)
    → 0 < r.approved_phase_maximum
    → 0 < r.approved_maximum_runtime
    → 0 < r.live_hourly_total
    → 0 < r.safety_margin
    → 0 < r.global_gpu_hard_stop
    → 0 < r.safety_adjusted_ceiling
    → 0 < r.remaining_safe_gpu
    → 0 < r.remaining_total
    → (r.maximum_safe_runtime == 0) ≡ false
    → 0 < r.committed_gpu_after
    → 0 < r.committed_total_after
    → some_not_positive r ≡ false
unfolding some_not_positive
some_not_positive_of r a b c d e f g h i j k = rw (
  nonzero r.approved_phase_maximum a,
  nonzero r.approved_maximum_runtime b,
  nonzero r.live_hourly_total c,
  nonzero r.safety_margin d,
  nonzero r.global_gpu_hard_stop e,
  nonzero r.safety_adjusted_ceiling f,
  nonzero r.remaining_safe_gpu g,
  nonzero r.remaining_total h,
  i,
  nonzero r.committed_gpu_after j,
  nonzero r.committed_total_after k,
)

pub IsBalanced-check_accounts :
    (limits : BudgetLimits) (q : Checked) (t : ReservationSnapshot)
    → IsBalanced limits q t
    → check_accounts (receipt_of limits q t) ≡ ok tt
unfolding receipt_of
IsBalanced-check_accounts limits q t b =
    let stop = safe_ceiling-le limits.gpu_limit q.margin in
    check_accounts_of_tests (receipt_of limits q t)
      (some_not_positive_of (receipt_of limits q t) b.maximum_pos b.runtime_pos b.rate_pos
        b.margin_pos (omega (arith, b, stop)) (omega (arith, b)) (omega (arith, b))
        (omega (arith, b)) b.runs (omega (arith, b)) (omega (arith, b)))
      (ground (arith, b.margin_lt))
      (apart_near q.ceiling (safe_ceiling limits.gpu_limit q.margin) (omega (arith, b))
        (omega (arith, b)))
      (apart_near (t.committed_before.gpu - t.incurred_before.gpu + t.incurred_before.gpu)
        t.committed_before.gpu (omega (arith, b)) (omega (arith, b)))
      (apart_near (q.ceiling - t.committed_before.gpu + t.committed_before.gpu)
        (safe_ceiling limits.gpu_limit q.margin) (omega (arith, b)) (omega (arith, b)))
      (apart_near t.committed_after.gpu (t.committed_before.gpu + q.phase_maximum)
        (omega (arith, b)) (omega (arith, b)))
      (ground (arith, b.low))
      (apart_near t.committed_after.total (t.committed_before.total + q.phase_maximum)
        (omega (arith, b)) (omega (arith, b)))
      (ground (arith, b.total_low))
      (apart_near (receipt_of limits q t).maximum_safe_runtime
        (receipt_of limits q t).maximum_safe_runtime (omega arith) (omega arith))
