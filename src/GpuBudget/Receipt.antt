-- ===== src/GpuBudget/Receipt.antt =====
-- The receipt of a GPU reservation, gpu_budget.py, and `_validate_receipt_invariants`. Money is in
-- millionths of a dollar, a duration in billionths of an hour, a rate in billionths of a dollar an
-- hour and the safety margin in billionths. The tolerances of the code are one such unit.
use model_forensics_value_le.Prelude.{
  ℕ, ◌+◌, ◌-◌, ◌*◌, ◌/◌, ◌≡◌, String, Bool, true, not, ◌||◌, ltb, leb, ◌==◌, str_eq, if◌then◌else◌,
}
use model_forensics_value_le.Prelude.Outcome.{Result, ◌>>=◌, ◌>>◌, raise_if}
use model_forensics_value_le.Prelude.Text.{codes}
use model_forensics_value_le.Budget.Entry
use model_forensics_value_le.Prelude.Digest.{hash_matches}
use model_forensics_value_le.GpuBudget.Texts.{phase_matches, joined}

-- Each `raise` of the module, and the errors of the ledger.
pub data GpuError : Type 0 where
  bad_phase bad_session not_positive not_a_number bad_margin : GpuError
  exceeds_ceiling no_runtime negative_incurred : GpuError
  phase_invalid session_hash_invalid identity_inconsistent not_positive_field : GpuError
  margin_invalid ceiling_inconsistent prior_inconsistent remaining_inconsistent : GpuError
  committed_inconsistent over_ceiling total_inconsistent over_total runtime_inconsistent : GpuError
  phase_differs session_blank session_differs : GpuError
  gpu_stop_differs total_stop_differs not_exactly_one content_differs amount_differs : GpuError
  total_drifted already_settled runtime_differs rate_differs : GpuError
  ledger_error : Entry.Error → GpuError

-- `stable_hash` of the two payloads that the module hashes.
pub record Digests : Type 0 where
  pub session : String → String
  pub reservation : String → String → String
  pub session_hex : (s : String) → hash_matches (codes (session s)) ≡ true

-- `GpuPhaseBudgetReservation`
pub record Receipt : Type 0 where
  pub reservation_id : String
  pub phase : String
  pub session_hash : String
  pub approved_phase_maximum : ℕ
  pub approved_maximum_runtime : ℕ
  pub live_hourly_total : ℕ
  pub safety_margin : ℕ
  pub global_gpu_hard_stop : ℕ
  pub safety_adjusted_ceiling : ℕ
  pub prior_incurred_gpu : ℕ
  pub prior_reserved_gpu : ℕ
  pub prior_committed_gpu : ℕ
  pub prior_committed_total : ℕ
  pub remaining_safe_gpu : ℕ
  pub remaining_total : ℕ
  pub maximum_safe_runtime : ℕ
  pub committed_gpu_after : ℕ
  pub committed_total_after : ℕ

-- `_reservation_description`
abbrev pub reservation_description : String → String → String
reservation_description phase session_hash =
    joined "GPU phase " (joined phase (joined " session " session_hash))

-- `_floor_usd(hard_stop * (1 - margin))`
unfoldable pub safe_ceiling : ℕ → ℕ → ℕ
safe_ceiling hard_stop margin = hard_stop * (1_000_000_000 - margin) / 1_000_000_000

-- `abs(a - b) > tolerance`
unfoldable pub apart : ℕ → ℕ → ℕ → Bool
apart tolerance a b = ltb tolerance (a - b) || ltb tolerance (b - a)

abbrev pub min2 : ℕ → ℕ → ℕ
min2 a b = if leb a b then a else b

-- `min(approved, spend / rate)`: a millionth of a dollar, over a billionth an hour, is a thousand
-- hours.
unfoldable pub safe_runtime : ℕ → ℕ → ℕ → ℕ
safe_runtime approved spend rate = min2 approved (spend * 1_000_000_000_000 / rate)

-- The fields that must be positive.
unfoldable pub some_not_positive : Receipt → Bool
some_not_positive r =
    r.approved_phase_maximum == 0
    || (r.approved_maximum_runtime == 0
        || (r.live_hourly_total == 0
            || (r.safety_margin == 0
                || (r.global_gpu_hard_stop == 0
                    || (r.safety_adjusted_ceiling == 0
                        || (r.remaining_safe_gpu == 0
                            || (r.remaining_total == 0
                                || (r.maximum_safe_runtime == 0
                                    || (r.committed_gpu_after == 0
                                        || r.committed_total_after == 0)))))))))

-- The tests on the identity of a receipt.
unfoldable pub check_identity : Digests → Receipt → Result GpuError (Unit {0})
check_identity digests r = do
  raise_if (not (phase_matches (codes r.phase))) phase_invalid
  raise_if (not (hash_matches (codes r.session_hash))) session_hash_invalid
  raise_if (not (str_eq r.reservation_id (digests.reservation r.phase r.session_hash)))
      identity_inconsistent

-- The tests on its accounts; a difference is compared with the terms on the sides where they are
-- added.
unfoldable pub check_accounts : Receipt → Result GpuError (Unit {0})
check_accounts r = do
  raise_if (some_not_positive r) not_positive_field
  raise_if (leb 250_000_000 r.safety_margin) margin_invalid
  raise_if (apart 1 r.safety_adjusted_ceiling (safe_ceiling r.global_gpu_hard_stop r.safety_margin))
      ceiling_inconsistent
  raise_if (apart 1 (r.prior_reserved_gpu + r.prior_incurred_gpu) r.prior_committed_gpu)
      prior_inconsistent
  raise_if
      (apart 1 (r.remaining_safe_gpu + r.prior_committed_gpu)
        (safe_ceiling r.global_gpu_hard_stop r.safety_margin))
      remaining_inconsistent
  raise_if (apart 1 r.committed_gpu_after (r.prior_committed_gpu + r.approved_phase_maximum))
      committed_inconsistent
  raise_if (ltb (r.safety_adjusted_ceiling + 1) r.committed_gpu_after) over_ceiling
  raise_if (apart 1 r.committed_total_after (r.prior_committed_total + r.approved_phase_maximum))
      total_inconsistent
  raise_if (ltb (r.prior_committed_total + r.remaining_total + 1) r.committed_total_after)
      over_total
  raise_if
      (apart 1 r.maximum_safe_runtime (
        safe_runtime r.approved_maximum_runtime
          (min2 (min2 r.approved_phase_maximum r.remaining_safe_gpu) r.remaining_total)
          r.live_hourly_total))
      runtime_inconsistent

-- `_validate_receipt_invariants`
unfoldable pub validate_receipt_invariants : Digests → Receipt → Result GpuError (Unit {0})
validate_receipt_invariants digests r = check_identity digests r >>= λ _. check_accounts r
