-- ===== src/GpuBudget/Resume.antt =====
-- The calls of gpu_budget.py on a receipt: `_validated_ledger_entry`,
-- `validate_existing_gpu_phase_reservation`, `validate_gpu_phase_bootstrap` and
-- `settle_gpu_phase_budget`.
use model_forensics_value_le.Prelude.{
  ℕ, ◌+◌, String, Bool, true, false, not, ◌&&◌, Option, some, List, [], ◌∷◌, str_eq, if◌then◌else◌,
}
use model_forensics_value_le.Prelude.Outcome.{Result, ok, err, ◌>>=◌, ◌>>◌, raise_if}
use model_forensics_value_le.Budget.Entry
use model_forensics_value_le.Budget.Entry.{CostEntry, Amount, kind_eq, is_estimated, has_id}
use model_forensics_value_le.Budget.Document.{BudgetLimits, Totals, totals}
use model_forensics_value_le.Budget.Store.{Yaml, load}
use model_forensics_value_le.Budget.Ledger.{settle_reservation}
use model_forensics_value_le.GpuBudget.Receipt.{
  GpuError, phase_differs, session_blank, session_differs, gpu_stop_differs, total_stop_differs,
  not_exactly_one, content_differs, amount_differs, total_drifted, already_settled, runtime_differs,
  rate_differs, negative_incurred, Digests, Receipt, reservation_description, apart,
  validate_receipt_invariants,
}
use model_forensics_value_le.GpuBudget.Reserve.{Quantity, positive_finite, from_ledger}

-- `[entry for entry in document["entries"] if entry.get("entry_id") == reservation_id]`
unfoldable pub with_entry_id : String → List Entry.Entry → List Entry.Entry
with_entry_id i [] = []
with_entry_id i (e ∷ es) = let rest = with_entry_id i es in if has_id i e then e ∷ rest else rest

abbrev pub only_one : List Entry.Entry → Result GpuError Entry.Entry
only_one [] = err not_exactly_one
only_one (e ∷ []) = ok e
only_one (e ∷ f ∷ es) = err not_exactly_one

-- The tests on the entry of the reservation, with the committed GPU total of its document.
unfoldable pub check_entry : Receipt → Bool → Entry.Entry → ℕ → Result GpuError (Unit {0})
check_entry r require_active e committed_gpu = do
  raise_if
      (not (
        kind_eq e.kind Entry.gpu
        && str_eq e.description (reservation_description r.phase r.session_hash)))
      content_differs
  raise_if (is_estimated e.status && apart 1 e.amount r.approved_phase_maximum) amount_differs
  raise_if (is_estimated e.status && apart 1 committed_gpu r.committed_gpu_after) total_drifted
  raise_if (require_active && not (is_estimated e.status)) already_settled

-- The hard stops of the ledger are those of the receipt.
unfoldable pub check_stops : BudgetLimits → Receipt → Result GpuError (Unit {0})
check_stops limits r = do
  raise_if (apart 1 limits.gpu_limit r.global_gpu_hard_stop) gpu_stop_differs
  raise_if (apart 1 limits.total_limit (r.prior_committed_total + r.remaining_total))
      total_stop_differs

-- `_validated_ledger_entry` on the entries of the ledger.
unfoldable pub entry_in_ledger : Receipt → Bool → List Entry.Entry → Result GpuError Entry.Entry
entry_in_ledger r require_active es = do
  e ← only_one (with_entry_id r.reservation_id es)
  check_entry r require_active e (totals true es).gpu
  ok e

-- An incurred cost that is no number, or negative.
abbrev pub is_bad : Amount → Bool
is_bad (Entry.micros n) = false
is_bad (Entry.numeral_text n) = false
is_bad Entry.negative = true
is_bad Entry.nonfinite = true
is_bad Entry.boolean = true
is_bad Entry.not_number = true

module _ (yaml : Yaml) (limits : BudgetLimits) (digests : Digests) where
  -- `_validated_ledger_entry`
  unfoldable pub validated_ledger_entry :
      Receipt → Bool → Option yaml.Text → Result GpuError Entry.Entry
  validated_ledger_entry r require_active s = do
    check_stops limits r
    es ← from_ledger (load yaml limits s).0
    entry_in_ledger r require_active es

  -- `validate_existing_gpu_phase_reservation`
  unfoldable pub validate_existing :
      Receipt → String → String → Bool → Option yaml.Text → Result GpuError Entry.Entry
  validate_existing r phase session_id require_active s = do
    validate_receipt_invariants digests r
    raise_if (not (str_eq phase r.phase)) phase_differs
    raise_if (str_eq session_id "") session_blank
    raise_if (not (str_eq (digests.session session_id) r.session_hash)) session_differs
    validated_ledger_entry r require_active s

  -- `validate_gpu_phase_bootstrap`, less the payload that it returns.
  unfoldable pub validate_bootstrap :
      Receipt
      → String
      → String
      → Quantity
      → Quantity
      → Option yaml.Text
      → Result GpuError (Unit {0})
  validate_bootstrap r phase session_id expected_runtime expected_rate s = do
    runtime ← positive_finite expected_runtime
    rate ← positive_finite expected_rate
    _ ← validate_existing r phase session_id true s
    raise_if (apart 1 r.approved_maximum_runtime runtime) runtime_differs
    raise_if (apart 1 r.live_hourly_total rate) rate_differs

  -- `GpuPhaseBudgetReservation.settlement_entry`; the ledger reads the amount in millionths.
  unfoldable pub settlement_entry : Receipt → Amount → Result GpuError CostEntry
  settlement_entry r incurred = do
    raise_if (is_bad incurred) negative_incurred
    ok (record {
      kind = some Entry.gpu;
      amount_usd = incurred;
      description = some (reservation_description r.phase r.session_hash);
      status = some Entry.incurred;
      occurred_at = Entry.empty;
    })

  -- `settle_gpu_phase_budget`: its result, and the file as it leaves it.
  unfoldable pub settle_gpu_phase_budget :
      String → Receipt → Amount → Option yaml.Text → Result GpuError Totals × Option yaml.Text
  settle_gpu_phase_budget now r incurred s =
      elim (validate_receipt_invariants digests r >>= λ _.
      validated_ledger_entry r false s >>= λ _. settlement_entry r incurred) [
        | err e ↦ (err e, s)
        | ok c ↦
            let (t, s') = settle_reservation yaml limits now r.reservation_id c s in
            (from_ledger t, s')
      ]
