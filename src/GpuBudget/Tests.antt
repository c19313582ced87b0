-- ===== src/GpuBudget/Tests.antt =====
-- gpu_budget.py on small files, and its theorems at them.
use model_forensics_value_le.Prelude.{
  ◌≡◌, refl, String, true, false, some, none, Option, List, [], ◌∷◌,
}
use model_forensics_value_le.Prelude.Outcome.{ok, err}
use model_forensics_value_le.Prelude.Text.{codes, has_visible, is_space}
use model_forensics_value_le.Budget.Entry
use model_forensics_value_le.Budget.Entry.{normalized}
use model_forensics_value_le.Budget.Document.{
  BudgetLimits, RawDocument, document, totals, sum_entries, load_document, checked_items,
  checked_entries, ids_repeat, assert_limits, limits_eq, raw_entry,
}
use model_forensics_value_le.Budget.Ceilings.{read_ceilings, assert_ceilings}
use model_forensics_value_le.Budget.Store.{Yaml, ledger_document}
use model_forensics_value_le.Budget.Ledger.{
  find_id, replace_id, reserve_once, commit_once, outstanding, settle_reservation, settle_estimate,
}
use model_forensics_value_le.Budget.Calls.Frame.{Loads}
use model_forensics_value_le.Budget.History.{Request, settle_entry, run}
use model_forensics_value_le.Prelude.Digest.{all_codes, is_hex, match_prefix, hash_matches}
use model_forensics_value_le.GpuBudget.Texts.{
  joined, is_alnum, is_phase_code, phase_matches, is_session_id, first_is_space, last_is_space,
}
use model_forensics_value_le.GpuBudget.Receipt.{
  GpuError, Digests, Receipt, safe_ceiling, safe_runtime, reservation_description,
  validate_receipt_invariants, check_identity, check_accounts, some_not_positive, apart,
}
use model_forensics_value_le.GpuBudget.Reserve.{
  GpuRequest, billionths, positive_finite, ceil_usd, checked_phase, checked_session, checked_margin,
  checked_request, phase_entry, receipt_of, issue_receipt, reserve_checked,
  reserve_gpu_phase_budget,
}
use model_forensics_value_le.GpuBudget.Resume.{
  validate_existing, settle_gpu_phase_budget, validated_ledger_entry, check_stops, entry_in_ledger,
  with_entry_id, check_entry, settlement_entry,
}
use model_forensics_value_le.Watchdog.Handover.{IsHandedOver, reserve_gpu_phase_budget-IsHandedOver}
use model_forensics_value_le.GpuBudget.Accepted.{validate_existing-reserve}
use model_forensics_value_le.GpuBudget.Bounds.{IsBounded, reserve_gpu_phase_budget-IsBounded}
use model_forensics_value_le.GpuBudget.Refused.{reserve_gpu_phase_budget-again}
use model_forensics_value_le.GpuBudget.Settled.{IsSettled, settle_gpu_phase_budget-IsSettled}

abbrev plain_yaml : Yaml
plain_yaml = record {
  Text = RawDocument;
  safe_load = document;
  safe_dump = λ d. d;
  load-dump = λ d. refl;
}

abbrev stops : BudgetLimits
stops = record { gpu_limit = 220_000_000; api_limit = 100_000_000; total_limit = 325_000_000 }

abbrev session_digest : String
session_digest = "sha256:0123456789abcdef0123456789abcdef0123456789abcdef0123456789abcdef"

session_hex : hash_matches (codes session_digest) ≡ true
unfolding hash_matches match_prefix all_codes is_hex
session_hex = refl

abbrev digests : Digests
digests = record {
  session = λ s. session_digest;
  reservation = λ phase session. joined phase session;
  session_hex = λ s. session_hex;
}

abbrev noon : String
noon = "2026-01-01T12:00:00+00:00"

-- At most 40 dollars for 4 hours, at 2 dollars an hour.
abbrev smoke : GpuRequest
smoke = record {
  phase = some "smoke";
  session_id = some "session-1";
  approved_phase_maximum = billionths 40_000_000_000;
  approved_maximum_runtime = billionths 4_000_000_000;
  live_hourly_total = billionths 2_000_000_000;
  safety_margin = billionths 30_000_000;
}

abbrev smoke_receipt : Receipt
smoke_receipt = record {
  reservation_id = joined "smoke" session_digest;
  phase = "smoke";
  session_hash = session_digest;
  approved_phase_maximum = 40_000_000;
  approved_maximum_runtime = 4_000_000_000;
  live_hourly_total = 2_000_000_000;
  safety_margin = 30_000_000;
  global_gpu_hard_stop = 220_000_000;
  safety_adjusted_ceiling = 213_400_000;
  prior_incurred_gpu = 0;
  prior_reserved_gpu = 0;
  prior_committed_gpu = 0;
  prior_committed_total = 0;
  remaining_safe_gpu = 213_400_000;
  remaining_total = 325_000_000;
  maximum_safe_runtime = 4_000_000_000;
  committed_gpu_after = 40_000_000;
  committed_total_after = 40_000_000;
}

abbrev due : Entry.Entry
due = record {
  kind = Entry.gpu;
  amount = 40_000_000;
  description = reservation_description "smoke" session_digest;
  status = Entry.estimated;
  occurred_at = noon;
  entry_id = some (joined "smoke" session_digest);
}

abbrev paid : Entry.Entry
paid = record due { amount = 31_500_000; status = Entry.incurred }

abbrev due_file : Option RawDocument
due_file = some (ledger_document stops (due ∷ []))

abbrev paid_file : Option RawDocument
paid_file = some (ledger_document stops (paid ∷ []))

reserve_smoke :
    reserve_gpu_phase_budget plain_yaml stops digests noon smoke none ≡ (ok smoke_receipt, due_file)
unfolding reserve_gpu_phase_budget checked_request checked_phase phase_matches is_alnum
    is_phase_code all_codes checked_session is_session_id has_visible is_space first_is_space
    last_is_space positive_finite checked_margin ceil_usd safe_ceiling reserve_checked phase_entry
    reserve_once read_ceilings normalized load_document outstanding commit_once assert_limits
    assert_ceilings totals sum_entries issue_receipt receipt_of safe_runtime
reserve_smoke = refl

due-Loads : Loads plain_yaml stops due_file (due ∷ [])
unfolding load_document checked_items checked_entries ids_repeat assert_limits totals sum_entries
    limits_eq raw_entry has_visible is_space
due-Loads = refl

settle_smoke :
    settle_gpu_phase_budget plain_yaml stops digests noon smoke_receipt
      (Entry.micros 31_500_000)
      due_file
    ≡ (ok (totals false (paid ∷ [])), paid_file)
unfolding settle_gpu_phase_budget validate_receipt_invariants check_identity phase_matches is_alnum
    is_phase_code all_codes hash_matches match_prefix is_hex check_accounts some_not_positive apart
    safe_ceiling safe_runtime validated_ledger_entry check_stops load_document checked_items
    checked_entries ids_repeat assert_limits totals sum_entries limits_eq raw_entry has_visible
    is_space entry_in_ledger with_entry_id check_entry settlement_entry settle_reservation find_id
    normalized settle_estimate replace_id
settle_smoke = refl

-- Settled, and asked for again.
abbrev settlement : List (String × Request)
settlement =
    (
      noon,
      settle_entry (joined "smoke" session_digest) (record {
        kind = some Entry.gpu;
        amount_usd = Entry.micros 31_500_000;
        description = some (reservation_description "smoke" session_digest);
        status = some Entry.incurred;
        occurred_at = Entry.empty;
      }),
    )
    ∷ []

abbrev no_hash : List Entry.Entry → String
no_hash es = "sha256:"

validate_existing-reserve_example :
    (e : Entry.Entry) × (validate_existing plain_yaml stops digests smoke_receipt "smoke"
        "session-1" true due_file
      ≡ ok e)
    × (e.entry_id ≡ some smoke_receipt.reservation_id)
    × (e.status ≡ Entry.estimated)
    × (e.amount ≡ smoke_receipt.approved_phase_maximum)
unfolding load_document
validate_existing-reserve_example =
    validate_existing-reserve plain_yaml stops digests noon smoke none due_file [] smoke_receipt
      "smoke" "session-1" refl refl refl reserve_smoke

reserve_gpu_phase_budget-IsBounded_example : IsBounded stops smoke_receipt
unfolding load_document
reserve_gpu_phase_budget-IsBounded_example =
    reserve_gpu_phase_budget-IsBounded plain_yaml stops digests noon smoke none due_file []
      smoke_receipt refl reserve_smoke

reserve_gpu_phase_budget-again_example :
    let after = run plain_yaml stops no_hash settlement due_file in
    (x : GpuError) × (reserve_gpu_phase_budget plain_yaml stops digests "later" smoke after
      ≡ (err x, after))
unfolding load_document
reserve_gpu_phase_budget-again_example =
    reserve_gpu_phase_budget-again plain_yaml stops digests no_hash noon "later" smoke smoke
      settlement none due_file [] smoke_receipt refl reserve_smoke refl refl

settle_gpu_phase_budget-IsSettled_example :
    IsSettled plain_yaml stops digests smoke_receipt 31_500_000 paid_file
settle_gpu_phase_budget-IsSettled_example =
    settle_gpu_phase_budget-IsSettled plain_yaml stops digests noon smoke_receipt 31_500_000
      due_file paid_file (due ∷ []) (totals false (paid ∷ [])) due-Loads settle_smoke

reserve_gpu_phase_budget-IsHandedOver_example : IsHandedOver smoke_receipt
unfolding load_document
reserve_gpu_phase_budget-IsHandedOver_example =
    reserve_gpu_phase_budget-IsHandedOver plain_yaml stops digests noon smoke none due_file []
      smoke_receipt refl reserve_smoke
