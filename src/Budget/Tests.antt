-- ===== src/Budget/Tests.antt =====
-- The ledger of budget.py on small files, and its theorems at them.
use model_forensics_value_le.Prelude.{
  ◌+◌, ◌≤◌, String, ◌≡◌, refl, true, false, none, some, Option, List, [], ◌∷◌, arith,
}
use model_forensics_value_le.Prelude.Outcome.{ok, err}
use model_forensics_value_le.Prelude.Text.{has_visible}
use model_forensics_value_le.Budget.Entry.{
  gpu, api, estimated, incurred, micros, negative, empty, CostEntry, Entry, Error, normalized,
  bad_cost,
}
use model_forensics_value_le.Budget.Document.{
  BudgetLimits, RawDocument, document, totals, sum_entries, contains_id, load_document,
  checked_items, checked_entries, ids_repeat, assert_limits, limits_eq, raw_entry,
}
use model_forensics_value_le.Budget.Ceilings.{kind_total, read_ceilings, assert_ceilings}
use model_forensics_value_le.Budget.Store.{Yaml, ledger_document}
use model_forensics_value_le.Budget.Ledger.{
  find_id, replace_id, with_id, reserve, reserve_new, reserve_once, commit_once, outstanding,
  settle_reservation, settle_estimate,
}
use model_forensics_value_le.Budget.Totals.{Fits}
use model_forensics_value_le.Budget.Valid.{load_document-written}
use model_forensics_value_le.Budget.Calls.Frame.{Loads}
use model_forensics_value_le.Budget.History.{
  Request, reserve_entry, settle_entry, reserve_entry_once, run,
}
use model_forensics_value_le.Budget.Safety.{
  run-Fits, run-find_id_incurred, run-totals_incurred, run-reserve_once_used,
}
use model_forensics_value_le.Budget.Repeats.{reserve_twice}
use model_forensics_value_le.Budget.Settlement.{settle_reservation-estimate}

-- A reader and writer that keep the plain data.
abbrev plain_yaml : Yaml
plain_yaml = record {
  Text = RawDocument;
  safe_load = document;
  safe_dump = λ d. d;
  load-dump = λ d. refl;
}

abbrev usual : BudgetLimits
usual = record { gpu_limit = 220_000_000; api_limit = 100_000_000; total_limit = 325_000_000 }

abbrev no_hash : List Entry → String
no_hash es = "sha256:"

abbrev phase : CostEntry
phase = record {
  kind = some gpu;
  amount_usd = micros 40_000_000;
  description = some "GPU phase smoke";
  status = some estimated;
  occurred_at = empty;
}

abbrev invoice : CostEntry
invoice = record phase { amount_usd = micros 31_500_000; status = some incurred }

abbrev noon : String
noon = "2026-01-01T12:00:00+00:00"

abbrev due : Entry
due = record {
  kind = gpu;
  amount = 40_000_000;
  description = "GPU phase smoke";
  status = estimated;
  occurred_at = noon;
  entry_id = some "smoke";
}

abbrev paid : Entry
paid = record due { amount = 31_500_000; status = incurred }

abbrev history : List (String × Request)
history =
    (noon, reserve_entry_once "smoke" phase ((some (kind_total gpu), micros 213_400_000) ∷ []) true)
    ∷ (noon, reserve_entry_once "full" phase [] true)
    ∷ (noon, settle_entry "smoke" invoice)
    ∷ (noon, reserve_entry "judge" (record phase { kind = some api }))
    ∷ []

abbrev paid_file : Option RawDocument
paid_file = some (ledger_document usual (paid ∷ []))

abbrev due_file : Option RawDocument
due_file = some (ledger_document usual (due ∷ []))

paid-Loads : Loads plain_yaml usual paid_file (paid ∷ [])
unfolding load_document checked_items checked_entries ids_repeat assert_limits totals sum_entries
    limits_eq raw_entry
paid-Loads = refl

due-Loads : Loads plain_yaml usual due_file (due ∷ [])
unfolding load_document checked_items checked_entries ids_repeat assert_limits totals sum_entries
    limits_eq raw_entry
due-Loads = refl

-- The settled reservation is refused a second time, and the first one while it is due.
run-history :
    run plain_yaml usual no_hash history none
    ≡ some (ledger_document usual (paid ∷ record due { kind = api; entry_id = some "judge" } ∷ []))
unfolding run reserve_once commit_once read_ceilings assert_ceilings outstanding settle_reservation
    settle_estimate replace_id reserve reserve_new normalized find_id load_document checked_items
    checked_entries ids_repeat assert_limits totals sum_entries limits_eq contains_id raw_entry
run-history = refl

negative_cost : normalized noon (record phase { amount_usd = negative }) ≡ err bad_cost
unfolding normalized
negative_cost = refl

load_document-written_example :
    load_document usual (some (document (ledger_document usual (paid ∷ [])))) ≡ ok (paid ∷ [])
unfolding ids_repeat totals sum_entries has_visible
load_document-written_example = load_document-written usual (paid ∷ []) (record {
  well_formed = (record { described = refl; identified = refl }, tt);
  distinct = refl;
  within = omega arith;
})

run-Fits_example :
    (fs : List Entry) × Loads plain_yaml usual (run plain_yaml usual no_hash history none) fs
    × Fits usual (totals true fs)
unfolding load_document
run-Fits_example = run-Fits plain_yaml usual no_hash history none [] refl

run-find_id_incurred_example :
    (fs : List Entry) × Loads plain_yaml usual (run plain_yaml usual no_hash history paid_file) fs
    × (find_id "smoke" fs ≡ some paid)
unfolding find_id
run-find_id_incurred_example =
    run-find_id_incurred plain_yaml usual no_hash history paid_file (paid ∷ []) paid-Loads "smoke"
      paid refl refl

run-totals_incurred_example :
    (fs : List Entry) × Loads plain_yaml usual (run plain_yaml usual no_hash history paid_file) fs
    × ((totals false (paid ∷ [])).gpu ≤ (totals false fs).gpu)
    × ((totals false (paid ∷ [])).api ≤ (totals false fs).api)
    × ((totals false (paid ∷ [])).storage ≤ (totals false fs).storage)
    × ((totals false (paid ∷ [])).other ≤ (totals false fs).other)
    × ((totals false (paid ∷ [])).total ≤ (totals false fs).total)
run-totals_incurred_example =
    run-totals_incurred plain_yaml usual no_hash history paid_file (paid ∷ []) paid-Loads

run-reserve_once_used_example :
    let s' = run plain_yaml usual no_hash history paid_file in
    (x : Error) × (reserve_once plain_yaml usual noon "smoke" phase [] true s' ≡ (err x, s'))
unfolding contains_id
run-reserve_once_used_example =
    run-reserve_once_used plain_yaml usual no_hash history paid_file (paid ∷ []) paid-Loads "smoke"
      noon phase [] true refl

reserve_twice_example :
    reserve plain_yaml usual "later" "smoke" phase due_file
    ≡ (ok (totals true (due ∷ [])), due_file)
unfolding reserve reserve_new normalized load_document find_id raw_entry sum_entries totals
    assert_limits
reserve_twice_example =
    reserve_twice plain_yaml usual noon "later" none due_file [] "smoke" phase
      (totals true (due ∷ [])) refl refl

settle_reservation-estimate_example :
    (e : Entry) × (normalized noon invoice ≡ ok e)
    × (e.kind ≡ due.kind)
    × (e.status ≡ incurred)
    × Loads plain_yaml usual paid_file (replace_id "smoke" (with_id "smoke" e) (due ∷ []))
    × (totals false (paid ∷ []) ≡ totals false (replace_id "smoke" (with_id "smoke" e) (due ∷ [])))
    × ((totals true (replace_id "smoke" (with_id "smoke" e) (due ∷ []))).total + due.amount
        ≡ (totals true (due ∷ [])).total + e.amount)
    × ((totals false (replace_id "smoke" (with_id "smoke" e) (due ∷ []))).total
        ≡ (totals false (due ∷ [])).total + e.amount)
unfolding settle_reservation settle_estimate find_id replace_id normalized load_document
    checked_items checked_entries ids_repeat assert_limits totals sum_entries limits_eq raw_entry
settle_reservation-estimate_example =
    settle_reservation-estimate plain_yaml usual noon due_file paid_file (due ∷ []) "smoke" invoice
      (totals false (paid ∷ [])) due due-Loads refl refl refl
