-- ===== src/Budget/Batch.antt =====
-- The loops of `CostLedger.reserve_batch` (budget.py), which plan what is to be written.
use model_forensics_value_le.Prelude.{
  String, Bool, true, false, not, ◌||◌, none, some, List, [], ◌∷◌, ◌++◌, any, if◌then◌else◌, str_eq,
}
use model_forensics_value_le.Prelude.Outcome.{Result, ok, err, ◌>>=◌, ◌>>◌, raise_if}
use model_forensics_value_le.Budget.Entry.{
  kind_eq, estimated, is_estimated, Error, bad_entry_id, not_estimated, settled_kind_differs,
  content_differs, batch_content_differs, required_ids_repeat, unmatched_response,
  checkpoint_absent, CostEntry, Entry, normalized, same_entry_content, is_id,
}
use model_forensics_value_le.Budget.Ledger.{has_status, find_id, with_id}

-- One round of the first loop, on `normalized_by_id` in the order of `ordered_ids`.
unfoldable pub add_normalized : String → Entry → List Entry → Result Error (List Entry)
add_normalized i e known = elim (find_id i known) [
  | none ↦ ok (known ++ with_id i e ∷ [])
  | some previous ↦
      if same_entry_content previous (with_id i e) then ok known else err batch_content_differs
]

-- The first loop.
unfoldable pub normalize_all :
    String → List (String × CostEntry) → List Entry → Result Error (List Entry)
normalize_all now [] known = ok known
normalize_all now ((i, entry) ∷ more) known = do
  raise_if (not (is_id i)) bad_entry_id
  raise_if (not (has_status estimated entry.status)) not_estimated
  e ← normalized now entry
  known' ← add_normalized i e known
  normalize_all now more known'

-- `len(ids) != len(set(ids))`
unfoldable pub repeats : List String → Bool
repeats [] = false
repeats (i ∷ is) = any (λ j. str_eq j i) is || repeats is

-- `entry_id in entries_by_id`
unfoldable pub known_id : List Entry → String → Bool
known_id es i = elim (find_id i es) [ none ↦ false | some e ↦ true ]

-- `entries_by_id.get(entry_id, {}).get("status") == "incurred"`
unfoldable pub incurred_id : List Entry → String → Bool
incurred_id es i = elim (find_id i es) [ none ↦ false | some e ↦ not (is_estimated e.status) ]

-- The lists that the second loop fills.
pub record Plan : Type 0 where
  pub additions : List Entry
  pub created : List String
  pub covered : List String

-- The tests of the second loop on an entry that the ledger has.
unfoldable pub check_existing : Entry → Entry → Result Error (Unit {0})
check_existing existing e =
    if is_estimated existing.status
    then raise_if (not (same_entry_content existing e)) content_differs
    else raise_if (not (kind_eq existing.kind e.kind)) settled_kind_differs

-- The second loop, over the normalized entries and their IDs.
unfoldable pub plan_batch : List Entry → List (String × Entry) → Result Error Plan
plan_batch es [] = ok (record { additions = []; created = []; covered = [] })
plan_batch es ((i, e) ∷ more) = elim (find_id i es) [
  | none ↦ do
    p ← plan_batch es more
    ok (record p { additions = e ∷ p.additions; created = i ∷ p.created })
  | some existing ↦ do
    check_existing existing e
    p ← plan_batch es more
    ok (record p { covered = i ∷ p.covered })
]

-- `ordered_ids` with their entries.
abbrev pub keyed : List Entry → List (String × Entry)
keyed [] = []
keyed (e ∷ es) = elim e.entry_id [ none ↦ keyed es | some i ↦ (i, e) ∷ keyed es ]

-- The tests of `reserve_batch` that stand before the lock.
unfoldable pub batch_entries :
    String → List (String × CostEntry) → List String → List String → Result Error (List Entry)
batch_entries now reservations required_ids reject_incurred_ids = do
  news ← normalize_all now reservations []
  raise_if (any (λ i. not (is_id i)) required_ids) bad_entry_id
  raise_if (repeats required_ids) required_ids_repeat
  raise_if (any (λ i. not (is_id i)) reject_incurred_ids) bad_entry_id
  ok news

-- The tests behind it, on the loaded entries.
unfoldable pub batch_plan : List Entry → List Entry → List String → List String → Result Error Plan
batch_plan es news required_ids reject_incurred_ids = do
  raise_if (any (λ i. not (known_id es i)) required_ids) unmatched_response
  raise_if (any (incurred_id es) reject_incurred_ids) checkpoint_absent
  plan_batch es (keyed news)
