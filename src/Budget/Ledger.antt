-- ===== src/Budget/Ledger.antt =====
-- The methods of `CostLedger`, but for `reserve_batch`.
use model_forensics_value_le.Prelude.{
  String, Bool, true, false, not, ◌&&◌, ◌||◌, Option, none, some, List, [], ◌∷◌, ◌++◌, any,
  if◌then◌else◌,
}
use model_forensics_value_le.Prelude.Outcome.{ok, err}
use model_forensics_value_le.Budget.Entry.{
  Kind, kind_eq, Status, estimated, incurred, is_estimated, bad_entry_id, not_estimated,
  not_incurred, settled_kind_differs, content_differs, missing_reservation, settlement_kind_differs,
  settled_content_differs, id_already_used, outstanding_kind, Amount, CostEntry, Entry, normalized,
  same_entry_content, has_id, is_id,
}
use model_forensics_value_le.Budget.Document.{BudgetLimits, Totals, totals, assert_limits}
use model_forensics_value_le.Budget.Ceilings.{Ceilings, TotalKey, read_ceilings, assert_ceilings}
use model_forensics_value_le.Budget.Store.{
  Yaml, Action, ◌>>=◌, ◌>>◌, pure, lift, raise_if, load, write,
}

abbrev pub has_status : Status → Option Status → Bool
has_status estimated (some estimated) = true
has_status incurred (some incurred) = true
has_status _ _ = false

-- `next((item for item in document["entries"] if item.get("entry_id") == entry_id), None)`
unfoldable pub find_id : String → List Entry → Option Entry
find_id i [] = none
find_id i (e ∷ es) = if has_id i e then some e else find_id i es

-- `entries[index] = normalized`, at the first entry with the ID.
unfoldable pub replace_id : String → Entry → List Entry → List Entry
replace_id i new [] = []
replace_id i new (e ∷ es) = if has_id i e then new ∷ es else e ∷ replace_id i new es

-- `normalized["entry_id"] = entry_id`
abbrev pub with_id : String → Entry → Entry
with_id i e = record e { entry_id = some i }

pub record ReservationSnapshot : Type 0 where
  pub incurred_before : Totals
  pub committed_before : Totals
  pub committed_after : Totals

-- `any(item["kind"] == kind and item.get("status", "incurred") == "estimated" …)`
unfoldable pub outstanding : Kind → List Entry → Bool
outstanding k [] = false
outstanding k (e ∷ es) = (kind_eq e.kind k && is_estimated e.status) || outstanding k es

module _ (yaml : Yaml) (limits : BudgetLimits) (now : String) where
  abbrev Call : Type 0 → Type 0
  Call = Action yaml.Text

  -- `CostLedger.append`
  unfoldable pub append : CostEntry → Call Totals
  append entry = do
    es ← load yaml limits
    e ← lift (normalized now entry)
    let candidate = es ++ e ∷ []
    lift (assert_limits limits (totals true candidate))
    write yaml limits candidate
    pure (totals false candidate)

  -- `CostLedger.assert_estimate_fits`
  unfoldable pub assert_estimate_fits : CostEntry → Call Totals
  assert_estimate_fits entry = do
    es ← load yaml limits
    e ← lift (normalized now entry)
    let t = totals true (es ++ e ∷ [])
    lift (assert_limits limits t)
    pure t

  -- The part of `reserve` where the ID is known already.
  unfoldable pub reserve_existing : Entry → Entry → List Entry → Call Totals
  reserve_existing existing e es = do
    raise_if (not (is_estimated existing.status) && not (kind_eq existing.kind e.kind))
        settled_kind_differs
    raise_if (is_estimated existing.status && not (same_entry_content existing e)) content_differs
    pure (totals true es)

  unfoldable pub reserve_new : Entry → List Entry → Call Totals
  reserve_new e es = do
    let candidate = es ++ e ∷ []
    let t = totals true candidate
    lift (assert_limits limits t)
    write yaml limits candidate
    pure t

  -- `CostLedger.reserve`
  unfoldable pub reserve : String → CostEntry → Call Totals
  reserve entry_id entry = do
    raise_if (not (is_id entry_id)) bad_entry_id
    raise_if (not (has_status estimated entry.status)) not_estimated
    es ← load yaml limits
    plain ← lift (normalized now entry)
    let e = with_id entry_id plain
    elim (find_id entry_id es) [
      | some existing ↦ reserve_existing existing e es
      | none ↦ reserve_new e es
    ]

  -- The part of `reserve_once` behind the tests on the IDs and on what is outstanding.
  unfoldable pub commit_once : Ceilings → Entry → List Entry → Call ReservationSnapshot
  commit_once ceilings e es = do
    let candidate = es ++ e ∷ []
    let committed_after = totals true candidate
    lift (assert_limits limits committed_after)
    lift (assert_ceilings ceilings committed_after)
    write yaml limits candidate
    pure (record {
      incurred_before = totals false es;
      committed_before = totals true es;
      committed_after = committed_after;
    })

  -- `CostLedger.reserve_once`
  unfoldable pub reserve_once :
      String → CostEntry → List (Option TotalKey × Amount) → Bool → Call ReservationSnapshot
  reserve_once entry_id entry maximum_totals require_no_outstanding_kind = do
    raise_if (not (is_id entry_id)) bad_entry_id
    raise_if (not (has_status estimated entry.status)) not_estimated
    ceilings ← lift (read_ceilings maximum_totals)
    plain ← lift (normalized now entry)
    let e = with_id entry_id plain
    es ← load yaml limits
    raise_if (any (has_id entry_id) es) id_already_used
    raise_if (require_no_outstanding_kind && outstanding e.kind es) outstanding_kind
    commit_once ceilings e es

  -- The part of `settle_reservation` where the entry is settled already.
  unfoldable pub settle_again : Entry → Entry → List Entry → Call Totals
  settle_again existing e es = do
    raise_if (not (same_entry_content existing e)) settled_content_differs
    pure (totals false es)

  -- The part where it is an estimate.
  unfoldable pub settle_estimate : String → Entry → Entry → List Entry → Call Totals
  settle_estimate entry_id existing e es = do
    raise_if (not (kind_eq existing.kind e.kind)) settlement_kind_differs
    let candidate = replace_id entry_id e es
    lift (assert_limits limits (totals true candidate))
    write yaml limits candidate
    pure (totals false candidate)

  -- `CostLedger.settle_reservation`
  unfoldable pub settle_reservation : String → CostEntry → Call Totals
  settle_reservation entry_id entry = do
    raise_if (not (is_id entry_id)) bad_entry_id
    raise_if (not (has_status incurred entry.status)) not_incurred
    es ← load yaml limits
    existing ← lift (elim (find_id entry_id es) [ none ↦ err missing_reservation | some x ↦ ok x ])
    plain ← lift (normalized now entry)
    let e = with_id entry_id plain
    elim existing.status [
      | incurred ↦ settle_again existing e es
      | estimated ↦ settle_estimate entry_id existing e es
    ]
