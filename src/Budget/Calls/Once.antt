-- ===== src/Budget/Calls/Once.antt =====
-- `reserve_once` of budget.py, on every branch.
use model_forensics_value_le.Prelude.{
  String, ◌≡◌, ◌⊎◌, Bool, true, false, Option, List, [], ◌∷◌, ◌++◌, ◌∙◌, sym, ◌&&◌, any, arith, inl,
  inr, Bool-cases,
}
use model_forensics_value_le.Prelude.Outcome.{ok, Result-cases}
use model_forensics_value_le.Budget.Entry.{
  estimated, is_id, bad_entry_id, not_estimated, id_already_used, outstanding_kind, CostEntry,
  Entry, has_id, normalized, Amount,
}
use model_forensics_value_le.Budget.Document.{BudgetLimits, totals, Totals, assert_limits}
use model_forensics_value_le.Budget.Store.{Yaml}
use model_forensics_value_le.Budget.Ceilings.{TotalKey, Ceilings, read_ceilings, assert_ceilings}
use model_forensics_value_le.Budget.Ledger.{
  with_id, has_status, reserve_once, outstanding, commit_once,
}
use model_forensics_value_le.Budget.Change.{any-has_id}
use model_forensics_value_le.Budget.Calls.Frame.{
  Loads, Refuses, Stores, Leaves, normalized-facts, Stores-snoc-Leaves,
}

module _ (yaml : Yaml) (limits : BudgetLimits) (now : String) (s : Option yaml.Text)
    (es : List Entry) (loads : Loads yaml limits s es) where
  commit_once-cases :
      (ceilings : Ceilings) (e : Entry)
      → Refuses yaml limits s (commit_once yaml limits now ceilings e es s)
        ⊎ Stores yaml limits (es ++ e ∷ []) (commit_once yaml limits now ceilings e es s)
  unfolding commit_once
  commit_once-cases ceilings e =
      let after : Totals = totals true (es ++ e ∷ []) in
      elim (Result-cases (assert_limits limits after)) [
        | inl (x, over) ↦ inl (x, ground arith)
        | inr (_, fits) ↦ elim (Result-cases (assert_ceilings ceilings after)) [
          | inl (x, over) ↦ inl (x, ground arith)
          | inr (_, low) ↦ inr (
            record {
              incurred_before = totals false es;
              committed_before = totals true es;
              committed_after = after;
            },
            ground arith,
            fits,
          )
        ]
      ]

  -- Past all its tests `reserve_once` goes on to commit the entry.
  pub reserve_once-cases :
      (i : String) (entry : CostEntry) (maximum_totals : List (Option TotalKey × Amount))
      (alone : Bool)
      → Refuses yaml limits s (reserve_once yaml limits now i entry maximum_totals alone s)
        ⊎ ((ceilings : Ceilings) × (e : Entry) × (normalized now entry ≡ ok e)
            × (is_id i ≡ true)
            × (any (has_id i) es ≡ false)
            × (alone && outstanding e.kind es ≡ false)
            × (reserve_once yaml limits now i entry maximum_totals alone s
                ≡ commit_once yaml limits now ceilings (with_id i e) es s))
  unfolding reserve_once
  reserve_once-cases i entry maximum_totals alone = elim (Bool-cases (is_id i)) [
    | inr blank ↦ inl (bad_entry_id, ground arith)
    | inl named ↦ elim (Bool-cases (has_status estimated entry.status)) [
      | inr other ↦ inl (not_estimated, ground arith)
      | inl estimate ↦ elim (Result-cases (read_ceilings maximum_totals)) [
        | inl (x, bad) ↦ inl (x, ground arith)
        | inr (ceilings, read) ↦ elim (Result-cases (normalized now entry)) [
          | inl (x, bad) ↦ inl (x, ground arith)
          | inr (e, good) ↦ elim (Bool-cases (any (has_id i) es)) [
            | inl used ↦ inl (id_already_used, ground arith)
            | inr free ↦ elim (Bool-cases (alone && outstanding e.kind es)) [
              | inl busy ↦ inl (outstanding_kind, ground arith)
              | inr idle ↦ inr (ceilings, e, good, named, free, idle, ground arith)
            ]
          ]
        ]
      ]
    ]
  ]

  pub reserve_once-Leaves :
      (i : String) (entry : CostEntry) (maximum_totals : List (Option TotalKey × Amount))
      (alone : Bool)
      → Leaves yaml limits s es (reserve_once yaml limits now i entry maximum_totals alone s)
  reserve_once-Leaves i entry maximum_totals alone =
      elim (reserve_once-cases i entry maximum_totals alone) [
        | inl refused ↦ inl refused
        | inr (ceilings, e, good, named, free, _, same) ↦
            elim (commit_once-cases ceilings (with_id i e)) [
              | inl (x, refused) ↦ inl (x, same ∙ refused)
              | inr (a, stored, fits) ↦
                  Stores-snoc-Leaves yaml limits s es loads (with_id i e) _ (a, same ∙ stored, fits)
                    (record { described = (normalized-facts now entry good).0; identified = named })
                    (rw (sym (any-has_id i es) ∙ free))
            ]
      ]
