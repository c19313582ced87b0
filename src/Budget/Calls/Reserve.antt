-- ===== src/Budget/Calls/Reserve.antt =====
-- `append`, `assert_estimate_fits` and `reserve` of budget.py, on every branch.
use model_forensics_value_le.Prelude.{
  String, ◌≡◌, ◌⊎◌, true, false, Option, none, some, List, [], ◌∷◌, ◌++◌, ◌∙◌, arith, inl, inr,
  Bool-cases, Option-cases,
}
use model_forensics_value_le.Prelude.Outcome.{ok, Result-cases}
use model_forensics_value_le.Budget.Entry.{
  estimated, is_id, bad_entry_id, not_estimated, CostEntry, Entry, normalized,
}
use model_forensics_value_le.Budget.Document.{BudgetLimits, totals, assert_limits}
use model_forensics_value_le.Budget.Store.{Yaml}
use model_forensics_value_le.Budget.Ledger.{
  find_id, with_id, reserve_new, reserve_existing, has_status, append, reserve,
  assert_estimate_fits,
}
use model_forensics_value_le.Budget.Change.{contains_id-find_id}
use model_forensics_value_le.Budget.Calls.Frame.{
  Loads, Refuses, Stores, Leaves, normalized-facts, Stores-snoc-Leaves, unchanged-Leaves,
}

module _ (yaml : Yaml) (limits : BudgetLimits) (now : String) (s : Option yaml.Text)
    (es : List Entry) (loads : Loads yaml limits s es) where
  append-cases :
      (entry : CostEntry)
      → Refuses yaml limits s (append yaml limits now entry s)
        ⊎ ((e : Entry) × (normalized now entry ≡ ok e)
            × Stores yaml limits (es ++ e ∷ []) (append yaml limits now entry s))
  unfolding append
  append-cases entry = elim (Result-cases (normalized now entry)) [
    | inl (x, bad) ↦ inl (x, ground arith)
    | inr (e, good) ↦ elim (Result-cases (assert_limits limits (totals true (es ++ e ∷ [])))) [
      | inl (x, over) ↦ inl (x, ground arith)
      | inr (_, fits) ↦ inr (e, good, (totals false (es ++ e ∷ []), ground arith, fits))
    ]
  ]

  pub append-Leaves : (entry : CostEntry) → Leaves yaml limits s es (append yaml limits now entry s)
  append-Leaves entry = elim (append-cases entry) [
    | inl refused ↦ inl refused
    | inr (e, good, stores) ↦
        let (described, anonymous, _) = normalized-facts now entry good in
        Stores-snoc-Leaves yaml limits s es loads e _ stores
          (record { described = described; identified = rw anonymous tt }) (rw anonymous)
  ]

  pub reserve_new-cases :
      (e : Entry)
      → Refuses yaml limits s (reserve_new yaml limits now e es s)
        ⊎ Stores yaml limits (es ++ e ∷ []) (reserve_new yaml limits now e es s)
  unfolding reserve_new
  reserve_new-cases e = elim (Result-cases (assert_limits limits (totals true (es ++ e ∷ [])))) [
    | inl (x, over) ↦ inl (x, ground arith)
    | inr (_, fits) ↦ inr (totals true (es ++ e ∷ []), ground arith, fits)
  ]

  reserve_existing-same : (old e : Entry) → (reserve_existing yaml limits now old e es s).1 ≡ s
  unfolding reserve_existing
  reserve_existing-same old e = ground arith

  -- Past its own checks `reserve` has an entry to look up, and goes on by what it finds.
  pub reserve-cases :
      (i : String) (entry : CostEntry)
      → Refuses yaml limits s (reserve yaml limits now i entry s)
        ⊎ ((e : Entry) × (normalized now entry ≡ ok e)
            × (is_id i ≡ true)
            × (((old : Entry) × (find_id i es ≡ some old)
                  × (reserve yaml limits now i entry s
                      ≡ reserve_existing yaml limits now old (with_id i e) es s))
                ⊎ (find_id i es ≡ none)
                  × (reserve yaml limits now i entry s
                      ≡ reserve_new yaml limits now (with_id i e) es s)))
  unfolding reserve
  reserve-cases i entry = elim (Bool-cases (is_id i)) [
    | inr blank ↦ inl (bad_entry_id, ground arith)
    | inl named ↦ elim (Bool-cases (has_status estimated entry.status)) [
      | inr other ↦ inl (not_estimated, ground arith)
      | inl estimate ↦ elim (Result-cases (normalized now entry)) [
        | inl (x, bad) ↦ inl (x, ground arith)
        | inr (e, good) ↦ elim (Option-cases (find_id i es)) [
          | inl free ↦ inr (e, good, named, inr (free, ground arith))
          | inr (old, found) ↦ inr (e, good, named, inl (old, found, ground arith))
        ]
      ]
    ]
  ]

  pub reserve-Leaves :
      (i : String) (entry : CostEntry) → Leaves yaml limits s es (reserve yaml limits now i entry s)
  reserve-Leaves i entry = elim (reserve-cases i entry) [
    | inl refused ↦ inl refused
    | inr (e, good, named, inl (old, found, same)) ↦
        unchanged-Leaves yaml limits s es loads _
          (rw same (reserve_existing-same old (with_id i e)))
    | inr (e, good, named, inr (free, same)) ↦ elim (reserve_new-cases (with_id i e)) [
      | inl (x, refused) ↦ inl (x, same ∙ refused)
      | inr (a, stored, fits) ↦
          Stores-snoc-Leaves yaml limits s es loads (with_id i e) _ (a, same ∙ stored, fits)
            (record { described = (normalized-facts now entry good).0; identified = named })
            (rw (contains_id-find_id i es free))
    ]
  ]

  -- `assert_estimate_fits` never writes.
  pub assert_estimate_fits-Leaves :
      (entry : CostEntry) → Leaves yaml limits s es (assert_estimate_fits yaml limits now entry s)
  unfolding assert_estimate_fits
  assert_estimate_fits-Leaves entry =
      unchanged-Leaves yaml limits s es loads (assert_estimate_fits yaml limits now entry s)
        (ground arith)
