-- ===== src/Budget/Calls/Frame.antt =====
-- How a call of `CostLedger` (budget.py) may end, and what it then leaves in the file.
use model_forensics_value_le.Prelude.{
  String, ◌≡◌, ◌⊎◌, true, Option, none, some, List, [], ◌∷◌, ◌++◌, All-append, arith, inl, inr,
}
use model_forensics_value_le.Prelude.Outcome.{Result, ok, err, Result-cases}
use model_forensics_value_le.Prelude.Text.{codes, has_visible}
use model_forensics_value_le.Budget.Entry.{Error, CostEntry, Entry, normalized}
use model_forensics_value_le.Budget.Document.{BudgetLimits, totals, assert_limits, load_document}
use model_forensics_value_le.Budget.Store.{Yaml, read_file, ledger_document}
use model_forensics_value_le.Budget.Totals.{Fits-assert_limits}
use model_forensics_value_le.Budget.Valid.{
  IsWellFormed, IsValid, load_document-IsValid, load_document-written,
}
use model_forensics_value_le.Budget.Change.{is_fresh, added, Changes, here, next, ids_repeat-snoc}

pub normalized-facts :
    (now : String) (c : CostEntry) {e : Entry}
    → normalized now c ≡ ok e
    → (has_visible (codes e.description) ≡ true) × (e.entry_id ≡ none) × (c.status ≡ some e.status)
unfolding normalized
normalized-facts now c h = ground arith

pub snoc-IsValid :
    (limits : BudgetLimits) (es : List Entry) (e : Entry)
    → IsValid limits es
    → IsWellFormed e
    → is_fresh e.entry_id es ≡ true
    → assert_limits limits (totals true (es ++ e ∷ [])) ≡ ok tt
    → IsValid limits (es ++ e ∷ [])
snoc-IsValid limits es e v w fresh fits = record {
  well_formed = All-append IsWellFormed es (e ∷ []) v.well_formed (w, tt);
  distinct = ids_repeat-snoc es e v.distinct fresh;
  within = Fits-assert_limits limits (totals true (es ++ e ∷ [])) fits;
}

module _ (yaml : Yaml) (limits : BudgetLimits) where
  -- The file that a call finds holds the entries `es`.
  abbrev pub Loads : Option yaml.Text → List Entry → Type 0
  Loads s es = load_document limits (read_file yaml limits s) ≡ ok es

  -- The call raised and left the file alone.
  abbrev pub Refuses : {A : Type 0} → Option yaml.Text → Result Error A × Option yaml.Text → Type 0
  Refuses s r = (x : Error) × (r ≡ (err x, s))

  -- The call returned and left the file alone.
  abbrev pub Keeps : {A : Type 0} → Option yaml.Text → Result Error A × Option yaml.Text → Type 0
  Keeps {A} s r = (a : A) × (r ≡ (ok a, s))

  -- The call returned and wrote `fs`, which it found within the hard stops.
  abbrev pub Stores : {A : Type 0} → List Entry → Result Error A × Option yaml.Text → Type 0
  Stores {A} fs r =
      (a : A) × (r ≡ (ok a, some (yaml.safe_dump (ledger_document limits fs))))
      × (assert_limits limits (totals true fs) ≡ ok tt)

  -- The call raised and left the file alone, or returned and left a file that loads, with entries
  -- that the steps of the ledger lead to.
  abbrev pub Leaves :
      {A : Type 0} → Option yaml.Text → List Entry → Result Error A × Option yaml.Text → Type 0
  Leaves {A} s es r =
      Refuses s r ⊎ ((a : A) × (fs : List Entry) × (r.0 ≡ ok a) × Loads r.1 fs × Changes es fs)

  pub written-Loads :
      (es : List Entry)
      → IsValid limits es
      → Loads (some (yaml.safe_dump (ledger_document limits es))) es
  written-Loads es v =
      rw (yaml.load-dump (ledger_document limits es)) (load_document-written limits es v)

module _ (yaml : Yaml) (limits : BudgetLimits) (s : Option yaml.Text) (es : List Entry)
    (loads : Loads yaml limits s es) where
  pub Stores-Leaves :
      {A : Type 0} (fs : List Entry) (r : Result Error A × Option yaml.Text)
      → Stores yaml limits fs r
      → IsValid limits fs
      → Changes es fs
      → Leaves yaml limits s es r
  Stores-Leaves fs r (a, same, _) v steps =
      inr (a, fs, rw same, rw same (written-Loads yaml limits fs v), steps)

  pub Keeps-Leaves :
      {A : Type 0} (r : Result Error A × Option yaml.Text)
      → Keeps yaml limits s r
      → Leaves yaml limits s es r
  Keeps-Leaves r (a, same) = inr (a, es, rw same, rw same loads, here)

  pub Stores-snoc-Leaves :
      {A : Type 0} (e : Entry) (r : Result Error A × Option yaml.Text)
      → Stores yaml limits (es ++ e ∷ []) r
      → IsWellFormed e
      → is_fresh e.entry_id es ≡ true
      → Leaves yaml limits s es r
  Stores-snoc-Leaves e r stores w fresh =
      let v = load_document-IsValid limits (read_file yaml limits s) loads in
      Stores-Leaves (es ++ e ∷ []) r stores (snoc-IsValid limits es e v w fresh stores.2)
        (next here (added e fresh))

  pub unchanged-Leaves :
      {A : Type 0} (r : Result Error A × Option yaml.Text) → r.1 ≡ s → Leaves yaml limits s es r
  unchanged-Leaves r same = elim (Result-cases r.0) [
    | inl (x, raised) ↦ inl (x, λ i. (raised i, same i))
    | inr (a, returned) ↦ Keeps-Leaves r (a, λ i. (returned i, same i))
  ]
