-- ===== src/Budget/Repeats.antt =====
-- Repeated calls of `reserve` and `settle_reservation` of budget.py.
use model_forensics_value_le.Prelude.{
  String, ◌≡◌, ◌⊎◌, ◌∙◌, subst, true, Option, none, some, List, [], ◌∷◌, ◌++◌, inl, inr, arith,
  Option-cases, eq_iff,
}
use model_forensics_value_le.Prelude.Outcome.{ok, Result-cases}
use model_forensics_value_le.Prelude.Text.{codes, has_visible}
use model_forensics_value_le.Budget.Entry.{
  CostEntry, Entry, estimated, is_id, normalized, same_entry_content,
}
use model_forensics_value_le.Budget.Document.{BudgetLimits, Totals, totals, assert_limits}
use model_forensics_value_le.Budget.Store.{Yaml, read_file, ledger_document}
use model_forensics_value_le.Budget.Ledger.{
  find_id, with_id, reserve, reserve_existing, reserve_new,
}
use model_forensics_value_le.Budget.Valid.{load_document-IsValid}
use model_forensics_value_le.Budget.Calls.Frame.{
  Loads, written-Loads, normalized-facts, snoc-IsValid,
}
use model_forensics_value_le.Budget.Change.{contains_id-find_id}

-- The parts of two entries that `_same_entry_content` compares.
abbrev SameContent : Entry → Entry → Type 0
SameContent a b =
    (a.kind ≡ b.kind)
    × (a.amount ≡ b.amount)
    × (a.description ≡ b.description)
    × (a.status ≡ b.status)

-- Normalizing at another time changes only the time stamp.
normalized_at :
    (now now' : String) (c : CostEntry) {e : Entry}
    → normalized now c ≡ ok e
    → (e' : Entry) × (normalized now' c ≡ ok e') × SameContent e e'
unfolding normalized
normalized_at now now' c h = elim (Result-cases (normalized now' c)) [
  | inl (x, bad) ↦ absurd (ground arith)
  | inr (e', good) ↦ (e', good, (ground arith, ground arith, ground arith, ground arith))
]

same_entry_content_of_SameContent :
    (i : String) (a b : Entry)
    → SameContent a b
    → same_entry_content (with_id i a) (with_id i b) ≡ true
unfolding same_entry_content
same_entry_content_of_SameContent i a b h = ground (arith, eq_iff a.description b.description)

find_id-snoc :
    (i : String) (e : Entry) (es : List Entry)
    → find_id i es ≡ none
    → find_id i (es ++ with_id i e ∷ []) ≡ some (with_id i e)
unfolding find_id
find_id-snoc i e [] h = ground (arith, eq_iff i i)
find_id-snoc i e (x ∷ es) h = ground (arith, find_id-snoc i e es)

module _ (yaml : Yaml) (limits : BudgetLimits) (now now' : String) where
  -- Which way a call that returned went: it covered a known entry or wrote a new one.
  reserve-returned :
      (s s' : Option yaml.Text) (es : List Entry) (i : String) (c : CostEntry) (t : Totals)
      → Loads yaml limits s es
      → reserve yaml limits now i c s ≡ (ok t, s')
      → (e : Entry) × (normalized now c ≡ ok e)
        × (is_id i ≡ true)
        × (c.status ≡ some estimated)
        × (((old : Entry) × (find_id i es ≡ some old)
              × (reserve_existing yaml limits now old (with_id i e) es s ≡ (ok t, s')))
            ⊎ ((find_id i es ≡ none)
                × (reserve_new yaml limits now (with_id i e) es s ≡ (ok t, s'))))
  unfolding reserve
  reserve-returned s s' es i c t loads h = elim (Result-cases (normalized now c)) [
    | inl (x, bad) ↦ absurd (ground arith)
    | inr (e, good) ↦ elim (Option-cases (find_id i es)) [
      | inl free ↦ (e, good, ground arith, ground arith, inr (free, ground arith))
      | inr (old, found) ↦ (e, good, ground arith, ground arith, inl (old, found, ground arith))
    ]
  ]

  -- A call that finds the entry.
  reserve_found :
      (s : Option yaml.Text) (es : List Entry) (i : String) (c : CostEntry) (e old : Entry)
      → Loads yaml limits s es
      → is_id i ≡ true
      → c.status ≡ some estimated
      → normalized now' c ≡ ok e
      → find_id i es ≡ some old
      → reserve yaml limits now' i c s ≡ reserve_existing yaml limits now' old (with_id i e) es s
  unfolding reserve
  reserve_found s es i c e old loads named due good found = ground arith

  reserve_existing_at :
      (s s' : Option yaml.Text) (es : List Entry) (i : String) (t : Totals) (e e' old : Entry)
      → SameContent e e'
      → reserve_existing yaml limits now old (with_id i e) es s ≡ (ok t, s')
      → (reserve_existing yaml limits now' old (with_id i e') es s ≡ (ok t, s')) × (s ≡ s')
  unfolding reserve_existing same_entry_content
  reserve_existing_at s s' es i t e e' old same h = (ground arith, ground arith)

  reserve_new-returned :
      (s s' : Option yaml.Text) (es : List Entry) (e : Entry) (t : Totals)
      → reserve_new yaml limits now e es s ≡ (ok t, s')
      → (s' ≡ some (yaml.safe_dump (ledger_document limits (es ++ e ∷ []))))
        × (assert_limits limits (totals true (es ++ e ∷ [])) ≡ ok tt)
        × (t ≡ totals true (es ++ e ∷ []))
  unfolding reserve_new
  reserve_new-returned s s' es e t h =
      elim (Result-cases (assert_limits limits (totals true (es ++ e ∷ [])))) [
        | inl (x, over) ↦ absurd (ground arith)
        | inr (_, fits) ↦ (ground arith, fits, ground arith)
      ]

  reserve_existing_same :
      (s : Option yaml.Text) (es : List Entry) (i : String) (e e' : Entry)
      → e.status ≡ estimated
      → SameContent e e'
      → reserve_existing yaml limits now' (with_id i e) (with_id i e') es s
        ≡ (ok (totals true es), s)
  unfolding reserve_existing
  reserve_existing_same s es i e e' due same =
      ground (arith, same_entry_content_of_SameContent i e e' same)

  reserve_new_at :
      (s s' : Option yaml.Text) (es : List Entry) (i : String) (t : Totals) (e e' : Entry)
      → Loads yaml limits s es
      → is_id i ≡ true
      → has_visible (codes e.description) ≡ true
      → e.status ≡ estimated
      → find_id i es ≡ none
      → SameContent e e'
      → reserve_new yaml limits now (with_id i e) es s ≡ (ok t, s')
      → Loads yaml limits s' (es ++ with_id i e ∷ [])
        × (reserve_existing yaml limits now'
              (with_id i e)
              (with_id i e')
              (es ++ with_id i e ∷ [])
              s'
            ≡ (ok t, s'))
  reserve_new_at s s' es i t e e' loads named described due free same h =
      let e₀ = with_id i e in
      let (stored, fits, total) = reserve_new-returned s s' es e₀ t h in
      let before = load_document-IsValid limits (read_file yaml limits s) loads in
      let after =
        snoc-IsValid limits es e₀ before (record { described = described; identified = named })
          (rw (contains_id-find_id i es free)) fits in
      (
        rw stored (written-Loads yaml limits (es ++ e₀ ∷ []) after),
        rw total (reserve_existing_same s' (es ++ e₀ ∷ []) i e e' due same),
      )

  -- Reserving again, at any time, with the same ID and content returns the same totals and changes
  -- nothing: the second call finds what the first one left.
  pub reserve_twice :
      (s s' : Option yaml.Text) (es : List Entry) (i : String) (c : CostEntry) (t : Totals)
      → Loads yaml limits s es
      → reserve yaml limits now i c s ≡ (ok t, s')
      → reserve yaml limits now' i c s' ≡ (ok t, s')
  reserve_twice s s' es i c t loads h =
      let (e, good, named, due, how) = reserve-returned s s' es i c t loads h in
      let (e', good', same) = normalized_at now now' c good in
      elim how [
        | inl (old, found, covered) ↦
            let (again, kept) = reserve_existing_at s s' es i t e e' old same covered in
            subst (λ z. reserve yaml limits now' i c z ≡ (ok t, s')) kept
              (reserve_found s es i c e' old loads named due good' found ∙ again)
        | inr (free, written) ↦
            let (described, _, status) = normalized-facts now c good in
            let (loads', again) =
              reserve_new_at s s' es i t e e' loads named described (cc) free same written in
            reserve_found s' (es ++ with_id i e ∷ []) i c e' (with_id i e) loads' named due good'
              (find_id-snoc i e es free)
            ∙ again
      ]
