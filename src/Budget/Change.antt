-- ===== src/Budget/Change.antt =====
-- What a call of the ledger may do to a valid document of budget.py, as a step relation.
use model_forensics_value_le.Prelude.{
  String, ◌≡◌, ◌≢◌, refl, Bool, true, false, not, ◌||◌, Option, none, some, List, [], ◌∷◌, ◌++◌,
  any, All, arith, inl, inr, Bool-cases, Option-cases, eq_iff,
}
use model_forensics_value_le.Budget.Entry.{estimated, incurred, Entry, has_id}
use model_forensics_value_le.Budget.Document.{contains_id, ids_repeat}
use model_forensics_value_le.Budget.Ledger.{find_id, replace_id}
use model_forensics_value_le.Budget.Valid.{IsWellFormed}

abbrev pub is_fresh : Option String → List Entry → Bool
is_fresh o es = elim o [ none ↦ true | some i ↦ not (contains_id i es) ]

-- One entry is added, under an ID that no entry has; or an estimate is replaced by an incurred
-- cost of its kind, under its ID.
pub data Change (es : List Entry) : List Entry → Type 0 where
  added : (e : Entry) → is_fresh e.entry_id es ≡ true → Change es (es ++ e ∷ [])
  settled :
      (i : String) (old new : Entry)
      → find_id i es ≡ some old
      → old.status ≡ estimated
      → new.status ≡ incurred
      → new.kind ≡ old.kind
      → new.entry_id ≡ some i
      → Change es (replace_id i new es)

pub data Changes (es : List Entry) : List Entry → Type 0 where
  here : Changes es es
  next : {fs gs : List Entry} → Changes es fs → Change fs gs → Changes es gs

pub Changes-trans : {es fs gs : List Entry} → Changes es fs → Changes fs gs → Changes es gs
Changes-trans steps here = steps
Changes-trans steps (next more step) = next (Changes-trans steps more) step

pub any-has_id : (i : String) (es : List Entry) → any (has_id i) es ≡ contains_id i es
unfolding contains_id
any-has_id i [] = refl
any-has_id i (e ∷ es) = rw (any-has_id i es)

pub contains_id-find_id :
    (i : String) (es : List Entry) → find_id i es ≡ none → contains_id i es ≡ false
unfolding contains_id find_id
contains_id-find_id i [] h = refl
contains_id-find_id i (e ∷ es) h = ground (arith, contains_id-find_id i es)

pub contains_id-snoc :
    (i : String) (es : List Entry) (e : Entry)
    → contains_id i (es ++ e ∷ []) ≡ contains_id i es || has_id i e
unfolding contains_id
contains_id-snoc i [] e = ground arith
contains_id-snoc i (x ∷ es) e = ground (arith, contains_id-snoc i es e)

pub ids_repeat-snoc :
    (es : List Entry) (e : Entry)
    → ids_repeat es ≡ false
    → is_fresh e.entry_id es ≡ true
    → ids_repeat (es ++ e ∷ []) ≡ false
unfolding ids_repeat contains_id
ids_repeat-snoc [] e h f = ground arith
ids_repeat-snoc (x ∷ es) e h f = elim (Option-cases x.entry_id) [
  | inl anonymous ↦ ground (arith, ids_repeat-snoc es e)
  | inr (i, named) ↦ elim (Option-cases e.entry_id) [
    | inl anonymous ↦ ground (arith, contains_id-snoc i es e, ids_repeat-snoc es e)
    | inr (j, new) ↦
        ground (arith, contains_id-snoc i es e, ids_repeat-snoc es e, eq_iff i j, eq_iff j i)
  ]
]

-- Replacing an entry by one with the same ID leaves the IDs as they are.
pub contains_id-replace_id :
    (j i : String) (new : Entry) (es : List Entry)
    → new.entry_id ≡ some i
    → contains_id j (replace_id i new es) ≡ contains_id j es
unfolding contains_id replace_id
contains_id-replace_id j i new [] h = refl
contains_id-replace_id j i new (e ∷ es) h = elim (Option-cases e.entry_id) [
  | inl anonymous ↦ ground (arith, contains_id-replace_id j i new es)
  | inr (k, named) ↦ ground (arith, contains_id-replace_id j i new es, eq_iff k i)
]

pub ids_repeat-replace_id :
    (i : String) (new : Entry) (es : List Entry)
    → new.entry_id ≡ some i
    → ids_repeat (replace_id i new es) ≡ ids_repeat es
unfolding ids_repeat replace_id
ids_repeat-replace_id i new [] h = refl
ids_repeat-replace_id i new (e ∷ es) h = elim (Option-cases e.entry_id) [
  | inl anonymous ↦ ground (arith, ids_repeat-replace_id i new es)
  | inr (k, named) ↦
      ground (arith, ids_repeat-replace_id i new es, contains_id-replace_id k i new es, eq_iff k i)
]

pub find_id-replace_id_ne :
    (j i : String) (new old : Entry) (es : List Entry)
    → new.entry_id ≡ some i
    → find_id j es ≡ some old
    → i ≢ j
    → find_id j (replace_id i new es) ≡ some old
unfolding find_id replace_id
find_id-replace_id_ne j i new old [] h f n = cc
find_id-replace_id_ne j i new old (e ∷ es) h f n = elim (Option-cases e.entry_id) [
  | inl anonymous ↦ ground (arith, find_id-replace_id_ne j i new old es h)
  | inr (k, named) ↦
      ground (arith, find_id-replace_id_ne j i new old es h, eq_iff k i, eq_iff k j, eq_iff i j)
]

pub find_id-append :
    (i : String) (old : Entry) (es fs : List Entry)
    → find_id i es ≡ some old
    → find_id i (es ++ fs) ≡ some old
unfolding find_id
find_id-append i old [] fs h = cc
find_id-append i old (e ∷ es) fs h = ground (arith, find_id-append i old es fs)

pub All-replace_id :
    (i : String) (new : Entry) (es : List Entry)
    → IsWellFormed new
    → All IsWellFormed es
    → All IsWellFormed (replace_id i new es)
unfolding replace_id
All-replace_id i new [] w ws = tt
All-replace_id i new (e ∷ es) w ws = elim (Bool-cases (has_id i e)) [
  | inl found ↦ rw found (w, ws.1)
  | inr other ↦ rw other (ws.0, All-replace_id i new es w ws.1)
]
