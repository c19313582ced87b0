-- ===== src/Budget/Fresh.antt =====
-- Lists of new entries against the entries that the ledger of budget.py has.
use model_forensics_value_le.Prelude.{
  String, ◌≡◌, refl, subst, true, false, ◌||◌, some, List, [], ◌∷◌, ◌++◌, All, arith, inl, inr,
  Option-cases, eq_iff,
}
use mathlib.Core.List.{append_assoc, append-nil}
use model_forensics_value_le.Budget.Entry.{Entry}
use model_forensics_value_le.Budget.Document.{contains_id, ids_repeat}
use model_forensics_value_le.Budget.Change.{is_fresh, Changes, next, added}

-- No entry of the second list has an ID of the first.
abbrev pub AllFresh : List Entry → List Entry → Type 0
AllFresh es ns = All (λ e. is_fresh e.entry_id es ≡ true) ns

contains_id-append :
    (i : String) (xs ys : List Entry)
    → contains_id i (xs ++ ys) ≡ contains_id i xs || contains_id i ys
unfolding contains_id
contains_id-append i [] ys = refl
contains_id-append i (x ∷ xs) ys = ground (arith, contains_id-append i xs ys)

AllFresh-tail : (x : Entry) (xs ys : List Entry) → AllFresh (x ∷ xs) ys → AllFresh xs ys
unfolding contains_id
AllFresh-tail x xs [] h = tt
AllFresh-tail x xs (y ∷ ys) h = (fresh_in_tail y h.0, AllFresh-tail x xs ys h.1)
  where
    fresh_in_tail :
        (y : Entry) → is_fresh y.entry_id (x ∷ xs) ≡ true → is_fresh y.entry_id xs ≡ true
    fresh_in_tail y f = ground arith

AllFresh-head :
    (i : String) (x : Entry) (xs ys : List Entry)
    → x.entry_id ≡ some i
    → AllFresh (x ∷ xs) ys
    → contains_id i ys ≡ false
unfolding contains_id
AllFresh-head i x xs [] named h = refl
AllFresh-head i x xs (y ∷ ys) named (f, fs) = elim (Option-cases y.entry_id) [
  | inl anonymous ↦ ground (arith, AllFresh-head i x xs ys named fs)
  | inr (j, e) ↦ ground (arith, AllFresh-head i x xs ys named fs, eq_iff j i, eq_iff i j)
]

pub ids_repeat-tail :
    (x : Entry) (xs : List Entry) → ids_repeat (x ∷ xs) ≡ false → ids_repeat xs ≡ false
unfolding ids_repeat
ids_repeat-tail x xs h = ground arith

pub ids_repeat-append :
    (xs ys : List Entry)
    → ids_repeat xs ≡ false
    → ids_repeat ys ≡ false
    → AllFresh xs ys
    → ids_repeat (xs ++ ys) ≡ false
unfolding ids_repeat
ids_repeat-append [] ys h k f = k
ids_repeat-append (x ∷ xs) ys h k f =
    let rest = ids_repeat-append xs ys (ids_repeat-tail x xs h) k (AllFresh-tail x xs ys f) in
    elim (Option-cases x.entry_id) [
      | inl anonymous ↦ ground (arith, rest)
      | inr (i, named) ↦
          ground (arith, rest, contains_id-append i xs ys, AllFresh-head i x xs ys named f)
    ]

fresh_of_distinct :
    (gs : List Entry) (e : Entry) (rest : List Entry)
    → ids_repeat (gs ++ e ∷ rest) ≡ false
    → is_fresh e.entry_id gs ≡ true
unfolding ids_repeat contains_id
fresh_of_distinct [] e rest h = ground arith
fresh_of_distinct (g ∷ gs) e rest h = elim (Option-cases e.entry_id) [
  | inl anonymous ↦ ground arith
  | inr (i, named) ↦ elim (Option-cases g.entry_id) [
    | inl unnamed ↦ ground (arith, fresh_of_distinct gs e rest)
    | inr (j, other) ↦ ground (
      arith,
      fresh_of_distinct gs e rest,
      contains_id-append j gs (e ∷ rest),
      eq_iff i j,
      eq_iff j i,
    )
  ]
]

-- A list whose IDs are all distinct is reached by adding its entries one by one.
pub Changes-append :
    (es gs ns : List Entry) → ids_repeat (gs ++ ns) ≡ false → Changes es gs → Changes es (gs ++ ns)
Changes-append es gs [] h steps = rw append-nil steps
Changes-append es gs (n ∷ ns) h steps =
    let regroup = append_assoc gs (n ∷ []) ns in
    subst (Changes es) regroup (
      Changes-append es (gs ++ n ∷ []) ns (rw regroup h)
        (next steps (added n (fresh_of_distinct gs n ns h))))
