-- ===== src/Statistics/Written.antt =====
-- Writing a value of each pair at the index of the pair gives a list by positions, in whatever
-- order the pairs are written.
use mathlib.Core.Option
use mathlib.Core.List.{append_assoc}
use model_forensics_value_le.Prelude.{
  ℕ, zero, suc, ◌<◌, ◌≡◌, refl, sym, ap, ◌∙◌, inl, inr, Bool, true, not, Option, none, some, List,
  [], ◌∷◌, ◌++◌, map, arith, All, Bool-cases, length, length-append, set,
}
use model_forensics_value_le.Prelude.Outcome.{
  ok, raise_if, raise_if-eq-ok, >>=_inversion, ok-injective,
}
use model_forensics_value_le.Statistics.Numbers.{Numbers, Laws}
use model_forensics_value_le.Statistics.Adjust.{
  invalid_p_value, is_p_value, indexed_from, insert_pair, sorted,
}
use model_forensics_value_le.Statistics.Rejection.{present}
use model_forensics_value_le.Statistics.Order.{values, IsWeight}
use model_forensics_value_le.Statistics.Sorting.{sorted-All}

module _ {ℓ} {A : Type ℓ} where
  pub map-set {κ} :
      {B : Type κ} (f : A → B) (xs : List A) (i : ℕ) (v : A)
      → map f (set xs i v) ≡ set (map f xs) i (f v)
  map-set f [] i v = refl
  map-set f (x ∷ xs) zero v = refl
  map-set f (x ∷ xs) (suc i) v = ap (λ l. f x ∷ l) (map-set f xs i v)

  set-set_lt :
      (xs : List A) (i j : ℕ) (a b : A) → i < j → set (set xs i a) j b ≡ set (set xs j b) i a
  set-set_lt [] i j a b h = refl
  set-set_lt (x ∷ xs) i zero a b h = elim h [ ]
  set-set_lt (x ∷ xs) zero (suc j) a b h = refl
  set-set_lt (x ∷ xs) (suc i) (suc j) a b h = ap (λ l. x ∷ l) (set-set_lt xs i j a b (omega arith))

  set-append : (xs ys : List A) (y v : A) → set (xs ++ y ∷ ys) (length xs) v ≡ xs ++ v ∷ ys
  set-append [] ys y v = refl
  set-append (x ∷ xs) ys y v = ap (λ l. x ∷ l) (set-append xs ys y v)

-- A missing p-value, or one that passes the test.
abbrev pub IsPValue : (numbers : Numbers) → Option numbers.Number → Type 0
IsPValue numbers none = Unit
IsPValue numbers (some p) = is_p_value numbers p ≡ true

module _ (numbers : Numbers) (laws : Laws numbers) where
  abbrev Number : Type 0
  Number = numbers.Number

  abbrev Pair : Type 0
  Pair = ℕ × numbers.Number

  -- The indices grow along the list.
  abbrev pub AreApart : List Pair → Type 0
  AreApart [] = Unit
  AreApart (pair ∷ rest) = All (λ e. pair.0 < e.0) rest × AreApart rest

  module _ (decide : Number → Bool) where
    -- A loop that writes the decision on each pair.
    unfoldable pub written : List (Option Bool) → List Pair → List (Option Bool)
    written decided [] = decided
    written decided (pair ∷ rest) = written (set decided pair.0 (some (decide pair.1))) rest

    written-insert_pair :
        (decided : List (Option Bool)) (pair : Pair) (s : List Pair)
        → All (λ e. pair.0 < e.0) s
        → written decided (insert_pair numbers pair s) ≡ written decided (pair ∷ s)
    unfolding written insert_pair
    written-insert_pair decided pair [] _ = refl
    written-insert_pair decided pair (first ∷ rest) h =
        elim (Bool-cases (numbers.lt first.1 pair.1)) [
          | inl after ↦ rw after (
              written-insert_pair (set decided first.0 (some (decide first.1))) pair rest h.1
              ∙ ap (λ l. written l rest)
                  (sym (
                    set-set_lt decided pair.0 first.0 (some (decide pair.1)) (some (decide first.1))
                      h.0)))
          | inr here ↦ rw here refl
        ]

    pub written-sorted :
        (decided : List (Option Bool)) (s : List Pair)
        → AreApart s
        → written decided (sorted numbers s) ≡ written decided s
    unfolding written sorted
    written-sorted decided [] _ = refl
    written-sorted decided (pair ∷ rest) h =
        written-insert_pair decided pair (sorted numbers rest) (sorted-All numbers laws _ rest h.0)
        ∙ written-sorted (set decided pair.0 (some (decide pair.1))) rest h.1

  -- What the first p-value of a list that passes gives.
  indexed_from-some :
      (j : ℕ) (p : Number) (rest : List (Option Number)) {s : List Pair}
      → indexed_from numbers j (some p ∷ rest) ≡ ok s
      → (more : List Pair) × (is_p_value numbers p ≡ true)
        × (indexed_from numbers (suc j) rest ≡ ok more)
        × (s ≡ (j, p) ∷ more)
  unfolding indexed_from
  indexed_from-some j p rest {s} h =
      let (u, h', valid) =
        >>=_inversion (raise_if (not (is_p_value numbers p)) (invalid_p_value j)) _ (s) h in
      let (more, h'', found) = >>=_inversion (indexed_from numbers (suc j) rest) _ s h' in
      (
        more,
        ground (arith, raise_if-eq-ok (not (is_p_value numbers p)) (invalid_p_value j) valid),
        found,
        sym (ok-injective h''),
      )

  indexed_from-above :
      (i j : ℕ) (p_values : List (Option Number)) {s : List Pair}
      → indexed_from numbers j p_values ≡ ok s
      → i < j
      → All (λ e. i < e.0) s
  unfolding indexed_from
  indexed_from-above i j [] h k = rw (← ok-injective h) tt
  indexed_from-above i j (none ∷ rest) h k = indexed_from-above i (suc j) rest h (omega arith)
  indexed_from-above i j (some p ∷ rest) h k =
      let (more, _, found, e) = indexed_from-some j p rest h in
      rw e (k, indexed_from-above i (suc j) rest found (omega arith))

  -- The pairs of a list that passes: their indices grow, their values are those that are there,
  -- and lie between zero and one.
  pub indexed_from_lem :
      (j : ℕ) (p_values : List (Option Number)) {s : List Pair}
      → indexed_from numbers j p_values ≡ ok s
      → AreApart s
        × (values numbers laws s ≡ present numbers p_values)
        × All (λ e. IsWeight numbers laws e.1) s
  unfolding indexed_from present
  indexed_from_lem j [] h = rw (← ok-injective h) (tt, refl, tt)
  indexed_from_lem j (none ∷ rest) h = indexed_from_lem (suc j) rest h
  indexed_from_lem j (some p ∷ rest) h =
      let (more, valid, found, e) = indexed_from-some j p rest h in
      let (apart, same, weights) = indexed_from_lem (suc j) rest found in
      rw e (
        (indexed_from-above j (suc j) rest found (omega arith), apart),
        ap (λ l. p ∷ l) same,
        ((ground arith, ground arith), weights),
      )

  module _ (decide : Number → Bool) where
    -- Decisions written at their indices, with what stands before them.
    pub written-indexed_from :
        (before : List (Option Bool)) (j : ℕ) (p_values : List (Option Number)) {s : List Pair}
        → length before ≡ j
        → indexed_from numbers j p_values ≡ ok s
        → written decide (before ++ map (λ _. none) p_values) s
          ≡ before ++ map (Option.map decide) p_values
    unfolding indexed_from written
    written-indexed_from before j [] l h = rw (← ok-injective h) refl
    written-indexed_from before j (none ∷ rest) l h =
        rw (append_assoc, append_assoc) at
          (written-indexed_from (before ++ none ∷ []) (suc j) rest
            (omega (arith, length-append before (none ∷ []))) h)
    written-indexed_from before j (some p ∷ rest) l h =
        let (more, _, found, e) = indexed_from-some j p rest h in
        let decided : Option Bool = some (decide p) in
        rw (e, written, ← l, set-append)
          (rw (append_assoc, append_assoc) at
            (written-indexed_from (before ++ decided ∷ []) (suc j) rest
              (omega (arith, length-append before (decided ∷ []))) found))
