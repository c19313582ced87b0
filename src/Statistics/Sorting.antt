-- ===== src/Statistics/Sorting.antt =====
-- Sorting by the values: it ascends, and keeps counts, tests and lengths.
use model_forensics_value_le.Prelude.{
  ℕ, suc, ◌≡◌, refl, ap, ◌∙◌, inl, inr, Bool, true, List, [], ◌∷◌, arith, All, Bool-cases, length,
}
use model_forensics_value_le.Statistics.Numbers.{Numbers, Laws}
use model_forensics_value_le.Statistics.Adjust.{insert_pair, sorted}
use model_forensics_value_le.Statistics.Rejection.{at_least, all}
use model_forensics_value_le.Statistics.Order.{All-map_at, values, le_of_not_lt, IsAscending}

module _ (numbers : Numbers) (laws : Laws numbers) where
  abbrev Number : Type 0
  Number = numbers.Number

  abbrev Pair : Type 0
  Pair = ℕ × numbers.Number

  pub insert_pair-All :
      (P : Pair → Type 0) (pair : Pair) (s : List Pair)
      → P pair
      → All P s
      → All P (insert_pair numbers pair s)
  unfolding insert_pair
  insert_pair-All P pair [] h _ = (h, tt)
  insert_pair-All P pair (first ∷ rest) h hs = elim (Bool-cases (numbers.lt first.1 pair.1)) [
    | inl after ↦ rw after (hs.0, insert_pair-All P pair rest h hs.1)
    | inr here ↦ rw here (h, hs)
  ]

  pub sorted-All : (P : Pair → Type 0) (s : List Pair) → All P s → All P (sorted numbers s)
  unfolding sorted
  sorted-All P [] _ = tt
  sorted-All P (pair ∷ rest) h =
      insert_pair-All P pair (sorted numbers rest) h.0 (sorted-All P rest h.1)

  pub All-values :
      (P : Number → Type 0) (s : List Pair) → All (λ e. P e.1) s → All P (values numbers laws s)
  All-values P [] _ = tt
  All-values P (pair ∷ rest) h = (h.0, All-values P rest h.1)

  values-All :
      (P : Number → Type 0) (s : List Pair) → All P (values numbers laws s) → All (λ e. P e.1) s
  values-All P [] _ = tt
  values-All P (pair ∷ rest) h = (h.0, values-All P rest h.1)

  insert_pair-IsAscending :
      (pair : Pair) (s : List Pair)
      → numbers.le pair.1 pair.1 ≡ true
      → All (λ e. numbers.le e.1 e.1 ≡ true) s
      → IsAscending numbers laws (values numbers laws s)
      → IsAscending numbers laws (values numbers laws (insert_pair numbers pair s))
  unfolding insert_pair
  insert_pair-IsAscending pair [] h _ _ = (tt, tt)
  insert_pair-IsAscending pair (first ∷ rest) h hs up =
      elim (Bool-cases (numbers.lt first.1 pair.1)) [
        | inl after ↦ rw after (
          All-values _ _ (
              insert_pair-All (λ e. numbers.le first.1 e.1 ≡ true) pair rest
                (laws.le_of_lt first.1 pair.1 after) (values-All _ rest up.0)),
          insert_pair-IsAscending pair rest h hs.1 up.1,
        )
        | inr here ↦
            let least : numbers.le pair.1 first.1 ≡ true =
              le_of_not_lt numbers laws first.1 pair.1 hs.0 h here in
            rw here (
              (
                least,
                All-map_at _ _ (values numbers laws rest)
                    (λ q. laws.le_trans pair.1 first.1 q least) up.0,
              ),
              up,
            )
      ]

  pub sorted-IsAscending :
      (s : List Pair)
      → All (λ e. numbers.le e.1 e.1 ≡ true) s
      → IsAscending numbers laws (values numbers laws (sorted numbers s))
  unfolding sorted
  sorted-IsAscending [] _ = tt
  sorted-IsAscending (pair ∷ rest) h =
      insert_pair-IsAscending pair (sorted numbers rest) h.0 (sorted-All _ rest h.1)
        (sorted-IsAscending rest h.1)

  at_least-insert_pair :
      (q : Number) (pair : Pair) (s : List Pair)
      → at_least numbers q (values numbers laws (insert_pair numbers pair s))
        ≡ at_least numbers q (values numbers laws (pair ∷ s))
  unfolding insert_pair at_least
  at_least-insert_pair q pair [] = refl
  at_least-insert_pair q pair (first ∷ rest) = ground (arith, at_least-insert_pair q pair rest)

  pub at_least-sorted :
      (q : Number) (s : List Pair)
      → at_least numbers q (values numbers laws (sorted numbers s))
        ≡ at_least numbers q (values numbers laws s)
  unfolding sorted at_least
  at_least-sorted q [] = refl
  at_least-sorted q (pair ∷ rest) =
      ground (arith, at_least-insert_pair q pair (sorted numbers rest), at_least-sorted q rest)

  all-insert_pair :
      (test : Number → Bool) (pair : Pair) (s : List Pair)
      → all numbers test (values numbers laws (insert_pair numbers pair s))
        ≡ all numbers test (values numbers laws (pair ∷ s))
  unfolding insert_pair
  all-insert_pair test pair [] = refl
  all-insert_pair test pair (first ∷ rest) = ground (arith, all-insert_pair test pair rest)

  pub all-sorted :
      (test : Number → Bool) (s : List Pair)
      → all numbers test (values numbers laws (sorted numbers s))
        ≡ all numbers test (values numbers laws s)
  unfolding sorted
  all-sorted test [] = refl
  all-sorted test (pair ∷ rest) =
      ground (arith, all-insert_pair test pair (sorted numbers rest), all-sorted test rest)

  length-insert_pair :
      (pair : Pair) (s : List Pair) → length (insert_pair numbers pair s) ≡ suc (length s)
  unfolding insert_pair
  length-insert_pair pair [] = refl
  length-insert_pair pair (first ∷ rest) = ground (arith, length-insert_pair pair rest)

  pub length-sorted : (s : List Pair) → length (sorted numbers s) ≡ length s
  unfolding sorted
  length-sorted [] = refl
  length-sorted (pair ∷ rest) =
      length-insert_pair pair (sorted numbers rest) ∙ ap suc (length-sorted rest)
