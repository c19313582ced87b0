-- ===== src/EstimateSpans/Positions.antt =====
-- The occurrences that estimate_spans.py finds, against all places of a quote.
use model_forensics_value_le.Prelude.{
  ℕ, zero, suc, ◌+◌, ◌-◌, ◌≤◌, ◌<◌, ◌≡◌, refl, sym, ap, ◌∙◌, false, Option, none, some, List, [],
  ◌∷◌, length, drop, length-drop, drop-drop, arith, inl, inr, Bool-cases, Option-cases, ltb,
  if◌then◌else◌,
}
use model_forensics_value_le.EstimateSpans.Span.{no_codes}
use model_forensics_value_le.EstimateSpans.Collect.{
  starts_with, find_at, find, occurrences_from, occurrences,
}

-- All places of a quote, overlapping ones included.
unfoldable pub positions : List ℕ → ℕ → List ℕ → List ℕ
positions quote i [] = []
positions quote i (x ∷ xs) =
    let rest = positions quote (suc i) xs in if starts_with quote (x ∷ xs) then i ∷ rest else rest

starts_with_empty : (quote : List ℕ) → no_codes quote ≡ false → starts_with quote [] ≡ false
unfolding starts_with
starts_with_empty [] h = cc
starts_with_empty (q ∷ qs) h = refl

some-injective_of : {a b : ℕ} → ◌≡◌ {A = Option ℕ} (some a) (some b) → a ≡ b
some-injective_of h = cc

drop_past : (text : List ℕ) (n : ℕ) → length text < n → drop n text ≡ []
drop_past [] zero h = refl
drop_past [] (suc n) h = refl
drop_past (x ∷ xs) zero h = absurd (ground arith)
drop_past (x ∷ xs) (suc n) h = drop_past xs n (omega arith)

module _ (quote : List ℕ) (visible : no_codes quote ≡ false) where
  positions_nil : (i : ℕ) → positions quote i [] ≡ []
  unfolding positions
  positions_nil i = refl

  find_at-none : (i : ℕ) (xs : List ℕ) → find_at quote i xs ≡ none → positions quote i xs ≡ []
  unfolding find_at positions
  find_at-none i [] h = refl
  find_at-none i (x ∷ xs) h = ground (arith, find_at-none (suc i) xs)

  -- The first place, and those after it.
  find_at-some :
      (i j : ℕ) (xs : List ℕ)
      → find_at quote i xs ≡ some j
      → (i ≤ j)
        × (j < i + length xs)
        × (positions quote i xs ≡ j ∷ positions quote (suc j) (drop (suc j - i) xs))
  unfolding find_at positions
  find_at-some i j [] h = absurd (ground (arith, starts_with_empty quote visible))
  find_at-some i j (x ∷ xs) h = elim (Bool-cases (starts_with quote (x ∷ xs))) [
    | inl here ↦
        let e : i ≡ j = some-injective_of (ground arith) in
        let step : suc j - i ≡ 1 = omega arith in
        (omega arith, omega arith, rw (here, step) (ap (λ k. k ∷ positions quote (suc k) xs) e))
    | inr not_here ↦
        let later : find_at quote (suc i) xs ≡ some j = ground arith in
        let (low, high, all) = find_at-some (suc i) j xs later in
        let step : suc j - i ≡ suc (suc j - suc i) = omega arith in
        (omega arith, omega arith, rw (not_here, step) all)
  ]

  find-none :
      (text : List ℕ) (cursor : ℕ)
      → find text quote cursor ≡ none
      → positions quote cursor (drop cursor text) ≡ []
  unfolding find
  find-none text cursor h = elim (Bool-cases (ltb (length text) cursor)) [
    | inl past ↦ rw (drop_past text cursor (ground arith)) (positions_nil cursor)
    | inr inside ↦ find_at-none cursor (drop cursor text) (ground arith)
  ]

  find-some :
      (text : List ℕ) (cursor j : ℕ)
      → find text quote cursor ≡ some j
      → (cursor ≤ j)
        × (j < length text)
        × (positions quote cursor (drop cursor text)
            ≡ j ∷ positions quote (suc j) (drop (suc j) text))
  unfolding find
  find-some text cursor j h = elim (Bool-cases (ltb (length text) cursor)) [
    | inl past ↦ absurd (ground arith)
    | inr inside ↦
        let found : find_at quote cursor (drop cursor text) ≡ some j = ground arith in
        let (low, high, all) = find_at-some cursor j (drop cursor text) found in
        let size = length-drop cursor text in
        let room : cursor ≤ length text = ground arith in
        let step : cursor + (suc j - cursor) ≡ suc j = omega arith in
        (
          low,
          omega arith,
          all
              ∙ ap (λ xs. j ∷ positions quote (suc j) xs)
                  (drop-drop (suc j - cursor) cursor text ∙ ap (λ n. drop n text) step),
        )
  ]

  occurrences_from-positions :
      (fuel : ℕ) (text : List ℕ) (cursor : ℕ)
      → suc (length text) ≤ fuel + cursor
      → 0 < fuel
      → occurrences_from fuel text quote cursor ≡ positions quote cursor (drop cursor text)
  unfolding occurrences_from
  occurrences_from-positions zero text cursor enough some_fuel = elim some_fuel [ ]
  occurrences_from-positions (suc fuel) text cursor enough some_fuel =
      elim (Option-cases (find text quote cursor)) [
        | inl absent ↦ rw (occurrences_from, absent) (sym (find-none text cursor absent))
        | inr (j, found) ↦
            let (low, high, all) = find-some text cursor j found in
            rw (occurrences_from, found)
              (ap (λ xs. j ∷ xs)
                  (occurrences_from-positions fuel text (suc j) (omega arith) (omega arith))
                ∙ sym all)
      ]

  -- The loop of `_occurrences` finds, for a quote that is not empty, each place of the quote in the
  -- text, overlapping ones included, once and in order, and ends.
  pub occurrences-positions : (text : List ℕ) → occurrences text quote ≡ positions quote 0 text
  unfolding occurrences
  occurrences-positions text =
      occurrences_from-positions (suc (suc (length text))) text 0 (omega arith) (omega arith)
