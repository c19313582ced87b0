-- ===== src/Statistics/Rejection.antt =====
-- What it is to reject hypotheses at a level by Holm's rule, said of the p-values with no order
-- and no positions.
use model_forensics_value_le.Prelude.{
  ℕ, ◌+◌, Bool, true, not, ◌&&◌, ◌||◌, Option, none, some, List, [], ◌∷◌, if◌then◌else◌,
}
use model_forensics_value_le.Statistics.Numbers.{Numbers}

module _ (numbers : Numbers) where
  abbrev Number : Type 0
  Number = numbers.Number

  -- The p-values that are there.
  unfoldable pub present : List (Option Number) → List Number
  present [] = []
  present (none ∷ rest) = present rest
  present (some p ∷ rest) = p ∷ present rest

  -- How many of the p-values are at least `q`.
  unfoldable pub at_least : Number → List Number → ℕ
  at_least q [] = 0
  at_least q (r ∷ rest) = (if numbers.le q r then 1 else 0) + at_least q rest

  -- `q`, times the number of the p-values that are no smaller, is within the level.
  unfoldable pub is_critical : Number → List Number → Number → Bool
  is_critical level p_values q = numbers.le (numbers.times (at_least q p_values) q) level

  abbrev pub all : (Number → Bool) → List Number → Bool
  all test [] = true
  all test (q ∷ rest) = test q && all test rest

  -- Holm rejects the hypothesis with the p-value `p` if each p-value up to `p` is critical.
  unfoldable pub is_rejected : Number → List Number → Number → Bool
  is_rejected level p_values p =
      all (λ q. not (numbers.le q p) || is_critical level p_values q) p_values
