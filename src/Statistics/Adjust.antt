-- ===== src/Statistics/Adjust.antt =====
-- `holm_adjust_pvalues` of statistics.py.
use model_forensics_value_le.Prelude.{
  ℕ, suc, ◌-◌, Bool, not, ◌&&◌, Option, none, some, List, [], ◌∷◌, map, length, set, if◌then◌else◌,
}
use model_forensics_value_le.Prelude.Outcome.{Result, ok, ◌>>=◌, ◌>>◌, raise_if}
use model_forensics_value_le.Statistics.Numbers.{Numbers}

-- `invalid p-value at index`
pub data PValueError : Type 0 where
  invalid_p_value : ℕ → PValueError

-- `min(1.0, x)` and `max(x, y)` give the first argument unless the second is strictly beyond it.
module _ (numbers : Numbers) where
  abbrev Number : Type 0
  Number = numbers.Number

  unfoldable pub capped : Number → Number
  capped x = if numbers.lt x numbers.one then x else numbers.one

  unfoldable pub larger : Number → Number → Number
  larger x y = if numbers.lt x y then y else x

  -- The test of a p-value.
  abbrev pub is_p_value : Number → Bool
  is_p_value p = (numbers.le numbers.nought p && numbers.le p numbers.one) && numbers.is_finite p

  -- The loop that fills `indexed`, from the given index on.
  unfoldable pub indexed_from : ℕ → List (Option Number) → Result PValueError (List (ℕ × Number))
  indexed_from index [] = ok []
  indexed_from index (none ∷ rest) = indexed_from (suc index) rest
  indexed_from index (some p ∷ rest) = do
    raise_if (not (is_p_value p)) (invalid_p_value index)
    more ← indexed_from (suc index) rest
    ok ((index, p) ∷ more)

  -- `sorted(indexed, key=lambda pair: pair[1])`: stable, by `<` on the values.
  unfoldable pub insert_pair : ℕ × Number → List (ℕ × Number) → List (ℕ × Number)
  insert_pair pair [] = pair ∷ []
  insert_pair pair (first ∷ rest) =
      if numbers.lt first.1 pair.1 then first ∷ insert_pair pair rest else pair ∷ first ∷ rest

  unfoldable pub sorted : List (ℕ × Number) → List (ℕ × Number)
  sorted [] = []
  sorted (pair ∷ rest) = insert_pair pair (sorted rest)

  -- The loop over the sorted pairs.
  unfoldable pub adjust :
      ℕ → ℕ → Number → List (Option Number) → List (ℕ × Number) → List (Option Number)
  adjust total rank running adjusted [] = adjusted
  adjust total rank running adjusted ((index, p) ∷ rest) =
      let reached = larger running (capped (numbers.times (total - rank) p)) in
      adjust total (suc rank) reached (set adjusted index (some reached)) rest

  -- `holm_adjust_pvalues`
  unfoldable pub holm_adjust_pvalues :
      List (Option Number) → Result PValueError (List (Option Number))
  holm_adjust_pvalues p_values = do
    indexed ← indexed_from 0 p_values
    ok (adjust (length indexed) 0 numbers.nought (map (λ _. none) p_values) (sorted indexed))
