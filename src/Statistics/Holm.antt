-- ===== src/Statistics/Holm.antt =====
-- An adjusted p-value is within a level exactly when Holm's rule rejects at that level.
use mathlib.Core.Option
use mathlib.Core.Path.{fun_ext}
use model_forensics_value_le.Prelude.{
  ℕ, suc, ◌≡◌, refl, ap, ◌∙◌, true, Option, none, some, List, [], ◌∷◌, map, arith, All, length,
}
use model_forensics_value_le.Prelude.Outcome.{ok}
use model_forensics_value_le.Statistics.Numbers.{Numbers, Laws}
use model_forensics_value_le.Statistics.Adjust.{indexed_from, sorted, adjust, holm_adjust_pvalues}
use model_forensics_value_le.Statistics.Rejection.{present, is_critical, is_rejected}
use model_forensics_value_le.Statistics.Order.{All-map_at, values}
use model_forensics_value_le.Statistics.Sorting.{
  sorted-All, All-values, sorted-IsAscending, at_least-sorted, all-sorted, length-sorted,
}
use model_forensics_value_le.Statistics.Rounds.{within, adjust-eq-written}
use model_forensics_value_le.Statistics.Written.{
  IsPValue, written-sorted, indexed_from_lem, written-indexed_from,
}

module _ (numbers : Numbers) (laws : Laws numbers) (level : numbers.Number)
    (level_number : numbers.le level level ≡ true)
    (level_below : numbers.lt level numbers.one ≡ true) where
  abbrev Number : Type 0
  Number = numbers.Number

  is_rejected-sorted :
      (s : List (ℕ × Number)) (p : Number)
      → is_rejected numbers level (values numbers laws (sorted numbers s)) p
        ≡ is_rejected numbers level (values numbers laws s) p
  unfolding is_rejected is_critical
  is_rejected-sorted s p = simp (all-sorted numbers laws, is_critical, at_least-sorted numbers laws)

  indexed_from-returns :
      (j : ℕ) (p_values : List (Option Number))
      → All (IsPValue numbers) p_values
      → (s : List (ℕ × Number)) × (indexed_from numbers j p_values ≡ ok s)
  unfolding indexed_from
  indexed_from-returns j [] _ = ([], refl)
  indexed_from-returns j (none ∷ rest) h = indexed_from-returns (suc j) rest h.1
  indexed_from-returns j (some p ∷ rest) h =
      let (more, found) = indexed_from-returns (suc j) rest h.1 in
      ((j, p) ∷ more, rw (h.0, found) refl)

  length-values : (s : List (ℕ × Number)) → length (values numbers laws s) ≡ length s
  length-values [] = refl
  length-values (pair ∷ rest) = ap suc (length-values rest)

  map-none :
      (p_values : List (Option Number))
      → map (within numbers laws level level_number level_below) (map (λ _. none) p_values)
        ≡ map (λ _. none) p_values
  map-none [] = refl
  map-none (p ∷ rest) = ap (λ l. none ∷ l) (map-none rest)

  module _ (level_weight : numbers.le numbers.nought level ≡ true) where
    adjust-sorted :
        (p_values : List (Option Number)) (s : List (ℕ × Number))
        → indexed_from numbers 0 p_values ≡ ok s
        → map (within numbers laws level level_number level_below) (
            adjust numbers
              (length s)
              0
              numbers.nought
              (map (λ _. none) p_values)
              (sorted numbers s))
          ≡ map (Option.map (is_rejected numbers level (present numbers p_values))) p_values
    adjust-sorted p_values s found =
        let (apart, same, weights) = indexed_from_lem numbers laws 0 p_values found in
        let whole : List Number = values numbers laws (sorted numbers s) in
        let rule : is_rejected numbers level whole
            ≡ is_rejected numbers level (present numbers p_values) =
          fun_ext (is_rejected-sorted s) ∙ ap (is_rejected numbers level) same in
        adjust-eq-written numbers laws level level_number level_below [] (length s) 0 numbers.nought
          (map (λ _. none) p_values) (sorted numbers s)
          (omega (arith, length-values (sorted numbers s), length-sorted numbers laws s))
          (sorted-IsAscending numbers laws s
            (All-map_at _ _ s (λ e h. laws.le_right _ _ h.0) weights))
          (All-values numbers laws _ (sorted numbers s) (sorted-All numbers laws _ s weights)) tt
          (laws.le_left _ _ laws.nought-le-one) (λ _. tt, λ _. level_weight)
        ∙ rw (map-none p_values, rule)
            (written-sorted numbers laws (is_rejected numbers level (present numbers p_values))
                (map (λ _. none) p_values) s apart
              ∙ written-indexed_from numbers laws
                  (is_rejected numbers level (present numbers p_values)) [] 0 p_values refl found)

    -- The adjustment of valid p-values returns, and at a level that is not negative and below one
    -- an adjusted p-value is within the level exactly if Holm's rule rejects the hypothesis: each
    -- p-value up to its own, times the number of those that are no smaller, is within the level.
    -- A missing p-value stays missing, and each result stands at the position of its p-value.
    pub holm_adjust_pvalues-rejects :
        (p_values : List (Option Number))
        → All (IsPValue numbers) p_values
        → (adjusted : List (Option Number)) × (holm_adjust_pvalues numbers p_values ≡ ok adjusted)
          × (map (Option.map (λ a. numbers.le a level)) adjusted
              ≡ map (Option.map (is_rejected numbers level (present numbers p_values))) p_values)
    unfolding holm_adjust_pvalues
    holm_adjust_pvalues-rejects p_values h =
        let (s, found) = indexed_from-returns 0 p_values h in
        (
          adjust numbers (length s) 0 numbers.nought (map (λ _. none) p_values) (sorted numbers s),
          rw found refl,
          adjust-sorted p_values s found,
        )
