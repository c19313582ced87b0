-- ===== src/Statistics/Rounds.antt =====
-- The loop over the sorted p-values: each round keeps what the running maximum says of the
-- p-values seen, and writes a decision.
use mathlib.Core.Logic.{◌↔◌}
use mathlib.Core.Option
use model_forensics_value_le.Prelude.{
  ℕ, suc, ◌-◌, ◌≡◌, refl, ap, ◌∙◌, Bool, true, Option, some, List, [], ◌∷◌, map, arith, All, length,
  set,
}
use model_forensics_value_le.Statistics.Numbers.{Numbers, Laws}
use model_forensics_value_le.Statistics.Adjust.{capped, larger, adjust}
use model_forensics_value_le.Statistics.Rejection.{is_critical, is_rejected}
use model_forensics_value_le.Statistics.Order.{
  All-map_at, values, IsWeight, larger-le, capped-le, larger-IsNumber, capped-IsNumber, IsAscending,
}
use model_forensics_value_le.Statistics.Critical.{
  rev_append, rev_append-All, rejected_of, IsCritical-of_rejected, within_of_critical,
}
use model_forensics_value_le.Statistics.Written.{map-set, written}

Bool-eq : (a b : Bool) → (a ≡ true → b ≡ true) → (b ≡ true → a ≡ true) → a ≡ b
Bool-eq a b to from = ground (arith, to, from)

module _ (numbers : Numbers) (laws : Laws numbers) (level : numbers.Number)
    (level_number : numbers.le level level ≡ true)
    (level_below : numbers.lt level numbers.one ≡ true) where
  abbrev Number : Type 0
  Number = numbers.Number

  abbrev pub within : Option Number → Option Bool
  within = Option.map (λ a. numbers.le a level)

  -- One round: the running maximum and the decision on the p-value at hand.
  module _ (seen : List Number) (p : Number) (rest : List Number)
      (below : All (λ e. numbers.le e p ≡ true) seen)
      (ascending : IsAscending numbers laws (p ∷ rest))
      (weights : All (λ q. IsWeight numbers laws q) (rev_append seen (p ∷ rest))) (running : Number)
      (running_number : numbers.le running running ≡ true)
      (earlier : (numbers.le running level ≡ true)
        ↔ All (λ q. is_critical numbers level (rev_append seen (p ∷ rest)) q ≡ true) seen) where
    abbrev candidate : Number
    candidate = numbers.times (suc (length rest)) p

    weight : IsWeight numbers laws p
    weight = (rev_append-All _ seen (p ∷ rest) weights).1.0

    abbrev reached : Number
    reached = larger numbers running (capped numbers candidate)

    candidate_number : numbers.le candidate candidate ≡ true
    candidate_number =
        laws.times_mono (suc (length rest)) (suc (length rest)) p p (omega arith) weight.0
          (laws.le_right _ _ weight.0) weight.1

    reached_number : numbers.le reached reached ≡ true
    reached_number =
        larger-IsNumber numbers laws running (capped numbers candidate) running_number
          (capped-IsNumber numbers laws candidate candidate_number)

    reached-within :
        (numbers.le reached level ≡ true)
        ↔ (numbers.le running level ≡ true) × (numbers.le candidate level ≡ true)
    reached-within =
        rw (← capped-le numbers laws candidate level candidate_number level_number level_below) (
          larger-le numbers laws running (capped numbers candidate) level running_number
            (capped-IsNumber numbers laws candidate candidate_number))

    above : All (λ q. numbers.le p q ≡ true) (p ∷ rest)
    above = (laws.le_right _ _ weight.0, ascending.0)

    reached-critical :
        (numbers.le reached level ≡ true)
        ↔ All (λ q. is_critical numbers level (rev_append seen (p ∷ rest)) q ≡ true) (p ∷ seen)
    reached-critical = (
      λ h.
          let (before, now) = reached-within.0 h in
          IsCritical-of_rejected numbers laws level seen p rest below above
            (rejected_of numbers laws level seen p rest below above weights now (earlier.0 before)),
      λ h.
          reached-within.1 (
            earlier.1 h.1,
            within_of_critical numbers laws level seen p rest below above weight h.0,
          ),
    )

    reached-eq-rejected :
        numbers.le reached level ≡ is_rejected numbers level (rev_append seen (p ∷ rest)) p
    reached-eq-rejected =
        Bool-eq _ _
          (λ h.
            let (before, now) = reached-within.0 h in
            rejected_of numbers laws level seen p rest below above weights now (earlier.0 before))
          (λ h.
            reached-critical.1
              (IsCritical-of_rejected numbers laws level seen p rest below above h))

  pub adjust-eq-written :
      (seen : List Number) (total rank : ℕ) (running : Number) (adjusted : List (Option Number))
      (s : List (ℕ × Number))
      → total - rank ≡ length (values numbers laws s)
      → IsAscending numbers laws (values numbers laws s)
      → All (λ q. IsWeight numbers laws q) (rev_append seen (values numbers laws s))
      → All (λ e. All (λ q. numbers.le e q ≡ true) (values numbers laws s)) seen
      → numbers.le running running ≡ true
      → ((numbers.le running level ≡ true)
          ↔ All
              (λ q. is_critical numbers level (rev_append seen (values numbers laws s)) q ≡ true)
              seen)
      → map within (adjust numbers total rank running adjusted s)
        ≡ written numbers laws
            (is_rejected numbers level (rev_append seen (values numbers laws s)))
            (map within adjusted)
            s
  unfolding adjust written
  adjust-eq-written seen total rank running adjusted [] _ _ _ _ _ _ = refl
  adjust-eq-written seen total rank running adjusted ((index, p) ∷ s) left up weights below number
        earlier =
      let rest : List Number = values numbers laws s in
      let near : All (λ e. numbers.le e p ≡ true) seen = All-map_at _ _ seen (λ e h. h.0) below in
      rw left (
        adjust-eq-written (p ∷ seen) total (suc rank)
          (reached seen p rest near up weights running number earlier)
          (set adjusted index (some (reached seen p rest near up weights running number earlier))) s
          (omega (arith, left)) up.1 weights (up.0, All-map_at _ _ seen (λ e h. h.1) below)
          (reached_number seen p rest near up weights running number earlier)
          (reached-critical seen p rest near up weights running number earlier)
        ∙ ap
            (λ l. written numbers laws (is_rejected numbers level (rev_append seen (p ∷ rest))) l s)
            (map-set within adjusted index
                (some (reached seen p rest near up weights running number earlier))
              ∙ ap (λ b. set (map within adjusted) index (some b))
                  (reached-eq-rejected seen p rest near up weights running number earlier)))
