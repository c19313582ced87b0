-- ===== src/Statistics/Critical.antt =====
-- One round of the adjustment: what is known of the p-values before a sorted one and at it says
-- whether it is rejected.
use mathlib.Core.Logic.{◌↔◌}
use model_forensics_value_le.Prelude.{
  ℕ, ◌+◌, ◌≤◌, ◌≡◌, refl, ◌⊎◌, inl, inr, Bool, true, not, ◌||◌, List, [], ◌∷◌, arith, All,
  Bool-cases, length,
}
use model_forensics_value_le.Statistics.Numbers.{Numbers, Laws}
use model_forensics_value_le.Statistics.Rejection.{at_least, is_critical, all, is_rejected}
use model_forensics_value_le.Statistics.Order.{All-map_at, IsWeight, at_least-antitone}

-- The first list in reverse, before the second: what a loop has seen, and what is left.
abbrev pub rev_append {ℓ} : {A : Type ℓ} → List A → List A → List A
rev_append [] ys = ys
rev_append (x ∷ xs) ys = rev_append xs (x ∷ ys)

All-both {ℓ κ} :
    {A : Type ℓ} (P Q : A → Type κ) (xs : List A) → All P xs → All Q xs → All (λ x. P x × Q x) xs
All-both P Q [] _ _ = tt
All-both P Q (x ∷ xs) hp hq = ((hp.0, hq.0), All-both P Q xs hp.1 hq.1)

module _ {ℓ κ} {A : Type ℓ} (P : A → Type κ) where
  pub All-rev_append : (xs ys : List A) → All P xs → All P ys → All P (rev_append xs ys)
  All-rev_append [] ys _ h = h
  All-rev_append (x ∷ xs) ys hx hy = All-rev_append xs (x ∷ ys) hx.1 (hx.0, hy)

  pub rev_append-All : (xs ys : List A) → All P (rev_append xs ys) → All P xs × All P ys
  rev_append-All [] ys h = (tt, h)
  rev_append-All (x ∷ xs) ys h = let (hx, hy) = rev_append-All xs (x ∷ ys) h in ((hy.0, hx), hy.1)

module _ (numbers : Numbers) (laws : Laws numbers) where
  abbrev Number : Type 0
  Number = numbers.Number

  at_least-rev_append :
      (q : Number) (xs ys : List Number)
      → at_least numbers q (rev_append xs ys) ≡ at_least numbers q xs + at_least numbers q ys
  unfolding at_least
  at_least-rev_append q [] ys = omega arith
  at_least-rev_append q (x ∷ xs) ys = omega (arith, at_least-rev_append q xs (x ∷ ys))

  at_least-le-length : (q : Number) (xs : List Number) → at_least numbers q xs ≤ length xs
  unfolding at_least
  at_least-le-length q [] = omega arith
  at_least-le-length q (x ∷ xs) = ground (arith, at_least-le-length q xs)

  at_least-All :
      (q : Number) (xs : List Number)
      → All (λ x. numbers.le q x ≡ true) xs
      → at_least numbers q xs ≡ length xs
  unfolding at_least
  at_least-All q [] _ = refl
  at_least-All q (x ∷ xs) h = ground (arith, at_least-All q xs h.1)

  at_least-found :
      (P : Number → Type 0) (q : Number) (xs : List Number)
      → All P xs
      → (at_least numbers q xs ≡ 0) ⊎ ((e : Number) × (numbers.le q e ≡ true) × P e)
  unfolding at_least
  at_least-found P q [] _ = inl refl
  at_least-found P q (x ∷ xs) h = elim (Bool-cases (numbers.le q x)) [
    | inl below ↦ inr (x, below, h.0)
    | inr above ↦ elim (at_least-found P q xs h.1) [
      | inl none_there ↦ inl (ground arith)
      | inr found ↦ inr found
    ]
  ]

  all-iff_All :
      (p : Number) (test : Number → Bool) (xs : List Number)
      → (all numbers (λ q. not (numbers.le q p) || test q) xs ≡ true)
        ↔ All (λ q. numbers.le q p ≡ true → test q ≡ true) xs
  all-iff_All p test [] = (λ _. tt, λ _. refl)
  all-iff_All p test (x ∷ xs) =
      let (to, from) = all-iff_All p test xs in
      (λ h. (λ k. ground arith, to (ground arith)), λ h. ground (arith, h.0, from h.1))

  module _ (level : Number) where
    -- The p-values that were seen, the one at hand, and the rest.
    module _ (seen : List Number) (p : Number) (rest : List Number)
        (below : All (λ e. numbers.le e p ≡ true) seen)
        (above : All (λ q. numbers.le p q ≡ true) (p ∷ rest)) where
      abbrev whole : List Number
      whole = rev_append seen (p ∷ rest)

      abbrev pub IsCritical : Number → Type 0
      IsCritical q = is_critical numbers level whole q ≡ true

      IsCritical-of_le :
          (q e : Number) (n : ℕ)
          → IsWeight numbers laws q
          → numbers.le q e ≡ true
          → numbers.le e numbers.one ≡ true
          → at_least numbers q whole ≤ n
          → numbers.le (numbers.times n e) level ≡ true
          → IsCritical q
      unfolding is_critical
      IsCritical-of_le q e n weight h top few within =
          laws.le_trans _ _ _ (laws.times_mono _ n q e few weight.0 h top) within

      -- One of the rest that is no larger than the one at hand.
      IsCritical-at :
          numbers.le (numbers.times (length (p ∷ rest)) p) level ≡ true
          → All IsCritical seen
          → numbers.le p numbers.one ≡ true
          → (q : Number) → IsWeight numbers laws q
          → numbers.le p q ≡ true
          → numbers.le q p ≡ true
          → IsCritical q
      unfolding is_critical
      IsCritical-at within earlier top q weight up down =
          elim (at_least-found (λ e. IsCritical e × (numbers.le e p ≡ true)) q seen
            (All-both _ _ seen earlier below)) [
              | inl none_there ↦
                  IsCritical-of_le q p (length (p ∷ rest)) weight down top
                    (omega (
                      arith,
                      at_least-rev_append q seen (p ∷ rest),
                      at_least-le-length q (p ∷ rest),
                    ))
                    within
              | inr (e, h, (critical, early)) ↦
                  IsCritical-of_le q e (at_least numbers e whole) weight h
                    (laws.le_trans e p numbers.one early top)
                    (at_least-antitone numbers laws e q whole (laws.le_trans e p q early up))
                    critical
            ]

      -- The p-values up to the one at hand are critical if those seen are, and the number of
      -- p-values that are left, times the one at hand, is within the level.
      pub rejected_of :
          All (λ q. IsWeight numbers laws q) whole
          → numbers.le (numbers.times (length (p ∷ rest)) p) level ≡ true
          → All IsCritical seen
          → is_rejected numbers level whole p ≡ true
      unfolding is_rejected
      rejected_of weights within earlier =
          let now = (rev_append-All _ seen (p ∷ rest) weights).1 in
          (all-iff_All p (is_critical numbers level whole) whole).1 (
            All-rev_append _ seen (p ∷ rest) (All-map_at IsCritical _ seen (λ q h _. h) earlier) (
              All-map_at _ _ (p ∷ rest) (λ q (h, w). IsCritical-at within earlier now.0.1 q w h)
                (All-both _ _ (p ∷ rest) above now)))

      -- The other direction.
      pub IsCritical-of_rejected :
          is_rejected numbers level whole p ≡ true → All IsCritical (p ∷ seen)
      unfolding is_rejected
      IsCritical-of_rejected h =
          let (before, now) =
            rev_append-All _ seen (p ∷ rest)
              ((all-iff_All p (is_critical numbers level whole) whole).0 h) in
          (now.0 above.0, All-map_at _ _ seen (λ q (f, k). f k) (All-both _ _ seen before below))

      pub within_of_critical :
          IsWeight numbers laws p
          → IsCritical p
          → numbers.le (numbers.times (length (p ∷ rest)) p) level ≡ true
      unfolding is_critical
      within_of_critical weight h =
          laws.le_trans _ _ _
            (laws.times_mono (length (p ∷ rest)) (at_least numbers p whole) p p
              (omega
                (arith, at_least-rev_append p seen (p ∷ rest), at_least-All p (p ∷ rest) above))
              weight.0 above.0 weight.1)
            h
