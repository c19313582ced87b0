-- ===== src/Statistics/Order.antt =====
-- The order of the numbers: the choices of `min` and `max`, counts, and what sorting establishes.
use mathlib.Core.Logic.{◌↔◌}
use model_forensics_value_le.Prelude.{
  ℕ, ◌≤◌, ◌≡◌, inl, inr, true, false, List, [], ◌∷◌, arith, All, Bool-cases,
}
use model_forensics_value_le.Statistics.Numbers.{Numbers, Laws}
use model_forensics_value_le.Statistics.Adjust.{capped, larger}
use model_forensics_value_le.Statistics.Rejection.{at_least}

pub All-map_at {ℓ κ} :
    {A : Type ℓ} (P Q : A → Type κ) (xs : List A) → ((x : A) → P x → Q x) → All P xs → All Q xs
All-map_at P Q [] f h = tt
All-map_at P Q (x ∷ xs) f h = (f x h.0, All-map_at P Q xs f h.1)

module _ (numbers : Numbers) (laws : Laws numbers) where
  abbrev Number : Type 0
  Number = numbers.Number

  -- The values of the pairs.
  abbrev pub values : List (ℕ × Number) → List Number
  values [] = []
  values (pair ∷ rest) = pair.1 ∷ values rest

  -- A number from zero to one.
  abbrev pub IsWeight : Number → Type 0
  IsWeight x = (numbers.le numbers.nought x ≡ true) × (numbers.le x numbers.one ≡ true)

  pub le_of_not_lt :
      (x y : Number)
      → numbers.le x x ≡ true
      → numbers.le y y ≡ true
      → numbers.lt x y ≡ false
      → numbers.le y x ≡ true
  le_of_not_lt x y hx hy h = ground (arith, laws.lt-eq-not-le x y hx hy)

  pub larger-le :
      (x y z : Number)
      → numbers.le x x ≡ true
      → numbers.le y y ≡ true
      → (numbers.le (larger numbers x y) z ≡ true)
        ↔ (numbers.le x z ≡ true) × (numbers.le y z ≡ true)
  unfolding larger
  larger-le x y z hx hy = elim (Bool-cases (numbers.lt x y)) [
    | inl less ↦ rw less (λ h. (laws.le_trans x y z (laws.le_of_lt x y less) h, h), λ (p, q). q)
    | inr more ↦
        rw more (λ h. (h, laws.le_trans y x z (le_of_not_lt x y hx hy more) h), λ (p, q). p)
  ]

  -- Under a level below one the cap makes no difference.
  pub capped-le :
      (x level : Number)
      → numbers.le x x ≡ true
      → numbers.le level level ≡ true
      → numbers.lt level numbers.one ≡ true
      → numbers.le (capped numbers x) level ≡ numbers.le x level
  unfolding capped
  capped-le x level hx hl below =
      let h1 : numbers.le numbers.one numbers.one ≡ true =
        laws.le_right numbers.nought numbers.one laws.nought-le-one in
      ground (
        arith,
        laws.lt-eq-not-le x numbers.one hx h1,
        laws.lt-eq-not-le level numbers.one hl h1,
        laws.le_trans numbers.one x level,
      )

  pub larger-IsNumber :
      (x y : Number)
      → numbers.le x x ≡ true
      → numbers.le y y ≡ true
      → numbers.le (larger numbers x y) (larger numbers x y) ≡ true
  unfolding larger
  larger-IsNumber x y hx hy = ground arith

  pub capped-IsNumber :
      (x : Number) → numbers.le x x ≡ true → numbers.le (capped numbers x) (capped numbers x) ≡ true
  unfolding capped
  capped-IsNumber x hx = ground (arith, laws.le_right numbers.nought numbers.one laws.nought-le-one)

  pub at_least-antitone :
      (p q : Number) (xs : List Number)
      → numbers.le p q ≡ true
      → at_least numbers q xs ≤ at_least numbers p xs
  unfolding at_least
  at_least-antitone p q [] h = omega arith
  at_least-antitone p q (r ∷ rest) h =
      ground (arith, laws.le_trans p q r h, at_least-antitone p q rest h)

  -- Ascending by value.
  abbrev pub IsAscending : List Number → Type 0
  IsAscending [] = Unit
  IsAscending (p ∷ rest) = All (λ q. numbers.le p q ≡ true) rest × IsAscending rest
