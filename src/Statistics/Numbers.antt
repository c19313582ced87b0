-- ===== src/Statistics/Numbers.antt =====
-- The floating-point numbers of statistics.py are a parameter: the operations that the rules use,
-- and what IEEE 754 says of them.
use model_forensics_value_le.Prelude.{ℕ, ◌≤◌, ◌≡◌, Bool, true, not}

-- `times n x` is `n * x` for an `int` n.
pub record Numbers : Type 1 where
  pub Number : Type 0
  pub nought : Number
  pub one : Number
  pub le : Number → Number → Bool
  pub lt : Number → Number → Bool
  pub is_finite : Number → Bool
  pub minus : Number → Number
  pub times : ℕ → Number → Number

-- A comparison with a NaN is false, and NaN is what is not `<=` itself. The others are in order,
-- a negation turns the order round exactly, and rounding keeps the order of products.
pub record Laws (numbers : Numbers) : Type 0 where
  pub nought-le-one : numbers.le numbers.nought numbers.one ≡ true
  pub le_left : (x y : numbers.Number) → numbers.le x y ≡ true → numbers.le x x ≡ true
  pub le_right : (x y : numbers.Number) → numbers.le x y ≡ true → numbers.le y y ≡ true
  pub le_trans :
      (x y z : numbers.Number)
      → numbers.le x y ≡ true
      → numbers.le y z ≡ true
      → numbers.le x z ≡ true
  pub lt-eq-not-le :
      (x y : numbers.Number)
      → numbers.le x x ≡ true
      → numbers.le y y ≡ true
      → numbers.lt x y ≡ not (numbers.le y x)
  pub le_of_lt : (x y : numbers.Number) → numbers.lt x y ≡ true → numbers.le x y ≡ true
  pub is_finite-minus :
      (x : numbers.Number) → numbers.is_finite (numbers.minus x) ≡ numbers.is_finite x
  pub le_of_is_finite : (x : numbers.Number) → numbers.is_finite x ≡ true → numbers.le x x ≡ true
  pub le-minus :
      (x y : numbers.Number) → numbers.le (numbers.minus x) (numbers.minus y) ≡ numbers.le y x
  pub lt-minus :
      (x y : numbers.Number) → numbers.lt (numbers.minus x) (numbers.minus y) ≡ numbers.lt y x
  pub minus-minus : (x : numbers.Number) → numbers.minus (numbers.minus x) ≡ x
  pub minus_nought : numbers.le (numbers.minus numbers.nought) numbers.nought ≡ true
  -- For numbers from zero to one the product is in the order of both factors.
  pub times_mono :
      (m n : ℕ) (x y : numbers.Number)
      → m ≤ n
      → numbers.le numbers.nought x ≡ true
      → numbers.le x y ≡ true
      → numbers.le y numbers.one ≡ true
      → numbers.le (numbers.times m x) (numbers.times n y) ≡ true
