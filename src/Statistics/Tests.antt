-- ===== src/Statistics/Tests.antt =====
-- Tests and instances: numbers in whole thousandths.
use mathlib.Core.Option
use native.Mathlib.Nat.{mul-le-mul}
use model_forensics_value_le.Prelude.{
  ℕ, zero, suc, ◌+◌, ◌*◌, ◌≤◌, ◌≡◌, refl, Bool, true, false, not, Option, none, some, List, [], ◌∷◌,
  map, arith, ltb, leb,
}
use model_forensics_value_le.Prelude.Outcome.{ok, err}
use model_forensics_value_le.Statistics.Numbers.{Numbers, Laws}
use model_forensics_value_le.Statistics.Adjust.{
  indexed_from, adjust, sorted, insert_pair, larger, capped, holm_adjust_pvalues, invalid_p_value,
}
use model_forensics_value_le.Statistics.Rejection.{present, at_least, is_critical, is_rejected}
use model_forensics_value_le.Statistics.Holm.{holm_adjust_pvalues-rejects}
use model_forensics_value_le.Statistics.Effects.{
  positive, practically_null, high_below_low, conclusion_of, classify_effect,
}
use model_forensics_value_le.Statistics.Mirror.{mirrored_result, classify_effect-minus}

-- `below n` is -(n + 1) thousandths.
data Thousandths : Type 0 where
  at : ℕ → Thousandths
  below : ℕ → Thousandths

abbrev at_most : Thousandths → Thousandths → Bool
at_most (at m) (at n) = leb m n
at_most (at m) (below n) = false
at_most (below m) (at n) = true
at_most (below m) (below n) = leb n m

abbrev under : Thousandths → Thousandths → Bool
under (at m) (at n) = ltb m n
under (at m) (below n) = false
under (below m) (at n) = true
under (below m) (below n) = ltb n m

abbrev opposite : Thousandths → Thousandths
opposite (at zero) = at 0
opposite (at (suc n)) = below n
opposite (below n) = at (suc n)

abbrev multiple : ℕ → Thousandths → Thousandths
multiple m (at n) = at (m * n)
multiple zero (below n) = at 0
multiple (suc m) (below n) = below (m * suc n + n)

abbrev thousandths : Numbers
thousandths = record {
  Number = Thousandths;
  nought = at 0;
  one = at 1000;
  le = at_most;
  lt = under;
  is_finite = λ _. true;
  minus = opposite;
  times = multiple;
}

opposite-opposite : (x : Thousandths) → opposite (opposite x) ≡ x
opposite-opposite (at zero) = refl
opposite-opposite (at (suc n)) = refl
opposite-opposite (below n) = refl

at_most-opposite : (x y : Thousandths) → at_most (opposite x) (opposite y) ≡ at_most y x
at_most-opposite (at zero) (at zero) = refl
at_most-opposite (at zero) (at (suc n)) = ground arith
at_most-opposite (at (suc m)) (at zero) = ground arith
at_most-opposite (at (suc m)) (at (suc n)) = ground arith
at_most-opposite (at zero) (below n) = ground arith
at_most-opposite (at (suc m)) (below n) = refl
at_most-opposite (below m) (at zero) = ground arith
at_most-opposite (below m) (at (suc n)) = refl
at_most-opposite (below m) (below n) = ground arith

under-opposite : (x y : Thousandths) → under (opposite x) (opposite y) ≡ under y x
under-opposite (at zero) (at zero) = refl
under-opposite (at zero) (at (suc n)) = ground arith
under-opposite (at (suc m)) (at zero) = ground arith
under-opposite (at (suc m)) (at (suc n)) = ground arith
under-opposite (at zero) (below n) = ground arith
under-opposite (at (suc m)) (below n) = refl
under-opposite (below m) (at zero) = ground arith
under-opposite (below m) (at (suc n)) = refl
under-opposite (below m) (below n) = ground arith

multiple_mono :
    (m n : ℕ) (x y : Thousandths)
    → m ≤ n
    → at_most (at 0) x ≡ true
    → at_most x y ≡ true
    → at_most y (at 1000) ≡ true
    → at_most (multiple m x) (multiple n y) ≡ true
multiple_mono m n (at a) (at b) h _ k _ =
    let product : m * a ≤ n * b = mul-le-mul h (ground arith) in ground arith
multiple_mono m n (at a) (below b) h _ k _ = cc
multiple_mono m n (below a) y h p k _ = cc

at_most_trans : (x y z : Thousandths) → at_most x y ≡ true → at_most y z ≡ true → at_most x z ≡ true
at_most_trans x y z h k = ground arith

at_most_left : (x y : Thousandths) → at_most x y ≡ true → at_most x x ≡ true
at_most_left x y h = ground arith

at_most_right : (x y : Thousandths) → at_most x y ≡ true → at_most y y ≡ true
at_most_right x y h = ground arith

under-eq-not-at_most : (x y : Thousandths) → under x y ≡ not (at_most y x)
under-eq-not-at_most x y = ground arith

at_most_of_under : (x y : Thousandths) → under x y ≡ true → at_most x y ≡ true
at_most_of_under x y h = ground arith

at_most_refl : (x : Thousandths) → at_most x x ≡ true
at_most_refl x = ground arith

abbrev thousandths_laws : Laws thousandths
thousandths_laws = record {
  nought-le-one = refl;
  le_left = at_most_left;
  le_right = at_most_right;
  le_trans = at_most_trans;
  lt-eq-not-le = λ x y _ _. under-eq-not-at_most x y;
  le_of_lt = at_most_of_under;
  is_finite-minus = λ x. refl;
  le_of_is_finite = λ x _. at_most_refl x;
  le-minus = at_most-opposite;
  lt-minus = under-opposite;
  minus-minus = opposite-opposite;
  minus_nought = refl;
  times_mono = multiple_mono;
}

-- Four hypotheses and a missing one, at the level 0.05.
abbrev p_values : List (Option Thousandths)
p_values = some (at 30) ∷ none ∷ some (at 5) ∷ some (at 900) ∷ some (at 10) ∷ []

adjusted_test :
    holm_adjust_pvalues thousandths p_values
    ≡ ok (some (at 60) ∷ none ∷ some (at 20) ∷ some (at 900) ∷ some (at 30) ∷ [])
unfolding holm_adjust_pvalues indexed_from adjust sorted insert_pair larger capped
adjusted_test = refl

invalid_test :
    holm_adjust_pvalues thousandths (none ∷ some (at 1001) ∷ []) ≡ err (invalid_p_value 1)
unfolding holm_adjust_pvalues indexed_from adjust sorted insert_pair larger capped
invalid_test = refl

rejected_test : is_rejected thousandths (at 50) (present thousandths p_values) (at 10) ≡ true
unfolding is_rejected present is_critical at_least
rejected_test = refl

holm_adjust_pvalues-rejects_example :
    (adjusted : List (Option Thousandths)) × (holm_adjust_pvalues thousandths p_values
      ≡ ok adjusted)
    × (map (Option.map (λ a. at_most a (at 50))) adjusted
        ≡ map
            (Option.map (is_rejected thousandths (at 50) (present thousandths p_values)))
            p_values)
holm_adjust_pvalues-rejects_example =
    holm_adjust_pvalues-rejects thousandths thousandths_laws (at 50) refl refl refl p_values
      (refl, (tt, (refl, (refl, (refl, tt)))))

positive_test : classify_effect thousandths (at 100) (at 101) (at 300) ≡ ok positive
unfolding classify_effect conclusion_of
positive_test = refl

null_test : classify_effect thousandths (at 100) (below 99) (at 100) ≡ ok practically_null
unfolding classify_effect conclusion_of
null_test = refl

crossed_test : classify_effect thousandths (at 100) (at 5) (at 4) ≡ err high_below_low
unfolding classify_effect conclusion_of
crossed_test = refl

classify_effect-minus_example :
    classify_effect thousandths (at 100) (opposite (at 300)) (opposite (at 101))
    ≡ mirrored_result (classify_effect thousandths (at 100) (at 101) (at 300))
classify_effect-minus_example =
    classify_effect-minus thousandths thousandths_laws (at 100) (at 101) (at 300)
