-- ===== src/Statistics/Mirror.antt =====
-- Exchanging the arms of a comparison mirrors its conclusion.
use model_forensics_value_le.Prelude.{◌≡◌, inl, inr, true, false, arith, Bool-cases}
use model_forensics_value_le.Prelude.Outcome.{Result, ok, err}
use model_forensics_value_le.Statistics.Numbers.{Numbers, Laws}
use model_forensics_value_le.Statistics.Effects.{
  Conclusion, positive, negative, practically_null, inconclusive, EffectError, conclusion_of,
  classify_effect,
}
use model_forensics_value_le.Statistics.Order.{le_of_not_lt}

-- The conclusion on the effect with its arms exchanged.
unfoldable pub mirrored : Conclusion → Conclusion
mirrored positive = negative
mirrored negative = positive
mirrored practically_null = practically_null
mirrored inconclusive = inconclusive

unfoldable pub mirrored_result : Result EffectError Conclusion → Result EffectError Conclusion
mirrored_result (ok c) = ok (mirrored c)
mirrored_result (err e) = err e

module _ (numbers : Numbers) (laws : Laws numbers) where
  abbrev Number : Type 0
  Number = numbers.Number

  -- An interval on one side of the region is not on the other.
  positive-ne-negative :
      (rope low high : Number)
      → numbers.le rope numbers.nought ≡ false
      → numbers.le low high ≡ true
      → numbers.le rope low ≡ true
      → numbers.le high (numbers.minus rope) ≡ false
  positive-ne-negative rope low high above ordered after =
      elim (Bool-cases (numbers.le high (numbers.minus rope))) [
        | inr no_overlap ↦ no_overlap
        | inl both ↦
            let zero_number : numbers.le numbers.nought numbers.nought ≡ true =
              laws.le_left _ _ laws.nought-le-one in
            let number : numbers.le rope rope ≡ true = laws.le_left rope low after in
            let over : numbers.le numbers.nought rope ≡ true =
              laws.le_of_lt _ _
                (ground (arith, laws.lt-eq-not-le numbers.nought rope zero_number number)) in
            let under : numbers.le (numbers.minus rope) (numbers.minus numbers.nought) ≡ true =
              ground (arith, laws.le-minus rope numbers.nought) in
            let low_under : numbers.le low numbers.nought ≡ true =
              laws.le_trans low high numbers.nought ordered (
                laws.le_trans high (numbers.minus rope) numbers.nought both
                  (laws.le_trans _ _ _ under laws.minus_nought)) in
            ground (arith, laws.le_trans rope low numbers.nought after low_under)
      ]

  lt-not_both :
      (rope low high : Number)
      → numbers.le rope numbers.nought ≡ false
      → numbers.is_finite low ≡ true
      → numbers.is_finite high ≡ true
      → numbers.lt high low ≡ false
      → numbers.lt rope low ≡ true
      → numbers.lt high (numbers.minus rope) ≡ false
  lt-not_both rope low high above low_finite high_finite ordered after =
      elim (Bool-cases (numbers.lt high (numbers.minus rope))) [
        | inr apart ↦ apart
        | inl both ↦
            let ordered_le : numbers.le low high ≡ true =
              le_of_not_lt numbers laws high low (laws.le_of_is_finite high high_finite)
                (laws.le_of_is_finite low low_finite) ordered in
            let no_overlap =
              positive-ne-negative rope low high above ordered_le (laws.le_of_lt rope low after) in
            ground (arith, laws.le_of_lt high (numbers.minus rope) both, no_overlap)
      ]

  lt-minus_right : (x y : Number) → numbers.lt x (numbers.minus y) ≡ numbers.lt y (numbers.minus x)
  lt-minus_right x y = rw (laws.minus-minus x) at (laws.lt-minus (numbers.minus x) y)

  le-minus_left : (x y : Number) → numbers.le (numbers.minus x) y ≡ numbers.le (numbers.minus y) x
  le-minus_left x y = rw (laws.minus-minus y) at (laws.le-minus x (numbers.minus y))

  -- The effect with its arms exchanged, whose interval has the negated ends in the other order,
  -- is given the mirrored conclusion, or raises the same error.
  pub classify_effect-minus :
      (rope low high : Number)
      → classify_effect numbers rope (numbers.minus high) (numbers.minus low)
        ≡ mirrored_result (classify_effect numbers rope low high)
  unfolding classify_effect conclusion_of mirrored mirrored_result
  classify_effect-minus rope low high = ground (
    arith,
    lt-not_both rope low high,
    laws.lt-minus low high,
    laws.is_finite-minus low,
    laws.is_finite-minus high,
    lt-minus_right rope high,
    laws.lt-minus low rope,
    laws.le-minus rope high,
    le-minus_left low rope,
  )
