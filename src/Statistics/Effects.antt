-- ===== src/Statistics/Effects.antt =====
-- `classify_effect` of statistics.py: the conclusion from a confidence interval and the region of
-- practical equivalence.
use model_forensics_value_le.Prelude.{not, ◌&&◌, ◌||◌, if◌then◌else◌}
use model_forensics_value_le.Prelude.Outcome.{Result, ok, ◌>>◌, raise_if}
use model_forensics_value_le.Statistics.Numbers.{Numbers}

pub data Conclusion : Type 0 where
  positive negative practically_null inconclusive : Conclusion

pub data EffectError : Type 0 where
  rope_not_positive not_finite high_below_low : EffectError

module _ (numbers : Numbers) where
  abbrev Number : Type 0
  Number = numbers.Number

  -- The tests on an interval that has passed.
  unfoldable pub conclusion_of : Number → Number → Number → Conclusion
  conclusion_of rope low high =
      if numbers.lt rope low
      then positive
      else if numbers.lt high (numbers.minus rope)
      then negative
      else if numbers.le (numbers.minus rope) low && numbers.le high rope
      then practically_null
      else inconclusive

  -- `classify_effect`
  unfoldable pub classify_effect : Number → Number → Number → Result EffectError Conclusion
  classify_effect rope low high = do
    raise_if (numbers.le rope numbers.nought) rope_not_positive
    raise_if (not (numbers.is_finite low) || not (numbers.is_finite high)) not_finite
    raise_if (numbers.lt high low) high_below_low
    ok (conclusion_of rope low high)
