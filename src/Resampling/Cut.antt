-- ===== src/Resampling/Cut.antt =====
-- `raw_thinking_prefix_before` of resampling.py, with `SentenceSpan.validate_against` of anchors.py:
-- the trace before an anchor. A text is its code points.
use model_forensics_value_le.Prelude.{
  ℕ, ◌+◌, ◌≤◌, ◌≡◌, refl, sym, ap, ◌∙◌, Bool, not, ◌||◌, List, [], ◌∷◌, ◌++◌, arith, All, length,
  take, drop, slice, ltb, drop-drop, zero, suc, ◌-◌,
}
use model_forensics_value_le.Prelude.Outcome.{Result, ok, ◌>>◌, raise_if}
use model_forensics_value_le.Sentences.Scan.{SentenceSpan, sentence_spans}
use model_forensics_value_le.Sentences.Ordered.{IsSpan, AreSpans, sentence_spans-AreSpans}
use model_forensics_value_le.Resampling.Prefixes.{ids_eq, ids_eq_refl}

pub data CutError : Type 0 where
  not_of_source : CutError

-- `SentenceSpan.validate_against`
unfoldable pub validate_against : SentenceSpan → List ℕ → Result CutError (Unit {0})
validate_against span source =
    raise_if
      (ltb (length source) span.end || not (ids_eq (slice span.start span.end source) span.content))
      not_of_source

-- `raw_thinking_prefix_before`
unfoldable pub raw_thinking_prefix_before : List ℕ → SentenceSpan → Result CutError (List ℕ)
raw_thinking_prefix_before trace anchor = do
  validate_against anchor trace
  ok (take anchor.start trace)

-- The trace is cut before the anchor, and nothing of it is lost.
pub record IsCut (trace : List ℕ) (anchor : SentenceSpan) : Type 0 where
  pub prefix : List ℕ
  pub returned : raw_thinking_prefix_before trace anchor ≡ ok prefix
  pub until : length prefix ≡ anchor.start
  pub whole : prefix ++ (anchor.content ++ drop anchor.end trace) ≡ trace

length-take : (n : ℕ) (xs : List ℕ) → n ≤ length xs → length (take n xs) ≡ n
length-take zero xs h = refl
length-take (suc n) [] h = elim h [ ]
length-take (suc n) (x ∷ xs) h = ap suc (length-take n xs (omega arith))

take-drop : (n : ℕ) (xs : List ℕ) → take n xs ++ drop n xs ≡ xs
take-drop zero xs = refl
take-drop (suc n) [] = refl
take-drop (suc n) (x ∷ xs) = ap (λ l. x ∷ l) (take-drop n xs)

-- A text is what stands before a slice, the slice, and what stands after it.
take-slice : (a b : ℕ) (xs : List ℕ) → a ≤ b → take a xs ++ (slice a b xs ++ drop b xs) ≡ xs
take-slice a b xs h =
    let e : a + (b - a) ≡ b = omega arith in
    let after : drop b xs ≡ drop (b - a) (drop a xs) =
      ap (λ n. drop n xs) (sym e) ∙ sym (drop-drop (b - a) a xs) in
    rw (after, take-drop) (take-drop a xs)

module _ (is_digit : ℕ → Bool) (is_abbreviation eligible : List ℕ → Bool) (trace : List ℕ) where
  IsSpan-IsCut :
      (anchor : SentenceSpan)
      → IsSpan is_digit is_abbreviation eligible trace anchor
      → IsCut trace anchor
  unfolding raw_thinking_prefix_before validate_against
  IsSpan-IsCut anchor span = record {
    prefix = take anchor.start trace;
    returned = rw (← span.content, ids_eq_refl) (ground (arith, span.inside));
    until = length-take anchor.start trace (omega (arith, span.ordered, span.inside));
    whole =
        rw span.content (take-slice anchor.start anchor.end trace (omega (arith, span.ordered)));
  }

  AreSpans-IsCut :
      (from index : ℕ) (spans : List SentenceSpan)
      → AreSpans is_digit is_abbreviation eligible trace from index spans
      → All (IsCut trace) spans
  AreSpans-IsCut from index [] _ = tt
  AreSpans-IsCut from index (anchor ∷ rest) (low, numbered, span, later) =
      (IsSpan-IsCut anchor span, AreSpans-IsCut anchor.end _ rest later)

  -- Each sentence of a trace can be its anchor: the cut before it returns, the prefix is as long as
  -- the anchor starts, and prefix, anchor and what comes after the anchor make up the trace.
  pub sentence_spans-IsCut :
      (spans : List SentenceSpan) × (sentence_spans is_digit is_abbreviation eligible trace
        ≡ ok spans)
      × All (IsCut trace) spans
  sentence_spans-IsCut =
      let (spans, found, good) = sentence_spans-AreSpans is_digit is_abbreviation eligible trace in
      (spans, found, AreSpans-IsCut 0 0 spans good)
