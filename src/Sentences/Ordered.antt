-- ===== src/Sentences/Ordered.antt =====
-- The spans that `sentence_spans` of anchors.py returns.
use model_forensics_value_le.Prelude.{
  ℕ, zero, suc, ◌+◌, ◌-◌, ◌≤◌, ◌<◌, ◌≡◌, refl, subst, Bool, true, false, ◌&&◌, some, List, [], ◌∷◌,
  length, slice, arith, inl, inr, Bool-cases, ltb, leb,
}
use model_forensics_value_le.Prelude.Outcome.{Result, ok}
use model_forensics_value_le.Prelude.Text.{is_space}
use model_forensics_value_le.Sentences.Scan.{
  SentenceError, Boundary, terminal, newline, at_end, SentenceSpan, span_of, sentence_span,
  is_newline, char_is, skip, trim, scan, is_kept, with_span, next_index, spans_from, sentence_spans,
}
use model_forensics_value_le.Sentences.Steps.{
  skip-le, skip-end, skip-stops, trim-le, trim-space, scan-IsScanned,
}

newline_is_space :
    (text : List ℕ) (i : ℕ) → char_is is_space text i ≡ false → char_is is_newline text i ≡ false
unfolding char_is is_space is_newline
newline_is_space text i h = ground arith

module _ (is_digit : ℕ → Bool) (is_abbreviation eligible : List ℕ → Bool) (text : List ℕ) where
  -- A span of the text: not empty, inside, equal to its slice, without white space at its ends, and
  -- eligible.
  pub record IsSpan (s : SentenceSpan) : Type 0 where
    pub ordered : s.start < s.end
    pub inside : s.end ≤ length text
    pub content : s.content ≡ slice s.start s.end text
    pub first : char_is is_space text s.start ≡ false
    pub last : char_is is_space text (s.end - 1) ≡ false
    pub accepted : eligible s.content ≡ true

  -- Spans from a place on, in order and apart, with these indices.
  abbrev pub AreSpans : ℕ → ℕ → List SentenceSpan → Type 0
  AreSpans from index [] = Unit
  AreSpans from index (s ∷ ss) =
      (from ≤ s.start) × (s.index ≡ index) × IsSpan s × AreSpans s.end (suc index) ss

  AreSpans-from :
      (from later index : ℕ) (ss : List SentenceSpan)
      → from ≤ later
      → AreSpans later index ss
      → AreSpans from index ss
  AreSpans-from from later index [] h good = tt
  AreSpans-from from later index (s ∷ ss) h (low, i, span, rest) = (omega arith, i, span, rest)

  -- The spans that a result holds.
  abbrev pub Gives : ℕ → ℕ → Result SentenceError (List SentenceSpan) → Type 0
  Gives from index r = (ss : List SentenceSpan) × (r ≡ ok ss) × AreSpans from index ss

  with_span-Gives :
      (index start end : ℕ) (b : Boundary) (rest : Result SentenceError (List SentenceSpan))
      → char_is is_space text start ≡ false
      → end ≤ length text
      → start < end
      → (let trimmed = trim text start end in
          Gives end (next_index is_digit is_abbreviation eligible text index start trimmed) rest
          → Gives start index
              (with_span is_digit is_abbreviation eligible text index start trimmed b rest))
  unfolding with_span is_kept sentence_span
  with_span-Gives index start end b rest first inside low (ss, e, good) =
      let trimmed = trim text start end in
      let less = trim-le text start end in
      elim (Bool-cases (ltb start trimmed && eligible (slice start trimmed text))) [
        | inl kept ↦
            let room : start < trimmed = ground arith in
            let above : ltb start trimmed ≡ true = ground arith in
            let fits : eligible (slice start trimmed text) ≡ true = ground arith in
            let next : next_index is_digit is_abbreviation eligible text index start trimmed
                ≡ suc index =
              rw kept in
            (
              span_of text index start trimmed b ∷ ss,
              rw (with_span, kept, sentence_span, above, e),
              (
                omega arith,
                refl,
                record {
                  ordered = room;
                  inside = omega arith;
                  content = refl;
                  first = first;
                  last = trim-space text start end room;
                  accepted = fits;
                },
                AreSpans-from trimmed end (suc index) ss less
                    (subst (λ i. AreSpans end i ss) next good),
              ),
            )
        | inr dropped ↦
            let next : next_index is_digit is_abbreviation eligible text index start trimmed
                ≡ index =
              rw dropped in
            (
              ss,
              rw (with_span, dropped) e,
              AreSpans-from start end index ss (omega arith)
                  (subst (λ i. AreSpans end i ss) next good),
            )
      ]

  Gives-from :
      (from later index : ℕ) (r : Result SentenceError (List SentenceSpan))
      → from ≤ later
      → Gives later index r
      → Gives from index r
  Gives-from from later index r h (ss, e, good) = (ss, e, AreSpans-from from later index ss h good)

  abbrev start_of : ℕ → ℕ
  start_of cursor = skip is_space (length text) text cursor

  spans_from-step :
      (b : Boundary) (fuel cursor index end : ℕ)
      → leb (length text) (start_of cursor) ≡ false
      → scan is_digit is_abbreviation eligible
          (suc (length text))
          text
          (start_of cursor)
          (start_of cursor)
        ≡ some (end, b)
      → end ≤ length text
      → start_of cursor < end
      → char_is is_space text (start_of cursor) ≡ false
      → ((index : ℕ)
          → Gives end index (
              spans_from is_digit is_abbreviation eligible fuel text
                (skip is_newline (length text) text end)
                index))
      → Gives
          (start_of cursor)
          index
          (spans_from is_digit is_abbreviation eligible (suc fuel) text cursor index)
  unfolding spans_from
  spans_from-step at_end fuel cursor index end within found inside low first rest =
      rw (spans_from, within, found)
        (with_span-Gives index (start_of cursor) end at_end (ok []) first inside low ([], refl, tt))
  spans_from-step terminal fuel cursor index end within found inside low first rest =
      rw (spans_from, within, found)
        (with_span-Gives index (start_of cursor) end terminal _ first inside low (rest _))
  spans_from-step newline fuel cursor index end within found inside low first rest =
      rw (spans_from, within, found)
        (with_span-Gives index (start_of cursor) end newline _ first inside low (rest _))

  spans_from-Gives :
      (fuel cursor index : ℕ)
      → length text < fuel + cursor
      → cursor ≤ length text
      → Gives cursor index (spans_from is_digit is_abbreviation eligible fuel text cursor index)
  unfolding spans_from
  spans_from-Gives zero cursor index enough h = absurd (omega (arith, enough, h))
  spans_from-Gives (suc fuel) cursor index enough h =
      elim (Bool-cases (leb (length text) (start_of cursor))) [
        | inl past ↦ ([], rw (spans_from, past), tt)
        | inr within ↦
            let start = start_of cursor in
            let room : start < length text = ground arith in
            let low = skip-le is_space text (length text) cursor in
            let first = skip-stops is_space text (length text) cursor (omega arith) in
            let scanned =
              scan-IsScanned is_digit is_abbreviation eligible text start (suc (length text)) start
                (omega arith) (omega arith) in
            let after = scanned.later room (newline_is_space text start first) in
            let end = scanned.end in
            let next = skip is_newline (length text) text end in
            let on = skip-le is_newline text (length text) end in
            let bound = skip-end is_newline text (length text) end scanned.inside in
            Gives-from cursor start index
              (spans_from is_digit is_abbreviation eligible (suc fuel) text cursor index) low
              (spans_from-step scanned.b fuel cursor index end within scanned.found scanned.inside
                after first
                (λ index.
                  Gives-from end next index
                    (spans_from is_digit is_abbreviation eligible fuel text next index) on
                    (spans_from-Gives fuel next index (omega arith) bound)))
      ]

-- The split of a text into sentences always ends and returns spans that are in order and apart, with
-- the indices 0, 1, 2 and so on: each is not empty, lies in the text, has as its content the slice
-- of the text at its offsets, neither starts nor ends with white space, and is eligible.
pub sentence_spans-AreSpans :
    (is_digit : ℕ → Bool) (is_abbreviation eligible : List ℕ → Bool) (text : List ℕ)
    → (ss : List SentenceSpan) × (sentence_spans is_digit is_abbreviation eligible text ≡ ok ss)
      × AreSpans is_digit is_abbreviation eligible text 0 0 ss
unfolding sentence_spans
sentence_spans-AreSpans is_digit is_abbreviation eligible text =
    spans_from-Gives is_digit is_abbreviation eligible text (suc (length text)) 0 0 (omega arith)
      (omega arith)
