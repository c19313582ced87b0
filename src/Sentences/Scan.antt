-- ===== src/Sentences/Scan.antt =====
-- `SentenceSpan` and `sentence_spans` of anchors.py. A text is its code points. `str.isdigit`, the
-- regular expressions of abbreviations and `eligible_sentence_text`, which is made of regular
-- expressions, are parameters. The loops run on fuel; a loop that runs out of it would give
-- `out_of_fuel`.
use model_forensics_value_le.Prelude.{
  ℕ, zero, suc, ◌+◌, ◌-◌, Bool, false, not, ◌&&◌, ◌||◌, Option, none, some, List, [], ◌∷◌, length,
  slice, get_elem?, any, ltb, leb, ◌==◌, if◌then◌else◌,
}
use model_forensics_value_le.Prelude.Outcome.{Result, ok, err, ◌>>=◌}
use model_forensics_value_le.Prelude.Text.{is_space}

pub data SentenceError : Type 0 where
  empty_span out_of_fuel : SentenceError

pub data Boundary : Type 0 where
  terminal newline at_end : Boundary

-- `SentenceSpan`
pub record SentenceSpan : Type 0 where
  pub index : ℕ
  pub start : ℕ
  pub end : ℕ
  pub content : List ℕ
  pub boundary : Boundary

-- The arguments of `SentenceSpan` in `sentence_spans`.
abbrev pub span_of : List ℕ → ℕ → ℕ → ℕ → Boundary → SentenceSpan
span_of text index start trimmed boundary = record {
  index = index;
  start = start;
  end = trimmed;
  content = slice start trimmed text;
  boundary = boundary;
}

-- `SentenceSpan.__post_init__`; the other two tests hold of the types.
unfoldable pub sentence_span : SentenceSpan → Result SentenceError SentenceSpan
sentence_span s = if ltb s.start s.end then ok s else err empty_span

-- `_TERMINALS`
unfoldable pub is_terminal : ℕ → Bool
is_terminal c = any (λ d. d == c) (46 ∷ 33 ∷ 63 ∷ 12290 ∷ 65281 ∷ 65311 ∷ [])

-- `_CLOSERS`
unfoldable pub is_closer : ℕ → Bool
is_closer c = any (λ d. d == c) (34 ∷ 39 ∷ 8221 ∷ 8217 ∷ 41 ∷ 93 ∷ 125 ∷ 12299 ∷ 12301 ∷ 12305 ∷ [])

-- `character in "\r\n"`
unfoldable pub is_newline : ℕ → Bool
is_newline c = c == 13 || c == 10

-- `i < len(text) and test(text[i])`
unfoldable pub char_is : (ℕ → Bool) → List ℕ → ℕ → Bool
char_is test text i = elim (get_elem? text i) [ none ↦ false | some c ↦ test c ]

-- `while i < len(text) and test(text[i]): i += 1`
unfoldable pub skip : (ℕ → Bool) → ℕ → List ℕ → ℕ → ℕ
skip test zero text i = i
skip test (suc fuel) text i =
    let rest = skip test fuel text (suc i) in if char_is test text i then rest else i

-- The loop over `trimmed_end`.
unfoldable pub trim : List ℕ → ℕ → ℕ → ℕ
trim text start zero = zero
trim text start (suc n) =
    let rest = trim text start n in
    if ltb start (suc n) && char_is is_space text n then rest else suc n

module _ (is_digit : ℕ → Bool) (is_abbreviation eligible : List ℕ → Bool) where
  -- `_is_decimal_point`
  unfoldable pub is_decimal_point : List ℕ → ℕ → Bool
  is_decimal_point text i =
      char_is (λ c. c == 46) text i
      && (ltb 0 i && (char_is is_digit text (i - 1) && char_is is_digit text (i + 1)))

  -- The end of the punctuation that starts at the cursor.
  unfoldable pub punctuation_end : List ℕ → ℕ → ℕ
  punctuation_end text cursor =
      skip is_closer (length text) text (skip is_terminal (length text) text (suc cursor))

  -- Whether a sentence ends with this punctuation.
  unfoldable pub ends_sentence : List ℕ → ℕ → ℕ → Bool
  ends_sentence text start cursor =
      let end = punctuation_end text cursor in
      char_is is_terminal text cursor
      && (not (is_decimal_point text cursor)
          && ((end == length text || char_is is_space text end)
              && not (
                  char_is (λ c. c == 46) text cursor
                  && is_abbreviation (slice start (suc cursor) text))))

  -- The inner loop: the end of the sentence and its boundary.
  unfoldable pub scan : ℕ → List ℕ → ℕ → ℕ → Option (ℕ × Boundary)
  scan zero text start cursor = none
  scan (suc fuel) text start cursor =
      let rest = scan fuel text start (suc cursor) in
      if leb (length text) cursor
      then some (length text, at_end)
      else if char_is is_newline text cursor
      then some (cursor, newline)
      else if ends_sentence text start cursor
      then some (punctuation_end text cursor, terminal)
      else rest

  -- `trimmed_end > start and eligible_sentence_text(text[start:trimmed_end])`
  unfoldable pub is_kept : List ℕ → ℕ → ℕ → Bool
  is_kept text start trimmed = ltb start trimmed && eligible (slice start trimmed text)

  -- `spans.append(...)`, where the span is kept.
  unfoldable pub with_span :
      List ℕ
      → ℕ
      → ℕ
      → ℕ
      → Boundary
      → Result SentenceError (List SentenceSpan)
      → Result SentenceError (List SentenceSpan)
  with_span text index start trimmed boundary rest =
      if is_kept text start trimmed
      then sentence_span (span_of text index start trimmed boundary)
        >>= (λ s. rest >>= λ ss. ok (s ∷ ss))
      else rest

  abbrev pub next_index : List ℕ → ℕ → ℕ → ℕ → ℕ
  next_index text index start trimmed = if is_kept text start trimmed then suc index else index

  -- The outer loop, with the number of spans so far.
  unfoldable pub spans_from : ℕ → List ℕ → ℕ → ℕ → Result SentenceError (List SentenceSpan)
  spans_from zero text cursor index = err out_of_fuel
  spans_from (suc fuel) text cursor index =
      let start = skip is_space (length text) text cursor in
      if leb (length text) start then ok [] else elim (scan (suc (length text)) text start start) [
        | none ↦ err out_of_fuel
        | some (end, at_end) ↦ with_span text index start (trim text start end) at_end (ok [])
        | some (end, b) ↦
            let trimmed = trim text start end in
            with_span text index start trimmed b (
              spans_from fuel text (skip is_newline (length text) text end)
                (next_index text index start trimmed))
      ]

  -- `sentence_spans`
  unfoldable pub sentence_spans : List ℕ → Result SentenceError (List SentenceSpan)
  sentence_spans text = spans_from (suc (length text)) text 0 0
