-- ===== src/EstimateSpans/Collect.antt =====
-- `_occurrences` and `collect_first_estimate_span` of estimate_spans.py. The judge is a parameter:
-- what it answers, and whether its answers may be used for primary inference.
use model_forensics_value_le.Prelude.{
  ℕ, zero, suc, ◌+◌, ◌-◌, Bool, true, false, ◌&&◌, Option, none, some, List, [], ◌∷◌, length, drop,
  slice, get_elem?, ltb, ◌==◌, if◌then◌else◌,
}
use model_forensics_value_le.Prelude.Outcome.{Result, ok, err, ◌>>=◌, ◌>>◌, raise_if}
use model_forensics_value_le.EstimateSpans.Span.{
  SpanError, not_primary, absent_occurrence, failed_round_trip, no_offsets, unexpected_offsets,
  Response, Source, trace, answer, FirstEstimateSpan, unknown_span, known_span, codes_eq,
  parse_first_estimate_span,
}

-- `text.startswith(quote)`
unfoldable pub starts_with : List ℕ → List ℕ → Bool
starts_with [] xs = true
starts_with (q ∷ qs) [] = false
starts_with (q ∷ qs) (x ∷ xs) = q == x && starts_with qs xs

-- The first place of a quote in the rest of a text, counted from the start of the text.
unfoldable pub find_at : List ℕ → ℕ → List ℕ → Option ℕ
find_at quote i [] = if starts_with quote [] then some i else none
find_at quote i (x ∷ xs) =
    let rest = find_at quote (suc i) xs in if starts_with quote (x ∷ xs) then some i else rest

-- `text.find(quote, cursor)`, `none` for -1.
unfoldable pub find : List ℕ → List ℕ → ℕ → Option ℕ
find text quote cursor =
    if ltb (length text) cursor then none else find_at quote cursor (drop cursor text)

-- The loop of `_occurrences`.
unfoldable pub occurrences_from : ℕ → List ℕ → List ℕ → ℕ → List ℕ
occurrences_from zero text quote cursor = []
occurrences_from (suc fuel) text quote cursor = elim (find text quote cursor) [
  | none ↦ []
  | some start ↦ start ∷ occurrences_from fuel text quote (suc start)
]

-- `_occurrences`; the cursor passes each place once, and the place after the text.
unfoldable pub occurrences : List ℕ → List ℕ → List ℕ
occurrences text quote = occurrences_from (suc (suc (length text))) text quote 0

-- `BlindedAdjudicationCase`, the two texts that are searched.
pub record Case : Type 0 where
  pub trace_text : List ℕ
  pub answer_text : List ℕ

unfoldable pub source_text : Case → Source → List ℕ
source_text case trace = case.trace_text
source_text case answer = case.answer_text

-- The offsets of a quote at its occurrence, from 1.
unfoldable pub resolve : List ℕ → List ℕ → ℕ → Result SpanError (ℕ × ℕ)
resolve text quote occurrence =
    let starts = occurrences text quote in
    if ltb (length starts) occurrence
    then err absent_occurrence
    else elim (get_elem? starts (occurrence - 1)) [
      | none ↦ err absent_occurrence
      | some start ↦
          if codes_eq (slice start (start + length quote) text) quote
          then ok (start, start + length quote)
          else err failed_round_trip
    ]

-- `FirstEstimateSpanRecord`, its adjudication and offsets.
pub record SpanRecord : Type 0 where
  pub adjudication : FirstEstimateSpan
  pub start : Option ℕ
  pub end : Option ℕ

abbrev has_offsets : Option ℕ → Option ℕ → Bool
has_offsets (some start) (some end) = ltb start end
has_offsets _ _ = false

abbrev no_offset : Option ℕ → Bool
no_offset none = true
no_offset (some n) = false

-- `FirstEstimateSpanRecord.__post_init__`
unfoldable pub span_record : FirstEstimateSpan → Option ℕ → Option ℕ → Result SpanError SpanRecord
span_record (known_span s q n) start end =
    if has_offsets start end
    then ok (record { adjudication = known_span s q n; start = start; end = end })
    else err no_offsets
span_record unknown_span start end =
    if no_offset start && no_offset end
    then ok (record { adjudication = unknown_span; start = start; end = end })
    else err unexpected_offsets

-- The part of `collect_first_estimate_span` behind the parse.
unfoldable pub located : Case → FirstEstimateSpan → Result SpanError SpanRecord
located case unknown_span = span_record unknown_span none none
located case (known_span source quote occurrence) =
    resolve (source_text case source) quote occurrence >>= λ at.
    span_record (known_span source quote occurrence) (some at.0) (some at.1)

-- `collect_first_estimate_span`, less the hashes and the provenance of its record.
unfoldable pub collect_first_estimate_span :
    (ℕ → Bool) → Case → (Case → Response) → Bool → Bool → Result SpanError SpanRecord
collect_first_estimate_span is_digit case complete not_for_primary for_primary = do
  raise_if (for_primary && not_for_primary) not_primary
  adjudication ← parse_first_estimate_span is_digit (complete case)
  located case adjudication
