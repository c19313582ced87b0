-- ===== src/EstimateSpans/Span.antt =====
-- `FirstEstimateSpan` and `parse_first_estimate_span` of estimate_spans.py. A text is its code points;
-- what the JSON reader makes of a response, and `str.isdigit`, are parameters.
use model_forensics_value_le.Prelude.{
  ℕ, Bool, true, false, not, ◌&&◌, ◌||◌, List, [], ◌∷◌, any, length, ltb, ◌==◌, if◌then◌else◌,
}
use model_forensics_value_le.Prelude.Outcome.{Result, ok, err, ◌>>=◌, ◌>>◌, raise_if}

-- Each `raise` of the module.
pub data SpanError : Type 0 where
  not_json bad_keys bad_status fields_not_null bad_source bad_quote no_digit : SpanError
  bad_occurrence not_primary absent_occurrence failed_round_trip no_offsets : SpanError
  unexpected_offsets : SpanError

-- A value of the response.
pub data Json : Type 0 where
  null boolean other : Json
  text : List ℕ → Json
  integer : ℕ → Json
  negative : Json

-- A response: no strict JSON, an object with other keys, or the four values.
pub data Response : Type 0 where
  unreadable wrong_keys : Response
  payload : Json → Json → Json → Json → Response

pub data SpanStatus : Type 0 where
  known unknown : SpanStatus

pub data Source : Type 0 where
  trace answer : Source

-- A `FirstEstimateSpan` that `__post_init__` accepts.
pub data FirstEstimateSpan : Type 0 where
  unknown_span : FirstEstimateSpan
  known_span : Source → List ℕ → ℕ → FirstEstimateSpan

unfoldable pub codes_eq : List ℕ → List ℕ → Bool
codes_eq [] [] = true
codes_eq [] (d ∷ ds) = false
codes_eq (c ∷ cs) [] = false
codes_eq (c ∷ cs) (d ∷ ds) = c == d && codes_eq cs ds

abbrev is_null : Json → Bool
is_null null = true
is_null _ = false

abbrev pub no_codes : List ℕ → Bool
no_codes [] = true
no_codes (c ∷ cs) = false

-- `source in {"trace", "answer"}`
unfoldable pub checked_source : Json → Result SpanError Source
checked_source (text cs) =
    if codes_eq cs (b't' ∷ b'r' ∷ b'a' ∷ b'c' ∷ b'e' ∷ [])
    then ok trace
    else if codes_eq cs (b'a' ∷ b'n' ∷ b's' ∷ b'w' ∷ b'e' ∷ b'r' ∷ [])
    then ok answer
    else err bad_source
checked_source _ = err bad_source

unfoldable pub checked_occurrence : Json → Result SpanError ℕ
checked_occurrence (integer n) = if n == 0 then err bad_occurrence else ok n
checked_occurrence _ = err bad_occurrence

-- `SpanStatus(payload["status"])`
unfoldable pub checked_status : Json → Result SpanError SpanStatus
checked_status (text cs) =
    if codes_eq cs (b'K' ∷ b'N' ∷ b'O' ∷ b'W' ∷ b'N' ∷ [])
    then ok known
    else if codes_eq cs (b'U' ∷ b'N' ∷ b'K' ∷ b'N' ∷ b'O' ∷ b'W' ∷ b'N' ∷ [])
    then ok unknown
    else err bad_status
checked_status _ = err bad_status

module _ (is_digit : ℕ → Bool) where
  unfoldable pub checked_quote : Json → Result SpanError (List ℕ)
  checked_quote (text cs) = do
    raise_if (no_codes cs || ltb 160 (length cs)) bad_quote
    raise_if (not (any is_digit cs)) no_digit
    ok cs
  checked_quote _ = err bad_quote

  -- `FirstEstimateSpan.__post_init__`
  unfoldable pub first_estimate_span :
      SpanStatus → Json → Json → Json → Result SpanError FirstEstimateSpan
  first_estimate_span unknown source quote occurrence = do
    raise_if (not (is_null source && (is_null quote && is_null occurrence))) fields_not_null
    ok unknown_span
  first_estimate_span known source quote occurrence = do
    s ← checked_source source
    q ← checked_quote quote
    n ← checked_occurrence occurrence
    ok (known_span s q n)

  -- `parse_first_estimate_span`
  unfoldable pub parse_first_estimate_span : Response → Result SpanError FirstEstimateSpan
  parse_first_estimate_span unreadable = err not_json
  parse_first_estimate_span wrong_keys = err bad_keys
  parse_first_estimate_span (payload status source quote occurrence) = do
    s ← checked_status status
    first_estimate_span s source quote occurrence
