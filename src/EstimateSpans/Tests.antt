-- ===== src/EstimateSpans/Tests.antt =====
-- estimate_spans.py on small texts, and its theorem at one.
use model_forensics_value_le.Prelude.{
  ◌≡◌, refl, true, false, some, [], ◌∷◌, leb, ◌&&◌, ℕ, Bool, get_elem?,
}
use model_forensics_value_le.Prelude.Text.{codes}
use model_forensics_value_le.EstimateSpans.Span.{
  text, integer, Response, payload, trace, codes_eq, checked_source, checked_quote,
  checked_occurrence, checked_status, first_estimate_span, parse_first_estimate_span,
}
use model_forensics_value_le.EstimateSpans.Collect.{
  starts_with, find_at, find, occurrences_from, occurrences, Case, source_text,
  collect_first_estimate_span,
}
use model_forensics_value_le.EstimateSpans.Positions.{positions}
use model_forensics_value_le.EstimateSpans.Resolved.{
  found_at, collect_first_estimate_span-positions,
}

abbrev is_digit : ℕ → Bool
is_digit c = leb 48 c && leb c 57

-- Overlapping places count.
ones : occurrences (codes "1 111") (codes "11") ≡ 2 ∷ 3 ∷ []
unfolding occurrences occurrences_from find find_at starts_with
ones = refl

abbrev case : Case
case = record { trace_text = codes "so 40, or 40k"; answer_text = codes "40k" }

abbrev answer_of : Case → Response
answer_of c = payload (text (codes "KNOWN")) (text (codes "trace")) (text (codes "40")) (integer 2)

collect_first_estimate_span-positions_example :
    collect_first_estimate_span is_digit case answer_of false true
    ≡ found_at trace
        (codes "40")
        2
        (get_elem? (positions (codes "40") 0 (source_text case trace)) 1)
unfolding parse_first_estimate_span checked_status first_estimate_span checked_source checked_quote
    checked_occurrence codes_eq
collect_first_estimate_span-positions_example =
    collect_first_estimate_span-positions is_digit case answer_of false true trace (codes "40") 2
      refl refl

second_place : get_elem? (positions (codes "40") 0 (source_text case trace)) 1 ≡ some 10
unfolding positions starts_with source_text
second_place = refl
