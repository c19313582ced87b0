-- ===== src/Spans/Sections.antt =====
-- `locate_completion_sections` of token_spans.py: where a raw completion has its reasoning and its
-- answer. A text is the list of its code points.
use model_forensics_value_le.Prelude.{
  ℕ, zero, suc, ◌+◌, ◌-◌, Bool, true, false, not, ◌&&◌, ◌||◌, Option, none, some, List, [], ◌∷◌,
  length, get_elem?, take, slice, ltb, leb, ◌==◌, if◌then◌else◌,
}
use model_forensics_value_le.Prelude.Outcome.{Result, ok, ◌>>◌, raise_if}
use model_forensics_value_le.Prelude.Text.{codes, is_space, has_visible}

abbrev pub Text : Type 0
Text = List ℕ

pub data Error : Type 0 where
  duplicate_tags opening_not_first tags_out_of_order : Error
  invalid_offsets offsets_do_not_round_trip : Error
  prompt_prefix_changed decode_failed completion_differs : Error
  boundary_out_of_range not_a_prefix : Error
  span_outside expected_differs empty_token_span envelope_misses : Error
  start_not_rightmost end_not_leftmost envelope_differs : Error
  span_empty ids_length_differs reasoning_span_outside : Error

abbrev pub open_think : Text
open_think = codes "<think>"

abbrev pub close_think : Text
close_think = codes "</think>"

-- `text.startswith(pattern)`
unfoldable pub starts_with : Text → Text → Bool
starts_with [] text = true
starts_with (p ∷ ps) [] = false
starts_with (p ∷ ps) (c ∷ cs) = p == c && starts_with ps cs

-- `text.count(pattern)`, without overlaps: `skip` characters belong to the last match.
unfoldable pub count_matches : Text → ℕ → Text → ℕ
count_matches pattern skip [] = 0
count_matches pattern (suc skip) (c ∷ cs) = count_matches pattern skip cs
count_matches pattern zero (c ∷ cs) =
    let rest = count_matches pattern (length pattern - 1) cs in
    let later = count_matches pattern 0 cs in
    if starts_with pattern (c ∷ cs) then suc rest else later

-- `text.find(pattern)`; `none` is -1.
unfoldable pub find_match : Text → Text → Option ℕ
find_match pattern [] = if starts_with pattern [] then some 0 else none
find_match pattern (c ∷ cs) =
    let later = find_match pattern cs in
    if starts_with pattern (c ∷ cs)
    then some 0
    else elim later [ none ↦ none | some i ↦ some (suc i) ]

-- `text[i].isspace()`; the loops ask only inside the text.
unfoldable pub space_at : Text → ℕ → Bool
space_at text i = elim (get_elem? text i) [ none ↦ false | some c ↦ is_space c ]

-- The loops of `_trimmed_bounds`; each round shortens the range, so `end - start` are enough.
unfoldable pub trim_start : Text → ℕ → ℕ → ℕ → ℕ
trim_start text zero start stop = start
trim_start text (suc rounds) start stop =
    let rest = trim_start text rounds (start + 1) stop in
    if ltb start stop && space_at text start then rest else start

unfoldable pub trim_end : Text → ℕ → ℕ → ℕ → ℕ
trim_end text zero start stop = stop
trim_end text (suc rounds) start stop =
    let rest = trim_end text rounds start (stop - 1) in
    if ltb start stop && space_at text (stop - 1) then rest else stop

-- `_trimmed_bounds`
unfoldable pub trimmed_bounds : Text → ℕ → ℕ → ℕ × ℕ
trimmed_bounds text start stop =
    let start' = trim_start text (stop - start) start stop in
    (start', trim_end text (stop - start') start' stop)

pub record CompletionSections : Type 0 where
  pub raw_text : Text
  pub reasoning : Text
  pub answer : Text
  pub reasoning_char_start : ℕ
  pub reasoning_char_end : ℕ
  pub answer_char_start : ℕ
  pub answer_char_end : ℕ
  pub opening_think_in_completion : Bool
  pub closing_think_in_completion : Bool

unfoldable pub text_eq : Text → Text → Bool
text_eq [] [] = true
text_eq [] (d ∷ ds) = false
text_eq (c ∷ cs) [] = false
text_eq (c ∷ cs) (d ∷ ds) = c == d && text_eq cs ds

-- `CompletionSections.__post_init__`
unfoldable pub check_sections : CompletionSections → Result Error (Unit {0})
check_sections s = do
  raise_if
      (not (
        leb s.reasoning_char_start s.reasoning_char_end
        && leb s.reasoning_char_end (length s.raw_text)))
      invalid_offsets
  raise_if
      (not (leb s.answer_char_start s.answer_char_end && leb s.answer_char_end (length s.raw_text)))
      invalid_offsets
  raise_if
      (not (text_eq (slice s.reasoning_char_start s.reasoning_char_end s.raw_text) s.reasoning))
      offsets_do_not_round_trip
  raise_if (not (text_eq (slice s.answer_char_start s.answer_char_end s.raw_text) s.answer))
      offsets_do_not_round_trip

-- The regions before trimming, by the positions of the two tags.
pub record Regions : Type 0 where
  pub reasoning_from : ℕ
  pub reasoning_to : ℕ
  pub answer_from : ℕ
  pub answer_to : ℕ

unfoldable pub regions : ℕ → Option ℕ → Option ℕ → Regions
regions size none none = record {
  reasoning_from = 0;
  reasoning_to = 0;
  answer_from = 0;
  answer_to = size;
}
regions size none (some close) = record {
  reasoning_from = 0;
  reasoning_to = close;
  answer_from = close + 8;
  answer_to = size;
}
regions size (some open_at) none = record {
  reasoning_from = open_at + 7;
  reasoning_to = size;
  answer_from = size;
  answer_to = size;
}
regions size (some open_at) (some close) = record {
  reasoning_from = open_at + 7;
  reasoning_to = close;
  answer_from = close + 8;
  answer_to = size;
}

-- The tests on the tags.
unfoldable pub check_tags : Text → Option ℕ → Option ℕ → Result Error (Unit {0})
check_tags raw opening closing = do
  raise_if (ltb 1 (count_matches open_think 0 raw) || ltb 1 (count_matches close_think 0 raw))
      duplicate_tags
  raise_if (elim opening [ none ↦ false | some at ↦ has_visible (take at raw) ]) opening_not_first
  raise_if
      (elim opening [
        | none ↦ false
        | some at ↦ elim closing [ none ↦ false | some close ↦ ltb close (at + 7) ]
      ])
      tags_out_of_order

abbrev has_tag : Option ℕ → Bool
has_tag none = false
has_tag (some at) = true

unfoldable pub trimmed_sections : Text → Option ℕ → Option ℕ → CompletionSections
trimmed_sections raw opening closing =
    let r = regions (length raw) opening closing in
    let (rs, re) = trimmed_bounds raw r.reasoning_from r.reasoning_to in
    let (as', ae) = trimmed_bounds raw r.answer_from r.answer_to in
    record {
      raw_text = raw;
      reasoning = slice rs re raw;
      answer = slice as' ae raw;
      reasoning_char_start = rs;
      reasoning_char_end = re;
      answer_char_start = as';
      answer_char_end = ae;
      opening_think_in_completion = has_tag opening;
      closing_think_in_completion = has_tag closing;
    }

-- `locate_completion_sections`
unfoldable pub locate_completion_sections : Text → Result Error CompletionSections
locate_completion_sections raw = do
  let opening = find_match open_think raw
  let closing = find_match close_think raw
  check_tags raw opening closing
  let s = trimmed_sections raw opening closing
  check_sections s
  ok s
