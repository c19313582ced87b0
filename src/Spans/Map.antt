-- ===== src/Spans/Map.antt =====
-- `CompletionTokenMap` of token_spans.py: character spans of a completion on its own tokens. The
-- tokenizer is third-party code, and so is a parameter: the text of a token stream, if it decodes.
use model_forensics_value_le.Prelude.{
  ℕ, zero, suc, ◌+◌, ◌-◌, Bool, true, false, not, ◌&&◌, Option, none, some, List, [], ◌++◌, length,
  take, drop, slice, ltb, leb, ◌==◌,
}
use model_forensics_value_le.Prelude.Outcome.{Result, ok, err, ◌>>=◌, ◌>>◌, raise_if}
use model_forensics_value_le.Spans.Sections.{
  Text, Error, starts_with, text_eq, CompletionSections, locate_completion_sections,
}
use model_forensics_value_le.Spans.Sections
use model_forensics_value_le.Spans.Search.{rightmost_boundary, leftmost_boundary}

-- `OriginalTokenSpan`, less the name of the section and the hashes.
pub record OriginalTokenSpan : Type 0 where
  pub section_char_start : ℕ
  pub section_char_end : ℕ
  pub completion_char_start : ℕ
  pub completion_char_end : ℕ
  pub token_start : ℕ
  pub token_end : ℕ
  pub token_envelope_char_start : ℕ
  pub token_envelope_char_end : ℕ
  pub text : Text
  pub leading_envelope_text : Text
  pub trailing_envelope_text : Text
  pub token_ids : List ℕ

-- `OriginalTokenSpan.__post_init__`
unfoldable pub check_span : OriginalTokenSpan → Result Error (Unit {0})
check_span s = do
  raise_if (leb s.token_end s.token_start) Sections.empty_token_span
  raise_if (not (length s.token_ids == s.token_end - s.token_start)) Sections.ids_length_differs
  raise_if (leb s.completion_char_end s.completion_char_start) Sections.span_empty

-- `OriginalTokenSpan.sequence_token_span`
unfoldable pub sequence_token_span : OriginalTokenSpan → ℕ → ℕ × ℕ
sequence_token_span s prompt_token_count =
    (prompt_token_count + s.token_start, prompt_token_count + s.token_end)

-- What a `CompletionTokenMap` holds, less its cache: `_decode_prefix` is a function of the count.
pub record CompletionTokenMap : Type 0 where
  pub raw_text : Text
  pub prompt_token_ids : List ℕ
  pub token_ids : List ℕ
  pub sections : CompletionSections
  pub decoded_prompt : Text

-- The span that `map_completion_span` builds.
abbrev pub span_of : CompletionTokenMap → ℕ → ℕ → ℕ → ℕ → ℕ → ℕ → ℕ → ℕ → OriginalTokenSpan
span_of m char_start char_end relative_start relative_end token_start token_end envelope_start
      envelope_end =
    record {
      section_char_start = relative_start;
      section_char_end = relative_end;
      completion_char_start = char_start;
      completion_char_end = char_end;
      token_start = token_start;
      token_end = token_end;
      token_envelope_char_start = envelope_start;
      token_envelope_char_end = envelope_end;
      text = slice char_start char_end m.raw_text;
      leading_envelope_text = slice envelope_start char_start m.raw_text;
      trailing_envelope_text = slice char_end envelope_end m.raw_text;
      token_ids = slice token_start token_end m.token_ids;
    }

-- `expected_text is not None and text != expected_text`
abbrev pub differs : Option Text → Text → Bool
differs none text = false
differs (some expected) text = not (text_eq text expected)

module _ (decode : List ℕ → Option Text) where
  -- `_decode`
  unfoldable pub decode_ids : List ℕ → Result Error Text
  decode_ids ids = elim (decode ids) [ none ↦ err Sections.decode_failed | some text ↦ ok text ]

  -- `_decode_combined_completion_prefix`
  unfoldable pub decode_combined : CompletionTokenMap → ℕ → Result Error Text
  decode_combined m count = do
    combined ← decode_ids (m.prompt_token_ids ++ take count m.token_ids)
    raise_if (not (starts_with m.decoded_prompt combined)) Sections.prompt_prefix_changed
    ok (drop (length m.decoded_prompt) combined)

  -- `CompletionTokenMap.__init__`
  unfoldable pub new_map : Text → List ℕ → List ℕ → Result Error CompletionTokenMap
  new_map raw completion prompt = do
    sections ← locate_completion_sections raw
    decoded_prompt ← decode_ids prompt
    let m : CompletionTokenMap = record {
      raw_text = raw;
      prompt_token_ids = prompt;
      token_ids = completion;
      sections = sections;
      decoded_prompt = decoded_prompt;
    }
    decoded ← decode_combined m (length completion)
    raise_if (not (text_eq decoded raw)) Sections.completion_differs
    ok m

  -- A boundary that is not in the cache from the start.
  unfoldable pub decode_inner : CompletionTokenMap → ℕ → Result Error Text
  decode_inner m count = do
    decoded ← decode_combined m count
    raise_if (not (starts_with decoded m.raw_text)) Sections.not_a_prefix
    ok decoded

  -- `_decode_prefix`: the cache holds 0 and the whole stream from the start.
  unfoldable pub decode_prefix : CompletionTokenMap → ℕ → Result Error Text
  decode_prefix m zero = ok []
  decode_prefix m (suc n) = do
    raise_if (ltb (length m.token_ids) (suc n)) Sections.boundary_out_of_range
    elim (suc n == length m.token_ids) [ true ↦ ok m.raw_text | false ↦ decode_inner m (suc n) ]

  -- `_prefix_length`
  unfoldable pub prefix_length : CompletionTokenMap → ℕ → Result Error ℕ
  prefix_length m count = decode_prefix m count >>= λ decoded. ok (length decoded)

  -- The tests on the boundaries beside the found ones.
  unfoldable pub check_after_start : CompletionTokenMap → ℕ → ℕ → Result Error (Unit {0})
  check_after_start m token_start char_start = elim (ltb token_start (length m.token_ids)) [
    | false ↦ ok tt
    | true ↦ do
      after_start ← prefix_length m (token_start + 1)
      raise_if (leb after_start char_start) Sections.start_not_rightmost
  ]

  unfoldable pub check_before_end : CompletionTokenMap → ℕ → ℕ → Result Error (Unit {0})
  check_before_end m token_end char_end = elim (ltb 0 token_end) [
    | false ↦ ok tt
    | true ↦ do
      before_end ← prefix_length m (token_end - 1)
      raise_if (leb char_end before_end) Sections.end_not_leftmost
  ]

  -- The part of `map_completion_span` after the two searches.
  unfoldable pub cover : CompletionTokenMap → ℕ → ℕ → ℕ → ℕ → ℕ → ℕ → Result Error OriginalTokenSpan
  cover m char_start char_end relative_start relative_end token_start token_end = do
    raise_if (leb token_end token_start) Sections.empty_token_span
    envelope_start ← prefix_length m token_start
    envelope_end ← prefix_length m token_end
    raise_if
        (not
          (leb envelope_start char_start && (ltb char_start char_end && leb char_end envelope_end)))
        Sections.envelope_misses
    check_after_start m token_start char_start
    check_before_end m token_end char_end
    prefix_start ← decode_prefix m token_start
    prefix_end ← decode_prefix m token_end
    raise_if
        (not (
          text_eq (drop (length prefix_start) prefix_end)
            (slice envelope_start envelope_end m.raw_text)))
        Sections.envelope_differs
    let span =
        span_of m char_start char_end relative_start relative_end token_start token_end
          envelope_start envelope_end
    check_span span
    ok span

  -- `map_completion_span`
  unfoldable pub map_completion_span :
      CompletionTokenMap → ℕ → ℕ → Option Text → ℕ → ℕ → Result Error OriginalTokenSpan
  map_completion_span m char_start char_end expected relative_start relative_end = do
    raise_if (not (ltb char_start char_end && leb char_end (length m.raw_text)))
        Sections.span_outside
    raise_if (differs expected (slice char_start char_end m.raw_text)) Sections.expected_differs
    token_start ←
        rightmost_boundary (prefix_length m) char_start (length m.token_ids) 0 (length m.token_ids)
    token_end ←
        leftmost_boundary (prefix_length m) char_end (length m.token_ids) 0 (length m.token_ids)
    cover m char_start char_end relative_start relative_end token_start token_end

  -- `map_reasoning_span`
  unfoldable pub map_reasoning_span :
      CompletionTokenMap → ℕ → ℕ → Option Text → Result Error OriginalTokenSpan
  map_reasoning_span m char_start char_end expected = do
    raise_if (not (ltb char_start char_end && leb char_end (length m.sections.reasoning)))
        Sections.reasoning_span_outside
    let offset = m.sections.reasoning_char_start
    map_completion_span m (offset + char_start) (offset + char_end) expected char_start char_end
