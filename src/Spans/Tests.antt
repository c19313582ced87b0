-- ===== src/Spans/Tests.antt =====
-- Runs of the span mapping with a tokenizer of five tokens.
use model_forensics_value_le.Prelude.{
  ℕ, String, zero, suc, ◌*◌, ◌≤◌, ◌≡◌, refl, true, false, Option, none, some, List, [], ◌∷◌, ◌++◌,
  arith,
}
use model_forensics_value_le.Prelude.Outcome.{ok, err}
use model_forensics_value_le.Prelude.Text.{codes, is_space, has_visible}
use model_forensics_value_le.Spans.Sections.{
  Text, duplicate_tags, open_think, close_think, starts_with, count_matches, find_match, space_at,
  trim_start, trim_end, trimmed_bounds, CompletionSections, text_eq, check_sections, regions,
  check_tags, trimmed_sections, locate_completion_sections,
}
use model_forensics_value_le.Spans.Located.{IsLocated, locate_completion_sections-IsLocated}
use model_forensics_value_le.Spans.Search.{rightmost_boundary, leftmost_boundary}
use model_forensics_value_le.Spans.Map.{
  OriginalTokenSpan, check_span, CompletionTokenMap, decode_ids, decode_combined, new_map,
  decode_inner, decode_prefix, prefix_length, check_after_start, check_before_end, cover,
  map_completion_span, map_reasoning_span,
}
use model_forensics_value_le.Spans.Cover.{IsTightCover, map_completion_span-IsTightCover}
use model_forensics_value_le.Spans.Search.{IsMonotone}
use model_forensics_value_le.Spans.Least.{IsLeast, map_reasoning_span-IsLeast}
use model_forensics_value_le.Spans.Total.{map_completion_span-returns}
use model_forensics_value_le.Spans.Streams.{
  not_integers, field_failed, token, not_an_integer, sequence_of, RawManifest, normalize_token_ids,
  same_hash, non_negative_ids, read_stream, hash_of, combined_of, token_stream_manifest,
  check_fields, validate_token_stream_manifest,
}
use model_forensics_value_le.Spans.Provenance.{
  HasHashes, written_manifest, validate_token_stream_manifest-hashes,
  validate_token_stream_manifest-written,
}

abbrev piece : ℕ → Text
piece zero = codes "I "
piece (suc zero) = codes "go"
piece (suc (suc zero)) = codes "</think>"
piece (suc (suc (suc zero))) = codes " ok"
piece _ = codes "<s>"

abbrev pieces : List ℕ → Text
pieces [] = []
pieces (id ∷ ids) = piece id ++ pieces ids

abbrev decode : List ℕ → Option Text
decode ids = some (pieces ids)

abbrev raw : Text
raw = codes "I go</think> ok"

abbrev located : CompletionSections
located = record {
  raw_text = raw;
  reasoning = codes "I go";
  answer = codes "ok";
  reasoning_char_start = 0;
  reasoning_char_end = 4;
  answer_char_start = 13;
  answer_char_end = 15;
  opening_think_in_completion = false;
  closing_think_in_completion = true;
}

abbrev token_map : CompletionTokenMap
token_map = record {
  raw_text = raw;
  prompt_token_ids = (9 ∷ []);
  token_ids = (0 ∷ 1 ∷ 2 ∷ 3 ∷ []);
  sections = located;
  decoded_prompt = codes "<s>";
}

locate_raw : locate_completion_sections raw ≡ ok located
unfolding locate_completion_sections find_match check_tags trimmed_sections check_sections
    starts_with count_matches has_visible is_space regions trimmed_bounds trim_start trim_end
    space_at text_eq
locate_raw = refl

locate_duplicate : locate_completion_sections (codes "</think></think>") ≡ err duplicate_tags
unfolding locate_completion_sections find_match check_tags trimmed_sections check_sections
    starts_with count_matches has_visible is_space regions trimmed_bounds trim_start trim_end
    space_at text_eq
locate_duplicate = refl

built : new_map decode raw (0 ∷ 1 ∷ 2 ∷ 3 ∷ []) (9 ∷ []) ≡ ok token_map
unfolding new_map decode_combined decode_ids locate_completion_sections find_match check_tags
    trimmed_sections check_sections starts_with count_matches has_visible is_space regions
    trimmed_bounds trim_start trim_end space_at text_eq
built = refl

-- The characters `o</` are in the tokens 1 and 2.
abbrev span : OriginalTokenSpan
span = record {
  section_char_start = 3;
  section_char_end = 6;
  completion_char_start = 3;
  completion_char_end = 6;
  token_start = 1;
  token_end = 3;
  token_envelope_char_start = 2;
  token_envelope_char_end = 12;
  text = codes "o</";
  leading_envelope_text = codes "g";
  trailing_envelope_text = codes "think>";
  token_ids = (1 ∷ 2 ∷ []);
}

mapped : map_completion_span decode token_map 3 6 none 3 6 ≡ ok span
unfolding map_completion_span rightmost_boundary leftmost_boundary cover check_after_start
    check_before_end check_span prefix_length decode_prefix decode_inner decode_combined decode_ids
    starts_with text_eq
mapped = refl

abbrev word : OriginalTokenSpan
word = record {
  section_char_start = 3;
  section_char_end = 4;
  completion_char_start = 3;
  completion_char_end = 4;
  token_start = 1;
  token_end = 2;
  token_envelope_char_start = 2;
  token_envelope_char_end = 4;
  text = codes "o";
  leading_envelope_text = codes "g";
  trailing_envelope_text = [];
  token_ids = (1 ∷ []);
}

mapped_reasoning : map_reasoning_span decode token_map 3 4 none ≡ ok word
unfolding map_reasoning_span map_completion_span rightmost_boundary leftmost_boundary cover
    check_after_start check_before_end check_span prefix_length decode_prefix decode_inner
    decode_combined decode_ids starts_with text_eq
mapped_reasoning = refl

tags_pass : check_tags raw (find_match open_think raw) (find_match close_think raw) ≡ ok tt
unfolding check_tags find_match starts_with count_matches has_visible is_space
tags_pass = refl

locate_completion_sections-IsLocated_example :
    (s : CompletionSections) × (locate_completion_sections raw ≡ ok s)
    × (s.raw_text ≡ raw)
    × IsLocated raw s
locate_completion_sections-IsLocated_example = locate_completion_sections-IsLocated raw tags_pass

map_completion_span-IsTightCover_example : IsTightCover decode token_map 3 6 span
map_completion_span-IsTightCover_example =
    map_completion_span-IsTightCover decode token_map 3 6 none 3 6 span mapped

abbrev short_map : CompletionTokenMap
short_map = record {
  raw_text = codes "I go";
  prompt_token_ids = [];
  token_ids = (0 ∷ 1 ∷ []);
  sections = located;
  decoded_prompt = [];
}

short_decodes : (k : ℕ) → k ≤ 2 → prefix_length decode short_map k ≡ ok (k * 2)
unfolding prefix_length decode_prefix decode_inner decode_combined decode_ids starts_with
short_decodes zero h = refl
short_decodes (suc zero) h = refl
short_decodes (suc (suc zero)) h = refl
short_decodes (suc (suc (suc k))) h = absurd (omega arith)

short_grows : (j k : ℕ) → j ≤ k → k ≤ 2 → j * 2 ≤ k * 2
short_grows j k h top = omega arith

short-IsMonotone : IsMonotone (prefix_length decode short_map) 3 2 (λ k. k * 2)
short-IsMonotone = record { decodes = short_decodes; grows = short_grows }

mapped_short : map_reasoning_span decode short_map 3 4 none ≡ ok word
unfolding map_reasoning_span map_completion_span rightmost_boundary leftmost_boundary cover
    check_after_start check_before_end check_span prefix_length decode_prefix decode_inner
    decode_combined decode_ids starts_with text_eq
mapped_short = refl

map_reasoning_span-IsLeast_example :
    (4 ≤ 4)
    × IsTightCover decode short_map 3 4 word
    × IsLeast decode short_map (λ k. k * 2) 3 4 word
map_reasoning_span-IsLeast_example =
    map_reasoning_span-IsLeast decode short_map (λ k. k * 2) 3 4 none word short-IsMonotone
      mapped_short

map_completion_span-returns_example :
    (s : OriginalTokenSpan) × (map_completion_span decode short_map 1 3 none 1 3 ≡ ok s)
map_completion_span-returns_example =
    map_completion_span-returns decode short_map (λ k. k * 2) 1 3 none 1 3 (omega arith)
      record { decodes = short_decodes; grows = short_grows } (omega arith) (omega arith) refl

-- A digest of a stream: here its name alone.
abbrev stream_hash : String → List ℕ → String
stream_hash stream ids = stream

abbrev combined_hash_of : String → String → String
combined_hash_of prompt completion = "both"

abbrev manifest : RawManifest
manifest = record {
  supported_schema = true;
  prompt_stream = sequence_of (token 9 ∷ []);
  completion_stream = sequence_of (token 0 ∷ token 1 ∷ []);
  prompt_hash = some "prompt";
  completion_hash = some "completion";
  combined_hash = some "both";
}

validated :
    validate_token_stream_manifest stream_hash combined_hash_of true manifest
    ≡ ok (some (9 ∷ []), some (0 ∷ 1 ∷ []))
unfolding validate_token_stream_manifest read_stream normalize_token_ids non_negative_ids
    check_fields token_stream_manifest hash_of combined_of same_hash
validated = refl

tampered :
    validate_token_stream_manifest stream_hash combined_hash_of true
      (record manifest { completion_hash = some "prompt" })
    ≡ err field_failed
unfolding validate_token_stream_manifest read_stream normalize_token_ids non_negative_ids
    check_fields token_stream_manifest hash_of combined_of same_hash
tampered = refl

untyped : normalize_token_ids (token 1 ∷ not_an_integer ∷ []) ≡ err not_integers
unfolding normalize_token_ids
untyped = refl

validate_token_stream_manifest-hashes_example :
    HasHashes stream_hash combined_hash_of true manifest (some (9 ∷ []), some (0 ∷ 1 ∷ []))
validate_token_stream_manifest-hashes_example =
    validate_token_stream_manifest-hashes stream_hash combined_hash_of true manifest (some (9 ∷ []))
      (some (0 ∷ 1 ∷ [])) validated

validate_token_stream_manifest-written_example :
    validate_token_stream_manifest stream_hash combined_hash_of true (
      written_manifest stream_hash combined_hash_of
        (token_stream_manifest stream_hash combined_hash_of (some (9 ∷ [])) (some (0 ∷ []))))
    ≡ ok (some (9 ∷ []), some (0 ∷ []))
validate_token_stream_manifest-written_example =
    validate_token_stream_manifest-written stream_hash combined_hash_of true (some (9 ∷ []))
      (some (0 ∷ [])) refl
