-- ===== src/Spans/Streams.antt =====
-- The manifest of token streams, token_spans.py: `token_stream_hash`, `token_stream_manifest` and
-- `validate_token_stream_manifest`. `stable_hash` of a payload is a parameter, by what varies in it.
use model_forensics_value_le.Prelude.{
  ℕ, String, Bool, true, false, not, ◌&&◌, ◌||◌, Option, none, some, List, [], ◌∷◌, any, str_eq,
}
use model_forensics_value_le.Prelude.Outcome.{Result, ok, err, ◌>>=◌, ◌>>◌, raise_if}
use model_forensics_value_le.Spans.Sections
use model_forensics_value_le.Spans.Sections.{Text}
use model_forensics_value_le.Spans.Map.{CompletionTokenMap, new_map}

pub data StreamError : Type 0 where
  not_integers negative_id blank_stream unsupported_schema not_a_sequence : StreamError
  both_required field_failed : StreamError

-- An element of a stream that may be no token ID.
pub data RawTokenId : Type 0 where
  token : ℕ → RawTokenId
  below_zero not_an_integer : RawTokenId

abbrev pub is_not_integer : RawTokenId → Bool
is_not_integer (token n) = false
is_not_integer below_zero = false
is_not_integer not_an_integer = true

-- The last test and the values, of integers.
unfoldable pub non_negative_ids : List RawTokenId → Result StreamError (List ℕ)
non_negative_ids [] = ok []
non_negative_ids (token n ∷ ids) = do rest ← non_negative_ids ids; ok (n ∷ rest)
non_negative_ids (below_zero ∷ ids) = err negative_id
non_negative_ids (not_an_integer ∷ ids) = err not_integers

-- `_normalize_token_ids`
unfoldable pub normalize_token_ids : List RawTokenId → Result StreamError (List ℕ)
normalize_token_ids ids = do raise_if (any is_not_integer ids) not_integers; non_negative_ids ids

-- A value under a stream's key: null, a sequence, or something else.
pub data RawStream : Type 0 where
  null_stream other_stream : RawStream
  sequence_of : List RawTokenId → RawStream

pub record StreamManifest : Type 0 where
  pub prompt_token_ids : Option (List ℕ)
  pub completion_token_ids : Option (List ℕ)
  pub prompt_token_ids_hash : Option String
  pub completion_token_ids_hash : Option String
  pub combined_token_stream_hash : Option String

-- A manifest as it was read.
pub record RawManifest : Type 0 where
  pub supported_schema : Bool
  pub prompt_stream : RawStream
  pub completion_stream : RawStream
  pub prompt_hash : Option String
  pub completion_hash : Option String
  pub combined_hash : Option String

unfoldable pub read_stream : RawStream → Result StreamError (Option (List ℕ))
read_stream null_stream = ok none
read_stream other_stream = err not_a_sequence
read_stream (sequence_of ids) = do normalized ← normalize_token_ids ids; ok (some normalized)

abbrev pub is_other : RawStream → Bool
is_other null_stream = false
is_other other_stream = true
is_other (sequence_of ids) = false

abbrev pub is_null : Option (List ℕ) → Bool
is_null none = true
is_null (some ids) = false

unfoldable pub same_hash : Option String → Option String → Bool
same_hash none none = true
same_hash none (some text) = false
same_hash (some text) none = false
same_hash (some text) (some other) = str_eq text other

module _ (stream_hash : String → List ℕ → String)
    (combined_hash_of : String → String → String) where
  -- `token_stream_hash`
  unfoldable pub token_stream_hash : String → List RawTokenId → Result StreamError String
  token_stream_hash stream ids = do
    normalized ← normalize_token_ids ids
    raise_if (str_eq stream "") blank_stream
    ok (stream_hash stream normalized)

  unfoldable pub hash_of : String → Option (List ℕ) → Option String
  hash_of stream none = none
  hash_of stream (some ids) = some (stream_hash stream ids)

  unfoldable pub combined_of : Option (List ℕ) → Option (List ℕ) → Option String
  combined_of none completion = none
  combined_of (some prompt) none = none
  combined_of (some prompt) (some completion) =
      some (combined_hash_of (stream_hash "prompt" prompt) (stream_hash "completion" completion))

  -- `token_stream_manifest` of normalized streams.
  unfoldable pub token_stream_manifest : Option (List ℕ) → Option (List ℕ) → StreamManifest
  token_stream_manifest prompt completion = record {
    prompt_token_ids = prompt;
    completion_token_ids = completion;
    prompt_token_ids_hash = hash_of "prompt" prompt;
    completion_token_ids_hash = hash_of "completion" completion;
    combined_token_stream_hash = combined_of prompt completion;
  }

  -- The loop over the fields; the streams are the expected ones already.
  unfoldable pub check_fields : StreamManifest → RawManifest → Result StreamError (Unit {0})
  check_fields expected manifest = do
    raise_if (not (same_hash manifest.prompt_hash expected.prompt_token_ids_hash)) field_failed
    raise_if (not (same_hash manifest.completion_hash expected.completion_token_ids_hash))
        field_failed
    raise_if (not (same_hash manifest.combined_hash expected.combined_token_stream_hash))
        field_failed

  -- `validate_token_stream_manifest`
  unfoldable pub validate_token_stream_manifest :
      Bool → RawManifest → Result StreamError (Option (List ℕ) × Option (List ℕ))
  validate_token_stream_manifest require_both manifest = do
    raise_if (not manifest.supported_schema) unsupported_schema
    raise_if (is_other manifest.prompt_stream) not_a_sequence
    raise_if (is_other manifest.completion_stream) not_a_sequence
    prompt ← read_stream manifest.prompt_stream
    completion ← read_stream manifest.completion_stream
    raise_if (require_both && (is_null prompt || is_null completion)) both_required
    check_fields (token_stream_manifest prompt completion) manifest
    ok (prompt, completion)

-- A stream that the validation found.
abbrev pub or_empty : Option (List ℕ) → List ℕ
or_empty none = []
or_empty (some ids) = ids

pub data BuildError : Type 0 where
  stream_error : StreamError → BuildError
  map_error : Sections.Error → BuildError

-- `CompletionTokenMap.from_manifest`
unfoldable pub from_manifest :
    (String → List ℕ → String)
    → (String → String → String)
    → (List ℕ → Option Text)
    → Text
    → RawManifest
    → Result BuildError CompletionTokenMap
from_manifest stream_hash combined_hash_of decode raw manifest =
    elim (validate_token_stream_manifest stream_hash combined_hash_of true manifest) [
      | err e ↦ err (stream_error e)
      | ok streams ↦ elim (new_map decode raw (or_empty streams.1) (or_empty streams.0)) [
        | err e ↦ err (map_error e)
        | ok m ↦ ok m
      ]
    ]
