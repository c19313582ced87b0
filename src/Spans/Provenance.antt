-- ===== src/Spans/Provenance.antt =====
-- What `validate_token_stream_manifest` of token_spans.py accepts.
use model_forensics_value_le.Prelude.{
  ℕ, ◌≡◌, refl, String, Bool, true, false, ◌&&◌, ◌||◌, Option, none, some, List, [], ◌∷◌, map, any,
  eq_iff, inl, inr, arith, ap, subst,
}
use model_forensics_value_le.Prelude.Outcome.{ok, Result-cases, ok-injective}
use model_forensics_value_le.Spans.Streams.{
  StreamError, token, is_not_integer, non_negative_ids, normalize_token_ids, RawStream, null_stream,
  sequence_of, StreamManifest, RawManifest, read_stream, is_null, is_other, same_hash, hash_of,
  combined_of, token_stream_manifest, check_fields, validate_token_stream_manifest,
}

any_token : (ids : List ℕ) → any is_not_integer (map token ids) ≡ false
any_token [] = refl
any_token (n ∷ ids) = any_token ids

non_negative_ids-token : (ids : List ℕ) → non_negative_ids (map token ids) ≡ ok ids
unfolding non_negative_ids
non_negative_ids-token [] = refl
non_negative_ids-token (n ∷ ids) = rw (non_negative_ids-token ids) refl

normalize_token_ids-token : (ids : List ℕ) → normalize_token_ids (map token ids) ≡ ok ids
unfolding normalize_token_ids
normalize_token_ids-token ids = rw (any_token ids) (non_negative_ids-token ids)

-- A stream as it is written.
unfoldable pub written_stream : Option (List ℕ) → RawStream
written_stream none = null_stream
written_stream (some ids) = sequence_of (map token ids)

read_stream-written_stream : (ids : Option (List ℕ)) → read_stream (written_stream ids) ≡ ok ids
unfolding read_stream written_stream
read_stream-written_stream none = refl
read_stream-written_stream (some ids) = rw (normalize_token_ids-token ids) refl

is_other-written_stream : (ids : Option (List ℕ)) → is_other (written_stream ids) ≡ false
unfolding written_stream
is_other-written_stream none = refl
is_other-written_stream (some ids) = refl

same_hash_refl : (hash : Option String) → same_hash hash hash ≡ true
unfolding same_hash
same_hash_refl none = refl
same_hash_refl (some text) = (eq_iff text text).1 refl

same_hash-equal : (left right : Option String) → same_hash left right ≡ true → left ≡ right
unfolding same_hash
same_hash-equal none none h = refl
same_hash-equal none (some text) h = cc
same_hash-equal (some text) none h = cc
same_hash-equal (some text) (some other) h = ap some ((eq_iff text other).0 h)

module _ (stream_hash : String → List ℕ → String)
    (combined_hash_of : String → String → String) where
  -- A manifest as it is written.
  unfoldable pub written_manifest : StreamManifest → RawManifest
  written_manifest m = record {
    supported_schema = true;
    prompt_stream = written_stream m.prompt_token_ids;
    completion_stream = written_stream m.completion_token_ids;
    prompt_hash = m.prompt_token_ids_hash;
    completion_hash = m.completion_token_ids_hash;
    combined_hash = m.combined_token_stream_hash;
  }

  check_fields-written_manifest :
      (m : StreamManifest)
      → check_fields stream_hash combined_hash_of m (written_manifest m) ≡ ok tt
  unfolding check_fields written_manifest
  check_fields-written_manifest m = rw (same_hash_refl m.prompt_token_ids_hash) (
      rw (same_hash_refl m.completion_token_ids_hash)
        (rw (same_hash_refl m.combined_token_stream_hash) refl))

  -- The hashes of a manifest are those of two streams.
  pub record HasHashes (require_both : Bool) (manifest : RawManifest)
      (streams : Option (List ℕ) × Option (List ℕ)) : Type 0 where
    pub prompt_hashed :
        manifest.prompt_hash ≡ hash_of stream_hash combined_hash_of "prompt" streams.0
    pub completion_hashed :
        manifest.completion_hash ≡ hash_of stream_hash combined_hash_of "completion" streams.1
    pub combined_hashed :
        manifest.combined_hash ≡ combined_of stream_hash combined_hash_of streams.0 streams.1
    pub both_there : require_both && (is_null streams.0 || is_null streams.1) ≡ false

  check_fields-equal :
      (expected : StreamManifest) (manifest : RawManifest)
      → check_fields stream_hash combined_hash_of expected manifest ≡ ok tt
      → (same_hash manifest.prompt_hash expected.prompt_token_ids_hash ≡ true)
        × (same_hash manifest.completion_hash expected.completion_token_ids_hash ≡ true)
        × (same_hash manifest.combined_hash expected.combined_token_stream_hash ≡ true)
  unfolding check_fields
  check_fields-equal expected manifest h = (ground arith, ground arith, ground arith)

  check_fields-HasHashes :
      (require_both : Bool) (manifest : RawManifest) (prompt completion : Option (List ℕ))
      → check_fields stream_hash combined_hash_of
          (token_stream_manifest stream_hash combined_hash_of prompt completion)
          manifest
        ≡ ok tt
      → require_both && (is_null prompt || is_null completion) ≡ false
      → HasHashes require_both manifest (prompt, completion)
  unfolding token_stream_manifest
  check_fields-HasHashes require_both manifest prompt completion h both =
      let e =
        check_fields-equal (token_stream_manifest stream_hash combined_hash_of prompt completion)
          manifest h in
      record {
        prompt_hashed = same_hash-equal manifest.prompt_hash _ e.0;
        completion_hashed = same_hash-equal manifest.completion_hash _ e.1;
        combined_hashed = same_hash-equal manifest.combined_hash _ e.2;
        both_there = both;
      }

  -- The hashes of a validated manifest are those of the streams that are returned, and both
  -- streams are there if they are required.
  pub validate_token_stream_manifest-hashes :
      (require_both : Bool) (manifest : RawManifest) (prompt completion : Option (List ℕ))
      → validate_token_stream_manifest stream_hash combined_hash_of require_both manifest
        ≡ ok (prompt, completion)
      → HasHashes require_both manifest (prompt, completion)
  unfolding validate_token_stream_manifest
  validate_token_stream_manifest-hashes require_both manifest prompt completion h =
      elim (Result-cases (read_stream manifest.prompt_stream)) [
        | inl (e, f) ↦ absurd (ground arith)
        | inr (p, f) ↦ elim (Result-cases (read_stream manifest.completion_stream)) [
          | inl (e, g) ↦ absurd (ground arith)
          | inr (c, g) ↦
              let q : ◌≡◌ {A = Option (List ℕ) × Option (List ℕ)} (p, c) (prompt, completion) =
                ok-injective {E = StreamError} (ground arith) in
              let checked : check_fields stream_hash combined_hash_of
                    (token_stream_manifest stream_hash combined_hash_of p c) manifest
                  ≡ ok tt =
                ground arith in
              let both : require_both && (is_null p || is_null c) ≡ false = ground arith in
              subst (HasHashes require_both manifest) {x = (p, c)} q
                (check_fields-HasHashes require_both manifest p c checked both)
        ]
      ]

  -- A manifest that was written is validated, and gives the streams it was made from.
  pub validate_token_stream_manifest-written :
      (require_both : Bool) (prompt completion : Option (List ℕ))
      → require_both && (is_null prompt || is_null completion) ≡ false
      → validate_token_stream_manifest stream_hash combined_hash_of require_both
          (written_manifest (token_stream_manifest stream_hash combined_hash_of prompt completion))
        ≡ ok (prompt, completion)
  unfolding validate_token_stream_manifest written_manifest token_stream_manifest
  validate_token_stream_manifest-written require_both prompt completion h =
      let m = token_stream_manifest stream_hash combined_hash_of prompt completion in
      let p = is_other-written_stream prompt in
      let c = is_other-written_stream completion in
      let rp = read_stream-written_stream prompt in
      let rc = read_stream-written_stream completion in
      let f : check_fields stream_hash combined_hash_of m (written_manifest m) ≡ ok tt =
        check_fields-written_manifest m in
      rw p (rw c (rw rp (rw rc (rw h (rw f refl)))))
