-- ===== src/Spans/Cover.antt =====
-- `map_completion_span` of token_spans.py: what a returned span is.
use model_forensics_value_le.Prelude.{
  ℕ, ◌+◌, ◌-◌, ◌≤◌, ◌<◌, ◌≡◌, refl, subst, Option, List, ◌++◌, inl, inr, arith, length, slice,
  slice-slice,
}
use model_forensics_value_le.Prelude.Outcome.{ok, ok-injective, Result-cases}
use model_forensics_value_le.Spans.Sections.{Text, Error}
use model_forensics_value_le.Spans.Search.{rightmost_boundary, leftmost_boundary}
use model_forensics_value_le.Spans.Map.{
  OriginalTokenSpan, span_of, check_span, CompletionTokenMap, prefix_length, check_after_start,
  check_before_end, cover, map_completion_span, map_reasoning_span,
}

-- The three parts of an envelope make it.
envelope-parts :
    (raw : Text) (es a b ee : ℕ)
    → es ≤ a
    → a ≤ b
    → b ≤ ee
    → slice es a raw ++ (slice a b raw ++ slice b ee raw) ≡ slice es ee raw
envelope-parts raw es a b ee h k l =
    rw (slice-slice a b ee raw k l) (slice-slice es a ee raw h (omega arith))

check_span-length :
    (s : OriginalTokenSpan)
    → check_span s ≡ ok tt
    → length s.token_ids ≡ s.token_end - s.token_start
unfolding check_span
check_span-length s h = ground arith

module _ (decode : List ℕ → Option Text) (m : CompletionTokenMap) where
  -- The span holds its characters and no longer does without its first or its last token, as far as
  -- the prefixes tell, and its parts are the text's.
  pub record IsTightCover (a b : ℕ) (s : OriginalTokenSpan) : Type 0 where
    pub characters : (s.completion_char_start ≡ a) × (s.completion_char_end ≡ b)
    pub starts : prefix_length decode m s.token_start ≡ ok s.token_envelope_char_start
    pub ends : prefix_length decode m s.token_end ≡ ok s.token_envelope_char_end
    pub covers : (s.token_envelope_char_start ≤ a) × (a < b) × (b ≤ s.token_envelope_char_end)
    pub start_last :
        (n : ℕ)
        → s.token_start < length m.token_ids
        → prefix_length decode m (s.token_start + 1) ≡ ok n
        → a < n
    pub end_first :
        (n : ℕ) → 0 < s.token_end → prefix_length decode m (s.token_end - 1) ≡ ok n → n < b
    pub exact : s.text ≡ slice a b m.raw_text
    pub envelope :
        s.leading_envelope_text ++ (s.text ++ s.trailing_envelope_text)
        ≡ slice s.token_envelope_char_start s.token_envelope_char_end m.raw_text
    pub ids : s.token_ids ≡ slice s.token_start s.token_end m.token_ids
    pub ids_length : length s.token_ids ≡ s.token_end - s.token_start
    pub not_empty : s.token_start < s.token_end

  check_after_start-last :
      (ts a n : ℕ)
      → check_after_start decode m ts a ≡ ok tt
      → ts < length m.token_ids
      → prefix_length decode m (ts + 1) ≡ ok n
      → a < n
  unfolding check_after_start
  check_after_start-last ts a n h k p = ground arith

  check_before_end-first :
      (te b n : ℕ)
      → check_before_end decode m te b ≡ ok tt
      → 0 < te
      → prefix_length decode m (te - 1) ≡ ok n
      → n < b
  unfolding check_before_end
  check_before_end-first te b n h k p = ground arith

  record IsReturned (a b rs re ts te : ℕ) (s : OriginalTokenSpan) : Type 0 where
    pub es : ℕ
    pub ee : ℕ
    pub starts : prefix_length decode m ts ≡ ok es
    pub ends : prefix_length decode m te ≡ ok ee
    pub ordered : ts < te
    pub covers : (es ≤ a) × (a < b) × (b ≤ ee)
    pub after : check_after_start decode m ts a ≡ ok tt
    pub before : check_before_end decode m te b ≡ ok tt
    pub checked : check_span (span_of m a b rs re ts te es ee) ≡ ok tt
    pub same : span_of m a b rs re ts te es ee ≡ s

  cover-IsReturned :
      (a b rs re ts te : ℕ) (s : OriginalTokenSpan)
      → cover decode m a b rs re ts te ≡ ok s
      → IsReturned a b rs re ts te s
  unfolding cover
  cover-IsReturned a b rs re ts te s h = elim (Result-cases (prefix_length decode m ts)) [
    | inl (e, f) ↦ absurd (ground arith)
    | inr (es, f) ↦ elim (Result-cases (prefix_length decode m te)) [
      | inl (e, g) ↦ absurd (ground arith)
      | inr (ee, g) ↦ elim (Result-cases (check_span (span_of m a b rs re ts te es ee))) [
        | inl (e, k) ↦ absurd (ground arith)
        | inr (u, k) ↦ record {
          es = es;
          ee = ee;
          starts = f;
          ends = g;
          ordered = ground arith;
          covers = (ground arith, ground arith, ground arith);
          after = ground arith;
          before = ground arith;
          checked = k;
          same = ok-injective {E = Error} (ground arith);
        }
      ]
    ]
  ]

  IsReturned-IsTightCover :
      (a b rs re ts te : ℕ) (s : OriginalTokenSpan)
      → IsReturned a b rs re ts te s
      → IsTightCover a b s
  IsReturned-IsTightCover a b rs re ts te s r = subst (IsTightCover a b) r.same record {
    characters = (refl, refl);
    starts = r.starts;
    ends = r.ends;
    covers = r.covers;
    start_last = λ n. check_after_start-last ts a n r.after;
    end_first = λ n. check_before_end-first te b n r.before;
    exact = refl;
    envelope =
        envelope-parts m.raw_text r.es a b r.ee r.covers.0 (omega (arith, r.covers.1)) r.covers.2;
    ids = refl;
    ids_length = check_span-length (span_of m a b rs re ts te r.es r.ee) r.checked;
    not_empty = r.ordered;
  }

  -- A span that `map_completion_span` returns holds the characters between the prefixes at its two
  -- boundaries, and neither the next boundary after its start nor the one before its end still does;
  -- its text and envelope are the completion's, and its token IDs are that slice of the stream.
  pub map_completion_span-IsTightCover :
      (a b : ℕ) (expected : Option Text) (rs re : ℕ) (s : OriginalTokenSpan)
      → map_completion_span decode m a b expected rs re ≡ ok s
      → IsTightCover a b s
  unfolding map_completion_span
  map_completion_span-IsTightCover a b expected rs re s h =
      let count = length m.token_ids in
      elim (Result-cases (rightmost_boundary (prefix_length decode m) a count 0 count)) [
        | inl (e, f) ↦ absurd (ground arith)
        | inr (ts, f) ↦
            elim (Result-cases (leftmost_boundary (prefix_length decode m) b count 0 count)) [
              | inl (e, g) ↦ absurd (ground arith)
              | inr (te, g) ↦
                  IsReturned-IsTightCover a b rs re ts te s
                    (cover-IsReturned a b rs re ts te s (ground arith))
            ]
      ]

  -- The same of `map_reasoning_span`, whose offsets count from the start of the reasoning.
  pub map_reasoning_span-IsTightCover :
      (a b : ℕ) (expected : Option Text) (s : OriginalTokenSpan)
      → map_reasoning_span decode m a b expected ≡ ok s
      → (b ≤ length m.sections.reasoning)
        × IsTightCover (m.sections.reasoning_char_start + a) (m.sections.reasoning_char_start + b) s
  unfolding map_reasoning_span
  map_reasoning_span-IsTightCover a b expected s h =
      let offset = m.sections.reasoning_char_start in
      (
        ground arith,
        map_completion_span-IsTightCover (offset + a) (offset + b) expected a b s (ground arith),
      )
