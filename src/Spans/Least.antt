-- ===== src/Spans/Least.antt =====
-- `map_completion_span` and `map_reasoning_span` of token_spans.py on tokens whose longer prefixes do
-- not have shorter texts.
use model_forensics_value_le.Prelude.{
  ℕ, zero, suc, ◌+◌, ◌-◌, ◌≤◌, ◌≡◌, ap, Option, List, [], ◌∷◌, arith, length, take, drop,
  length-drop,
}
use native.Mathlib.Decide.{dec_lt}
use model_forensics_value_le.Prelude.Outcome.{ok}
use model_forensics_value_le.Spans.Sections.{Text}
use model_forensics_value_le.Spans.Search.{IsMonotone}
use model_forensics_value_le.Spans.Map.{
  OriginalTokenSpan, CompletionTokenMap, prefix_length, map_reasoning_span,
}
use model_forensics_value_le.Spans.Cover.{IsTightCover, map_reasoning_span-IsTightCover}

length-take-le : (n : ℕ) (xs : List ℕ) → length (take n xs) ≤ length xs
length-take-le zero xs = omega arith
length-take-le (suc n) [] = omega arith
length-take-le (suc n) (x ∷ xs) = omega (arith, length-take-le n xs)

module _ (decode : List ℕ → Option Text) (m : CompletionTokenMap) (len : ℕ → ℕ) where
  -- Each run of tokens whose prefixes hold the characters from `a` to `b` contains the span's.
  abbrev pub IsLeast : ℕ → ℕ → OriginalTokenSpan → Type 0
  IsLeast a b s =
      (first after : ℕ)
      → first ≤ length m.token_ids
      → after ≤ length m.token_ids
      → len first ≤ a
      → b ≤ len after
      → (first ≤ s.token_start) × (s.token_end ≤ after)

  module _ (a b : ℕ) (s : OriginalTokenSpan) (c : IsTightCover decode m a b s)
      (mono : IsMonotone (prefix_length decode m) a (length m.token_ids) len) where
    token_end-le : s.token_end ≤ length m.token_ids
    token_end-le =
        let ids = ap length c.ids in
        let size = c.ids_length in
        let some_tokens = c.not_empty in
        omega (
          arith,
          ids,
          size,
          some_tokens,
          length-take-le (s.token_end - s.token_start) (drop s.token_start m.token_ids),
          length-drop s.token_start m.token_ids,
        )

    start_least : (first : ℕ) → first ≤ length m.token_ids → len first ≤ a → first ≤ s.token_start
    start_least first inside before = elim (dec_lt s.token_start first) [
      | no p ↦ omega (arith, p)
      | yes p ↦
          let next =
            c.start_last (len (s.token_start + 1)) (omega (arith, p, inside))
              (mono.decodes (s.token_start + 1) (omega (arith, p, inside))) in
          absurd (
            omega
              (arith, next, before, mono.grows (s.token_start + 1) first (omega (arith, p)) inside))
    ]

    end_least : (after : ℕ) → after ≤ length m.token_ids → b ≤ len after → s.token_end ≤ after
    end_least after inside behind = elim (dec_lt after s.token_end) [
      | no p ↦ omega (arith, p)
      | yes p ↦
          let top = token_end-le in
          let last =
            c.end_first (len (s.token_end - 1)) (omega (arith, p))
              (mono.decodes (s.token_end - 1) (omega (arith, top))) in
          absurd (
            omega (
              arith,
              last,
              behind,
              mono.grows after (s.token_end - 1) (omega (arith, p)) (omega (arith, top)),
            ))
    ]

    IsTightCover-IsLeast : IsLeast a b s
    IsTightCover-IsLeast first after f g before behind =
        (start_least first f before, end_least after g behind)

  -- If each prefix of the tokens decodes and a longer one has no shorter text, then a span that
  -- `map_reasoning_span` returns lies inside the reasoning, covers its characters, counted from where
  -- the reasoning starts, and is the least run of tokens that does: every other contains it.
  pub map_reasoning_span-IsLeast :
      (a b : ℕ) (expected : Option Text) (s : OriginalTokenSpan)
      → IsMonotone
          (prefix_length decode m)
          (m.sections.reasoning_char_start + a)
          (length m.token_ids)
          len
      → map_reasoning_span decode m a b expected ≡ ok s
      → (b ≤ length m.sections.reasoning)
        × IsTightCover decode m
            (m.sections.reasoning_char_start + a)
            (m.sections.reasoning_char_start + b)
            s
        × IsLeast (m.sections.reasoning_char_start + a) (m.sections.reasoning_char_start + b) s
  map_reasoning_span-IsLeast a b expected s mono h =
      let offset = m.sections.reasoning_char_start in
      let (inside, cover) = map_reasoning_span-IsTightCover decode m a b expected s h in
      (inside, cover, IsTightCover-IsLeast (offset + a) (offset + b) s cover mono)
