-- ===== src/Spans/Search.antt =====
-- The two binary searches of `CompletionTokenMap` (token_spans.py), over the length of a decoded
-- prefix, which may fail to decode.
use model_forensics_value_le.Prelude.{
  ℕ, zero, suc, ◌+◌, ◌-◌, ◌/◌, ◌≤◌, ◌<◌, ◌≡◌, refl, true, false, arith, leb, ltb, inl, inr,
  Bool-cases,
}
use model_forensics_value_le.Prelude.Outcome.{Result, ok, ◌>>=◌}

module _ {E : Type 0} (prefix_length : ℕ → Result E ℕ) (character : ℕ) where
  -- `_rightmost_boundary_at_or_before` with `low` and `high`. Each round shortens the range, so
  -- `high - low` rounds are enough.
  unfoldable pub rightmost_boundary : ℕ → ℕ → ℕ → Result E ℕ
  rightmost_boundary zero low high = ok low
  rightmost_boundary (suc rounds) low high = elim (ltb low high) [
    | false ↦ ok low
    | true ↦ do
      let middle = (low + high + 1) / 2
      length ← prefix_length middle
      elim (leb length character) [
        | true ↦ rightmost_boundary rounds middle high
        | false ↦ rightmost_boundary rounds low (middle - 1)
      ]
  ]

  -- `_leftmost_boundary_at_or_after`
  unfoldable pub leftmost_boundary : ℕ → ℕ → ℕ → Result E ℕ
  leftmost_boundary zero low high = ok low
  leftmost_boundary (suc rounds) low high = elim (ltb low high) [
    | false ↦ ok low
    | true ↦ do
      let middle = (low + high) / 2
      length ← prefix_length middle
      elim (leb character length) [
        | true ↦ leftmost_boundary rounds low middle
        | false ↦ leftmost_boundary rounds (middle + 1) high
      ]
  ]

  -- Every prefix up to `count` decodes, and a longer one is not shorter in characters.
  pub record IsMonotone (count : ℕ) (length : ℕ → ℕ) : Type 0 where
    pub decodes : (k : ℕ) → k ≤ count → prefix_length k ≡ ok (length k)
    pub grows : (j k : ℕ) → j ≤ k → k ≤ count → length j ≤ length k

  -- The last boundary of the range at or before the character.
  pub record IsRightmost (length : ℕ → ℕ) (high r : ℕ) : Type 0 where
    pub inside : r ≤ high
    pub before : length r ≤ character
    pub last : (k : ℕ) → k ≤ high → length k ≤ character → k ≤ r

  -- The first boundary of the range at or after the character.
  pub record IsLeftmost (length : ℕ → ℕ) (low count l : ℕ) : Type 0 where
    pub from : low ≤ l
    pub to : l ≤ count
    pub behind : character ≤ length l
    pub first : (k : ℕ) → low ≤ k → k ≤ count → character ≤ length k → l ≤ k

  -- A boundary past which the next one is too far is the last one of a longer range too.
  IsRightmost-widen :
      (count : ℕ) (length : ℕ → ℕ) (middle high r : ℕ)
      → IsMonotone count length
      → 0 < middle
      → middle ≤ high
      → high ≤ count
      → character < length middle
      → IsRightmost length (middle - 1) r
      → IsRightmost length high r
  IsRightmost-widen count length middle high r m pos le top far v = record {
    inside = omega (arith, v.inside);
    before = v.before;
    last = λ k hk hl. elim (Bool-cases (ltb k middle)) [
      | inl short ↦ v.last k (ground arith) hl
      | inr long ↦ absurd (ground (arith, m.grows middle k))
    ];
  }

  IsLeftmost-widen :
      (count : ℕ) (length : ℕ → ℕ) (low middle l : ℕ)
      → IsMonotone count length
      → low ≤ middle
      → middle ≤ count
      → length middle < character
      → IsLeftmost length (middle + 1) count l
      → IsLeftmost length low count l
  IsLeftmost-widen count length low middle l m le top near v = record {
    from = omega (arith, v.from);
    to = v.to;
    behind = v.behind;
    first = λ k hk top_k hl. elim (Bool-cases (ltb middle k)) [
      | inl long ↦ v.first k (ground arith) top_k hl
      | inr short ↦ absurd (ground (arith, m.grows k middle))
    ];
  }

  pub rightmost_boundary-IsRightmost :
      (count : ℕ) (length : ℕ → ℕ) (rounds low high : ℕ)
      → IsMonotone count length
      → low ≤ high
      → high ≤ count
      → high ≤ low + rounds
      → length low ≤ character
      → (r : ℕ) × (rightmost_boundary rounds low high ≡ ok r) × IsRightmost length high r
  unfolding rightmost_boundary
  rightmost_boundary-IsRightmost count length zero low high m le top room fits =
      (low, refl, record { inside = le; before = fits; last = λ k hk hl. omega arith })
  rightmost_boundary-IsRightmost count length (suc rounds) low high m le top room fits =
      let middle = (low + high + 1) / 2 in
      elim (Bool-cases (ltb low high)) [
        | inr done ↦ (
          low,
          ground arith,
          record { inside = le; before = fits; last = λ k hk hl. ground arith },
        )
        | inl more ↦ elim (Bool-cases (leb (length middle) character)) [
          | inl near ↦
              let (r, found, v) =
                rightmost_boundary-IsRightmost count length rounds middle high m (ground arith) top
                  (ground arith) (ground arith) in
              (r, ground (arith, m.decodes middle), v)
          | inr far ↦
              let (r, found, v) =
                rightmost_boundary-IsRightmost count length rounds low (middle - 1) m (ground arith)
                  (ground arith) (ground arith) fits in
              (
                r,
                ground (arith, m.decodes middle),
                IsRightmost-widen count length middle high r m (ground arith) (ground arith) top
                    (ground arith) v,
              )
        ]
      ]

  pub leftmost_boundary-IsLeftmost :
      (count : ℕ) (length : ℕ → ℕ) (rounds low high : ℕ)
      → IsMonotone count length
      → low ≤ high
      → high ≤ count
      → high ≤ low + rounds
      → character ≤ length high
      → (l : ℕ) × (leftmost_boundary rounds low high ≡ ok l) × IsLeftmost length low count l
  unfolding leftmost_boundary
  leftmost_boundary-IsLeftmost count length zero low high m le top room fits = (
    low,
    refl,
    record {
      from = omega arith;
      to = omega arith;
      behind = omega (arith, m.grows high low);
      first = λ k hk top_k hl. hk;
    },
  )
  leftmost_boundary-IsLeftmost count length (suc rounds) low high m le top room fits =
      let middle = (low + high) / 2 in
      elim (Bool-cases (ltb low high)) [
        | inr done ↦ (
          low,
          ground arith,
          record {
            from = omega arith;
            to = omega arith;
            behind = ground (arith, m.grows high low);
            first = λ k hk top_k hl. hk;
          },
        )
        | inl more ↦ elim (Bool-cases (leb character (length middle))) [
          | inl behind ↦
              let (l, found, v) =
                leftmost_boundary-IsLeftmost count length rounds low middle m (ground arith)
                  (ground arith) (ground arith) (ground arith) in
              (l, ground (arith, m.decodes middle), v)
          | inr near ↦
              let (l, found, v) =
                leftmost_boundary-IsLeftmost count length rounds (middle + 1) high m (ground arith)
                  top (ground arith) fits in
              (
                l,
                ground (arith, m.decodes middle),
                IsLeftmost-widen count length low middle l m (ground arith) (ground arith)
                    (ground arith) v,
              )
        ]
      ]
