-- ===== src/EstimateSpans/Resolved.antt =====
-- The offsets that `collect_first_estimate_span` of estimate_spans.py returns.
use model_forensics_value_le.Prelude.{
  ℕ, zero, suc, ◌+◌, ◌-◌, ◌≤◌, ◌<◌, ◌≡◌, ◌⊎◌, refl, ap, subst, Bool, true, false, ◌&&◌, Option,
  none, some, List, [], ◌∷◌, length, drop, take, get_elem?, arith, inl, inr, Bool-cases,
  Option-cases, ltb, if◌then◌else◌,
}
use model_forensics_value_le.Prelude.Outcome.{Result, ok, err, Result-cases, ok-injective}
use model_forensics_value_le.EstimateSpans.Span.{
  SpanError, absent_occurrence, Json, Response, unreadable, wrong_keys, payload, SpanStatus, known,
  unknown, Source, FirstEstimateSpan, unknown_span, known_span, codes_eq, no_codes, checked_source,
  checked_quote, checked_occurrence, checked_status, first_estimate_span, parse_first_estimate_span,
}
use model_forensics_value_le.EstimateSpans.Collect.{
  starts_with, Case, source_text, resolve, SpanRecord, span_record, located,
  collect_first_estimate_span,
}
use model_forensics_value_le.EstimateSpans.Positions.{positions, occurrences-positions}

get_elem?-some : (xs : List ℕ) (k j : ℕ) → get_elem? xs k ≡ some j → k < length xs
get_elem?-some [] k j h = absurd (ground arith)
get_elem?-some (x ∷ xs) zero j h = omega arith
get_elem?-some (x ∷ xs) (suc k) j h = omega (arith, get_elem?-some xs k j h)

if_same : {A : Type 0} {a : A} (b : Bool) → (if b then a else a) ≡ a
if_same true = refl
if_same false = refl

later_start :
    (quote : List ℕ) (i j x : ℕ) (xs : List ℕ)
    → (suc i ≤ j) × (starts_with quote (drop (j - suc i) xs) ≡ true)
    → (i ≤ j) × (starts_with quote (drop (j - i) (x ∷ xs)) ≡ true)
later_start quote i j x xs (low, later) =
    let step : j - i ≡ suc (j - suc i) = omega arith in (omega arith, rw step later)

zero-cases : (k : ℕ) → (k ≡ 0) ⊎ ((n : ℕ) × (k ≡ suc n))
zero-cases zero = inl refl
zero-cases (suc n) = inr (n, refl)

positions-starts_with :
    (quote : List ℕ) (i j k : ℕ) (xs : List ℕ)
    → get_elem? (positions quote i xs) k ≡ some j
    → (i ≤ j) × (starts_with quote (drop (j - i) xs) ≡ true)
unfolding positions
positions-starts_with quote i j k [] h = absurd (ground arith)
positions-starts_with quote i j k (x ∷ xs) h = elim (Bool-cases (starts_with quote (x ∷ xs))) [
  | inr not_here ↦
      later_start quote i j x xs (positions-starts_with quote (suc i) j k xs (ground arith))
  | inl here ↦ elim (zero-cases k) [
    | inl first ↦
        let e : i ≡ j = ground arith in
        let step : j - i ≡ 0 = omega arith in (omega arith, rw step here)
    | inr (n, e) ↦
        later_start quote i j x xs (positions-starts_with quote (suc i) j n xs (ground arith))
  ]
]

starts_with-codes_eq :
    (quote xs : List ℕ)
    → starts_with quote xs ≡ true
    → codes_eq (take (length quote) xs) quote ≡ true
unfolding starts_with codes_eq
starts_with-codes_eq [] xs h = refl
starts_with-codes_eq (q ∷ qs) [] h = absurd (ground arith)
starts_with-codes_eq (q ∷ qs) (x ∷ xs) h = ground (arith, starts_with-codes_eq qs xs)

-- The offsets of a quote at the start that is given.
abbrev offsets : List ℕ → Option ℕ → Result SpanError (ℕ × ℕ)
offsets quote none = err absent_occurrence
offsets quote (some start) = ok (start, start + length quote)

resolve-positions :
    (xs quote : List ℕ) (n : ℕ)
    → no_codes quote ≡ false
    → resolve xs quote (suc n) ≡ offsets quote (get_elem? (positions quote 0 xs) n)
unfolding resolve
resolve-positions xs quote n visible =
    let all = occurrences-positions quote visible xs in
    let less : suc n - 1 ≡ n = omega arith in
    elim (Option-cases (get_elem? (positions quote 0 xs) n)) [
      | inl absent ↦
          rw (resolve, all, less, absent) (if_same (ltb (length (positions quote 0 xs)) (suc n)))
      | inr (j, found) ↦
          let (_, here) = positions-starts_with quote 0 j n xs found in
          let step : j - 0 ≡ j = omega arith in
          let here' : starts_with quote (drop j xs) ≡ true =
            subst (λ k. starts_with quote (drop k xs) ≡ true) step here in
          let same = starts_with-codes_eq quote (drop j xs) here' in
          let size : j + length quote - j ≡ length quote = omega arith in
          let inside = get_elem?-some (positions quote 0 xs) n j found in
          let low : ltb (length (positions quote 0 xs)) (suc n) ≡ false = ground arith in
          rw (resolve, all, low, less, found, size, same)
    ]

-- The record of an estimate that is known.
abbrev pub found_at : Source → List ℕ → ℕ → Option ℕ → Result SpanError SpanRecord
found_at source quote n none = err absent_occurrence
found_at source quote n (some start) = ok (record {
  adjudication = known_span source quote n;
  start = some start;
  end = some (start + length quote);
})

checked_quote-visible :
    (is_digit : ℕ → Bool) (v : Json) (quote : List ℕ)
    → checked_quote is_digit v ≡ ok quote
    → no_codes quote ≡ false
unfolding checked_quote
checked_quote-visible is_digit v quote h = ground arith

checked_occurrence-lt : (v : Json) (n : ℕ) → checked_occurrence v ≡ ok n → 0 < n
unfolding checked_occurrence
checked_occurrence-lt v n h = ground arith

quote_of : FirstEstimateSpan → List ℕ
quote_of unknown_span = []
quote_of (known_span s q n) = q

count_of : FirstEstimateSpan → ℕ
count_of unknown_span = 0
count_of (known_span s q n) = n

quote_path : {s t : Source} {q r : List ℕ} {m n : ℕ} → known_span s q m ≡ known_span t r n → q ≡ r
unfolding quote_of
quote_path h = ap quote_of h

count_path : {s t : Source} {q r : List ℕ} {m n : ℕ} → known_span s q m ≡ known_span t r n → m ≡ n
unfolding count_of
count_path h = ap count_of h

length_pos : (xs : List ℕ) → no_codes xs ≡ false → 0 < length xs
length_pos [] h = absurd (ground arith)
length_pos (x ∷ xs) h = omega arith

first_estimate_span-known :
    (is_digit : ℕ → Bool) (status : SpanStatus) (source quote occurrence : Json) (s : Source)
    (q : List ℕ) (n : ℕ)
    → first_estimate_span is_digit status source quote occurrence ≡ ok (known_span s q n)
    → (no_codes q ≡ false) × (0 < n)
unfolding first_estimate_span
first_estimate_span-known is_digit unknown source quote occurrence s q n h = absurd (ground arith)
first_estimate_span-known is_digit known source quote occurrence s q n h =
    elim (Result-cases (checked_source source)) [
      | inl (e, bad) ↦ absurd (ground arith)
      | inr (s', f) ↦ elim (Result-cases (checked_quote is_digit quote)) [
        | inl (e, bad) ↦ absurd (ground arith)
        | inr (q', g) ↦ elim (Result-cases (checked_occurrence occurrence)) [
          | inl (e, bad) ↦ absurd (ground arith)
          | inr (n', k) ↦
              let same : known_span s' q' n' ≡ known_span s q n =
                ok-injective {E = SpanError} (ground arith) in
              let a : q' ≡ q = quote_path same in
              let b : n' ≡ n = count_path same in
              (
                subst (λ q. no_codes q ≡ false) a (checked_quote-visible is_digit quote q' g),
                subst (λ n. 0 < n) b (checked_occurrence-lt occurrence n' k),
              )
        ]
      ]
    ]

parse_first_estimate_span-known :
    (is_digit : ℕ → Bool) (r : Response) (s : Source) (q : List ℕ) (n : ℕ)
    → parse_first_estimate_span is_digit r ≡ ok (known_span s q n)
    → (no_codes q ≡ false) × (0 < n)
unfolding parse_first_estimate_span
parse_first_estimate_span-known is_digit unreadable s q n h = absurd (ground arith)
parse_first_estimate_span-known is_digit wrong_keys s q n h = absurd (ground arith)
parse_first_estimate_span-known is_digit (payload status source quote occurrence) s q n h =
    elim (Result-cases (checked_status status)) [
      | inl (e, bad) ↦ absurd (ground arith)
      | inr (t, f) ↦
          first_estimate_span-known is_digit t source quote occurrence s q n (ground arith)
    ]

located-positions :
    (case : Case) (source : Source) (quote : List ℕ) (n : ℕ)
    → no_codes quote ≡ false
    → located case (known_span source quote (suc n))
      ≡ found_at source quote (suc n) (get_elem? (positions quote 0 (source_text case source)) n)
unfolding located span_record
located-positions case source quote n visible =
    let e = resolve-positions (source_text case source) quote n visible in
    let some_codes = length_pos quote visible in
    elim (Option-cases (get_elem? (positions quote 0 (source_text case source)) n)) [
      | inl absent ↦ rw (located, e, absent)
      | inr (j, found) ↦
          let ends : ltb j (j + length quote) ≡ true = ground arith in
          rw (located, e, found, span_record, ends)
    ]

-- An estimate that the judge says is known is located by all places of its quote in the source that
-- it names, overlapping ones included: the start is the place of its occurrence, counted from one,
-- and the end is the length of the quote after it; where the quote has fewer places, the call
-- raises. The test that the source has the quote at these offsets never fails.
pub collect_first_estimate_span-positions :
    (is_digit : ℕ → Bool) (case : Case) (complete : Case → Response)
    (not_for_primary for_primary : Bool) (source : Source) (quote : List ℕ) (n : ℕ)
    → for_primary && not_for_primary ≡ false
    → parse_first_estimate_span is_digit (complete case) ≡ ok (known_span source quote n)
    → collect_first_estimate_span is_digit case complete not_for_primary for_primary
      ≡ found_at source quote n (get_elem? (positions quote 0 (source_text case source)) (n - 1))
unfolding collect_first_estimate_span
collect_first_estimate_span-positions is_digit case complete not_for_primary for_primary source
      quote n primary parsed =
    let (visible, counted) =
      parse_first_estimate_span-known is_digit (complete case) source quote n parsed in
    elim (zero-cases n) [
      | inl z ↦ absurd (ground arith)
      | inr (k, e) ↦
          let less : suc k - 1 ≡ k = omega arith in
          rw (primary, parsed, e, less) (located-positions case source quote k visible)
    ]
