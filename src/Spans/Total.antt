-- ===== src/Spans/Total.antt =====
-- `map_completion_span` of token_spans.py returns, when longer prefixes of the tokens do not have
-- shorter texts.
use model_forensics_value_le.Prelude.{
  ℕ, zero, suc, ◌+◌, ◌-◌, ◌≤◌, ◌<◌, ◌≡◌, refl, sym, ap, ◌∙◌, subst, true, false, Option, List, [],
  ◌∷◌, inl, inr, arith, length, take, drop, slice, length-drop, take-all, ltb, ◌==◌, Bool-cases,
}
use model_forensics_value_le.Prelude.Outcome.{ok, ok-injective, Result-cases}
use model_forensics_value_le.Spans.Sections.{Text, Error, starts_with, text_eq}
use model_forensics_value_le.Spans.Located.{text_eq_refl}
use model_forensics_value_le.Spans.Search.{
  IsMonotone, IsRightmost, IsLeftmost, rightmost_boundary-IsRightmost, leftmost_boundary-IsLeftmost,
}
use model_forensics_value_le.Spans.Map.{
  OriginalTokenSpan, span_of, check_span, CompletionTokenMap, decode_combined, decode_inner,
  decode_prefix, prefix_length, check_after_start, check_before_end, cover, differs,
  map_completion_span,
}

starts_with-take :
    (pattern text : Text) → starts_with pattern text ≡ true → pattern ≡ take (length pattern) text
unfolding starts_with
starts_with-take [] text h = refl
starts_with-take (p ∷ ps) [] h = cc
starts_with-take (p ∷ ps) (c ∷ cs) h =
    let e : p ≡ c = ground arith in
    let f : ps ≡ take (length ps) cs = starts_with-take ps cs (ground arith) in cc

length-take : {A : Type 0} (n : ℕ) (xs : List A) → n ≤ length xs → length (take n xs) ≡ n
length-take zero xs h = refl
length-take (suc n) [] h = omega arith
length-take (suc n) (x ∷ xs) h = omega (arith, length-take n xs (omega arith))

take-nil : {A : Type 0} (n : ℕ) → ◌≡◌ {A = List A} (take n []) []
take-nil zero = refl
take-nil (suc n) = refl

drop-take : {A : Type 0} (n k : ℕ) (xs : List A) → drop n (take k xs) ≡ take (k - n) (drop n xs)
drop-take zero k xs = let e : k - 0 ≡ k = omega arith in rw e refl
drop-take (suc n) zero xs = let e : 0 - suc n ≡ 0 = omega arith in rw e refl
drop-take (suc n) (suc k) [] = sym (take-nil (suc k - suc n))
drop-take (suc n) (suc k) (x ∷ xs) =
    let e : suc k - suc n ≡ k - n = omega arith in rw e (drop-take n k xs)

module _ (decode : List ℕ → Option Text) (m : CompletionTokenMap) where
  -- A decoded prefix is a prefix of the completion.
  decode_prefix-take :
      (k : ℕ) (decoded : Text)
      → decode_prefix decode m k ≡ ok decoded
      → decoded ≡ take (length decoded) m.raw_text
  unfolding decode_prefix decode_inner
  decode_prefix-take zero decoded h = cc
  decode_prefix-take (suc k) decoded h = elim (Bool-cases (suc k == length m.token_ids)) [
    | inl last ↦
        let e : m.raw_text ≡ decoded = ok-injective {E = Error} (ground arith) in
        subst (λ t. t ≡ take (length t) m.raw_text) e
          (sym (take-all (length m.raw_text) m.raw_text (omega arith)))
    | inr inner ↦ elim (Result-cases (decode_combined decode m (suc k))) [
      | inl (e, f) ↦ absurd (ground arith)
      | inr (text, f) ↦
          let g : text ≡ decoded = ok-injective {E = Error} (ground arith) in
          subst (λ t. t ≡ take (length t) m.raw_text) g
            (starts_with-take text m.raw_text (ground arith))
    ]
  ]

  prefix_length-decodes :
      (k n : ℕ)
      → prefix_length decode m k ≡ ok n
      → (decoded : Text) × (decode_prefix decode m k ≡ ok decoded) × (length decoded ≡ n)
  unfolding prefix_length
  prefix_length-decodes k n h = elim (Result-cases (decode_prefix decode m k)) [
    | inl (e, f) ↦ absurd (ground arith)
    | inr (decoded, f) ↦ (decoded, f, ok-injective {E = Error} (ground arith))
  ]

  -- The tokens between two boundaries decode to the characters between them.
  envelope_agrees :
      (ts te es ee : ℕ) (ps pe : Text)
      → length ps ≡ es
      → length pe ≡ ee
      → pe ≡ take (length pe) m.raw_text
      → text_eq (drop (length ps) pe) (slice es ee m.raw_text) ≡ true
  envelope_agrees ts te es ee ps pe f g h =
      let e : drop (length ps) pe ≡ slice es ee m.raw_text =
        rw f (ap (drop es) (h ∙ ap (λ n. take n m.raw_text) g) ∙ drop-take es ee m.raw_text) in
      rw e (text_eq_refl (slice es ee m.raw_text))

  -- What the two searches give the rest of the call.
  record AreBoundaries (len : ℕ → ℕ) (a b ts te : ℕ) : Type 0 where
    pub ordered : ts < te
    pub inside : te ≤ length m.token_ids
    pub before : len ts ≤ a
    pub behind : b ≤ len te
    pub after_start : ts < length m.token_ids → a < len (ts + 1)
    pub before_end : len (te - 1) < b
    pub decodes : (k : ℕ) → k ≤ length m.token_ids → prefix_length decode m k ≡ ok (len k)

  check_after_start-passes :
      (len : ℕ → ℕ) (a b ts te : ℕ)
      → AreBoundaries len a b ts te
      → check_after_start decode m ts a ≡ ok tt
  unfolding check_after_start
  check_after_start-passes len a b ts te v =
      let p : prefix_length decode m (ts + 1) ≡ ok (len (ts + 1)) =
        v.decodes (ts + 1) (omega (arith, v.ordered, v.inside)) in
      let q : a < len (ts + 1) = v.after_start (omega (arith, v.ordered, v.inside)) in ground arith

  check_before_end-passes :
      (len : ℕ → ℕ) (a b ts te : ℕ)
      → AreBoundaries len a b ts te
      → check_before_end decode m te b ≡ ok tt
  unfolding check_before_end
  check_before_end-passes len a b ts te v =
      let p : prefix_length decode m (te - 1) ≡ ok (len (te - 1)) =
        v.decodes (te - 1) (omega (arith, v.inside)) in
      let q : len (te - 1) < b = v.before_end in ground arith

  cover-returns :
      (len : ℕ → ℕ) (a b rs re ts te : ℕ)
      → a < b
      → AreBoundaries len a b ts te
      → (s : OriginalTokenSpan) × (cover decode m a b rs re ts te ≡ ok s)
  unfolding cover check_span
  cover-returns len a b rs re ts te h v =
      let f : prefix_length decode m ts ≡ ok (len ts) =
        v.decodes ts (omega (arith, v.ordered, v.inside)) in
      let g : prefix_length decode m te ≡ ok (len te) = v.decodes te v.inside in
      let (ps, fp, fl) = prefix_length-decodes ts (len ts) f in
      let (pe, gp, gl) = prefix_length-decodes te (len te) g in
      let agrees : text_eq (drop (length ps) pe) (slice (len ts) (len te) m.raw_text) ≡ true =
        envelope_agrees ts te (len ts) (len te) ps pe fl gl (decode_prefix-take te pe gp) in
      let after : check_after_start decode m ts a ≡ ok tt =
        check_after_start-passes len a b ts te v in
      let before : check_before_end decode m te b ≡ ok tt =
        check_before_end-passes len a b ts te v in
      let ids : length (slice ts te m.token_ids) ≡ te - ts =
        length-take (te - ts) (drop ts m.token_ids)
          (omega (arith, v.inside, length-drop ts m.token_ids)) in
      let low = v.before in
      let high = v.behind in
      let order = v.ordered in (span_of m a b rs re ts te (len ts) (len te), ground arith)

  -- Two boundaries that the searches find bound a span.
  AreBoundaries-found :
      (len : ℕ → ℕ) (a b ts te : ℕ)
      → a < b
      → ((k : ℕ) → k ≤ length m.token_ids → prefix_length decode m k ≡ ok (len k))
      → ((j k : ℕ) → j ≤ k → k ≤ length m.token_ids → len j ≤ len k)
      → IsRightmost (prefix_length decode m) a len (length m.token_ids) ts
      → IsLeftmost (prefix_length decode m) b len 0 (length m.token_ids) te
      → AreBoundaries len a b ts te
  AreBoundaries-found len a b ts te h decodes grows r l =
      let order : ts < te = elim (Bool-cases (ltb ts te)) [
        | inl less ↦ ground arith
        | inr more ↦
            absurd (omega (arith, grows te ts (ground arith) r.inside, r.before, l.behind, h))
      ] in
      record {
        ordered = order;
        inside = l.to;
        before = r.before;
        behind = l.behind;
        after_start = λ room. elim (Bool-cases (ltb a (len (ts + 1)))) [
          | inl less ↦ ground arith
          | inr more ↦ absurd (omega (arith, r.last (ts + 1) (omega (arith, room)) (ground arith)))
        ];
        before_end = elim (Bool-cases (ltb (len (te - 1)) b)) [
          | inl less ↦ ground arith
          | inr more ↦ absurd (
              omega
                (arith, order, l.first (te - 1) (omega arith) (omega (arith, l.to)) (ground arith)))
        ];
        decodes = decodes;
      }

  prefix_length-zero : prefix_length decode m 0 ≡ ok 0
  unfolding prefix_length decode_prefix
  prefix_length-zero = refl

  prefix_length-suc :
      (n : ℕ) → suc n ≡ length m.token_ids → prefix_length decode m (suc n) ≡ ok (length m.raw_text)
  unfolding prefix_length decode_prefix
  prefix_length-suc n h = ground arith

  prefix_length-all :
      0 < length m.token_ids → prefix_length decode m (length m.token_ids) ≡ ok (length m.raw_text)
  prefix_length-all h =
      let e : suc (length m.token_ids - 1) ≡ length m.token_ids = omega arith in
      subst (λ k. prefix_length decode m k ≡ ok (length m.raw_text)) e
        (prefix_length-suc (length m.token_ids - 1) e)

  -- If each prefix of the tokens decodes to a prefix of the completion and a longer one has no
  -- shorter text, then a non-empty range of characters inside the completion gets a span.
  pub map_completion_span-returns :
      (len : ℕ → ℕ) (a b : ℕ) (expected : Option Text) (rs re : ℕ)
      → 0 < length m.token_ids
      → IsMonotone (prefix_length decode m) a (length m.token_ids) len
      → a < b
      → b ≤ length m.raw_text
      → differs expected (slice a b m.raw_text) ≡ false
      → (s : OriginalTokenSpan) × (map_completion_span decode m a b expected rs re ≡ ok s)
  unfolding map_completion_span
  map_completion_span-returns len a b expected rs re some_ids mono h inside same =
      let count = length m.token_ids in
      let none_first : len 0 ≡ 0 =
        ok-injective {E = Error} (sym (mono.decodes 0 (omega arith)) ∙ prefix_length-zero) in
      let all_last : len count ≡ length m.raw_text =
        ok-injective {E = Error}
          (sym (mono.decodes count (omega arith)) ∙ prefix_length-all some_ids) in
      let other : IsMonotone (prefix_length decode m) b count len = record {
        decodes = mono.decodes;
        grows = mono.grows;
      } in
      let (ts, f, r) =
        rightmost_boundary-IsRightmost (prefix_length decode m) a count len count 0 count mono
          (omega arith) (omega arith) (omega arith) (omega (arith, none_first)) in
      let (te, g, l) =
        leftmost_boundary-IsLeftmost (prefix_length decode m) b count len count 0 count other
          (omega arith) (omega arith) (omega arith) (omega (arith, all_last)) in
      let (s, c) =
        cover-returns len a b rs re ts te h
          (AreBoundaries-found len a b ts te h mono.decodes mono.grows r l) in
      (s, ground arith)
