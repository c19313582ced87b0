-- ===== src/Spans/Located.antt =====
-- `locate_completion_sections` of token_spans.py: what the sections are when the tags are in order.
use model_forensics_value_le.Prelude.{
  ℕ, ◌+◌, ◌-◌, ◌≤◌, ◌<◌, ◌≡◌, refl, true, false, Option, none, some, [], ◌∷◌, inl, inr, arith,
  length, slice, ltb, Bool-cases, Option-cases,
}
use model_forensics_value_le.Prelude.Outcome.{ok}
use model_forensics_value_le.Spans.Sections.{
  Text, open_think, close_think, starts_with, find_match, space_at, trimmed_bounds,
  CompletionSections, text_eq, check_sections, Regions, regions, check_tags, trimmed_sections,
  locate_completion_sections,
}
use model_forensics_value_le.Spans.Trim.{IsTrimmed, trimmed_bounds-IsTrimmed}

starts_with-length :
    (pattern text : Text) → starts_with pattern text ≡ true → length pattern ≤ length text
unfolding starts_with
starts_with-length [] text h = omega arith
starts_with-length (p ∷ ps) [] h = cc
starts_with-length (p ∷ ps) (c ∷ cs) h = elim (Bool-cases (starts_with ps cs)) [
  | inl e ↦ omega (arith, starts_with-length ps cs e)
  | inr e ↦ absurd (ground arith)
]

find_match-length :
    (pattern text : Text) (i : ℕ)
    → find_match pattern text ≡ some i
    → i + length pattern ≤ length text
unfolding find_match
find_match-length pattern [] i h = elim (Bool-cases (starts_with pattern [])) [
  | inl e ↦ ground (arith, starts_with-length pattern [] e)
  | inr e ↦ absurd (ground arith)
]
find_match-length pattern (c ∷ cs) i h = elim (Bool-cases (starts_with pattern (c ∷ cs))) [
  | inl e ↦ ground (arith, starts_with-length pattern (c ∷ cs) e)
  | inr e ↦ elim (Option-cases (find_match pattern cs)) [
    | inl n ↦ absurd (ground arith)
    | inr (j, m) ↦ ground (arith, find_match-length pattern cs j m)
  ]
]

pub text_eq_refl : (text : Text) → text_eq text text ≡ true
unfolding text_eq
text_eq_refl [] = refl
text_eq_refl (c ∷ cs) = ground (arith, text_eq_refl cs)

-- The regions lie one after the other in a text of this size.
record AreOrdered (size : ℕ) (r : Regions) : Type 0 where
  pub first : r.reasoning_from ≤ r.reasoning_to
  pub between : r.reasoning_to ≤ r.answer_from
  pub second : r.answer_from ≤ r.answer_to
  pub inside : r.answer_to ≤ size

check_tags-ordered :
    (raw : Text) (at close : ℕ) → check_tags raw (some at) (some close) ≡ ok tt → at + 7 ≤ close
unfolding check_tags
check_tags-ordered raw at close h = elim (Bool-cases (ltb close (at + 7))) [
  | inl e ↦ absurd (ground arith)
  | inr e ↦ ground arith
]

regions-AreOrdered :
    (raw : Text) (opening closing : Option ℕ)
    → ((at : ℕ) → opening ≡ some at → at + 7 ≤ length raw)
    → ((close : ℕ) → closing ≡ some close → close + 8 ≤ length raw)
    → check_tags raw opening closing ≡ ok tt
    → AreOrdered (length raw) (regions (length raw) opening closing)
unfolding regions
regions-AreOrdered raw none none ho hc h = record {
  first = omega arith;
  between = omega arith;
  second = omega arith;
  inside = omega arith;
}
regions-AreOrdered raw none (some close) ho hc h = record {
  first = omega arith;
  between = omega arith;
  second = hc close refl;
  inside = omega arith;
}
regions-AreOrdered raw (some at) none ho hc h = record {
  first = ho at refl;
  between = omega arith;
  second = omega arith;
  inside = omega arith;
}
regions-AreOrdered raw (some at) (some close) ho hc h = record {
  first = check_tags-ordered raw at close h;
  between = omega arith;
  second = hc close refl;
  inside = omega arith;
}

-- The sections are slices of the text, the reasoning before the answer, and no white space is at
-- their ends.
pub record IsLocated (raw : Text) (s : CompletionSections) : Type 0 where
  pub reasoning_slice : s.reasoning ≡ slice s.reasoning_char_start s.reasoning_char_end raw
  pub answer_slice : s.answer ≡ slice s.answer_char_start s.answer_char_end raw
  pub reasoning_ordered : s.reasoning_char_start ≤ s.reasoning_char_end
  pub reasoning_first : s.reasoning_char_end ≤ s.answer_char_start
  pub answer_ordered : s.answer_char_start ≤ s.answer_char_end
  pub answer_inside : s.answer_char_end ≤ length raw
  pub reasoning_visible :
      s.reasoning_char_start < s.reasoning_char_end
      → (space_at raw s.reasoning_char_start ≡ false)
        × (space_at raw (s.reasoning_char_end - 1) ≡ false)
  pub answer_visible :
      s.answer_char_start < s.answer_char_end
      → (space_at raw s.answer_char_start ≡ false) × (space_at raw (s.answer_char_end - 1) ≡ false)

sections_of-IsLocated :
    (raw : Text) (opening closing : Option ℕ)
    → AreOrdered (length raw) (regions (length raw) opening closing)
    → IsLocated raw (trimmed_sections raw opening closing)
unfolding trimmed_sections
sections_of-IsLocated raw opening closing o =
    let r = regions (length raw) opening closing in
    let a : IsTrimmed raw r.reasoning_from r.reasoning_to
        (trimmed_bounds raw r.reasoning_from r.reasoning_to) =
      trimmed_bounds-IsTrimmed raw r.reasoning_from r.reasoning_to o.first in
    let b : IsTrimmed raw r.answer_from r.answer_to (trimmed_bounds raw r.answer_from r.answer_to) =
      trimmed_bounds-IsTrimmed raw r.answer_from r.answer_to o.second in
    record {
      reasoning_slice = refl;
      answer_slice = refl;
      reasoning_ordered = a.ordered;
      reasoning_first = omega (arith, a.to, b.from, o.between);
      answer_ordered = b.ordered;
      answer_inside = omega (arith, b.to, o.inside);
      reasoning_visible = λ l. (a.first_visible l, a.last_visible l);
      answer_visible = λ l. (b.first_visible l, b.last_visible l);
    }

-- The tests of `CompletionSections.__post_init__` hold of located sections.
check_sections-located :
    (raw : Text) (s : CompletionSections)
    → s.raw_text ≡ raw
    → IsLocated raw s
    → check_sections s ≡ ok tt
unfolding check_sections
check_sections-located raw s e l =
    let re : text_eq (slice s.reasoning_char_start s.reasoning_char_end s.raw_text) s.reasoning
        ≡ true =
      rw e (
        rw l.reasoning_slice
          (text_eq_refl (slice s.reasoning_char_start s.reasoning_char_end raw))) in
    let ae : text_eq (slice s.answer_char_start s.answer_char_end s.raw_text) s.answer ≡ true =
      rw e (rw l.answer_slice (text_eq_refl (slice s.answer_char_start s.answer_char_end raw))) in
    let el : length s.raw_text ≡ length raw = rw e in
    ground
      (arith, re, ae, el, l.reasoning_ordered, l.reasoning_first, l.answer_ordered, l.answer_inside)

IsLocated-regions :
    (raw : Text)
    → check_tags raw (find_match open_think raw) (find_match close_think raw) ≡ ok tt
    → IsLocated raw (trimmed_sections raw (find_match open_think raw) (find_match close_think raw))
IsLocated-regions raw h =
    let opening = find_match open_think raw in
    let closing = find_match close_think raw in
    sections_of-IsLocated raw opening closing (
      regions-AreOrdered raw opening closing (find_match-length open_think raw)
        (find_match-length close_think raw) h)

trimmed_sections-raw_text :
    (raw : Text) (opening closing : Option ℕ)
    → (trimmed_sections raw opening closing).raw_text ≡ raw
unfolding trimmed_sections
trimmed_sections-raw_text raw opening closing = refl

-- When the tags pass their tests, the call returns, and it returns the trimmed regions: slices of
-- the completion, the reasoning before the answer, without white space at their ends.
pub locate_completion_sections-IsLocated :
    (raw : Text)
    → check_tags raw (find_match open_think raw) (find_match close_think raw) ≡ ok tt
    → (s : CompletionSections) × (locate_completion_sections raw ≡ ok s)
      × (s.raw_text ≡ raw)
      × IsLocated raw s
unfolding locate_completion_sections
locate_completion_sections-IsLocated raw h =
    let opening = find_match open_think raw in
    let closing = find_match close_think raw in
    let s = trimmed_sections raw opening closing in
    let e = trimmed_sections-raw_text raw opening closing in
    let l : IsLocated raw s = IsLocated-regions raw h in
    let c : check_sections s ≡ ok tt = check_sections-located raw s e l in (s, ground arith, e, l)
