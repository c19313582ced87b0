-- ===== src/Resampling/Plan.antt =====
-- What `plan_effect_independent_top_up` of resampling.py decides.
use model_forensics_value_le.Prelude.{
  ℕ, ◌+◌, ◌-◌, ◌≤◌, ◌<◌, ◌≡◌, refl, ◌⊎◌, subst, String, List, [], ◌∷◌, ltb, inl, inr, arith,
  Bool-cases,
}
use model_forensics_value_le.Prelude.Outcome.{ok, ok-injective, Result-cases}
use model_forensics_value_le.Resampling.TopUp.{
  Error, Width, AnchorSamplingSummary, AnchorTopUpDecision, TopUpRule, sort_by_id, finite_width,
  width_at, reasons_of, target_of, decision_of, decide, decide_all, plan_top_up,
}

-- One decision, by the counts and the width alone.
pub record IsDecided (widths : List (String × Width)) (s : AnchorSamplingSummary)
    (d : AnchorTopUpDecision) : Type 0 where
  pub width : ℕ
  pub known : finite_width (width_at widths s.sentence_class) ≡ ok width
  pub same_anchor : d.anchor_id ≡ s.anchor_id
  pub same_class : d.sentence_class ≡ s.sentence_class
  pub started : (10 ≤ s.retain_samples) × (10 ≤ s.resample_samples)
  pub target :
      ((d.target_samples_per_arm ≡ 10)
        × (s.retain_samples ≡ 10)
        × (s.resample_samples ≡ 10)
        × (8 ≤ s.divergent_resamples)
        × (width ≤ 120000))
      ⊎ ((d.target_samples_per_arm ≡ 20)
          × ((s.divergent_resamples < 8)
              ⊎ ((120000 < width) ⊎ ((10 < s.retain_samples) ⊎ (10 < s.resample_samples)))))
  pub retain : d.additional_retain_samples ≡ d.target_samples_per_arm - s.retain_samples
  pub resample : d.additional_resample_samples ≡ d.target_samples_per_arm - s.resample_samples

-- The decisions are those of the summaries, one each, in their order.
pub data ArePaired (widths : List (String × Width))
    : List AnchorSamplingSummary → List AnchorTopUpDecision → Type 0 where
  none_left : ArePaired widths [] []
  paired :
      (s : AnchorSamplingSummary) (d : AnchorTopUpDecision) (ss : List AnchorSamplingSummary)
      (ds : List AnchorTopUpDecision)
      → IsDecided widths s d
      → ArePaired widths ss ds
      → ArePaired widths (s ∷ ss) (d ∷ ds)

target_of-cases :
    (s : AnchorSamplingSummary) (width : ℕ)
    → 10 ≤ s.retain_samples
    → 10 ≤ s.resample_samples
    → let t = target_of s (reasons_of s.divergent_resamples width) in
      ((t ≡ 10)
        × (s.retain_samples ≡ 10)
        × (s.resample_samples ≡ 10)
        × (8 ≤ s.divergent_resamples)
        × (width ≤ 120000))
      ⊎ ((t ≡ 20)
          × ((s.divergent_resamples < 8)
              ⊎ ((120000 < width) ⊎ ((10 < s.retain_samples) ⊎ (10 < s.resample_samples)))))
unfolding target_of reasons_of
target_of-cases s width h k = elim (Bool-cases (ltb s.divergent_resamples 8)) [
  | inl a ↦ inr (ground arith, inl (ground arith))
  | inr a ↦ elim (Bool-cases (ltb 120000 width)) [
    | inl b ↦ inr (ground arith, inr (inl (ground arith)))
    | inr b ↦ elim (Bool-cases (ltb 10 s.retain_samples)) [
      | inl c ↦ inr (ground arith, inr (inr (inl (ground arith))))
      | inr c ↦ elim (Bool-cases (ltb 10 s.resample_samples)) [
        | inl e ↦ inr (ground arith, inr (inr (inr (ground arith))))
        | inr e ↦ inl (ground arith, ground arith, ground arith, ground arith, ground arith)
      ]
    ]
  ]
]

decide-IsDecided :
    (widths : List (String × Width)) (s : AnchorSamplingSummary) (d : AnchorTopUpDecision)
    → decide widths s ≡ ok d
    → IsDecided widths s d
unfolding decide
decide-IsDecided widths s d h =
    elim (Result-cases (finite_width (width_at widths s.sentence_class))) [
      | inl (e, f) ↦ absurd (ground arith)
      | inr (width, f) ↦
          let q : decision_of s width ≡ d = ok-injective {E = Error} (ground arith) in
          subst (IsDecided widths s) {x = decision_of s width} q record {
            width = width;
            known = f;
            same_anchor = refl;
            same_class = refl;
            started = (ground arith, ground arith);
            target = target_of-cases s width (ground arith) (ground arith);
            retain = refl;
            resample = refl;
          }
    ]

decide_all-ArePaired :
    (widths : List (String × Width)) (ss : List AnchorSamplingSummary)
    (ds : List AnchorTopUpDecision)
    → decide_all widths ss ≡ ok ds
    → ArePaired widths ss ds
unfolding decide_all
decide_all-ArePaired widths [] ds h =
    let base : ArePaired widths [] [] = none_left in
    subst (ArePaired widths []) (ok-injective {E = Error} h) base
decide_all-ArePaired widths (s ∷ ss) ds h = elim (Result-cases (decide widths s)) [
  | inl (e, f) ↦ absurd (ground arith)
  | inr (d, f) ↦ elim (Result-cases (decide_all widths ss)) [
    | inl (e, g) ↦ absurd (ground arith)
    | inr (rest, g) ↦
        let q : d ∷ rest ≡ ds = ok-injective {E = Error} (ground arith) in
        subst (ArePaired widths (s ∷ ss)) {x = d ∷ rest} q (
          paired s d ss rest (decide-IsDecided widths s d f)
            (decide_all-ArePaired widths ss rest g))
  ]
]

-- A plan that is returned has one decision for each summary, in the order of the anchor IDs: the
-- target is 10 only if nothing asks for more, and else 20.
pub plan_top_up-ArePaired :
    (rule : TopUpRule) (widths : List (String × Width)) (summaries : List AnchorSamplingSummary)
    (decisions : List AnchorTopUpDecision)
    → plan_top_up rule widths summaries ≡ ok decisions
    → ArePaired widths (sort_by_id summaries) decisions
unfolding plan_top_up
plan_top_up-ArePaired rule widths summaries decisions h =
    decide_all-ArePaired widths (sort_by_id summaries) decisions (ground arith)

-- The summary once the samples that a decision asks for are drawn.
unfoldable pub topped_up : AnchorSamplingSummary → AnchorTopUpDecision → AnchorSamplingSummary
topped_up s d = record s {
  retain_samples = s.retain_samples + d.additional_retain_samples;
  resample_samples = s.resample_samples + d.additional_resample_samples;
}

decide-returns :
    (widths : List (String × Width)) (s : AnchorSamplingSummary) (width : ℕ)
    → finite_width (width_at widths s.sentence_class) ≡ ok width
    → 10 ≤ s.retain_samples
    → 10 ≤ s.resample_samples
    → decide widths s ≡ ok (decision_of s width)
unfolding decide
decide-returns widths s width f h k = ground arith

-- Drawing what a decision asks for is enough: with the divergent resamples as they were, the anchor
-- is decided again and no more samples are asked for.
pub decide-topped_up :
    (widths : List (String × Width)) (s : AnchorSamplingSummary) (d : AnchorTopUpDecision)
    → decide widths s ≡ ok d
    → (e : AnchorTopUpDecision) × (decide widths (topped_up s d) ≡ ok e)
      × (e.additional_retain_samples ≡ 0)
      × (e.additional_resample_samples ≡ 0)
unfolding topped_up
decide-topped_up widths s d h =
    let v = decide-IsDecided widths s d h in
    let known = v.known in
    let low = v.started in
    let retain = v.retain in
    let resample = v.resample in
    let t : AnchorSamplingSummary = record s {
      retain_samples = s.retain_samples + d.additional_retain_samples;
      resample_samples = s.resample_samples + d.additional_resample_samples;
    } in
    let enough : (target_of t (reasons_of s.divergent_resamples v.width) ≤ t.retain_samples)
        × (target_of t (reasons_of s.divergent_resamples v.width) ≤ t.resample_samples) =
      elim (target_of-cases t v.width (omega (arith, low.0)) (omega (arith, low.1))) [
        | inl ten ↦ (omega (arith, ten.0, ten.1), omega (arith, ten.0, ten.2))
        | inr twenty ↦ elim v.target [
          | inl same ↦ absurd (ground arith)
          | inr more ↦
              (omega (arith, twenty.0, more.0, retain), omega (arith, twenty.0, more.0, resample))
        ]
      ] in
    (
      decision_of t v.width,
      decide-returns widths t v.width known (omega (arith, low.0)) (omega (arith, low.1)),
      omega (arith, enough.0),
      omega (arith, enough.1),
    )
