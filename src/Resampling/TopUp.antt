-- ===== src/Resampling/TopUp.antt =====
-- `plan_effect_independent_top_up` of resampling.py. A width is a whole number of millionths.
use model_forensics_value_le.Prelude.{
  ℕ, ◌-◌, String, Bool, true, false, not, ◌||◌, Option, none, some, List, [], ◌∷◌, ◌++◌, any, ltb,
  ◌==◌, if◌then◌else◌, str_eq,
}
use model_forensics_value_le.Prelude.Outcome.{Result, ok, err, ◌>>=◌, ◌>>◌, raise_if}
use model_forensics_value_le.Prelude.Text.{codes}

pub data Error : Type 0 where
  blank_names divergent_exceeds_resamples : Error
  initial_differs top_up_differs minimum_differs half_width_differs : Error
  no_summaries ids_not_unique missing_width width_not_numeric width_out_of_range : Error
  initial_not_complete no_single_decision : Error

-- A value under a class in `class_ci_half_widths`.
pub data Width : Type 0 where
  width_of : ℕ → Width
  not_finite below_zero not_a_number : Width

pub record AnchorSamplingSummary : Type 0 where
  pub anchor_id : String
  pub sentence_class : String
  pub retain_samples : ℕ
  pub resample_samples : ℕ
  pub divergent_resamples : ℕ

-- `AnchorSamplingSummary.__post_init__`
unfoldable pub check_summary : AnchorSamplingSummary → Result Error (Unit {0})
check_summary s = do
  raise_if (str_eq s.anchor_id "" || str_eq s.sentence_class "") blank_names
  raise_if (ltb s.resample_samples s.divergent_resamples) divergent_exceeds_resamples

pub data Reason : Type 0 where
  divergent_resamples_below_8 class_ci_half_width_above_012 : Reason

pub record AnchorTopUpDecision : Type 0 where
  pub anchor_id : String
  pub sentence_class : String
  pub target_samples_per_arm : ℕ
  pub additional_retain_samples : ℕ
  pub additional_resample_samples : ℕ
  pub reasons : List Reason

-- The order of Python's `str`, by code points.
unfoldable pub text_leb : List ℕ → List ℕ → Bool
text_leb [] ds = true
text_leb (c ∷ cs) [] = false
text_leb (c ∷ cs) (d ∷ ds) = let rest = text_leb cs ds in if c == d then rest else ltb c d

unfoldable pub insert_by_id :
    AnchorSamplingSummary → List AnchorSamplingSummary → List AnchorSamplingSummary
insert_by_id s [] = s ∷ []
insert_by_id s (t ∷ ts) =
    let rest = insert_by_id s ts in
    if text_leb (codes s.anchor_id) (codes t.anchor_id) then s ∷ t ∷ ts else t ∷ rest

-- `sorted(summaries, key=lambda summary: summary.anchor_id)`
unfoldable pub sort_by_id : List AnchorSamplingSummary → List AnchorSamplingSummary
sort_by_id [] = []
sort_by_id (s ∷ ss) = insert_by_id s (sort_by_id ss)

unfoldable pub anchor_ids_repeat : List AnchorSamplingSummary → Bool
anchor_ids_repeat [] = false
anchor_ids_repeat (s ∷ ss) = any (λ t. str_eq s.anchor_id t.anchor_id) ss || anchor_ids_repeat ss

unfoldable pub width_at : List (String × Width) → String → Option Width
width_at [] class = none
width_at (w ∷ ws) class =
    let rest = width_at ws class in if str_eq w.0 class then some w.1 else rest

abbrev pub is_missing : Option Width → Bool
is_missing none = true
is_missing (some w) = false

abbrev pub finite_width : Option Width → Result Error ℕ
finite_width none = err missing_width
finite_width (some (width_of n)) = ok n
finite_width (some not_finite) = err width_out_of_range
finite_width (some below_zero) = err width_out_of_range
finite_width (some not_a_number) = err width_not_numeric

-- The loop that validates the widths of the observed classes.
unfoldable pub validated_widths :
    List (String × Width) → List AnchorSamplingSummary → Result Error (Unit {0})
validated_widths widths [] = ok tt
validated_widths widths (s ∷ ss) = do
  _ ← finite_width (width_at widths s.sentence_class)
  validated_widths widths ss

-- The reasons of one anchor.
unfoldable pub reasons_of : ℕ → ℕ → List Reason
reasons_of divergent width =
    (if ltb divergent 8 then divergent_resamples_below_8 ∷ [] else [])
    ++ (if ltb 120000 width then class_ci_half_width_above_012 ∷ [] else [])

abbrev pub is_nonempty : List Reason → Bool
is_nonempty [] = false
is_nonempty (r ∷ rs) = true

unfoldable pub target_of : AnchorSamplingSummary → List Reason → ℕ
target_of s reasons =
    if is_nonempty reasons || (ltb 10 s.retain_samples || ltb 10 s.resample_samples) then 20 else 10

-- The decision on an anchor whose class has this width.
abbrev pub decision_of : AnchorSamplingSummary → ℕ → AnchorTopUpDecision
decision_of s width =
    let reasons = reasons_of s.divergent_resamples width in
    let target = target_of s reasons in
    record {
      anchor_id = s.anchor_id;
      sentence_class = s.sentence_class;
      target_samples_per_arm = target;
      additional_retain_samples = target - s.retain_samples;
      additional_resample_samples = target - s.resample_samples;
      reasons = reasons;
    }

-- The body of the loop over the summaries.
unfoldable pub decide :
    List (String × Width) → AnchorSamplingSummary → Result Error AnchorTopUpDecision
decide widths s = do
  raise_if (ltb s.retain_samples 10 || ltb s.resample_samples 10) initial_not_complete
  width ← finite_width (width_at widths s.sentence_class)
  ok (decision_of s width)

unfoldable pub decide_all :
    List (String × Width) → List AnchorSamplingSummary → Result Error (List AnchorTopUpDecision)
decide_all widths [] = ok []
decide_all widths (s ∷ ss) = do d ← decide widths s; ds ← decide_all widths ss; ok (d ∷ ds)

abbrev is_empty : List AnchorSamplingSummary → Bool
is_empty [] = true
is_empty (s ∷ ss) = false

-- The keyword arguments, which must be the preregistered ones.
pub record TopUpRule : Type 0 where
  pub initial_samples_per_arm : ℕ
  pub top_up_samples_per_arm : ℕ
  pub min_divergent_resamples : ℕ
  pub max_class_ci_half_width : ℕ

abbrev pub preregistered : TopUpRule
preregistered = record {
  initial_samples_per_arm = 10;
  top_up_samples_per_arm = 20;
  min_divergent_resamples = 8;
  max_class_ci_half_width = 120000;
}

unfoldable pub check_rule : TopUpRule → Result Error (Unit {0})
check_rule rule = do
  raise_if (not (rule.initial_samples_per_arm == 10)) initial_differs
  raise_if (not (rule.top_up_samples_per_arm == 20)) top_up_differs
  raise_if (not (rule.min_divergent_resamples == 8)) minimum_differs
  raise_if (not (rule.max_class_ci_half_width == 120000)) half_width_differs

-- The tests on the summaries as a whole.
unfoldable pub check_summaries :
    List (String × Width) → List AnchorSamplingSummary → Result Error (Unit {0})
check_summaries widths ordered = do
  raise_if (is_empty ordered) no_summaries
  raise_if (anchor_ids_repeat ordered) ids_not_unique
  raise_if (any (λ s. is_missing (width_at widths s.sentence_class)) ordered) missing_width
  validated_widths widths ordered

-- `plan_effect_independent_top_up`, less the hash of the plan.
unfoldable pub plan_top_up :
    TopUpRule
    → List (String × Width)
    → List AnchorSamplingSummary
    → Result Error (List AnchorTopUpDecision)
plan_top_up rule widths summaries = do
  check_rule rule
  let ordered = sort_by_id summaries
  check_summaries widths ordered
  decide_all widths ordered

-- `[decision for decision in self.decisions if decision.anchor_id == anchor_id]`
unfoldable pub matches : String → List AnchorTopUpDecision → List AnchorTopUpDecision
matches anchor_id [] = []
matches anchor_id (d ∷ ds) =
    let rest = matches anchor_id ds in if str_eq d.anchor_id anchor_id then d ∷ rest else rest

abbrev single : List AnchorTopUpDecision → Result Error AnchorTopUpDecision
single [] = err no_single_decision
single (d ∷ []) = ok d
single (d ∷ e ∷ ds) = err no_single_decision

-- `TopUpPlan.decision_for`
unfoldable pub decision_for : String → List AnchorTopUpDecision → Result Error AnchorTopUpDecision
decision_for anchor_id decisions = single (matches anchor_id decisions)
