-- ===== src/Resampling/Tests.antt =====
-- A plan of two anchors.
use model_forensics_value_le.Prelude.{All, false, true}
use model_forensics_value_le.Prelude.Text.{codes}
use model_forensics_value_le.Sentences.Scan.{SentenceSpan, terminal, sentence_spans}
use model_forensics_value_le.Resampling.Cut.{
  not_of_source, validate_against, raw_thinking_prefix_before, IsCut, sentence_spans-IsCut,
}
use model_forensics_value_le.Prelude.{ℕ, ◌≡◌, refl, String, Option, some, List, [], ◌∷◌, map}
use model_forensics_value_le.Prelude.Outcome.{ok, err}
use model_forensics_value_le.Resampling.TopUp.{
  ids_not_unique, Width, width_of, AnchorSamplingSummary, AnchorTopUpDecision, preregistered,
  divergent_resamples_below_8, text_leb, insert_by_id, sort_by_id, anchor_ids_repeat, width_at,
  validated_widths, reasons_of, target_of, decide, decide_all, check_rule, check_summaries,
  plan_top_up, matches, decision_for,
}
use model_forensics_value_le.Resampling.Plan.{ArePaired, plan_top_up-ArePaired}
use model_forensics_value_le.Resampling.Prefixes.{
  empty_prefix, ids_eq, check_prefixes, integer_ids, arm_prefixes, build_token_identical_prefixes,
}
use model_forensics_value_le.Prelude.{suc}
use model_forensics_value_le.Resampling.Rendered.{
  IsRendering, build_token_identical_prefixes-IsRendering,
}

abbrev late : AnchorSamplingSummary
late = record {
  anchor_id = "b";
  sentence_class = "plan";
  retain_samples = 10;
  resample_samples = 11;
  divergent_resamples = 7;
}

abbrev early : AnchorSamplingSummary
early = record {
  anchor_id = "a";
  sentence_class = "plan";
  retain_samples = 10;
  resample_samples = 10;
  divergent_resamples = 9;
}

abbrev widths : List (String × Width)
widths = ("plan", width_of 120000) ∷ []

abbrev late_decision : AnchorTopUpDecision
late_decision = record {
  anchor_id = "b";
  sentence_class = "plan";
  target_samples_per_arm = 20;
  additional_retain_samples = 10;
  additional_resample_samples = 9;
  reasons = divergent_resamples_below_8 ∷ [];
}

abbrev early_decision : AnchorTopUpDecision
early_decision = record {
  anchor_id = "a";
  sentence_class = "plan";
  target_samples_per_arm = 10;
  additional_retain_samples = 0;
  additional_resample_samples = 0;
  reasons = [];
}

planned :
    plan_top_up preregistered widths (late ∷ early ∷ []) ≡ ok (early_decision ∷ late_decision ∷ [])
unfolding plan_top_up check_rule sort_by_id insert_by_id text_leb check_summaries anchor_ids_repeat
    validated_widths width_at decide_all decide reasons_of target_of
planned = refl

refused : plan_top_up preregistered widths (late ∷ late ∷ []) ≡ err ids_not_unique
unfolding plan_top_up check_rule sort_by_id insert_by_id text_leb check_summaries anchor_ids_repeat
    validated_widths width_at decide_all decide reasons_of target_of
refused = refl

found : decision_for "b" (early_decision ∷ late_decision ∷ []) ≡ ok late_decision
unfolding decision_for matches
found = refl

decided_late : decide widths late ≡ ok late_decision
unfolding width_at decide reasons_of target_of
decided_late = refl

plan_top_up-ArePaired_example :
    ArePaired widths (sort_by_id (late ∷ early ∷ [])) (early_decision ∷ late_decision ∷ [])
plan_top_up-ArePaired_example =
    plan_top_up-ArePaired preregistered widths (late ∷ early ∷ [])
      (early_decision ∷ late_decision ∷ []) planned

-- An encoder of two messages and the prefix that counts its calls, and starts with their number.
abbrev encode_prefix : ℕ → List ℕ → ℕ → List (Option ℕ) × ℕ
encode_prefix messages prefix calls = (some calls ∷ map some prefix, suc calls)

abbrev encode_nothing : ℕ → List ℕ → ℕ → List (Option ℕ) × ℕ
encode_nothing messages prefix calls = ([], suc calls)

abbrev token_hash : List ℕ → String
token_hash ids = "h"

nothing_encoded :
    build_token_identical_prefixes encode_nothing token_hash 2 [] 0 ≡ (err empty_prefix, 1)
unfolding build_token_identical_prefixes arm_prefixes check_prefixes integer_ids ids_eq
nothing_encoded = refl

encoded_once : build_token_identical_prefixes encode_prefix token_hash 2 (7 ∷ 8 ∷ []) 4 ≡ (
  ok (record {
    retain_token_ids = 4 ∷ 7 ∷ 8 ∷ [];
    resample_token_ids = 4 ∷ 7 ∷ 8 ∷ [];
    prefix_hash = "h";
  }),
  5,
)
unfolding build_token_identical_prefixes arm_prefixes check_prefixes integer_ids ids_eq
encoded_once = refl

build_token_identical_prefixes-IsRendering_example :
    ((build_token_identical_prefixes encode_prefix token_hash 2 (7 ∷ 8 ∷ []) 4).1 ≡ 5)
    × IsRendering token_hash
        (some 4 ∷ some 7 ∷ some 8 ∷ [])
        (build_token_identical_prefixes encode_prefix token_hash 2 (7 ∷ 8 ∷ []) 4).0
build_token_identical_prefixes-IsRendering_example =
    build_token_identical_prefixes-IsRendering encode_prefix token_hash 2 (7 ∷ 8 ∷ []) 4

-- Two sentences, cut at a period.
abbrev two_sentences : List ℕ
two_sentences = codes "Aha. So it is."

second_sentence : SentenceSpan
second_sentence = record {
  index = 1;
  start = 5;
  end = 14;
  content = codes "So it is.";
  boundary = terminal;
}

cut_before : raw_thinking_prefix_before two_sentences second_sentence ≡ ok (codes "Aha. ")
unfolding second_sentence raw_thinking_prefix_before validate_against ids_eq
cut_before = refl

cut_elsewhere :
    raw_thinking_prefix_before (codes "Aha! So is it.") second_sentence ≡ err not_of_source
unfolding second_sentence raw_thinking_prefix_before validate_against ids_eq
cut_elsewhere = refl

sentence_spans-IsCut_example :
    (spans : List SentenceSpan) × (sentence_spans
        (λ c. false)
        (λ cs. false)
        (λ cs. true)
        two_sentences
      ≡ ok spans)
    × All (IsCut two_sentences) spans
sentence_spans-IsCut_example =
    sentence_spans-IsCut (λ c. false) (λ cs. false) (λ cs. true) two_sentences
