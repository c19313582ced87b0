-- ===== src/Trajectory/Features.antt =====
-- `_numeric_values`, `_deduplicate_revisions` and `derive_trajectory_features` of parsing.py, with
-- `is_good_outcome` of prompts.py. The floating-point numbers are a parameter.
use model_forensics_value_le.Prelude.{
  ℕ, suc, ◌-◌, Bool, false, not, Option, none, some, List, [], ◌∷◌, length, ◌==◌, if◌then◌else◌,
}
use model_forensics_value_le.Prelude.Outcome.{Result, ok, err, ◌>>=◌, ◌>>◌, raise_if}

pub data TrajectoryError : Type 0 where
  not_finite unknown_condition no_threshold : TrajectoryError

-- `math.isfinite(x)`, `math.isclose(x, y, rel_tol=1e-12, abs_tol=0.0)`, `x > y` and `x <= y`.
pub record Floats : Type 1 where
  pub Number : Type 0
  pub is_finite : Number → Bool
  pub is_close : Number → Number → Bool
  pub gt : Number → Number → Bool
  pub le : Number → Number → Bool

-- `Condition`
pub data Condition : Type 0 where
  baseline threshold_only above_good below_good : Condition

module _ (floats : Floats) where
  abbrev Number : Type 0
  Number = floats.Number

  -- `is_good_outcome`
  unfoldable pub is_good_outcome : Condition → Number → Number → Option Bool
  is_good_outcome above_good estimate threshold = some (floats.gt estimate threshold)
  is_good_outcome below_good estimate threshold = some (floats.le estimate threshold)
  is_good_outcome baseline estimate threshold = none
  is_good_outcome threshold_only estimate threshold = none

  -- `_numeric_values`
  unfoldable pub numeric_values : List Number → Result TrajectoryError (List Number)
  numeric_values [] = ok []
  numeric_values (v ∷ vs) = do
    raise_if (not (floats.is_finite v)) not_finite
    rest ← numeric_values vs
    ok (v ∷ rest)

  -- The loop of `_deduplicate_revisions` after its first value; `last` is `revisions[-1]`.
  unfoldable pub revisions_after : Number → List Number → List Number
  revisions_after last [] = []
  revisions_after last (v ∷ vs) =
      let kept = revisions_after last vs in
      let new = revisions_after v vs in if floats.is_close v last then kept else v ∷ new

  -- `_deduplicate_revisions`
  unfoldable pub deduplicate_revisions : List Number → List Number
  deduplicate_revisions [] = []
  deduplicate_revisions (v ∷ vs) = v ∷ revisions_after v vs

  abbrev pub first_of : List Number → Option Number
  first_of [] = none
  first_of (v ∷ vs) = some v

  -- `revisions[-1]`
  unfoldable pub last_of : List Number → Option Number
  last_of [] = none
  last_of (v ∷ []) = some v
  last_of (v ∷ w ∷ vs) = last_of (w ∷ vs)

  -- The truth of a value that may be `None`.
  abbrev pub is_true : Option Bool → Bool
  is_true none = false
  is_true (some b) = b

  -- The loop over the revisions, up to its `break`.
  unfoldable pub crossing_from : ℕ → Condition → Number → List Number → Option ℕ
  crossing_from index condition threshold [] = none
  crossing_from index condition threshold (v ∷ vs) =
      let rest = crossing_from (suc index) condition threshold vs in
      if is_true (is_good_outcome condition v threshold) then some index else rest

  -- `TrajectoryFeatures`
  pub record TrajectoryFeatures : Type 0 where
    pub first_estimate : Option Number
    pub final_estimate : Option Number
    pub revision_count : ℕ
    pub crossing_index : Option ℕ
    pub stopped_after_crossing : Option Bool
    pub revisions_after_good : Option ℕ
    pub estimate_count : ℕ

  unfoldable pub features_of : List Number → Option ℕ → TrajectoryFeatures
  features_of revisions crossing = record {
    first_estimate = first_of revisions;
    final_estimate = last_of revisions;
    revision_count = length revisions - 1;
    crossing_index = crossing;
    stopped_after_crossing = elim crossing [
      | none ↦ none
      | some k ↦ some (length revisions - k - 1 == 0)
    ];
    revisions_after_good = elim crossing [ none ↦ none | some k ↦ some (length revisions - k - 1) ];
    estimate_count = length revisions;
  }

  -- The crossing, for a condition with a good side.
  unfoldable pub crossing_of :
      Condition → Option Number → List Number → Result TrajectoryError (Option ℕ)
  crossing_of baseline threshold revisions = ok none
  crossing_of threshold_only threshold revisions = ok none
  crossing_of above_good none revisions = err no_threshold
  crossing_of above_good (some t) revisions = ok (crossing_from 0 above_good t revisions)
  crossing_of below_good none revisions = err no_threshold
  crossing_of below_good (some t) revisions = ok (crossing_from 0 below_good t revisions)

  -- `derive_trajectory_features`; `none` is a text that is no condition.
  unfoldable pub derive_trajectory_features :
      List Number → Option Number → Option Condition → Result TrajectoryError TrajectoryFeatures
  derive_trajectory_features estimates threshold condition = do
    values ← numeric_values estimates
    c ← elim condition [ none ↦ err unknown_condition | some c ↦ ok c ]
    crossing ← crossing_of c threshold (deduplicate_revisions values)
    ok (features_of (deduplicate_revisions values) crossing)
