-- ===== src/Trajectory/Tests.antt =====
-- The trajectory features of parsing.py on small estimates, and their theorem at them.
use model_forensics_value_le.Prelude.{
  ℕ, ◌≡◌, refl, true, false, some, none, List, [], ◌∷◌, ltb, leb, ◌==◌,
}
use model_forensics_value_le.Prelude.Outcome.{ok, err}
use model_forensics_value_le.Trajectory.Features.{
  no_threshold, Floats, above_good, is_good_outcome, numeric_values, revisions_after,
  deduplicate_revisions, last_of, crossing_from, TrajectoryFeatures, features_of, crossing_of,
  derive_trajectory_features,
}
use model_forensics_value_le.Trajectory.Derived.{IsDerived, derive_trajectory_features-IsDerived}

-- Whole numbers, close where they are equal.
abbrev wholes : Floats
wholes = record {
  Number = ℕ;
  is_finite = λ n. true;
  is_close = λ m n. m == n;
  gt = λ m n. ltb n m;
  le = leb;
}

abbrev estimates : List ℕ
estimates = 40 ∷ 40 ∷ 60 ∷ 60 ∷ 45 ∷ []

abbrev features : TrajectoryFeatures wholes
features = record {
  first_estimate = some 40;
  final_estimate = some 45;
  revision_count = 2;
  crossing_index = some 1;
  stopped_after_crossing = some false;
  revisions_after_good = some 1;
  estimate_count = 3;
}

-- Repeated mentions are no revisions, and the threshold itself is not above.
derived : derive_trajectory_features wholes estimates (some 50) (some above_good) ≡ ok features
unfolding derive_trajectory_features numeric_values deduplicate_revisions revisions_after
    crossing_of crossing_from is_good_outcome features_of last_of
derived = refl

unknown_threshold :
    derive_trajectory_features wholes estimates none (some above_good) ≡ err no_threshold
unfolding derive_trajectory_features numeric_values crossing_of
unknown_threshold = refl

derive_trajectory_features-IsDerived_example :
    IsDerived wholes above_good 50 (deduplicate_revisions wholes estimates) features
derive_trajectory_features-IsDerived_example =
    derive_trajectory_features-IsDerived wholes above_good 50 estimates features refl derived
