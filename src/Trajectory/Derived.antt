-- ===== src/Trajectory/Derived.antt =====
-- What `derive_trajectory_features` of parsing.py says of the estimates.
use model_forensics_value_le.Prelude.{
  ℕ, zero, suc, ◌+◌, ◌-◌, ◌<◌, ◌≡◌, refl, sym, ap, ◌∙◌, subst, Bool, true, false, Option, none,
  some, List, [], ◌∷◌, All, length, take, get_elem?, arith, inl, inr, Bool-cases, ◌==◌,
}
use model_forensics_value_le.Prelude.Outcome.{ok, Result-cases, ok-injective}
use model_forensics_value_le.Trajectory.Features.{
  TrajectoryError, Floats, Condition, baseline, threshold_only, above_good, below_good,
  is_good_outcome, numeric_values, revisions_after, deduplicate_revisions, last_of, is_true,
  crossing_from, TrajectoryFeatures, features_of, crossing_of, derive_trajectory_features, first_of,
}

-- The two conditions with a good side.
abbrev pub has_good_side : Condition → Bool
has_good_side baseline = false
has_good_side threshold_only = false
has_good_side above_good = true
has_good_side below_good = true

get_elem?-lt : {A : Type 0} (xs : List A) (k : ℕ) (v : A) → get_elem? xs k ≡ some v → k < length xs
get_elem?-lt [] k v h = absurd (ground arith)
get_elem?-lt (x ∷ xs) zero v h = omega arith
get_elem?-lt (x ∷ xs) (suc k) v h = omega (arith, get_elem?-lt xs k v h)

module _ (floats : Floats) where
  first_of-get_elem? : (vs : List floats.Number) → first_of floats vs ≡ get_elem? vs 0
  first_of-get_elem? [] = refl
  first_of-get_elem? (v ∷ vs) = refl

  last_of-get_elem? : (vs : List floats.Number) → last_of floats vs ≡ get_elem? vs (length vs - 1)
  unfolding last_of
  last_of-get_elem? [] = refl
  last_of-get_elem? (v ∷ []) = refl
  last_of-get_elem? (v ∷ w ∷ vs) =
      let step : length (v ∷ w ∷ vs) - 1 ≡ suc (length (w ∷ vs) - 1) = omega arith in
      rw step (last_of-get_elem? (w ∷ vs))

  numeric_values-eq : (vs ws : List floats.Number) → numeric_values floats vs ≡ ok ws → ws ≡ vs
  unfolding numeric_values
  numeric_values-eq [] ws h = sym (ok-injective {E = TrajectoryError} h)
  numeric_values-eq (v ∷ vs) ws h = elim (Result-cases (numeric_values floats vs)) [
    | inl (e, bad) ↦ absurd (ground arith)
    | inr (us, good) ↦
        let made : v ∷ us ≡ ws = ok-injective {E = TrajectoryError} (ground arith) in
        sym made ∙ ap (λ us. v ∷ us) (numeric_values-eq vs us good)
  ]

  -- No revision is close to the one before it.
  abbrev pub Moves : floats.Number → List floats.Number → Type 0
  Moves last [] = Unit
  Moves last (v ∷ vs) = (floats.is_close v last ≡ false) × Moves v vs

  abbrev pub AllMove : List floats.Number → Type 0
  AllMove [] = Unit
  AllMove (v ∷ vs) = Moves v vs

  revisions_after-Moves :
      (last : floats.Number) (vs : List floats.Number) → Moves last (revisions_after floats last vs)
  unfolding revisions_after
  revisions_after-Moves last [] = tt
  revisions_after-Moves last (v ∷ vs) = elim (Bool-cases (floats.is_close v last)) [
    | inl same ↦ rw (revisions_after, same) (revisions_after-Moves last vs)
    | inr moved ↦ rw (revisions_after, moved) (moved, revisions_after-Moves v vs)
  ]

  deduplicate_revisions-AllMove :
      (vs : List floats.Number) → AllMove (deduplicate_revisions floats vs)
  unfolding deduplicate_revisions
  deduplicate_revisions-AllMove [] = tt
  deduplicate_revisions-AllMove (v ∷ vs) = revisions_after-Moves v vs

  module _ (condition : Condition) (threshold : floats.Number) where
    abbrev IsBad : floats.Number → Type 0
    IsBad v = is_true floats (is_good_outcome floats condition v threshold) ≡ false

    -- The index is that of the first revision on the good side, or there is none.
    abbrev pub IsCrossing : List floats.Number → Option ℕ → Type 0
    IsCrossing vs none = All IsBad vs
    IsCrossing vs (some k) =
        (v : floats.Number) × (get_elem? vs k ≡ some v)
        × (is_true floats (is_good_outcome floats condition v threshold) ≡ true)
        × All IsBad (take k vs)

    shift : ℕ → Option ℕ → Option ℕ
    shift i none = none
    shift i (some k) = some (i + k)

    crossing_from-IsCrossing :
        (i : ℕ) (vs : List floats.Number)
        → (c : Option ℕ) × (crossing_from floats i condition threshold vs ≡ shift i c)
          × IsCrossing vs c
    unfolding crossing_from shift
    crossing_from-IsCrossing i [] = (none, refl, tt)
    crossing_from-IsCrossing i (v ∷ vs) =
        elim (Bool-cases (is_true floats (is_good_outcome floats condition v threshold))) [
          | inl good ↦
              let first : i + 0 ≡ i = omega arith in
              (some 0, rw (crossing_from, good) (ap (λ i. some i) (sym first)), (v, refl, good, tt))
          | inr bad ↦ later v vs bad (crossing_from-IsCrossing (suc i) vs)
        ]
      where
        later :
            (v : floats.Number) (vs : List floats.Number)
            → IsBad v
            → ((c : Option ℕ) × (crossing_from floats (suc i) condition threshold vs
                  ≡ shift (suc i) c)
                × IsCrossing vs c)
            → ((c : Option ℕ) × (crossing_from floats i condition threshold (v ∷ vs) ≡ shift i c)
                × IsCrossing (v ∷ vs) c)
        later v vs bad (none, e, all) = (none, rw (crossing_from, bad) e, (bad, all))
        later v vs bad (some k, e, (w, there, good, before)) =
            let next : suc i + k ≡ i + suc k = omega arith in
            (
              some (suc k),
              rw (crossing_from, bad) (e ∙ ap (λ i. some i) next),
              (w, there, good, (bad, before)),
            )

    -- The revisions after the crossing, and whether there are none.
    abbrev pub IsCounted : ℕ → Option ℕ → TrajectoryFeatures floats → Type 0
    IsCounted count none f = (f.revisions_after_good ≡ none) × (f.stopped_after_crossing ≡ none)
    IsCounted count (some k) f =
        (n : ℕ) × (suc k + n ≡ count)
        × (f.revisions_after_good ≡ some n)
        × (f.stopped_after_crossing ≡ some (n == 0))

    -- Features of these revisions.
    pub record IsDerived (revisions : List floats.Number) (f : TrajectoryFeatures floats)
        : Type 0 where
      pub moves : AllMove revisions
      pub first : f.first_estimate ≡ get_elem? revisions 0
      pub final : f.final_estimate ≡ get_elem? revisions (length revisions - 1)
      pub count : f.estimate_count ≡ length revisions
      pub crossing : IsCrossing revisions f.crossing_index
      pub counted : IsCounted (length revisions) f.crossing_index f

    IsCounted-features_of :
        (rs : List floats.Number) (c : Option ℕ)
        → IsCrossing rs c
        → IsCounted (length rs) c (features_of floats rs c)
    unfolding features_of
    IsCounted-features_of rs none good = (refl, refl)
    IsCounted-features_of rs (some k) (v, there, good, before) =
        let inside = get_elem?-lt rs k v there in (length rs - k - 1, omega arith, refl, refl)

    features_of-IsDerived :
        (rs : List floats.Number) (c : Option ℕ)
        → AllMove rs
        → IsCrossing rs c
        → IsDerived rs (features_of floats rs c)
    unfolding features_of
    features_of-IsDerived rs c moves good = record {
      moves = moves;
      first = first_of-get_elem? rs;
      final = last_of-get_elem? rs;
      count = refl;
      crossing = good;
      counted = IsCounted-features_of rs c good;
    }

    shift_zero : (c : Option ℕ) → shift 0 c ≡ c
    unfolding shift
    shift_zero none = refl
    shift_zero (some k) = let e : 0 + k ≡ k = omega arith in ap (λ k. some k) e

    crossing_of-sided :
        (rs : List floats.Number)
        → has_good_side condition ≡ true
        → crossing_of floats condition (some threshold) rs
          ≡ ok (crossing_from floats 0 condition threshold rs)
    unfolding crossing_of
    crossing_of-sided rs sided = ground arith

    crossing_of-IsCrossing :
        (rs : List floats.Number) (c : Option ℕ)
        → has_good_side condition ≡ true
        → crossing_of floats condition (some threshold) rs ≡ ok c
        → IsCrossing rs c
    unfolding crossing_of shift
    crossing_of-IsCrossing rs c sided h =
        let (d, e, good) = crossing_from-IsCrossing 0 rs in
        let plain : shift 0 d ≡ d = shift_zero d in
        let asked : crossing_of floats condition (some threshold) rs
            ≡ ok (crossing_from floats 0 condition threshold rs) =
          crossing_of-sided rs sided in
        let same : d ≡ c = sym plain ∙ sym e ∙ ok-injective {E = TrajectoryError} (sym asked ∙ h) in
        subst (IsCrossing rs) same good

    -- The features of a trajectory, for a condition with a good side. Where the call returns, no
    -- revision is close to the one before it, the first and the final estimate are the first and
    -- the last revision, and the count is that of the revisions. The crossing index is that of the
    -- first revision on the good side, and there is none where no revision is; the revisions after
    -- it are the rest of them, and the trajectory stopped where there are none.
    pub derive_trajectory_features-IsDerived :
        (estimates : List floats.Number) (f : TrajectoryFeatures floats)
        → has_good_side condition ≡ true
        → derive_trajectory_features floats estimates (some threshold) (some condition) ≡ ok f
        → IsDerived (deduplicate_revisions floats estimates) f
    unfolding derive_trajectory_features
    derive_trajectory_features-IsDerived estimates f sided h =
        elim (Result-cases (numeric_values floats estimates)) [
          | inl (e, bad) ↦ absurd (ground arith)
          | inr (vs, good) ↦
              let same = numeric_values-eq estimates vs good in
              let rs = deduplicate_revisions floats vs in
              elim (Result-cases (crossing_of floats condition (some threshold) rs)) [
                | inl (e, bad) ↦ absurd (ground arith)
                | inr (c, found) ↦
                    let made : features_of floats rs c ≡ f =
                      ok-injective {E = TrajectoryError} (ground arith) in
                    let derived =
                      features_of-IsDerived rs c (deduplicate_revisions-AllMove vs)
                        (crossing_of-IsCrossing rs c sided found) in
                    subst (λ vs. IsDerived (deduplicate_revisions floats vs) f) same
                      (subst (IsDerived rs) made derived)
              ]
        ]
