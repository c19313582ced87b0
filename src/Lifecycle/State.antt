-- ===== src/Lifecycle/State.antt =====
-- The authorizations of runpod_lifecycle_state.py. The two regular expressions and the hash of the
-- launch specification are parameters.
use model_forensics_value_le.Prelude.{
  ℕ, String, Bool, true, false, not, ◌&&◌, ◌||◌, Option, none, some, List, [], ◌∷◌, ◌++◌, any, ltb,
  ◌==◌, if◌then◌else◌, str_eq,
}
use model_forensics_value_le.Prelude.Outcome.{Result, ok, err, ◌>>=◌, ◌>>◌, raise_if}
use model_forensics_value_le.Prelude.Text.{codes}

pub data Error : Type 0 where
  unexpected_schema malformed_hash drifted_specification malformed_phase : Error
  malformed_acknowledgement not_canonical malformed_cost : Error
  malformed_history reused : Error

-- A value where a cost is expected; `positive` counts in a fixed unit.
pub data Cost : Type 0 where
  positive : ℕ → Cost
  not_positive not_finite not_a_number : Cost

-- A mapping in the place of an authorization. `none` is a value that is no text; the list of
-- acknowledged Pods is `none` when it is no list.
pub record RawAuthorization : Type 0 where
  pub has_keys : Bool
  pub reservation_id : Option String
  pub reservation_record_hash : Option String
  pub session_hash : Option String
  pub approval_hash : Option String
  pub bindings_hash : Option String
  pub gpu_lock_hash : Option String
  pub quote_hash : Option String
  pub immutable_spec_hash : Option String
  pub launch_spec_hash : Option String
  pub phase : Option String
  pub acknowledged : Option (List (Option String))
  pub approved_runtime_hours : Cost
  pub approved_phase_maximum_usd : Cost
  pub live_hourly_total_usd : Cost

-- `LifecycleStateAuthorization`
pub record Authorization : Type 0 where
  pub phase : String
  pub reservation_id : String
  pub reservation_record_hash : String
  pub session_hash : String
  pub approval_hash : String
  pub immutable_spec_hash : String
  pub approved_runtime_hours : ℕ
  pub approved_phase_maximum_usd : ℕ
  pub live_hourly_total_usd : ℕ

-- Code points in strictly increasing order.
unfoldable pub text_ltb : List ℕ → List ℕ → Bool
text_ltb cs [] = false
text_ltb [] (d ∷ ds) = true
text_ltb (c ∷ cs) (d ∷ ds) = let rest = text_ltb cs ds in if c == d then rest else ltb c d

abbrev pub or_blank : Option String → String
or_blank none = ""
or_blank (some text) = text

-- `acknowledged == sorted(set(acknowledged))`
unfoldable pub is_canonical : List (Option String) → Bool
is_canonical [] = true
is_canonical (p ∷ []) = true
is_canonical (p ∷ q ∷ ps) =
    let rest = is_canonical (q ∷ ps) in text_ltb (codes (or_blank p)) (codes (or_blank q)) && rest

abbrev pub cost_of : Cost → Result Error ℕ
cost_of (positive n) = ok n
cost_of not_positive = err malformed_cost
cost_of not_finite = err malformed_cost
cost_of not_a_number = err malformed_cost

-- Two authorizations share a session, a reservation, or an approval for a phase.
unfoldable pub shares : Authorization → Authorization → Bool
shares a b =
    str_eq a.session_hash b.session_hash
    || (str_eq a.reservation_id b.reservation_id
        || (str_eq a.approval_hash b.approval_hash && str_eq a.phase b.phase))

-- Some two of the list do.
unfoldable pub any_reused : List Authorization → Bool
any_reused [] = false
any_reused (a ∷ rest) = any (shares a) rest || any_reused rest

-- `GPU_COMMAND_PHASES`
abbrev pub gpu_command_phases : List String
gpu_command_phases =
    "behavior_baseline_gpu" ∷ "behavior_treatment_gpu" ∷ "resample_gpu" ∷ "lens_gpu" ∷ []

module _ (is_hash is_pod_hash : String → Bool) where
  abbrev bad_hash : Option String → Bool
  bad_hash none = true
  bad_hash (some text) = not (is_hash text)

  abbrev bad_pod : Option String → Bool
  bad_pod none = true
  bad_pod (some text) = not (is_pod_hash text)

  -- `_AUTHORIZATION_HASH_FIELDS`
  unfoldable pub hashes_malformed : RawAuthorization → Bool
  hashes_malformed v = any bad_hash (
      v.reservation_id ∷ v.reservation_record_hash ∷ v.session_hash ∷ v.approval_hash
      ∷ v.bindings_hash ∷ v.gpu_lock_hash ∷ v.quote_hash ∷ v.immutable_spec_hash
      ∷ v.launch_spec_hash ∷ [])

  unfoldable pub check_acknowledged : Option (List (Option String)) → Result Error (Unit {0})
  check_acknowledged none = err malformed_acknowledgement
  check_acknowledged (some pods) = do
    raise_if (any bad_pod pods) malformed_acknowledgement
    raise_if (not (is_canonical pods)) not_canonical

  -- `_authorization_from_manifest`, with the hash of the immutable specification.
  unfoldable pub authorization_from_manifest :
      String → RawAuthorization → Result Error Authorization
  authorization_from_manifest spec_hash v = do
    raise_if (not v.has_keys) unexpected_schema
    raise_if (hashes_malformed v) malformed_hash
    raise_if (not (str_eq (or_blank v.immutable_spec_hash) spec_hash)) drifted_specification
    raise_if (not (any (str_eq (or_blank v.phase)) gpu_command_phases)) malformed_phase
    check_acknowledged v.acknowledged
    hours ← cost_of v.approved_runtime_hours
    maximum ← cost_of v.approved_phase_maximum_usd
    hourly ← cost_of v.live_hourly_total_usd
    ok (record {
      phase = or_blank v.phase;
      reservation_id = or_blank v.reservation_id;
      reservation_record_hash = or_blank v.reservation_record_hash;
      session_hash = or_blank v.session_hash;
      approval_hash = or_blank v.approval_hash;
      immutable_spec_hash = or_blank v.immutable_spec_hash;
      approved_runtime_hours = hours;
      approved_phase_maximum_usd = maximum;
      live_hourly_total_usd = hourly;
    })

  unfoldable pub authorizations_of :
      String → List RawAuthorization → Result Error (List Authorization)
  authorizations_of spec_hash [] = ok []
  authorizations_of spec_hash (v ∷ vs) = do
    a ← authorization_from_manifest spec_hash v
    rest ← authorizations_of spec_hash vs
    ok (a ∷ rest)

  -- `_validate_authorization_history`; `none` is a history that is no list.
  unfoldable pub validate_authorization_history :
      String → Option (List RawAuthorization) → RawAuthorization → Result Error (Unit {0})
  validate_authorization_history spec_hash none current = err malformed_history
  validate_authorization_history spec_hash (some history) current = do
    past ← authorizations_of spec_hash history
    now ← authorization_from_manifest spec_hash current
    raise_if (any_reused (past ++ (now ∷ []))) reused
