-- ===== src/Lifecycle/Tests.antt =====
-- A history of two authorizations.
use model_forensics_value_le.Prelude.{
  ◌≡◌, refl, String, Bool, true, not, some, List, [], ◌∷◌, str_eq, All,
}
use model_forensics_value_le.Prelude.Outcome.{ok, err}
use model_forensics_value_le.Lifecycle.State.{
  reused, not_canonical, positive, RawAuthorization, Authorization, text_ltb, is_canonical, shares,
  any_reused, hashes_malformed, check_acknowledged, authorization_from_manifest, authorizations_of,
  validate_authorization_history,
}
use model_forensics_value_le.Lifecycle.Fresh.{AreApart, validate_authorization_history-AreApart}

-- A pattern: here any text that is not blank.
abbrev is_hash : String → Bool
is_hash text = not (str_eq text "")

abbrev current : RawAuthorization
current = record {
  has_keys = true;
  reservation_id = some "r2";
  reservation_record_hash = some "rr2";
  session_hash = some "s2";
  approval_hash = some "a";
  bindings_hash = some "b";
  gpu_lock_hash = some "g";
  quote_hash = some "q";
  immutable_spec_hash = some "spec";
  launch_spec_hash = some "l";
  phase = some "lens_gpu";
  acknowledged = some (some "p1" ∷ some "p2" ∷ []);
  approved_runtime_hours = positive 4;
  approved_phase_maximum_usd = positive 90;
  live_hourly_total_usd = positive 20;
}

abbrev earlier : RawAuthorization
earlier = record current {
  reservation_id = some "r1";
  session_hash = some "s1";
  phase = some "resample_gpu";
}

passes : validate_authorization_history is_hash is_hash "spec" (some (earlier ∷ [])) current ≡ ok tt
unfolding validate_authorization_history authorizations_of authorization_from_manifest
    hashes_malformed check_acknowledged is_canonical text_ltb any_reused shares
passes = refl

same_session :
    validate_authorization_history is_hash is_hash "spec" (some (current ∷ [])) current ≡ err reused
unfolding validate_authorization_history authorizations_of authorization_from_manifest
    hashes_malformed check_acknowledged is_canonical text_ltb any_reused shares
same_session = refl

repeated_pod :
    authorization_from_manifest is_hash is_hash "spec"
      (record current { acknowledged = some (some "p1" ∷ some "p1" ∷ []) })
    ≡ err not_canonical
unfolding authorization_from_manifest hashes_malformed check_acknowledged is_canonical text_ltb
repeated_pod = refl

validate_authorization_history-AreApart_example :
    (past : List Authorization) × (now : Authorization) × (authorizations_of is_hash is_hash "spec"
        (earlier ∷ [])
      ≡ ok past)
    × (authorization_from_manifest is_hash is_hash "spec" current ≡ ok now)
    × All (λ a. AreApart a now) past
validate_authorization_history-AreApart_example =
    validate_authorization_history-AreApart is_hash is_hash "spec" (earlier ∷ []) current passes
