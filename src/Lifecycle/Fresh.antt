-- ===== src/Lifecycle/Fresh.antt =====
-- What `_validate_authorization_history` of runpod_lifecycle_state.py guarantees.
use model_forensics_value_le.Prelude.{
  ◌≡◌, ◌≢◌, String, Bool, false, some, List, [], ◌∷◌, ◌++◌, any, All, eq_iff, inl, inr, arith,
  Bool-cases,
}
use model_forensics_value_le.Prelude.Outcome.{ok, Result-cases}
use model_forensics_value_le.Lifecycle.State.{
  RawAuthorization, Authorization, authorization_from_manifest, authorizations_of, shares,
  any_reused, validate_authorization_history,
}

-- Two authorizations of different sessions and reservations; none approves what the other does.
pub record AreApart (a b : Authorization) : Type 0 where
  pub session : a.session_hash ≢ b.session_hash
  pub reservation : a.reservation_id ≢ b.reservation_id
  pub approval : ¬ ((a.approval_hash ≡ b.approval_hash) × (a.phase ≡ b.phase))

shares-AreApart : (a b : Authorization) → shares a b ≡ false → AreApart a b
unfolding shares
shares-AreApart a b h = record {
  session = λ e. absurd (ground (arith, e, (eq_iff a.session_hash b.session_hash).1 e));
  reservation = λ e. absurd (ground (arith, e, (eq_iff a.reservation_id b.reservation_id).1 e));
  approval = λ e. absurd (
      ground
        (arith, (eq_iff a.approval_hash b.approval_hash).1 e.0, (eq_iff a.phase b.phase).1 e.1));
}

any-snoc :
    {A : Type 0} (test : A → Bool) (xs : List A) (y : A)
    → any test (xs ++ (y ∷ [])) ≡ false
    → test y ≡ false
any-snoc test [] y h = elim (Bool-cases (test y)) [ inl e ↦ absurd (ground arith) | inr e ↦ e ]
any-snoc test (x ∷ xs) y h = any-snoc test xs y (ground arith)

any_reused-AreApart :
    (past : List Authorization) (now : Authorization)
    → any_reused (past ++ (now ∷ [])) ≡ false
    → All (λ a. AreApart a now) past
unfolding any_reused
any_reused-AreApart [] now h = tt
any_reused-AreApart (a ∷ rest) now h = (
  shares-AreApart a now (any-snoc (shares a) rest now (ground arith)),
  any_reused-AreApart rest now (ground arith),
)

module _ (is_hash is_pod_hash : String → Bool) where
  -- The current and the past authorizations of a history that passes are well formed, and the
  -- current one uses no session and no reservation of a past one, nor its approval for its phase.
  pub validate_authorization_history-AreApart :
      (spec_hash : String) (history : List RawAuthorization) (current : RawAuthorization)
      → validate_authorization_history is_hash is_pod_hash spec_hash (some history) current ≡ ok tt
      → (past : List Authorization) × (now : Authorization) × (authorizations_of is_hash is_pod_hash
            spec_hash history
          ≡ ok past)
        × (authorization_from_manifest is_hash is_pod_hash spec_hash current ≡ ok now)
        × All (λ a. AreApart a now) past
  unfolding validate_authorization_history
  validate_authorization_history-AreApart spec_hash history current h =
      elim (Result-cases (authorizations_of is_hash is_pod_hash spec_hash history)) [
        | inl (e, f) ↦ absurd (ground arith)
        | inr (past, f) ↦
            elim (Result-cases
              (authorization_from_manifest is_hash is_pod_hash spec_hash current)) [
                | inl (e, g) ↦ absurd (ground arith)
                | inr (now, g) ↦ (past, now, f, g, any_reused-AreApart past now (ground arith))
              ]
      ]
