-- ===== src/Resampling/Rendered.antt =====
-- `build_token_identical_prefixes` of resampling.py: both arms from one answer of the encoder.
use model_forensics_value_le.Prelude.{
  ℕ, ◌≡◌, refl, String, Bool, true, false, Option, none, some, List, [], ◌∷◌, ◌∙◌, ◌<◌, ◌⊎◌, inl,
  inr, ap, map, any, length, List-cases, arith,
}
use model_forensics_value_le.Prelude.Outcome.{
  Result, ok, err, >>=_inversion, ok-injective, Result-cases,
}
use model_forensics_value_le.Resampling.Prefixes.{
  PrefixError, empty_prefix, not_integer_tokens, ArmPrefixes, ids_eq, ids_eq_refl, check_prefixes,
  integer_ids, arm_prefixes, build_token_identical_prefixes,
}

-- The tokens of a list that passes the tests, of both arms, are the whole list.
integer_ids-eq :
    (encoded : List (Option ℕ)) (ids : List ℕ)
    → integer_ids encoded ≡ ok ids
    → encoded ≡ map some ids
unfolding integer_ids
integer_ids-eq [] ids h = rw (← ok-injective {E = PrefixError} h) refl
integer_ids-eq (none ∷ rest) ids h = cc
integer_ids-eq (some n ∷ rest) ids h =
    let (more, h', found) = >>=_inversion (integer_ids rest) _ ids h in
    rw (← ok-injective {E = PrefixError} h') (ap (λ l. some n ∷ l) (integer_ids-eq rest more found))

abbrev pub is_missing : Option ℕ → Bool
is_missing none = true
is_missing (some n) = false

integer_ids-raises :
    (encoded : List (Option ℕ)) (e : PrefixError)
    → integer_ids encoded ≡ err e
    → (any is_missing encoded ≡ true) × (e ≡ not_integer_tokens)
unfolding integer_ids
integer_ids-raises [] e h = cc
integer_ids-raises (none ∷ rest) e h = (refl, cc)
integer_ids-raises (some n ∷ rest) e h = elim (Result-cases (integer_ids rest)) [
  | inl (f, bad) ↦ integer_ids-raises rest e (ground arith)
  | inr (more, good) ↦ absurd (ground arith)
]

-- What the arms of a rendering share: the tokens of one answer of the encoder, none left out and at
-- least one, with their digest.
pub record IsRenderedOnce (token_hash : List ℕ → String) (encoded : List (Option ℕ))
    (p : ArmPrefixes) : Type 0 where
  pub retained : encoded ≡ map some p.retain_token_ids
  pub resampled : encoded ≡ map some p.resample_token_ids
  pub hashed : p.prefix_hash ≡ token_hash p.retain_token_ids
  pub not_empty : 0 < length p.retain_token_ids

-- How a rendering ends, said of the encoder's answer.
abbrev pub IsRendering :
    (List ℕ → String) → List (Option ℕ) → Result PrefixError ArmPrefixes → Type 0
IsRendering token_hash encoded r =
    ((p : ArmPrefixes) × (r ≡ ok p) × IsRenderedOnce token_hash encoded p)
    ⊎ ((encoded ≡ []) × (r ≡ err empty_prefix))
    ⊎ ((any is_missing encoded ≡ true) × (r ≡ err not_integer_tokens))

arm_prefixes-raises :
    (token_hash : List ℕ → String) (encoded : List (Option ℕ)) (e : PrefixError)
    → integer_ids encoded ≡ err e
    → arm_prefixes token_hash encoded ≡ err e
unfolding arm_prefixes
arm_prefixes-raises token_hash encoded e h = rw h refl

arm_prefixes-empty :
    (token_hash : List ℕ → String) (encoded : List (Option ℕ))
    → integer_ids encoded ≡ ok []
    → arm_prefixes token_hash encoded ≡ err empty_prefix
unfolding arm_prefixes check_prefixes ids_eq
arm_prefixes-empty token_hash encoded h = rw h refl

arm_prefixes-returns :
    (token_hash : List ℕ → String) (encoded : List (Option ℕ)) (first : ℕ) (more : List ℕ)
    → integer_ids encoded ≡ ok (first ∷ more)
    → arm_prefixes token_hash encoded
      ≡ ok (record {
        retain_token_ids = first ∷ more;
        resample_token_ids = first ∷ more;
        prefix_hash = token_hash (first ∷ more);
      })
unfolding arm_prefixes check_prefixes
arm_prefixes-returns token_hash encoded first more h = rw h (rw (ids_eq_refl (first ∷ more)) refl)

arm_prefixes-IsRendering :
    (token_hash : List ℕ → String) (encoded : List (Option ℕ))
    → IsRendering token_hash encoded (arm_prefixes token_hash encoded)
arm_prefixes-IsRendering token_hash encoded = elim (Result-cases (integer_ids encoded)) [
  | inl (e, bad) ↦
      let (missing, which) = integer_ids-raises encoded e bad in
      inr (inr (missing, arm_prefixes-raises token_hash encoded e bad ∙ ap (λ e. err e) which))
  | inr (ids, good) ↦ elim (List-cases ids) [
    | inl nothing ↦
        let none_there : integer_ids encoded ≡ ok [] = rw nothing at good in
        inr (
          inl (
            integer_ids-eq encoded [] none_there,
            arm_prefixes-empty token_hash encoded none_there,
          ))
    | inr (first, more, e) ↦
        let there : integer_ids encoded ≡ ok (first ∷ more) = rw e at good in
        let tokens = integer_ids-eq encoded (first ∷ more) there in
        inl (
          record {
            retain_token_ids = first ∷ more;
            resample_token_ids = first ∷ more;
            prefix_hash = token_hash (first ∷ more);
          },
          arm_prefixes-returns token_hash encoded first more there,
          record { retained = tokens; resampled = tokens; hashed = refl; not_empty = omega arith },
        )
  ]
]

-- The encoder is asked once, whatever state it keeps: that call's state is the one left, and of its
-- answer come the tokens of both arms, whole, and their digest. It raises exactly where the answer is
-- empty or holds what is no integer.
pub build_token_identical_prefixes-IsRendering :
    {M S : Type 0} (encode_prefix : M → List ℕ → S → List (Option ℕ) × S)
    (token_hash : List ℕ → String) (messages : M) (prefix : List ℕ) (s : S)
    → ((build_token_identical_prefixes encode_prefix token_hash messages prefix s).1
        ≡ (encode_prefix messages prefix s).1)
      × IsRendering token_hash
          (encode_prefix messages prefix s).0
          (build_token_identical_prefixes encode_prefix token_hash messages prefix s).0
unfolding build_token_identical_prefixes
build_token_identical_prefixes-IsRendering encode_prefix token_hash messages prefix s =
    (refl, arm_prefixes-IsRendering token_hash (encode_prefix messages prefix s).0)
