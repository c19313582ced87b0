-- ===== src/Resampling/Prefixes.antt =====
-- The prefixes of the two arms, resampling.py. The chat-template encoder and the digest of tokens
-- are parameters.
use model_forensics_value_le.Prelude.{
  ℕ, ◌≡◌, refl, String, Bool, true, false, not, ◌&&◌, Option, none, some, List, [], ◌∷◌, ◌==◌,
  arith,
}
use model_forensics_value_le.Prelude.Outcome.{Result, ok, err, ◌>>=◌, ◌>>◌, raise_if}

pub data PrefixError : Type 0 where
  tokens_differ empty_prefix not_integer_tokens : PrefixError

-- `ArmPrefixes`
pub record ArmPrefixes : Type 0 where
  pub retain_token_ids : List ℕ
  pub resample_token_ids : List ℕ
  pub prefix_hash : String

unfoldable pub ids_eq : List ℕ → List ℕ → Bool
ids_eq [] [] = true
ids_eq [] (d ∷ ds) = false
ids_eq (c ∷ cs) [] = false
ids_eq (c ∷ cs) (d ∷ ds) = c == d && ids_eq cs ds

abbrev pub no_ids : List ℕ → Bool
no_ids [] = true
no_ids (c ∷ cs) = false

-- `ArmPrefixes.__post_init__`
unfoldable pub check_prefixes : ArmPrefixes → Result PrefixError (Unit {0})
check_prefixes p = do
  raise_if (not (ids_eq p.retain_token_ids p.resample_token_ids)) tokens_differ
  raise_if (no_ids p.retain_token_ids) empty_prefix

-- The encoder's tokens as integers; `none` is an element that is none.
unfoldable pub integer_ids : List (Option ℕ) → Result PrefixError (List ℕ)
integer_ids [] = ok []
integer_ids (none ∷ ids) = err not_integer_tokens
integer_ids (some n ∷ ids) = do rest ← integer_ids ids; ok (n ∷ rest)

-- `ArmPrefixes(...)` on the encoder's answer.
unfoldable pub arm_prefixes : (List ℕ → String) → List (Option ℕ) → Result PrefixError ArmPrefixes
arm_prefixes token_hash encoded = do
  token_ids ← integer_ids encoded
  let prefixes : ArmPrefixes = record {
    retain_token_ids = token_ids;
    resample_token_ids = token_ids;
    prefix_hash = token_hash token_ids;
  }
  check_prefixes prefixes
  ok prefixes

-- The encoder may keep a state `S`: it need not give the same tokens twice.
module _ {M S : Type 0} (encode_prefix : M → List ℕ → S → List (Option ℕ) × S)
    (token_hash : List ℕ → String) where
  -- `build_token_identical_prefixes`
  unfoldable pub build_token_identical_prefixes :
      M → List ℕ → S → Result PrefixError ArmPrefixes × S
  build_token_identical_prefixes messages raw_thinking_prefix s =
      let (encoded, s') = encode_prefix messages raw_thinking_prefix s in
      (arm_prefixes token_hash encoded, s')

pub ids_eq_refl : (ids : List ℕ) → ids_eq ids ids ≡ true
unfolding ids_eq
ids_eq_refl [] = refl
ids_eq_refl (c ∷ cs) = ground (arith, ids_eq_refl cs)
