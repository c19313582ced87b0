-- ===== src/GpuBudget/Texts.antt =====
-- The texts that gpu_budget.py accepts: its regular expression of phases and the session nonce.
use Prim.Native.String
use model_forensics_value_le.Prelude.{
  ℕ, String, Bool, false, not, ◌&&◌, ◌||◌, List, [], ◌∷◌, length, leb, ◌==◌,
}
use model_forensics_value_le.Prelude.Digest.{all_codes}
use model_forensics_value_le.Prelude.Text.{is_space, has_visible}

-- `"..." + "..."`
abbrev pub joined : String → String → String
joined a b = String.◌++◌ a b

-- `[A-Za-z0-9]`
unfoldable pub is_alnum : ℕ → Bool
is_alnum c = leb b'A' c && leb c b'Z' || (leb b'a' c && leb c b'z' || leb b'0' c && leb c b'9')

-- `[A-Za-z0-9_.:-]`
unfoldable pub is_phase_code : ℕ → Bool
is_phase_code c = is_alnum c || (c == b'_' || (c == b'.' || (c == b':' || c == b'-')))

-- `_PHASE_RE.fullmatch(phase)`: one letter or digit, and 2 to 127 more characters.
unfoldable pub phase_matches : List ℕ → Bool
phase_matches [] = false
phase_matches (c ∷ cs) =
    is_alnum c && (all_codes is_phase_code cs && (leb 2 (length cs) && leb (length cs) 127))

unfoldable pub last_is_space : List ℕ → Bool
last_is_space [] = false
last_is_space (c ∷ []) = is_space c
last_is_space (c ∷ d ∷ cs) = last_is_space (d ∷ cs)

unfoldable pub first_is_space : List ℕ → Bool
first_is_space [] = false
first_is_space (c ∷ cs) = is_space c

-- The test on `session_id`: not blank, stripped, at most 512 characters, none of them a control
-- character.
unfoldable pub is_session_id : List ℕ → Bool
is_session_id cs =
    has_visible cs
    && (not (first_is_space cs)
        && (not (last_is_space cs) && (leb (length cs) 512 && all_codes (leb 32) cs)))
