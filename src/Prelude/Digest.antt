-- ===== src/Prelude/Digest.antt =====
-- The texts of namespaced SHA-256 digests, `re.compile(r"sha256:[0-9a-f]{64}\Z")`, as gpu_budget.py
-- and paid_response_store.py test them.
use Prim.Native.Nat.{ℕ}
use mathlib.Core.Bool.{Bool, true, false, ◌&&◌, ◌||◌}
use mathlib.Core.List.{List, [], ◌∷◌}
use model_forensics_value_le.Prelude.Tests.{leb, ◌==◌}
use model_forensics_value_le.Prelude.Lists.{length}
use model_forensics_value_le.Prelude.Text.{codes}

unfoldable pub all_codes : (ℕ → Bool) → List ℕ → Bool
all_codes test [] = true
all_codes test (c ∷ cs) = test c && all_codes test cs

-- `[0-9a-f]`
unfoldable pub is_hex : ℕ → Bool
is_hex c = leb b'0' c && leb c b'9' || leb b'a' c && leb c b'f'

unfoldable pub match_prefix : List ℕ → List ℕ → Bool
match_prefix [] cs = all_codes is_hex cs && length cs == 64
match_prefix (p ∷ ps) [] = false
match_prefix (p ∷ ps) (c ∷ cs) = p == c && match_prefix ps cs

-- `_HASH_RE.fullmatch(value)`: the prefix, and 64 hexadecimal digits.
unfoldable pub hash_matches : List ℕ → Bool
hash_matches = match_prefix (codes "sha256:")
