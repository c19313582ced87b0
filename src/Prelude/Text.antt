-- ===== src/Prelude/Text.antt =====
-- Python's `str` as far as the program reads it: code points, `str.isspace` and `str.strip`.
use Prim.Native.Nat.{ℕ}
use Prim.Native.Char.{code}
use Prim.Native.String.{String}
use mathlib.Core.Bool.{Bool, false, not, ◌&&◌, ◌||◌}
use mathlib.Core.List.{List, [], ◌∷◌}
use model_forensics_value_le.Prelude.Tests.{leb, ◌==◌}

-- The code points of a text.
abbrev pub codes : String → List ℕ
codes String.[] = []
codes (String.◌∷◌ c s) = code c ∷ codes s

-- `str.isspace` of one character: the characters that Python counts as white space.
unfoldable pub is_space : ℕ → Bool
is_space c =
    leb 9 c && leb c 13
    || leb 28 c && leb c 32
    || c == 133
    || c == 160
    || c == 5760
    || leb 8192 c && leb c 8202
    || c == 8232
    || c == 8233
    || c == 8239
    || c == 8287
    || c == 12288

-- `bool(text.strip())`: some character is no white space.
unfoldable pub has_visible : List ℕ → Bool
unfolding is_space
has_visible [] = false
has_visible (c ∷ cs) = not (is_space c) || has_visible cs
