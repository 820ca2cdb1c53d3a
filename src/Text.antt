-- ===== src/Text.antt =====
-- Go's `strings`, as far as the program uses it.
pub mod Hex
pub mod Space
pub mod Trim
use Prim.Native.Char.{code}
use degenbox_hyperliquid_cli.Base.{
  ℕ, zero, suc, Bool, true, false, List, [], ◌∷◌, ◌==◌, if◌then◌else◌, String,
}

-- `strings.HasPrefix(s, prefix)`.
unfoldable pub has_prefix : String → String → Bool
has_prefix s String.[] = true
has_prefix String.[] (String.◌∷◌ c prefix) = false
has_prefix (String.◌∷◌ d s) (String.◌∷◌ c prefix) =
    let rest = has_prefix s prefix in if code d == code c then rest else false

-- `s[n:]`, where the first `n` characters are ASCII; nothing where there are fewer.
abbrev pub skip : ℕ → String → String
skip zero s = s
skip (suc n) String.[] = String.[]
skip (suc n) (String.◌∷◌ c s) = skip n s

-- The code points of a text.
abbrev pub codes : String → List ℕ
codes String.[] = []
codes (String.◌∷◌ c s) = code c ∷ codes s
