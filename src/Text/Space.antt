-- ===== src/Text/Space.antt =====
-- Go's `strings.TrimSpace`, and `strings.ToUpper` as far as a comparison with "YES" goes.
use Prim.Native.Char.{code}
use degenbox_hyperliquid_cli.Text.{codes}
use degenbox_hyperliquid_cli.Base.{
  ℕ, ◌-◌, Bool, true, false, ◌&&◌, ◌||◌, List, [], ◌∷◌, map, leb, ◌==◌, if◌then◌else◌, String,
  str_eq,
}

-- `unicode.IsSpace`.
abbrev pub is_space : ℕ → Bool
is_space c =
    (leb 0x09 c && leb c 0x0d)
    || c == 0x20
    || c == 0x85
    || c == 0xa0
    || c == 0x1680
    || (leb 0x2000 c && leb c 0x200a)
    || c == 0x2028
    || c == 0x2029
    || c == 0x202f
    || c == 0x205f
    || c == 0x3000

unfoldable pub trim_left : String → String
trim_left String.[] = String.[]
trim_left (String.◌∷◌ c s) =
    let rest = trim_left s in if is_space (code c) then rest else String.◌∷◌ c s

unfoldable pub trim_right : String → String
trim_right String.[] = String.[]
trim_right (String.◌∷◌ c s) =
    let rest = trim_right s in
    if is_space (code c) && str_eq rest "" then String.[] else String.◌∷◌ c rest

-- `strings.TrimSpace`.
unfoldable pub trim_space : String → String
unfolding trim_left trim_right
trim_space s = trim_right (trim_left s)

-- No letter but ASCII ones and the long s has one of the letters of "YES" in upper case.
abbrev pub upper : ℕ → ℕ
upper c = if leb b'a' c && leb c b'z' then c - 32 else if c == 0x17f then b'S' else c

abbrev pub same_codes : List ℕ → List ℕ → Bool
same_codes [] [] = true
same_codes [] (d ∷ ds) = false
same_codes (c ∷ cs) [] = false
same_codes (c ∷ cs) (d ∷ ds) = let rest = same_codes cs ds in if c == d then rest else false

-- `strings.ToUpper(strings.TrimSpace(s)) == "YES"`.
unfoldable pub says_yes : String → Bool
unfolding trim_space
says_yes s = same_codes (map upper (codes (trim_space s))) (codes "YES")
