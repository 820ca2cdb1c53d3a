-- ===== src/Config/Text.antt =====
-- The functions of Go's strconv, strings and encoding/hex that internal/config/config.go reads
-- texts with.
use degenbox_hyperliquid_cli.Text.{codes}
use degenbox_hyperliquid_cli.Base.{
  ℕ, ◌+◌, ◌-◌, ◌*◌, ◌/◌, ◌%◌, Bool, true, false, ◌&&◌, ◌||◌, Option, none, some, List, [], ◌∷◌, leb,
  ◌==◌, if◌then◌else◌, length, String,
}
use degenbox_hyperliquid_cli.Base.Int.{ℤ, pos, pos_part, neg_part, sub_ℕ}
use degenbox_hyperliquid_cli.Clock.{max_duration}

abbrev digits_value : ℕ → List ℕ → Option ℕ
digits_value n [] = some n
digits_value n (c ∷ cs) =
    let rest = digits_value (n * 10 + (c - b'0')) cs in
    if leb b'0' c && leb c b'9' then rest else none

-- A text of digits, at least one.
abbrev digits : List ℕ → Option ℕ
digits [] = none
digits (c ∷ cs) = digits_value 0 (c ∷ cs)

-- An optional sign before the digits.
abbrev signed : List ℕ → Option ℤ
signed [] = none
signed (c ∷ cs) =
    if c == b'-'
    then elim (digits cs) [ none ↦ none | some n ↦ some (sub_ℕ 0 n) ]
    else if c == b'+'
    then elim (digits cs) [ none ↦ none | some n ↦ some (pos n) ]
    else elim (digits (c ∷ cs)) [ none ↦ none | some n ↦ some (pos n) ]

-- `strconv.Atoi`: an error out of the range of an int64.
unfoldable pub atoi : String → Option ℤ
atoi s = elim (signed (codes s)) [
  | none ↦ none
  | some i ↦
      if leb (pos_part i) max_duration && leb (neg_part i) (max_duration + 1) then some i else none
]

abbrev lower : ℕ → ℕ
lower c = if leb b'A' c && leb c b'Z' then c + 32 else c

abbrev same_codes : List ℕ → List ℕ → Bool
same_codes [] [] = true
same_codes [] (d ∷ ds) = false
same_codes (c ∷ cs) [] = false
same_codes (c ∷ cs) (d ∷ ds) = let rest = same_codes cs ds in if lower c == d then rest else false

-- `strings.ToLower(v) == "true"`: no letter but ASCII ones has one of these in lower case.
unfoldable pub is_true : String → Bool
is_true v = same_codes (codes v) (codes "true")

abbrev pub is_hex : ℕ → Bool
is_hex c = (leb b'0' c && leb c b'9') || (leb b'a' c && leb c b'f') || (leb b'A' c && leb c b'F')

abbrev pub all_hex : List ℕ → Bool
all_hex [] = true
all_hex (c ∷ cs) = let rest = all_hex cs in if is_hex c then rest else false

-- The length of what `hex.DecodeString` gives.
unfoldable pub decoded_length : String → Option ℕ
decoded_length s =
    if all_hex (codes s) && length (codes s) % 2 == 0 then some (length (codes s) / 2) else none
