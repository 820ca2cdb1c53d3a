-- ===== src/Text/Hex.antt =====
-- Go's encoding/hex and `strings.TrimPrefix`, on texts as lists of bytes.
use mathlib.Core.Option.{some-injective}
use degenbox_hyperliquid_cli.Base.{
  ℕ, ◌+◌, ◌-◌, ◌*◌, ◌/◌, ◌%◌, ◌<◌, ◌≡◌, refl, ◌&&◌, Option, none, some, List, [], ◌∷◌, arith, ltb,
  leb, ◌==◌, if◌then◌else◌, All, map, ap, subst,
}

abbrev pub IsByte : ℕ → Type 0
IsByte b = b < 256

abbrev pub hex_digit : ℕ → ℕ
hex_digit n = if ltb n 10 then b'0' + n else b'a' + (n - 10)

-- `hex.EncodeToString`.
unfoldable pub encode_hex : List ℕ → List ℕ
encode_hex [] = []
encode_hex (b ∷ bs) = hex_digit (b / 16) ∷ hex_digit (b % 16) ∷ encode_hex bs

abbrev pub nibble : ℕ → Option ℕ
nibble c =
    if leb b'0' c && leb c b'9'
    then some (c - b'0')
    else if leb b'a' c && leb c b'f'
    then some (c - b'a' + 10)
    else if leb b'A' c && leb c b'F'
    then some (c - b'A' + 10)
    else none

-- The byte of two digits, before the bytes of the rest.
abbrev pub join_byte : Option ℕ → Option ℕ → Option (List ℕ) → Option (List ℕ)
join_byte (some h) (some l) (some bs) = some ((h * 16 + l) ∷ bs)
join_byte (some h) (some l) none = none
join_byte (some h) none rest = none
join_byte none low rest = none

-- `hex.DecodeString`: `none` for an error, an odd length among them.
unfoldable pub decode_hex : List ℕ → Option (List ℕ)
decode_hex [] = some []
decode_hex (c ∷ []) = none
decode_hex (c ∷ d ∷ cs) = join_byte (nibble c) (nibble d) (decode_hex cs)

abbrev pub lower : ℕ → ℕ
lower c = if leb b'A' c && leb c b'Z' then c + 32 else c

-- `strings.TrimPrefix(s, "0x")`.
unfoldable pub trim_0x : List ℕ → List ℕ
trim_0x [] = []
trim_0x (c ∷ []) = c ∷ []
trim_0x (c ∷ d ∷ cs) = if c == b'0' && d == b'x' then cs else c ∷ d ∷ cs

nibble-hex_digit : (n : ℕ) → n < 16 → nibble (hex_digit n) ≡ some n
nibble-hex_digit n h = ground arith

-- Bytes come back from their digits.
pub decode_hex-encode_hex : (bs : List ℕ) → All IsByte bs → decode_hex (encode_hex bs) ≡ some bs
unfolding decode_hex encode_hex
decode_hex-encode_hex [] h = refl
decode_hex-encode_hex (b ∷ bs) h =
    rw
      (
        nibble-hex_digit (b / 16) (omega arith),
        nibble-hex_digit (b % 16) (omega arith),
        decode_hex-encode_hex bs h.1,
      )
      (ap (λ (x : ℕ). some (x ∷ bs)) (omega arith))

hex_digit-nibble : (c n : ℕ) → nibble c ≡ some n → (hex_digit n ≡ lower c) × (n < 16)
hex_digit-nibble c n h = ground arith

join_byte-inv :
    (h l : Option ℕ) (rest : Option (List ℕ)) (bs : List ℕ)
    → join_byte h l rest ≡ some bs
    → (x : ℕ) × (y : ℕ) × (ys : List ℕ) × (h ≡ some x)
      × (l ≡ some y)
      × (rest ≡ some ys)
      × (bs ≡ (x * 16 + y) ∷ ys)
join_byte-inv none l rest bs e = cc
join_byte-inv (some x) none rest bs e = cc
join_byte-inv (some x) (some y) none bs e = cc
join_byte-inv (some x) (some y) (some ys) bs e = (x, y, ys, refl, refl, refl, cc)

byte_parts : (x y : ℕ) → y < 16 → ((x * 16 + y) / 16 ≡ x) × ((x * 16 + y) % 16 ≡ y)
byte_parts x y h = omega arith

encode_hex-join :
    (x y : ℕ) (ys : List ℕ)
    → y < 16
    → encode_hex ((x * 16 + y) ∷ ys) ≡ hex_digit x ∷ hex_digit y ∷ encode_hex ys
unfolding encode_hex
encode_hex-join x y ys h = rw ((byte_parts x y h).0, (byte_parts x y h).1) refl

-- What decodes is bytes, and encoding them gives the text in lower case.
pub encode_hex-decode_hex :
    (s bs : List ℕ) → decode_hex s ≡ some bs → (encode_hex bs ≡ map lower s) × All IsByte bs
unfolding decode_hex
encode_hex-decode_hex [] bs e =
    subst (λ xs. (encode_hex xs ≡ []) × All IsByte xs) (some-injective _ _ e)
      (unfold encode_hex in refl, tt)
encode_hex-decode_hex (c ∷ []) bs e = cc
encode_hex-decode_hex (c ∷ d ∷ cs) bs e =
    let (x, y, ys, high, low, rest, whole) =
      join_byte-inv (nibble c) (nibble d) (decode_hex cs) bs e in
    let hx = hex_digit-nibble c x high in
    let hy = hex_digit-nibble d y low in
    let ih = encode_hex-decode_hex cs ys rest in
    rw whole
      (rw (encode_hex-join x y ys hy.1, hx.0, hy.0, ih.0) refl, (omega (arith, hx.1, hy.1), ih.1))
