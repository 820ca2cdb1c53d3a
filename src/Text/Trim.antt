-- ===== src/Text/Trim.antt =====
-- Go's `strings.TrimSpace` on the code points of a text, and the division of a text into lines.
use degenbox_hyperliquid_cli.Text.Space.{is_space}
use degenbox_hyperliquid_cli.Base.{
  ℕ, ◌≡◌, refl, ap, ◌∙◌, Bool, true, false, ◌&&◌, List, [], ◌∷◌, ◌++◌, ◌==◌, inl, inr, Bool-cases,
  if◌then◌else◌, All,
}

abbrev pub is_empty : List ℕ → Bool
is_empty [] = true
is_empty (c ∷ s) = false

unfoldable pub trim_left : List ℕ → List ℕ
trim_left [] = []
trim_left (c ∷ s) = let rest = trim_left s in if is_space c then rest else c ∷ s

unfoldable pub trim_right : List ℕ → List ℕ
trim_right [] = []
trim_right (c ∷ s) = let rest = trim_right s in if is_space c && is_empty rest then [] else c ∷ rest

unfoldable pub trim : List ℕ → List ℕ
trim s = trim_right (trim_left s)

-- The text does not start with a space.
abbrev head_space : List ℕ → Bool
head_space [] = false
head_space (c ∷ s) = is_space c

trim_left-head : (s : List ℕ) → head_space (trim_left s) ≡ false
unfolding trim_left
trim_left-head [] = refl
trim_left-head (c ∷ s) = elim (Bool-cases (is_space c)) [
  | inl t ↦ rw t (trim_left-head s)
  | inr f ↦ rw f f
]

trim_left-same : (s : List ℕ) → head_space s ≡ false → trim_left s ≡ s
unfolding trim_left
trim_left-same [] h = refl
trim_left-same (c ∷ s) h = rw h refl

trim_right-head : (s : List ℕ) → head_space s ≡ false → head_space (trim_right s) ≡ false
unfolding trim_right
trim_right-head [] h = refl
trim_right-head (c ∷ s) h = rw h h

trim_right-trim_right : (s : List ℕ) → trim_right (trim_right s) ≡ trim_right s
unfolding trim_right
trim_right-trim_right [] = refl
trim_right-trim_right (c ∷ s) = elim (Bool-cases (is_space c && is_empty (trim_right s))) [
  | inl t ↦ rw t refl
  | inr f ↦ rw (f, trim_right-trim_right s, f) refl
]

pub trim-empty : trim [] ≡ []
unfolding trim trim_left trim_right
trim-empty = refl

pub trim-trim : (s : List ℕ) → trim (trim s) ≡ trim s
unfolding trim
trim-trim s =
    ap trim_right (trim_left-same _ (trim_right-head _ (trim_left-head s)))
    ∙ trim_right-trim_right (trim_left s)

-- A text without a space stays as it is.
trim_right-same : (s : List ℕ) → All (λ c. is_space c ≡ false) s → trim_right s ≡ s
unfolding trim_right
trim_right-same [] h = refl
trim_right-same (c ∷ s) (h, hs) = rw (h, trim_right-same s hs) refl

pub trim-same : (s : List ℕ) → All (λ c. is_space c ≡ false) s → trim s ≡ s
unfolding trim
trim-same [] h = ap trim_right (trim_left-same [] refl) ∙ trim_right-same [] tt
trim-same (c ∷ s) (h, hs) =
    ap trim_right (trim_left-same (c ∷ s) h) ∙ trim_right-same (c ∷ s) (h, hs)

module _ (P : ℕ → Type 0) where
  trim_left-All : (s : List ℕ) → All P s → All P (trim_left s)
  unfolding trim_left
  trim_left-All [] h = tt
  trim_left-All (c ∷ s) h = elim (Bool-cases (is_space c)) [
    | inl t ↦ rw t (trim_left-All s h.1)
    | inr f ↦ rw f h
  ]

  trim_right-All : (s : List ℕ) → All P s → All P (trim_right s)
  unfolding trim_right
  trim_right-All [] h = tt
  trim_right-All (c ∷ s) h = elim (Bool-cases (is_space c && is_empty (trim_right s))) [
    | inl t ↦ rw t tt
    | inr f ↦ rw f (h.0, trim_right-All s h.1)
  ]

  pub trim-All : (s : List ℕ) → All P s → All P (trim s)
  unfolding trim
  trim-All s h = trim_right-All (trim_left s) (trim_left-All s h)

-- `strings.Split(s, "\n")`.
abbrev pub onto_first : ℕ → List (List ℕ) → List (List ℕ)
onto_first c [] = (c ∷ []) ∷ []
onto_first c (line ∷ lines) = (c ∷ line) ∷ lines

unfoldable pub split_lines : List ℕ → List (List ℕ)
split_lines [] = [] ∷ []
split_lines (c ∷ s) = let rest = split_lines s in if c == 10 then [] ∷ rest else onto_first c rest

-- The text has no end of a line.
abbrev pub IsLine : List ℕ → Type 0
IsLine = All (λ c. (c == 10) ≡ false)

onto_first-IsLine :
    (c : ℕ) (lines : List (List ℕ))
    → (c == 10) ≡ false
    → All IsLine lines
    → All IsLine (onto_first c lines)
onto_first-IsLine c [] h hs = ((h, tt), tt)
onto_first-IsLine c (line ∷ lines) h hs = ((h, hs.0), hs.1)

pub split_lines-IsLine : (s : List ℕ) → All IsLine (split_lines s)
unfolding split_lines
split_lines-IsLine [] = (tt, tt)
split_lines-IsLine (c ∷ s) = elim (Bool-cases (c == 10)) [
  | inl t ↦ rw t (tt, split_lines-IsLine s)
  | inr f ↦ rw f (onto_first-IsLine c (split_lines s) f (split_lines-IsLine s))
]

pub split_lines-line :
    (line s : List ℕ) → IsLine line → split_lines (line ++ 10 ∷ s) ≡ line ∷ split_lines s
unfolding split_lines
split_lines-line [] s h = refl
split_lines-line (c ∷ line) s (h, hs) = rw (h, split_lines-line line s hs) refl
