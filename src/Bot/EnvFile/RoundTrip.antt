-- ===== src/Bot/EnvFile/RoundTrip.antt =====
-- cmd/bot/cmd_setup.go: what is written to the file .env is read back.
use degenbox_hyperliquid_cli.Base.{
  inr, inl, ℕ, ◌≡◌, refl, sym, ap, ◌∙◌, false, ◌||◌, Option, none, some, List, [], ◌∷◌, ◌==◌,
  Bool-cases, Option-cases, All, subst, ==_iff,
}
use mathlib.Core.Option.{some-injective}
use degenbox_hyperliquid_cli.Text.Trim.{
  trim, is_empty, split_lines, trim-trim, trim-empty, trim-All, IsLine, split_lines-IsLine,
  split_lines-line,
}
use degenbox_hyperliquid_cli.Bot.EnvFile.{
  Setting, EnvMap, insert_all, split_pair, is_comment, parse_line, read_lines, read_env_file,
  entry_line, env_text,
}

-- The line of the entry is read as the entry.
abbrev pub IsReadable : Setting → Type 0
IsReadable e = IsLine (entry_line e) × (parse_line (entry_line e) ≡ some e)

split_pair-entry_line : (s : List ℕ) (e : Setting) → split_pair s ≡ some e → entry_line e ≡ s
unfolding split_pair
split_pair-entry_line [] e h = absurd cc
split_pair-entry_line (c ∷ s) e h = elim (Bool-cases (c == 61)) [
  | inl t ↦
      let q : split_pair (c ∷ s) ≡ some ([], s) = rw t refl in
      ap entry_line (some-injective _ _ (sym h ∙ q)) ∙ ap (λ d. d ∷ s) (sym ((==_iff c 61).0 t))
  | inr f ↦ elim (Option-cases (split_pair s)) [
    | inl n ↦ let q : split_pair (c ∷ s) ≡ none = rw (f, n) refl in absurd cc
    | inr (e', r) ↦
        let q : split_pair (c ∷ s) ≡ some (c ∷ e'.0, e'.1) = rw (f, r) refl in
        ap entry_line (some-injective _ _ (sym h ∙ q))
        ∙ ap (λ t. c ∷ t) (split_pair-entry_line s e' r)
  ]
]

parse_line-split_pair :
    (line : List ℕ) (e : Setting) → parse_line line ≡ some e → split_pair (trim line) ≡ some e
unfolding parse_line
parse_line-split_pair line e h =
    elim (Bool-cases (is_empty (trim line) || is_comment (trim line))) [
      | inl t ↦ let q : parse_line line ≡ none = rw t refl in absurd cc
      | inr f ↦ let q : parse_line line ≡ split_pair (trim line) = rw f refl in sym q ∙ h
    ]

parse_line-trim : (line : List ℕ) → parse_line (trim line) ≡ parse_line line
unfolding parse_line
parse_line-trim line = rw (trim-trim line) refl

-- The entries of a file that was read are readable again.
parse_line-IsReadable :
    (line : List ℕ) (e : Setting) → IsLine line → parse_line line ≡ some e → IsReadable e
parse_line-IsReadable line e h p =
    let same = split_pair-entry_line (trim line) e (parse_line-split_pair line e p) in
    (
      subst IsLine (sym same) (trim-All (λ c. (c == 10) ≡ false) line h),
      ap parse_line same ∙ parse_line-trim line ∙ p,
    )

read_lines-line :
    (m : EnvMap) (line : List ℕ) (e : Setting) (lines : List (List ℕ))
    → parse_line line ≡ some e
    → read_lines m (line ∷ lines) ≡ read_lines (e ∷ m) lines
unfolding read_lines
read_lines-line m line e lines p = rw (p, read_lines) refl

read_lines-other :
    (m : EnvMap) (line : List ℕ) (lines : List (List ℕ))
    → parse_line line ≡ none
    → read_lines m (line ∷ lines) ≡ read_lines m lines
unfolding read_lines
read_lines-other m line lines p = rw (p, read_lines) refl

read_lines-IsReadable :
    (m : EnvMap) (lines : List (List ℕ))
    → All IsReadable m
    → All IsLine lines
    → All IsReadable (read_lines m lines)
unfolding read_lines
read_lines-IsReadable m [] hm hs = hm
read_lines-IsReadable m (line ∷ lines) hm (h, hs) = elim (Option-cases (parse_line line)) [
  | inl n ↦
      subst (All IsReadable) (sym (read_lines-other m line lines n))
        (read_lines-IsReadable m lines hm hs)
  | inr (e, p) ↦
      subst (All IsReadable) (sym (read_lines-line m line e lines p))
        (read_lines-IsReadable (e ∷ m) lines (parse_line-IsReadable line e h p, hm) hs)
]

pub read_env_file-IsReadable : (file : Option (List ℕ)) → All IsReadable (read_env_file file)
unfolding read_env_file
read_env_file-IsReadable none = tt
read_env_file-IsReadable (some content) =
    read_lines-IsReadable [] (split_lines content) tt (split_lines-IsLine content)

parse_line-empty : parse_line [] ≡ none
unfolding parse_line
parse_line-empty = rw trim-empty refl

read_lines-end : (m : EnvMap) → read_lines m ([] ∷ []) ≡ m
unfolding read_lines
read_lines-end m = read_lines-other m [] [] parse_line-empty

read_lines-env_text :
    (m : EnvMap) (es : List Setting)
    → All IsReadable es
    → read_lines m (split_lines (env_text es)) ≡ insert_all m es
unfolding env_text split_lines
read_lines-env_text m [] h = read_lines-other m [] ([] ∷ []) parse_line-empty ∙ read_lines-end m
read_lines-env_text m (e ∷ []) ((l, p), hs) =
    ap (read_lines m) (split_lines-line (entry_line e) [] l)
    ∙ read_lines-line m (entry_line e) e _ p
    ∙ read_lines-end (e ∷ m)
read_lines-env_text m (e ∷ e' ∷ es) ((l, p), hs) =
    ap (read_lines m) (split_lines-line (entry_line e) (env_text (e' ∷ es)) l)
    ∙ read_lines-line m (entry_line e) e _ p
    ∙ read_lines-env_text (e ∷ m) (e' ∷ es) hs

pub read_env_file-env_text :
    (es : List Setting) → All IsReadable es → read_env_file (some (env_text es)) ≡ insert_all [] es
unfolding read_env_file
read_env_file-env_text es h = read_lines-env_text [] es h
