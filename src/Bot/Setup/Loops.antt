-- ===== src/Bot/Setup/Loops.antt =====
-- cmd/bot/cmd_setup.go: when the loops of the questions end, and with what.
use mathlib.Core.Option.{some-injective}
use degenbox_hyperliquid_cli.Text.Space.{trim_space}
use degenbox_hyperliquid_cli.Bot.Setup.{read_line, ask}
use degenbox_hyperliquid_cli.Base.{
  ℕ, zero, suc, ◌<◌, ◌≡◌, refl, sym, ap, ◌∙◌, subst, ◌≢◌, ◌⊎◌, inl, inr, Option, none, some, List,
  [], ◌∷◌, arith, Option-cases, length, All, String,
}

-- The first line that is taken, and the lines after it; past the end, the empty text.
abbrev pub first {ℓ} : {A : Type ℓ} → (String → Option A) → List String → Option (A × List String)
first answer [] = elim (answer "") [ none ↦ none | some a ↦ some (a, []) ]
first answer (line ∷ lines) = elim (answer (trim_space line)) [
  | none ↦ first answer lines
  | some a ↦ some (a, lines)
]

none≢some {ℓ} : {A : Type ℓ} {a : A} → none ≢ some a
none≢some e = cc

trim_space-empty : trim_space "" ≡ ""
unfolding trim_space
trim_space-empty = refl

module _ {ℓ} {A : Type ℓ} (answer : String → Option A) where
  -- A round whose answer is taken, and one whose answer is not.
  ask-taken :
      (fuel : ℕ) (lines : List String) {a : A}
      → answer (trim_space (read_line lines).0) ≡ some a
      → ask answer (suc fuel) lines ≡ some (a, (read_line lines).1)
  unfolding ask
  ask-taken fuel lines e = rw (e, ask) refl

  ask-refused :
      (fuel : ℕ) (lines : List String)
      → answer (trim_space (read_line lines).0) ≡ none
      → ask answer (suc fuel) lines ≡ ask answer fuel (read_line lines).1
  unfolding ask
  ask-refused fuel lines e = rw (e, ask) refl

  ask-zero : (lines : List String) → ask answer zero lines ≡ none
  unfolding ask
  ask-zero lines = refl

  -- Past the last line the empty text is read again and again.
  ask-end : answer "" ≡ none → (fuel : ℕ) → ask answer fuel [] ≡ none
  unfolding read_line
  ask-end e zero = ask-zero []
  ask-end e (suc fuel) = ask-refused fuel [] (ap answer trim_space-empty ∙ e) ∙ ask-end e fuel

  first-empty : answer "" ≡ none → first answer [] ≡ none
  first-empty e = rw (e, first) refl

  first-end : {a : A} → answer "" ≡ some a → first answer [] ≡ some (a, [])
  first-end e = rw (e, first) refl

  first-refused :
      (line : String) (lines : List String)
      → answer (trim_space line) ≡ none
      → first answer (line ∷ lines) ≡ first answer lines
  first-refused line lines e = rw (e, first) refl

  first-taken :
      (line : String) (lines : List String) {a : A}
      → answer (trim_space line) ≡ some a
      → first answer (line ∷ lines) ≡ some (a, lines)
  first-taken line lines e = rw (e, first) refl

  -- More fuel than lines answers the question.
  pub ask-first :
      (fuel : ℕ) (lines : List String)
      → length lines < fuel
      → ask answer fuel lines ≡ first answer lines
  unfolding read_line
  ask-first zero lines h = absurd (omega arith)
  ask-first (suc fuel) [] h = elim (Option-cases (answer "")) [
    | inl e ↦ ask-end e (suc fuel) ∙ sym (first-empty e)
    | inr (a, e) ↦ ask-taken fuel [] (ap answer trim_space-empty ∙ e) ∙ sym (first-end e)
  ]
  ask-first (suc fuel) (line ∷ lines) h = elim (Option-cases (answer (trim_space line))) [
    | inl e ↦
        ask-refused fuel (line ∷ lines) e
        ∙ ask-first fuel lines (omega arith)
        ∙ sym (first-refused line lines e)
    | inr (a, e) ↦ ask-taken fuel (line ∷ lines) e ∙ sym (first-taken line lines e)
  ]

  -- What the loop gives satisfies what every taken answer does.
  pub ask-Good :
      (Good : A → Type ℓ)
      → ((line : String) (a : A) → answer line ≡ some a → Good a)
      → (lines : List String) {a : A} {rest : List String} → first answer lines ≡ some (a, rest)
      → Good a
  ask-Good Good taken [] e = elim (Option-cases (answer "")) [
    | inl e' ↦ absurd (none≢some (sym (first-empty e') ∙ e))
    | inr (a', e') ↦
        subst Good (ap (λ x. x.0) (some-injective _ _ (sym (first-end e') ∙ e))) (taken "" a' e')
  ]
  ask-Good Good taken (line ∷ lines) e = elim (Option-cases (answer (trim_space line))) [
    | inl e' ↦ ask-Good Good taken lines (sym (first-refused line lines e') ∙ e)
    | inr (a', e') ↦
        subst Good (ap (λ x. x.0) (some-injective _ _ (sym (first-taken line lines e') ∙ e)))
          (taken (trim_space line) a' e')
  ]

  -- A loop that finds no answer in the lines does not end, whatever the fuel.
  pub ask-spins :
      (lines : List String) → first answer lines ≡ none → (fuel : ℕ) → ask answer fuel lines ≡ none
  unfolding read_line
  ask-spins lines e zero = ask-zero lines
  ask-spins [] e (suc fuel) = elim (Option-cases (answer "")) [
    | inl e' ↦ ask-end e' (suc fuel)
    | inr (a, e') ↦ absurd (none≢some (sym e ∙ first-end e'))
  ]
  ask-spins (line ∷ lines) e (suc fuel) = elim (Option-cases (answer (trim_space line))) [
    | inl e' ↦
        ask-refused fuel (line ∷ lines) e'
        ∙ ask-spins lines (sym (first-refused line lines e') ∙ e) fuel
    | inr (a, e') ↦ absurd (none≢some (sym e ∙ first-taken line lines e'))
  ]

  -- A question with a default finds an answer.
  pub first-default : {a : A} (lines : List String) → answer "" ≡ some a → first answer lines ≢ none
  first-default [] e none' = none≢some (sym none' ∙ first-end e)
  first-default (line ∷ lines) e none' = elim (Option-cases (answer (trim_space line))) [
    | inl e' ↦ first-default lines e (sym (first-refused line lines e') ∙ none')
    | inr (b, e') ↦ none≢some (sym none' ∙ first-taken line lines e')
  ]

  -- Such a loop has taken none of the lines.
  pub first-refuses :
      (lines : List String)
      → first answer lines ≡ none
      → All (λ line. answer (trim_space line) ≡ none) lines
  first-refuses [] e = tt
  first-refuses (line ∷ lines) e = elim (Option-cases (answer (trim_space line))) [
    | inl e' ↦ (e', first-refuses lines (sym (first-refused line lines e') ∙ e))
    | inr (a, e') ↦ absurd (none≢some (sym e ∙ first-taken line lines e'))
  ]

-- The loop ends with an answer that satisfies a condition.
abbrev pub Ends {ℓ} : {A : Type ℓ} → (A → Type ℓ) → Option (A × List String) → Type ℓ
Ends {A = A} Good o = (a : A) × ((rest : List String) × (o ≡ some (a, rest))) × Good a

-- A loop ends with a good answer, or there is no fuel with which it ends.
pub ask_lem {ℓ} :
    {A : Type ℓ} (answer : String → Option A) (Good : A → Type ℓ)
    → ((line : String) (a : A) → answer line ≡ some a → Good a)
    → (lines : List String)
    → (((fuel : ℕ) → length lines < fuel → Ends Good (ask answer fuel lines))
        × (first answer lines ≢ none))
      ⊎ (((fuel : ℕ) → ask answer fuel lines ≡ none) × (first answer lines ≡ none))
ask_lem answer Good taken lines = elim (Option-cases (first answer lines)) [
  | inl e ↦ inr (ask-spins answer lines e, e)
  | inr ((a, rest), e) ↦ inl (
    (λ fuel h. (a, (rest, ask-first answer fuel lines h ∙ e), ask-Good answer Good taken lines e)),
    (λ e'. none≢some (sym e' ∙ e)),
  )
]
