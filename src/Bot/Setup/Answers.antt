-- ===== src/Bot/Setup/Answers.antt =====
-- cmd/bot/cmd_setup.go: the answers that the questions of the setup take, and the questions that
-- do not end.
use degenbox_hyperliquid_cli.Base.Int.{ltb_ℤ, ℤ, pos, ◌≤ℤ◌}
use degenbox_hyperliquid_cli.Float.{Float64}
use degenbox_hyperliquid_cli.Bot.Setup.{
  float_answer, prompt_float, ask, choice_answer, int_answer, string_answer, prompt_choice,
  prompt_int, prompt_string,
}
use degenbox_hyperliquid_cli.Base.{
  false, true, str_eq, suc, Bool-cases, ℕ, ◌<◌, ◌≡◌, refl, ◌≢◌, ◌⊎◌, inl, inr, Bool, Option, none,
  some, List, arith, length, All, String,
}
use degenbox_hyperliquid_cli.Text.Space.{trim_space}
use degenbox_hyperliquid_cli.Bot.Setup.Loops.{first-default, first-refuses, Ends, ask_lem}

-- An answer of `promptChoice`: the default, or a number in the range.
abbrev pub InRange : ℤ → ℤ → ℤ → ℤ → Type 0
InRange min' max' default val = (val ≡ default) ⊎ ((min' ≤ℤ val) × (val ≤ℤ max'))

choice_answer-InRange :
    (min' max' default : ℤ) (line : String) (val : ℤ)
    → choice_answer min' max' default line ≡ some val
    → InRange min' max' default val
unfolding choice_answer
choice_answer-InRange min' max' default line val e = ground (arith)

int_answer-pos :
    (default : ℤ) (line : String) (val : ℤ) → int_answer default true line ≡ some val → pos 1 ≤ℤ val
unfolding int_answer
int_answer-pos default line val e = ground (arith)

-- An answer of `promptInt`: positive, or 0 where none is required.
abbrev pub IsNumber : Bool → ℤ → Type 0
IsNumber required val = (pos 1 ≤ℤ val) ⊎ ((required ≡ false) × (val ≡ pos 0))

int_answer-IsNumber :
    (default : ℤ) (required : Bool) (line : String) (val : ℤ)
    → int_answer default required line ≡ some val
    → IsNumber required val
unfolding int_answer
int_answer-IsNumber default true line val e = ground (arith)
int_answer-IsNumber default false line val e = ground (arith)

-- What the empty line gives, where there is a default or no answer is required.
int_answer-empty :
    (default : ℤ) (required : Bool)
    → ((pos 1 ≤ℤ default) ⊎ (required ≡ false))
    → (val : ℤ) × (int_answer default required "" ≡ some val)
unfolding int_answer
int_answer-empty default required h = elim (Bool-cases (ltb_ℤ (pos 0) default)) [
  | inl t ↦ (default, rw t refl)
  | inr f ↦ (pos 0, rw (f, optional f h) refl)
]
  where
    optional :
        ltb_ℤ (pos 0) default ≡ false → ((pos 1 ≤ℤ default) ⊎ (required ≡ false)) → required ≡ false
    optional f h = ground (arith)

-- An answer of `promptString`: not empty, unless none is required.
abbrev pub IsText : Bool → String → Type 0
IsText required text = (str_eq text "" ≡ false) ⊎ ((required ≡ false) × (text ≡ ""))

string_answer-IsText :
    (default : String) (required : Bool) (line text : String)
    → string_answer default required line ≡ some text
    → IsText required text
unfolding string_answer
string_answer-IsText default required line text e = elim (Bool-cases (str_eq line "")) [
  | inl t ↦ elim (Bool-cases (str_eq default "")) [
    | inl t' ↦ elim (Bool-cases required) [
      | inl r ↦ absurd (ground arith)
      | inr r ↦ inr (r, ground arith)
    ]
    | inr f' ↦ inl (ground arith)
  ]
  | inr f ↦ inl (ground arith)
]

string_answer-empty :
    (default : String) (required : Bool)
    → ((str_eq default "" ≡ false) ⊎ (required ≡ false))
    → (text : String) × (string_answer default required "" ≡ some text)
unfolding string_answer
string_answer-empty default required h = elim (Bool-cases (str_eq default "")) [
  | inl t ↦ ("", rw (t, optional t h) refl)
  | inr f ↦ (default, rw f refl)
]
  where
    optional :
        str_eq default "" ≡ true
        → ((str_eq default "" ≡ false) ⊎ (required ≡ false))
        → required ≡ false
    optional t h = ground (arith)

int_answer-required : (default : ℤ) → (int_answer default true "" ≢ some default) → default ≤ℤ pos 0
unfolding int_answer
int_answer-required default h = ground (arith)

module _ {ℓ} {A : Type ℓ} (answer : String → Option A) (Good : A → Type ℓ)
    (taken : (line : String) (a : A) → answer line ≡ some a → Good a) where
  -- A question that takes the empty line ends.
  ask-Ends :
      {a : A}
      → answer "" ≡ some a
      → (lines : List String) (fuel : ℕ) → length lines < fuel
      → Ends Good (ask answer fuel lines)
  ask-Ends e lines fuel h = elim (ask_lem answer Good taken lines) [
    | inl (ends, _) ↦ ends fuel h
    | inr (_, none') ↦ absurd (first-default answer lines e none')
  ]

module _ (fl : Float64) where
  open fl use {F, of_ℤ, lt, le}

  -- An answer of `promptFloat`: the positive default, a number that is not at most 0, or 0 where none
  -- is required.
  abbrev pub IsAmount : F → Bool → F → Type 0
  IsAmount default required val =
      ((lt (of_ℤ (pos 0)) default ≡ true) × (val ≡ default))
      ⊎ (le val (of_ℤ (pos 0)) ≡ false)
      ⊎ ((required ≡ false) × (val ≡ of_ℤ (pos 0)))

  float_answer-IsAmount :
      (default : F) (required : Bool) (line : String) (val : F)
      → float_answer fl default required line ≡ some val
      → IsAmount default required val
  unfolding float_answer
  float_answer-IsAmount default true line val e = ground arith
  float_answer-IsAmount default false line val e = ground arith

  float_answer-empty :
      (default : F) (required : Bool)
      → ((lt (of_ℤ (pos 0)) default ≡ true) ⊎ (required ≡ false))
      → (val : F) × (float_answer fl default required "" ≡ some val)
  unfolding float_answer
  float_answer-empty default required h = elim (Bool-cases (lt (of_ℤ (pos 0)) default)) [
    | inl t ↦ (default, rw t refl)
    | inr f ↦ (of_ℤ (pos 0), rw (f, optional f h) refl)
  ]
    where
      optional :
          lt (of_ℤ (pos 0)) default ≡ false
          → ((lt (of_ℤ (pos 0)) default ≡ true) ⊎ (required ≡ false))
          → required ≡ false
      optional f h = ground (arith)

  -- With more fuel than lines, the questions end: a choice always, with its default or a number in
  -- the range; a number, an amount and a text where each has a positive default or one that is not
  -- empty, or where no answer is required, with an answer as `promptInt`, `promptFloat` and
  -- `promptString` take them. Only where no answer is required can the number or the amount be 0 or
  -- the text empty.
  pub questions_end :
      (min' max' choice number : ℤ) (amount : F) (text : String) (required : Bool)
      (lines : List String) (fuel : ℕ)
      → length lines < fuel
      → ((pos 1 ≤ℤ number) ⊎ (required ≡ false))
      → ((lt (of_ℤ (pos 0)) amount ≡ true) ⊎ (required ≡ false))
      → ((str_eq text "" ≡ false) ⊎ (required ≡ false))
      → Ends (InRange min' max' choice) (prompt_choice min' max' choice fuel lines)
        × Ends (IsNumber required) (prompt_int number required fuel lines)
        × Ends (IsAmount amount required) (prompt_float fl amount required fuel lines)
        × Ends (IsText required) (prompt_string text required fuel lines)
  unfolding prompt_choice prompt_int prompt_float prompt_string choice_answer
  questions_end min' max' choice number amount text required lines fuel h n a t = (
    ask-Ends (choice_answer min' max' choice) (InRange min' max' choice)
        (choice_answer-InRange min' max' choice) refl lines fuel h,
    ask-Ends (int_answer number required) (IsNumber required) (int_answer-IsNumber number required)
        (int_answer-empty number required n).1 lines fuel h,
    ask-Ends (float_answer fl amount required) (IsAmount amount required)
        (float_answer-IsAmount amount required) (float_answer-empty amount required a).1 lines fuel
        h,
    ask-Ends (string_answer text required) (IsText required) (string_answer-IsText text required)
        (string_answer-empty text required t).1 lines fuel h,
  )

string_answer-required :
    (line : String) (text : String)
    → string_answer "" true line ≡ some text
    → str_eq text "" ≡ false
unfolding string_answer
string_answer-required line text e = elim (Bool-cases (str_eq line "")) [
  | inl t ↦ ground (arith)
  | inr f ↦ ground (arith)
]

-- A required text without a default, and a required number: with one more fuel than lines the
-- question ends, with a text that is not empty and with a positive number; or none of the lines is
-- taken and there is no fuel with which it ends on them, for a number only where the default is not
-- positive.
pub required_questions :
    (default : ℤ) (lines : List String)
    → (Ends (λ text. str_eq text "" ≡ false) (prompt_string "" true (suc (length lines)) lines)
        ⊎ (All (λ line. string_answer "" true (trim_space line) ≡ none) lines
            × ((fuel : ℕ) → prompt_string "" true fuel lines ≡ none)))
      × (Ends (λ val. pos 1 ≤ℤ val) (prompt_int default true (suc (length lines)) lines)
          ⊎ ((default ≤ℤ pos 0)
              × All (λ line. int_answer default true (trim_space line) ≡ none) lines
              × ((fuel : ℕ) → prompt_int default true fuel lines ≡ none)))
unfolding prompt_int prompt_string
required_questions default lines = (
  elim (ask_lem (string_answer "" true) (λ text. str_eq text "" ≡ false) string_answer-required
      lines) [
        | inl (ends, _) ↦ inl (ends (suc (length lines)) (omega arith))
        | inr (spins, none') ↦ inr (first-refuses (string_answer "" true) lines none', spins)
      ],
  elim (ask_lem (int_answer default true) (λ val. pos 1 ≤ℤ val) (int_answer-pos default) lines) [
    | inl (ends, _) ↦ inl (ends (suc (length lines)) (omega arith))
    | inr (spins, none') ↦ inr (
      int_answer-required default (λ e. first-default (int_answer default true) lines e none'),
      first-refuses (int_answer default true) lines none',
      spins,
    )
  ],
)
