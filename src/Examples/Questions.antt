-- ===== src/Examples/Questions.antt =====
-- The questions of the setup at concrete input.
use degenbox_hyperliquid_cli.Bot.Setup.Answers.{
  IsNumber, IsAmount, IsText, required_questions, InRange, questions_end,
}
use degenbox_hyperliquid_cli.Bot.Setup.{
  prompt_float, prompt_choice, prompt_int, prompt_string, ask, read_line, choice_answer, int_answer,
  string_answer,
}
use degenbox_hyperliquid_cli.Bot.Setup.Loops.{Ends}
use degenbox_hyperliquid_cli.Examples.FixedPoint.{fixed}
use degenbox_hyperliquid_cli.Text.Space.{trim_space}
use degenbox_hyperliquid_cli.Config.Text.{atoi}
use degenbox_hyperliquid_cli.Base.{
  inl, ◌≡◌, refl, true, false, ℕ, ◌⊎◌, none, some, List, [], ◌∷◌, All, String, str_eq, arith,
}
use degenbox_hyperliquid_cli.Base.Int.{pos, ◌≤ℤ◌}

abbrev typed : List String
typed = "abc" ∷ " 7 " ∷ "rest" ∷ []

-- A line that is no number is passed over.
number_typed : prompt_int (pos 0) true 4 typed ≡ some (pos 7, "rest" ∷ [])
unfolding prompt_int ask read_line int_answer trim_space atoi
number_typed = refl

choice_typed : prompt_choice (pos 1) (pos 5) (pos 2) 4 typed ≡ some (pos 2, [])
unfolding prompt_choice ask read_line choice_answer trim_space atoi
choice_typed = refl

questions_end_example :
    Ends (InRange (pos 1) (pos 5) (pos 2)) (prompt_choice (pos 1) (pos 5) (pos 2) 4 typed)
    × Ends (IsNumber true) (prompt_int (pos 3) true 4 typed)
    × Ends
        (IsAmount fixed (fixed.of_ℤ (pos 500)) true)
        (prompt_float fixed (fixed.of_ℤ (pos 500)) true 4 typed)
    × Ends (IsText true) (prompt_string "name" true 4 typed)
questions_end_example =
    questions_end fixed (pos 1) (pos 5) (pos 2) (pos 3) (fixed.of_ℤ (pos 500)) "name" true typed 4
      (omega arith) (inl (omega arith)) (inl refl) (inl refl)

required_questions_example :
    (Ends (λ text. str_eq text "" ≡ false) (prompt_string "" true 4 typed)
      ⊎ (All (λ line. string_answer "" true (trim_space line) ≡ none) typed
          × ((fuel : ℕ) → prompt_string "" true fuel typed ≡ none)))
    × (Ends (λ val. pos 1 ≤ℤ val) (prompt_int (pos 0) true 4 typed)
        ⊎ ((pos 0 ≤ℤ pos 0)
            × All (λ line. int_answer (pos 0) true (trim_space line) ≡ none) typed
            × ((fuel : ℕ) → prompt_int (pos 0) true fuel typed ≡ none)))
required_questions_example = required_questions (pos 0) typed

-- At the end of the input a required text is asked for again and again.
text_spins : prompt_string "" true 5 ("  " ∷ []) ≡ none
unfolding prompt_string ask read_line string_answer trim_space
text_spins = refl
