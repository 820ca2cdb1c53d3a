-- ===== src/Bot/Setup.antt =====
-- cmd/bot/cmd_setup.go: the questions of the setup. The input is the list of the lines that are left;
-- after the last one every read gives the empty text, since the error of `ReadString` is passed
-- over. The loops run on fuel, one for each line that they read.
pub mod Loops
pub mod Answers
use degenbox_hyperliquid_cli.Text.Space.{trim_space, same_codes}
use degenbox_hyperliquid_cli.Text.Hex.{lower}
use degenbox_hyperliquid_cli.Config.Text.{atoi}
use degenbox_hyperliquid_cli.Float.{Float64}
use degenbox_hyperliquid_cli.Base.{
  ℕ, zero, suc, ◌+◌, ◌-◌, ◌*◌, ◌/◌, ◌%◌, ◌^◌, ◌≤◌, ◌<◌, min, ◌≡◌, refl, sym, ap, ◌∙◌, subst, ◌≢◌,
  ◌↔◌, ◌⊎◌, inl, inr, Bool, true, false, not, ◌&&◌, ◌||◌, Option, none, some, List, [], ◌∷◌, ◌++◌,
  map, append_assoc, append-nil, arith, ltb, leb, ◌==◌, if◌then◌else◌, Bool-cases, Option-cases,
  length, get_elem?, set, get_or, replicate, drop, length-append, length-set, length-replicate,
  length-drop, get_or-set_self, get_or-set_ne, All, All-append, All-mono, All-get_elem?, decimal,
  last, take, append_inj, String, str_eq, eq_iff,
}
use degenbox_hyperliquid_cli.Text.{codes}
use degenbox_hyperliquid_cli.Base.Int.{
  ℤ, pos, negsuc, pos_part, neg_part, sub_ℕ, ltb_ℤ, eqb_ℤ, ◌≤ℤ◌, ◌+ℤ◌, ◌-ℤ◌,
}
use degenbox_hyperliquid_cli.Clock.{second, minute, max_duration, sub, before, add_neg, unix_milli}

-- `ReadString('\n')`: the line, and the lines left.
unfoldable pub read_line : List String → String × List String
read_line [] = ("", [])
read_line (line ∷ lines) = (line, lines)

-- The loop that asks until an answer is taken; `none` means that the fuel ran out.
unfoldable pub ask {ℓ} :
    {A : Type ℓ} → (String → Option A) → ℕ → List String → Option (A × List String)
unfolding read_line
ask answer zero lines = none
ask answer (suc fuel) lines = elim (answer (trim_space (read_line lines).0)) [
  | some a ↦ some (a, (read_line lines).1)
  | none ↦ ask answer fuel (read_line lines).1
]

-- One round of `promptChoice`.
unfoldable pub choice_answer : ℤ → ℤ → ℤ → String → Option ℤ
choice_answer min' max' default line = if str_eq line "" then some default else elim (atoi line) [
  | none ↦ none
  | some val ↦ if ltb_ℤ val min' || ltb_ℤ max' val then none else some val
]

-- One round of `promptInt`.
unfoldable pub int_answer : ℤ → Bool → String → Option ℤ
int_answer default required line =
    if str_eq line ""
    then (if ltb_ℤ (pos 0) default then some default else if required then none else some (pos 0))
    else elim (atoi line) [
      | none ↦ none
      | some val ↦ if not (ltb_ℤ (pos 0) val) then none else some val
    ]

-- One round of `promptString`.
unfoldable pub string_answer : String → Bool → String → Option String
string_answer default required line =
    if str_eq line ""
    then (if not (str_eq default "") then some default else if required then none else some "")
    else some line

-- `strings.ToLower(line) == word`, for a word of the letters of "yes" and "no", which no letter but
-- ASCII ones has in lower case.
abbrev says : String → String → Bool
says word line = same_codes (map lower (codes line)) (codes word)

-- One round of `promptYesNo`.
unfoldable pub yes_no_answer : Bool → String → Option Bool
yes_no_answer default line =
    if str_eq line ""
    then some default
    else if says "y" line || says "yes" line
    then some true
    else if says "n" line || says "no" line
    then some false
    else none

module _ (fl : Float64) where
  open fl use {F, of_ℤ, lt, le, parse}

  -- One round of `promptFloat`.
  unfoldable pub float_answer : F → Bool → String → Option F
  float_answer default required line =
      if str_eq line ""
      then (if lt (of_ℤ (pos 0)) default
          then some default
          else if required
          then none
          else some (of_ℤ (pos 0)))
      else if not (parse line).1 || le (parse line).0 (of_ℤ (pos 0))
      then none
      else some (parse line).0

  -- `promptFloat`.
  unfoldable pub prompt_float : F → Bool → ℕ → List String → Option (F × List String)
  prompt_float default required = ask (float_answer default required)

-- `promptChoice`.
unfoldable pub prompt_choice : ℤ → ℤ → ℤ → ℕ → List String → Option (ℤ × List String)
prompt_choice min' max' default = ask (choice_answer min' max' default)

-- `promptInt`.
unfoldable pub prompt_int : ℤ → Bool → ℕ → List String → Option (ℤ × List String)
prompt_int default required = ask (int_answer default required)

-- `promptString`.
unfoldable pub prompt_string : String → Bool → ℕ → List String → Option (String × List String)
prompt_string default required = ask (string_answer default required)

-- `promptYesNo`.
unfoldable pub prompt_yes_no : Bool → ℕ → List String → Option (Bool × List String)
prompt_yes_no default = ask (yes_no_answer default)
