-- ===== src/Base/Decimal.antt =====
-- The verb `%d` of `fmt`, on a number that is not negative.
use Prim.Native.Nat.{ℕ, zero, suc, ◌+◌, ◌/◌, ◌%◌, ◌<◌}
use Prim.Native.String.{String, ◌++◌}
use mathlib.Core.List.{[], ◌∷◌}
use mathlib.Core.Path.{◌≡◌, refl}
use mathlib.Core.Logic.{inl, inr}
use native.Mathlib.Omega.{arith}
use degenbox_hyperliquid_cli.Base.Tests.{ltb, if◌then◌else◌, Bool-cases}
use degenbox_hyperliquid_cli.Base.Lists.{get_or}

abbrev pub digit : ℕ → String
digit d = get_or ("0" ∷ "1" ∷ "2" ∷ "3" ∷ "4" ∷ "5" ∷ "6" ∷ "7" ∷ "8" ∷ "9" ∷ []) d ""

-- A number has no more digits than its value and one.
unfoldable pub decimal_from : ℕ → ℕ → String
decimal_from zero n = ""
decimal_from (suc fuel) n =
    let front = decimal_from fuel (n / 10) in if ltb n 10 then digit n else front ++ digit (n % 10)

unfoldable pub decimal : ℕ → String
unfolding decimal_from
decimal n = decimal_from (n + 1) n

pub decimal_from_enough : (f g n : ℕ) → n < f → n < g → decimal_from f n ≡ decimal_from g n
unfolding decimal_from
decimal_from_enough zero g n hf hg = absurd (omega arith)
decimal_from_enough (suc f) zero n hf hg = absurd (omega arith)
decimal_from_enough (suc f) (suc g) n hf hg = elim (Bool-cases (ltb n 10)) [
  | inl one ↦ rw one refl
  | inr more ↦ rw (more, decimal_from_enough f g (n / 10) (ground arith) (ground arith)) refl
]
