-- ===== src/Float.antt =====
-- float64 and `strconv.ParseFloat`. There are no floats in the logic, so they are a parameter: a type
-- with the operations of the language that the program uses, and no law but what a theorem names.
pub mod Integers
use degenbox_hyperliquid_cli.Base.{◌≡◌, Bool, false, String}
use degenbox_hyperliquid_cli.Base.Int.{ℤ}

pub record Float64 : Type 1 where
  pub F : Type 0
  pub of_ℤ : ℤ → F
  pub add : F → F → F
  pub sub : F → F → F
  pub mul : F → F → F
  pub div : F → F → F
  pub neg : F → F
  pub abs : F → F
  pub lt : F → F → Bool
  pub le : F → F → Bool
  pub eq : F → F → Bool
  -- `strconv.ParseFloat(s, 64)`: the value, and whether the error is nil.
  pub parse : String → F × Bool
  -- `strconv.FormatFloat(x, 'f', prec, 64)` and the verb `%g`.
  pub format_f : F → ℤ → String
  pub format_g : F → String
  -- The constants 1.05 and 0.95.
  pub c105 : F
  pub c095 : F

-- A NaN compares with nothing.
pub record IsNan (fl : Float64) (x : fl.F) : Type 0 where
  pub not_lt : (y : fl.F) → fl.lt x y ≡ false
  pub not_gt : (y : fl.F) → fl.lt y x ≡ false
  pub not_le : (y : fl.F) → fl.le x y ≡ false

-- IEEE 754: arithmetic with a NaN operand gives a NaN.
pub record NanPropagates (fl : Float64) : Type 0 where
  pub add_left : (x y : fl.F) → IsNan fl x → IsNan fl (fl.add x y)
  pub add_right : (x y : fl.F) → IsNan fl y → IsNan fl (fl.add x y)
  pub sub_left : (x y : fl.F) → IsNan fl x → IsNan fl (fl.sub x y)
  pub mul_left : (x y : fl.F) → IsNan fl x → IsNan fl (fl.mul x y)
  pub mul_right : (x y : fl.F) → IsNan fl y → IsNan fl (fl.mul x y)
  pub div_left : (x y : fl.F) → IsNan fl x → IsNan fl (fl.div x y)
  pub abs : (x : fl.F) → IsNan fl x → IsNan fl (fl.abs x)
