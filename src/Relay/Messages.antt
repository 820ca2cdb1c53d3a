-- ===== src/Relay/Messages.antt =====
-- The texts of the errors of internal/relay/validator.go.
use Prim.Native.String.{◌++◌ as str_append}
use degenbox_hyperliquid_cli.Relay.Portfolio.{PortfolioError, exposure_exceeds, positions_exceed}
use degenbox_hyperliquid_cli.Relay.Validator.{
  StepError, InstructionError, empty_cancels, empty_oid_cancels, empty_orders, bad_action,
  invalid_leverage, leverage_exceeds, too_many_orders, bad_order, bad_modification,
  empty_instruction, too_many_steps, bad_step, OrderError, unknown_asset, invalid_price,
  invalid_size, invalid_trigger_price, notional_exceeds, price_deviates, trigger_deviates,
}
use degenbox_hyperliquid_cli.Float.{Float64}
use degenbox_hyperliquid_cli.Base.{suc, List, [], ◌∷◌, if◌then◌else◌, decimal, String}
use degenbox_hyperliquid_cli.Base.Int.{ℤ, pos, negsuc}

-- The verb `%d` on an int.
unfoldable pub format_int : ℤ → String
format_int (pos n) = decimal n
format_int (negsuc n) = str_append "-" (decimal (suc n))

abbrev concat : List String → String
concat [] = ""
concat (s ∷ ss) = str_append s (concat ss)

module _ (fl : Float64) where
  open fl use {F, format_f}

  abbrev dollars : F → String
  dollars x = str_append "$" (format_f x (pos 0))

  abbrev percent : F → String
  percent x = str_append (format_f x (pos 1)) "%"

  unfoldable pub order_error_text : OrderError F → String
  unfolding format_int
  order_error_text (unknown_asset id) = concat ("unknown asset ID " ∷ format_int id ∷ [])
  order_error_text (invalid_price p) = concat ("invalid price: " ∷ p ∷ [])
  order_error_text (invalid_size s) = concat ("invalid size: " ∷ s ∷ [])
  order_error_text (invalid_trigger_price p) = concat ("invalid trigger price: " ∷ p ∷ [])
  order_error_text (notional_exceeds notional limit) =
      concat ("order notional " ∷ dollars notional ∷ " exceeds limit " ∷ dollars limit ∷ [])
  order_error_text (price_deviates p dev oracle max testnet) = concat (
      "price "
      ∷ p
      ∷ " deviates "
      ∷ percent dev
      ∷ " from oracle "
      ∷ oracle
      ∷ " (max "
      ∷ percent max
      ∷ ")"
      ∷ (if testnet
          then " — TESTNET SLIPPAGE: mid price diverges from oracle due to thin liquidity"
          else "")
      ∷ [])
  order_error_text (trigger_deviates p dev oracle max) = concat (
      "trigger price "
      ∷ p
      ∷ " deviates "
      ∷ percent dev
      ∷ " from oracle "
      ∷ oracle
      ∷ " (max "
      ∷ percent max
      ∷ ")"
      ∷ [])

  unfoldable pub step_error_text : StepError F → String
  unfolding format_int order_error_text
  step_error_text empty_cancels = "empty cancels list"
  step_error_text empty_oid_cancels = "empty oid cancels list"
  step_error_text empty_orders = "empty orders list"
  step_error_text (bad_action action) = concat ("unknown action: " ∷ action ∷ [])
  step_error_text (invalid_leverage l) = concat ("invalid leverage: " ∷ format_int l ∷ [])
  step_error_text (leverage_exceeds l limit) =
      concat ("leverage " ∷ format_int l ∷ " exceeds limit " ∷ format_int limit ∷ [])
  step_error_text (too_many_orders n max) =
      concat ("too many orders: " ∷ decimal n ∷ " (max " ∷ format_int max ∷ ")" ∷ [])
  step_error_text (bad_order j e) = concat ("order " ∷ decimal j ∷ ": " ∷ order_error_text e ∷ [])
  step_error_text (bad_modification j e) =
      concat ("modification " ∷ decimal j ∷ ": " ∷ order_error_text e ∷ [])

  unfoldable pub instruction_error_text : InstructionError F → String
  unfolding format_int step_error_text
  instruction_error_text empty_instruction = "empty instruction (no steps)"
  instruction_error_text (too_many_steps n max) =
      concat ("too many steps: " ∷ decimal n ∷ " (max " ∷ format_int max ∷ ")" ∷ [])
  instruction_error_text (bad_step i action e) =
      concat ("step " ∷ decimal i ∷ " (" ∷ action ∷ "): " ∷ step_error_text e ∷ [])

  unfoldable pub portfolio_error_text : PortfolioError F → String
  unfolding format_int
  portfolio_error_text (exposure_exceeds total new projected limit) = concat (
      "total exposure "
      ∷ dollars total
      ∷ " + "
      ∷ dollars new
      ∷ " new = "
      ∷ dollars projected
      ∷ " exceeds limit "
      ∷ dollars limit
      ∷ [])
  portfolio_error_text (positions_exceed count market max) = concat (
      "already have "
      ∷ decimal count
      ∷ " position(s) in "
      ∷ market
      ∷ " (max "
      ∷ format_int max
      ∷ ")"
      ∷ [])
