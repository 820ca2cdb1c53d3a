-- ===== src/Relay/Portfolio.antt =====
-- internal/relay: the checks over the whole account, `ValidatePortfolio` of validator.go, and the
-- notional value that they are given, `estimateInstructionNotional` of client.go.
pub mod Limits
use degenbox_hyperliquid_cli.Hyperliquid.Types.{
  AssetPosition, OrderWire, ModifySpec, TriggerWire, ClearinghouseState,
}
use degenbox_hyperliquid_cli.Float.{Float64, IsNan, NanPropagates}
use degenbox_hyperliquid_cli.Relay.Types.{
  ExecutionStep, ExecutionInstruction, Action, update_leverage, place_order, cancel_by_cloid,
  cancel_by_oid, modify_order, unknown_action, action_of,
}
use degenbox_hyperliquid_cli.Relay.Validator.{
  RiskLimits, AssetResolver, OrderError, StepError, InstructionError, unknown_asset, invalid_price,
  invalid_size, invalid_trigger_price, notional_exceeds, price_deviates, trigger_deviates,
  parse_positive, notional_price, deviation, check_deviation, check_oracle, validate_order,
  validate_orders, validate_place_order, validate_leverage, validate_action, validate_step,
  validate_steps, validate,
}
use degenbox_hyperliquid_cli.Base.{
  ℕ, zero, suc, ◌+◌, ◌-◌, ◌*◌, ◌/◌, ◌%◌, ◌^◌, ◌≤◌, ◌<◌, min, ◌≡◌, refl, sym, ap, ◌∙◌, subst, ◌≢◌,
  ◌↔◌, ◌⊎◌, inl, inr, Bool, true, false, not, ◌&&◌, ◌||◌, Option, none, some, List, [], ◌∷◌, ◌++◌,
  map, append_assoc, append-nil, arith, ltb, leb, ◌==◌, if◌then◌else◌, Bool-cases, Option-cases,
  length, get_elem?, set, get_or, replicate, drop, length-append, length-set, length-replicate,
  length-drop, get_or-set_self, get_or-set_ne, All, All-append, All-mono, All-get_elem?, String,
  str_eq, eq_iff,
}
use degenbox_hyperliquid_cli.Base.Int.{
  ℤ, pos, negsuc, pos_part, neg_part, sub_ℕ, ltb_ℤ, eqb_ℤ, ◌≤ℤ◌, ◌+ℤ◌, ◌-ℤ◌,
}
use degenbox_hyperliquid_cli.Clock.{second, minute, max_duration, sub, before, add_neg, unix_milli}

pub data PortfolioError (F : Type 0) : Type 0 where
  exposure_exceeds : F → F → F → F → PortfolioError F
  positions_exceed : ℕ → String → ℤ → PortfolioError F

module _ (fl : Float64) where
  open fl use {F, of_ℤ, add, mul, neg, lt, eq, parse}

  -- `totalNtl`, made positive.
  unfoldable pub total_notional : ClearinghouseState → F
  total_notional state =
      let total = (parse state.margin_summary.total_ntl_pos).0 in
      if lt total (of_ℤ (pos 0)) then neg total else total

  -- The loop that counts the open positions of a market.
  unfoldable pub count_positions : String → List AssetPosition → ℕ
  count_positions market [] = 0
  count_positions market (ap ∷ aps) =
      (if str_eq ap.position.coin market && not (eq (parse ap.position.szi).0 (of_ℤ (pos 0)))
        then 1
        else 0)
      + count_positions market aps

  -- `ValidatePortfolio`; where the account state cannot be fetched, nothing is refused.
  unfoldable pub validate_portfolio :
      RiskLimits F → AssetResolver → String → F → Option (PortfolioError F)
  unfolding total_notional count_positions
  validate_portfolio limits resolver market new_notional =
      if eq limits.max_total_exposure_usd (of_ℤ (pos 0))
        && eqb_ℤ limits.max_positions_per_market (pos 0)
      then none
      else elim resolver.get_clearinghouse_state [
        | none ↦ none
        | some state ↦
            if lt (of_ℤ (pos 0)) limits.max_total_exposure_usd
              && lt limits.max_total_exposure_usd (add (total_notional state) new_notional)
            then some (
                exposure_exceeds (total_notional state) new_notional
                  (add (total_notional state) new_notional) limits.max_total_exposure_usd)
            else if ltb_ℤ (pos 0) limits.max_positions_per_market
                && not (
                    ltb_ℤ (pos (count_positions market state.asset_positions))
                      limits.max_positions_per_market)
            then some (
                positions_exceed (count_positions market state.asset_positions) market
                  limits.max_positions_per_market)
            else none
      ]

  -- The notional value of one order, in `estimateInstructionNotional`; errors of the parser of the
  -- price and the size are passed over.
  unfoldable pub estimate_order : OrderWire → F
  estimate_order order = mul (parse order.s).0 (elim order.t.trigger [
    | none ↦ (parse order.p).0
    | some trigger ↦
        if (parse trigger.trigger_px).1 && lt (of_ℤ (pos 0)) (parse trigger.trigger_px).0
        then (parse trigger.trigger_px).0
        else (parse order.p).0
  ])

  unfoldable pub estimate_orders : F → List OrderWire → F
  unfolding estimate_order
  estimate_orders total [] = total
  estimate_orders total (order ∷ orders) = estimate_orders (add total (estimate_order order)) orders

  unfoldable pub estimate_steps : F → List ExecutionStep → F
  unfolding estimate_orders
  estimate_steps total [] = total
  estimate_steps total (step ∷ steps) =
      estimate_steps
        (if str_eq step.action "place_order" then estimate_orders total step.orders else total)
        steps

  -- `estimateInstructionNotional`.
  unfoldable pub estimate_instruction_notional : ExecutionInstruction → F
  unfolding estimate_steps
  estimate_instruction_notional instr = estimate_steps (of_ℤ (pos 0)) instr.steps
