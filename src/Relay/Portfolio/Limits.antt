-- ===== src/Relay/Portfolio/Limits.antt =====
-- When the portfolio checks of internal/relay let an instruction through.
use degenbox_hyperliquid_cli.Relay.Portfolio.{
  total_notional, count_positions, validate_portfolio, estimate_order, estimate_orders,
  estimate_steps, estimate_instruction_notional,
}
use degenbox_hyperliquid_cli.Float.{Float64, IsNan, NanPropagates}
use degenbox_hyperliquid_cli.Hyperliquid.Types.{OrderWire, ClearinghouseState}
use degenbox_hyperliquid_cli.Relay.Types.{ExecutionStep, ExecutionInstruction}
use degenbox_hyperliquid_cli.Relay.Validator.{RiskLimits, AssetResolver}
use degenbox_hyperliquid_cli.Base.{
  ◌+◌, ◌≡◌, ◌↔◌, inl, inr, true, false, ◌&&◌, none, some, List, [], ◌∷◌, ◌++◌, arith, if◌then◌else◌,
  Bool-cases, Option-cases, String, str_eq,
}
use degenbox_hyperliquid_cli.Base.Int.{pos, eqb_ℤ, ◌≤ℤ◌}

module _ (fl : Float64) where
  open fl use {F, of_ℤ, add, mul, lt, eq, parse}

  -- A limit is set.
  abbrev pub IsConfigured : RiskLimits F → Type 0
  IsConfigured limits =
      (eq limits.max_total_exposure_usd (of_ℤ (pos 0))
        && eqb_ℤ limits.max_positions_per_market (pos 0))
      ≡ false

  -- What the limits ask of the account, with the new notional value on top.
  abbrev pub PortfolioWithin : RiskLimits F → String → F → ClearinghouseState → Type 0
  PortfolioWithin limits market new_notional state =
      (lt (of_ℤ (pos 0)) limits.max_total_exposure_usd ≡ true
        → lt limits.max_total_exposure_usd (add (total_notional fl state) new_notional) ≡ false)
      × (pos 1 ≤ℤ limits.max_positions_per_market
          → pos (count_positions fl market state.asset_positions + 1)
            ≤ℤ limits.max_positions_per_market)

  -- The portfolio check refuses nothing exactly when, if a limit is set and the account state can be
  -- fetched, the account with the new notional value is within each limit that is set.
  pub validate_portfolio_lem :
      (limits : RiskLimits F) (resolver : AssetResolver) (market : String) (new_notional : F)
      → (validate_portfolio fl limits resolver market new_notional ≡ none) ↔ (
          (state : ClearinghouseState)
          → IsConfigured limits
          → resolver.get_clearinghouse_state ≡ some state
          → PortfolioWithin limits market new_notional state)
  unfolding validate_portfolio
  validate_portfolio_lem limits resolver market new_notional = (
    λ h state set' fetched. (λ on. ground arith, λ on. ground arith),
    λ w. elim (Option-cases resolver.get_clearinghouse_state) [
      | inl unknown ↦ ground arith
      | inr (state, fetched) ↦
          elim (Bool-cases (
            eq limits.max_total_exposure_usd (of_ℤ (pos 0))
            && eqb_ℤ limits.max_positions_per_market (pos 0))) [
              | inl unset ↦ ground arith
              | inr set' ↦ let within = w state set' fetched in ground arith
            ]
    ],
  )

  estimate_order_plain :
      (order : OrderWire)
      → order.t.trigger ≡ none
      → estimate_order fl order ≡ mul (parse order.s).0 (parse order.p).0
  unfolding estimate_order
  estimate_order_plain order plain = ground arith

  estimate_orders-IsNan :
      (propagates : NanPropagates fl) (total : F) (orders : List OrderWire)
      → IsNan fl total
      → IsNan fl (estimate_orders fl total orders)
  unfolding estimate_orders
  estimate_orders-IsNan propagates total [] nan = nan
  estimate_orders-IsNan propagates total (order ∷ orders) nan =
      estimate_orders-IsNan propagates (add total (estimate_order fl order)) orders
        (propagates.add_left total (estimate_order fl order) nan)

  estimate_steps-IsNan :
      (propagates : NanPropagates fl) (total : F) (steps : List ExecutionStep)
      → IsNan fl total
      → IsNan fl (estimate_steps fl total steps)
  unfolding estimate_steps
  estimate_steps-IsNan propagates total [] nan = nan
  estimate_steps-IsNan propagates total (step ∷ steps) nan =
      elim (Bool-cases (str_eq step.action "place_order")) [
        | inl counted ↦ rw counted (
            estimate_steps-IsNan propagates (estimate_orders fl total step.orders) steps
              (estimate_orders-IsNan propagates total step.orders nan))
        | inr skipped ↦ rw skipped (estimate_steps-IsNan propagates total steps nan)
      ]

  estimate_orders_poisoned :
      (propagates : NanPropagates fl) (total : F) (before' : List OrderWire) (order : OrderWire)
      (after : List OrderWire)
      → IsNan fl (estimate_order fl order)
      → IsNan fl (estimate_orders fl total (before' ++ order ∷ after))
  unfolding estimate_orders
  estimate_orders_poisoned propagates total [] order after nan =
      estimate_orders-IsNan propagates (add total (estimate_order fl order)) after
        (propagates.add_right total (estimate_order fl order) nan)
  estimate_orders_poisoned propagates total (o ∷ before') order after nan =
      estimate_orders_poisoned propagates (add total (estimate_order fl o)) before' order after nan

  estimate_steps_poisoned :
      (propagates : NanPropagates fl) (total : F) (before' : List ExecutionStep)
      (step : ExecutionStep) (after : List ExecutionStep) (first : List OrderWire)
      (order : OrderWire) (rest : List OrderWire)
      → step.action ≡ "place_order"
      → step.orders ≡ first ++ order ∷ rest
      → IsNan fl (estimate_order fl order)
      → IsNan fl (estimate_steps fl total (before' ++ step ∷ after))
  unfolding estimate_steps
  estimate_steps_poisoned propagates total [] step after first order rest place has nan =
      rw (place, has)
        (estimate_steps-IsNan propagates (estimate_orders fl total (first ++ order ∷ rest)) after
          (estimate_orders_poisoned propagates total first order rest nan))
  estimate_steps_poisoned propagates total (s ∷ before') step after first order rest place has nan =
      estimate_steps_poisoned propagates
        (if str_eq s.action "place_order" then estimate_orders fl total s.orders else total) before'
        step after first order rest place has nan

  -- One limit order whose price reads as NaN, in any place of any `place_order` step, makes the
  -- estimate of the whole instruction a NaN. The test for a positive estimate then fails, so that the
  -- portfolio check is passed over for all its orders.
  pub nan_skips_portfolio :
      (propagates : NanPropagates fl) (instr : ExecutionInstruction) (before' : List ExecutionStep)
      (step : ExecutionStep) (after : List ExecutionStep) (first : List OrderWire)
      (order : OrderWire) (rest : List OrderWire)
      → instr.steps ≡ before' ++ step ∷ after
      → step.action ≡ "place_order"
      → step.orders ≡ first ++ order ∷ rest
      → order.t.trigger ≡ none
      → IsNan fl (parse order.p).0
      → lt (of_ℤ (pos 0)) (estimate_instruction_notional fl instr) ≡ false
  unfolding estimate_instruction_notional
  nan_skips_portfolio propagates instr before' step after first order rest has place orders plain
        nan =
      let poisoned : IsNan fl (estimate_order fl order) =
        rw (estimate_order_plain order plain)
          (propagates.mul_right (parse order.s).0 (parse order.p).0 nan) in
      rw has (
        (estimate_steps_poisoned propagates (of_ℤ (pos 0)) before' step after first order rest place
            orders poisoned).not_gt
          (of_ℤ (pos 0)))
