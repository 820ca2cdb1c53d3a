-- ===== src/Relay/Validator.antt =====
-- internal/relay/validator.go: the risk checks on an instruction, before it is queued.
-- An error is a value with what its message prints; `Validate` clamps leverage in place, so the checks
-- return the steps as they leave them.
pub mod Orders
pub mod Steps
pub mod Nan
use degenbox_hyperliquid_cli.Float.{Float64}
use degenbox_hyperliquid_cli.Hyperliquid.Types.{
  OrderWire, ModifySpec, TriggerWire, ClearinghouseState,
}
use degenbox_hyperliquid_cli.Relay.Types.{
  ExecutionStep, ExecutionInstruction, Action, update_leverage, place_order, cancel_by_cloid,
  cancel_by_oid, modify_order, unknown_action, action_of,
}
use degenbox_hyperliquid_cli.Base.{
  ℕ, zero, suc, ◌+◌, ◌-◌, ◌*◌, ◌/◌, ◌%◌, ◌^◌, ◌≤◌, ◌<◌, min, ◌≡◌, refl, sym, ap, ◌∙◌, subst, ◌≢◌,
  ◌↔◌, ◌⊎◌, inl, inr, Bool, true, false, not, ◌&&◌, ◌||◌, Option, none, some, List, [], ◌∷◌, ◌++◌,
  map, append_assoc, append-nil, arith, ltb, leb, ◌==◌, if◌then◌else◌, Bool-cases, Option-cases,
  length, get_elem?, set, get_or, replicate, drop, length-append, length-set, length-replicate,
  length-drop, get_or-set_self, get_or-set_ne, All, All-append, All-mono, All-get_elem?, String,
  str_eq, eq_iff,
}
use degenbox_hyperliquid_cli.Base.Int.{ℤ, pos, negsuc, pos_part, neg_part, sub_ℕ, ltb_ℤ, ◌≤ℤ◌}
use degenbox_hyperliquid_cli.Clock.{second, minute, max_duration, sub, before, add_neg, unix_milli}

-- config.RiskLimits.
pub record RiskLimits (F : Type 0) : Type 0 where
  pub max_leverage : ℤ
  pub max_order_size_usd : F
  pub max_price_dev_pct : F
  pub max_orders_per_step : ℤ
  pub max_steps_per_instr : ℤ
  pub max_per_minute : ℤ
  pub max_total_exposure_usd : F
  pub max_positions_per_market : ℤ

-- The interface `AssetResolver`; `none` is an error.
pub record AssetResolver : Type 0 where
  pub get_asset_name : ℤ → Option String
  pub get_oracle_price : String → Option String
  pub get_max_leverage : String → Option ℤ
  pub get_clearinghouse_state : Option ClearinghouseState
  pub is_testnet : Bool

pub data OrderError (F : Type 0) : Type 0 where
  unknown_asset : ℤ → OrderError F
  invalid_price invalid_size invalid_trigger_price : String → OrderError F
  notional_exceeds : F → F → OrderError F
  price_deviates : String → F → String → F → Bool → OrderError F
  trigger_deviates : String → F → String → F → OrderError F

pub data StepError (F : Type 0) : Type 0 where
  empty_cancels empty_oid_cancels empty_orders : StepError F
  bad_action : String → StepError F
  invalid_leverage : ℤ → StepError F
  leverage_exceeds : ℤ → ℤ → StepError F
  too_many_orders : ℕ → ℤ → StepError F
  bad_order bad_modification : ℕ → OrderError F → StepError F

pub data InstructionError (F : Type 0) : Type 0 where
  empty_instruction : InstructionError F
  too_many_steps : ℕ → ℤ → InstructionError F
  bad_step : ℕ → String → StepError F → InstructionError F

module _ (fl : Float64) (limits : RiskLimits fl.F) (resolver : AssetResolver) where
  open fl use {F, of_ℤ, sub as fsub, mul, div, abs, lt, le, parse}

  -- `strconv.ParseFloat` with the guard `err != nil || x <= 0`.
  unfoldable pub parse_positive : String → Option F
  parse_positive text =
      if (parse text).1 && not (le (parse text).0 (of_ℤ (pos 0))) then some (parse text).0 else none

  -- The price that the notional value is taken at.
  unfoldable pub notional_price : OrderWire → F → F
  notional_price order price = elim order.t.trigger [
    | none ↦ price
    | some trigger ↦
        if (parse trigger.trigger_px).1 && lt (of_ℤ (pos 0)) (parse trigger.trigger_px).0
        then (parse trigger.trigger_px).0
        else price
  ]

  -- `math.Abs(px-oraclePx) / oraclePx * 100`.
  unfoldable pub deviation : F → F → F
  deviation px oracle = mul (div (abs (fsub px oracle)) oracle) (of_ℤ (pos 100))

  -- The comparison with a positive oracle price, for an order with this trigger or none.
  unfoldable pub check_deviation :
      Option TriggerWire → OrderWire → F → String → F → Option (OrderError F)
  unfolding deviation parse_positive
  check_deviation none order price oracle_str oracle =
      if lt limits.max_price_dev_pct (deviation price oracle)
      then some (
          price_deviates order.p (deviation price oracle) oracle_str limits.max_price_dev_pct
            resolver.is_testnet)
      else none
  check_deviation (some trigger) order price oracle_str oracle =
      elim (parse_positive trigger.trigger_px) [
        | none ↦ some (invalid_trigger_price trigger.trigger_px)
        | some px ↦
            if lt (mul limits.max_price_dev_pct (of_ℤ (pos 2))) (deviation px oracle)
            then some (
                trigger_deviates trigger.trigger_px (deviation px oracle) oracle_str
                  (mul limits.max_price_dev_pct (of_ℤ (pos 2))))
            else none
      ]

  -- The oracle is passed over where there is none, or none that is positive.
  unfoldable pub check_oracle : String → OrderWire → F → Option (OrderError F)
  unfolding check_deviation
  check_oracle market order price = elim (resolver.get_oracle_price market) [
    | none ↦ none
    | some oracle_str ↦
        if (parse oracle_str).1 && lt (of_ℤ (pos 0)) (parse oracle_str).0
        then check_deviation order.t.trigger order price oracle_str (parse oracle_str).0
        else none
  ]

  -- `validateOrder`; `none` is no error.
  unfoldable pub validate_order : OrderWire → Option (OrderError F)
  unfolding parse_positive notional_price check_oracle
  validate_order order = elim (resolver.get_asset_name order.a) [
    | none ↦ some (unknown_asset order.a)
    | some market ↦ elim (parse_positive order.p) [
      | none ↦ some (invalid_price order.p)
      | some price ↦ elim (parse_positive order.s) [
        | none ↦ some (invalid_size order.s)
        | some size ↦
            if lt limits.max_order_size_usd (mul size (notional_price order price))
            then some
                (notional_exceeds (mul size (notional_price order price)) limits.max_order_size_usd)
            else check_oracle market order price
      ]
    ]
  ]

  -- The loops over orders: the first error, with its index.
  unfoldable pub validate_orders : ℕ → List OrderWire → Option (ℕ × OrderError F)
  validate_orders j [] = none
  validate_orders j (order ∷ orders) =
      let rest = validate_orders (j + 1) orders in
      elim (validate_order order) [ some e ↦ some (j, e) | none ↦ rest ]

  -- `validatePlaceOrder`.
  unfoldable pub validate_place_order : ExecutionStep → Option (StepError F)
  unfolding validate_orders
  validate_place_order step =
      if length step.orders == 0
      then some empty_orders
      else if ltb_ℤ limits.max_orders_per_step (pos (length step.orders))
      then some (too_many_orders (length step.orders) limits.max_orders_per_step)
      else elim (validate_orders 0 step.orders) [ none ↦ none | some (j, e) ↦ some (bad_order j e) ]

  -- `validateLeverage`: the step as it leaves it, and the error.
  unfoldable pub validate_leverage : String → ExecutionStep → ExecutionStep × Option (StepError F)
  validate_leverage market step =
      if not (ltb_ℤ (pos 0) step.leverage)
      then (step, some (invalid_leverage step.leverage))
      else if ltb_ℤ limits.max_leverage step.leverage
      then (step, some (leverage_exceeds step.leverage limits.max_leverage))
      else if str_eq market ""
      then (step, none)
      else elim (resolver.get_max_leverage market) [
        | none ↦ (step, none)
        | some max_lev ↦
            if ltb_ℤ max_lev step.leverage
            then (record step { leverage = max_lev }, none)
            else (step, none)
      ]

  -- The switch of `validateStep`.
  unfoldable pub validate_action :
      Action → String → ExecutionStep → ExecutionStep × Option (StepError F)
  unfolding validate_leverage validate_place_order validate_orders
  validate_action update_leverage market step = validate_leverage market step
  validate_action place_order market step = (step, validate_place_order step)
  validate_action cancel_by_cloid market step =
      (step, if length step.cancels == 0 then some empty_cancels else none)
  validate_action cancel_by_oid market step =
      (step, if length step.oid_cancels == 0 then some empty_oid_cancels else none)
  validate_action modify_order market step = (
    step,
    elim (validate_orders 0 (map (λ m. m.order) step.modifications)) [
      | none ↦ none
      | some (j, e) ↦ some (bad_modification j e)
    ],
  )
  validate_action unknown_action market step = (step, some (bad_action step.action))

  -- `validateStep`.
  unfoldable pub validate_step : String → ExecutionStep → ExecutionStep × Option (StepError F)
  unfolding validate_action
  validate_step market step = validate_action (action_of step.action) market step

  -- The loop of `Validate`, from step `i`: it stops at the first error.
  unfoldable pub validate_steps :
      String → ℕ → List ExecutionStep → List ExecutionStep × Option (InstructionError F)
  validate_steps market i [] = ([], none)
  validate_steps market i (step ∷ steps) =
      let (steps', error) = validate_steps market (i + 1) steps in
      elim (validate_step market step).1 [
        | some e ↦ ((validate_step market step).0 ∷ steps, some (bad_step i step.action e))
        | none ↦ ((validate_step market step).0 ∷ steps', error)
      ]

  -- `Validate`.
  unfoldable pub validate :
      ExecutionInstruction → ExecutionInstruction × Option (InstructionError F)
  unfolding validate_steps
  validate instr =
      if length instr.steps == 0
      then (instr, some empty_instruction)
      else if ltb_ℤ limits.max_steps_per_instr (pos (length instr.steps))
      then (instr, some (too_many_steps (length instr.steps) limits.max_steps_per_instr))
      else (
        record instr { steps = (validate_steps instr.market 0 instr.steps).0 },
        (validate_steps instr.market 0 instr.steps).1,
      )
