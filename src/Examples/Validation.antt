-- ===== src/Examples/Validation.antt =====
-- The checks on instructions at concrete inputs.
use degenbox_hyperliquid_cli.Examples.FixedPoint.{Fixed, fixed, one, fixed-NanPropagates, IsNan-of}
use degenbox_hyperliquid_cli.Hyperliquid.Types.{
  AssetPosition, MarginSummary, OrderWire, ClearinghouseState,
}
use degenbox_hyperliquid_cli.Relay.Portfolio.{count_positions, validate_portfolio}
use degenbox_hyperliquid_cli.Relay.Portfolio.Limits.{validate_portfolio_lem}
use degenbox_hyperliquid_cli.Relay.Validator.Orders.{OrderWithin, validate_order_lem}
use degenbox_hyperliquid_cli.Relay.Validator.Nan.{nan_price_passes}
use degenbox_hyperliquid_cli.Relay.Validator.Steps.{StepsWithin, validate_sound}
use degenbox_hyperliquid_cli.Relay.Types.{ExecutionStep, ExecutionInstruction, action_of}
use degenbox_hyperliquid_cli.Relay.Validator.{
  RiskLimits, AssetResolver, validate_order, validate_step, validate_steps, validate,
}
use degenbox_hyperliquid_cli.Base.{
  ℕ, ◌+◌, ◌*◌, ◌<◌, ◌≡◌, refl, true, false, none, some, List, [], ◌∷◌, arith, if◌then◌else◌, String,
  str_eq,
}
use degenbox_hyperliquid_cli.Base.Int.{pos, eqb_ℤ, ◌≤ℤ◌}

abbrev pub usd : ℕ → Fixed
usd n = some (pos (n * one))

abbrev pub limits : RiskLimits Fixed
limits = record {
  max_leverage = pos 10;
  max_order_size_usd = usd 1000;
  max_price_dev_pct = usd 5;
  max_orders_per_step = pos 2;
  max_steps_per_instr = pos 3;
  max_per_minute = pos 30;
  max_total_exposure_usd = usd 5000;
  max_positions_per_market = pos 2;
}

abbrev margin : MarginSummary
margin = record {
  account_value = "900";
  total_ntl_pos = "4000";
  total_raw_usd = "0";
  total_margin_used = "0";
}

abbrev pub btc_position : AssetPosition
btc_position = record {
  position = record {
    coin = "BTC";
    entry_px = "100";
    leverage = record { kind = "cross"; value = pos 3 };
    liquidation_px = "";
    position_value = "4000";
    return_on_equity = "0";
    szi = "40";
    unrealized_pnl = "0";
    margin_used = "0";
  };
  kind = "oneWay";
}

abbrev pub account : ClearinghouseState
account = record {
  margin_summary = margin;
  cross_margin_summary = margin;
  asset_positions = btc_position ∷ [];
  withdrawable = "0";
}

abbrev pub resolver : AssetResolver
resolver = record {
  get_asset_name = λ id. if eqb_ℤ id (pos 0) then some "BTC" else none;
  get_oracle_price = λ market. if str_eq market "BTC" then some "100" else none;
  get_max_leverage = λ market. if str_eq market "BTC" then some (pos 5) else none;
  get_clearinghouse_state = some account;
  is_testnet = false;
}

abbrev pub limit_order : String → OrderWire
limit_order price = record {
  a = pos 0;
  b = true;
  p = price;
  s = "2";
  r = false;
  t = record { limit = none; trigger = none };
  c = "";
}

abbrev pub blank_step : ExecutionStep
blank_step = record {
  action = "";
  orders = [];
  grouping = "";
  cancels = [];
  oid_cancels = [];
  asset = pos 0;
  leverage = pos 0;
  is_cross = false;
  modifications = [];
}

abbrev pub leverage_step : ExecutionStep
leverage_step = record blank_step { action = "update_leverage"; leverage = pos 8 }

abbrev pub order_step : String → ExecutionStep
order_step price = record blank_step { action = "place_order"; orders = limit_order price ∷ [] }

abbrev pub instruction : List ExecutionStep → ExecutionInstruction
instruction steps = record {
  instruction_id = "i1";
  signal_id = "s1";
  intent_id = "";
  market = "BTC";
  steps = steps;
  signature = "00";
}

validate_order_lem_example : OrderWithin fixed limits resolver (limit_order "101")
unfolding validate_order
validate_order_lem_example = (validate_order_lem fixed limits resolver (limit_order "101")).0 refl

nan_price_passes_example : validate_order fixed limits resolver (limit_order "NaN") ≡ none
nan_price_passes_example =
    nan_price_passes fixed limits resolver fixed-NanPropagates (limit_order "NaN") "BTC" refl refl
      refl (IsNan-of none refl) refl refl

abbrev pub entry : ExecutionInstruction
entry = instruction (leverage_step ∷ order_step "101" ∷ [])

validate_sound_example :
    (0 < 2)
    × (pos 2 ≤ℤ pos 3)
    × StepsWithin fixed limits resolver "BTC" (validate fixed limits resolver entry).0.steps
unfolding validate validate_steps validate_step action_of validate_order
validate_sound_example = validate_sound fixed limits resolver entry refl

-- An exposure of 4000 and one position leave room for 500 more in the market.
validate_portfolio_lem_example :
    pos (count_positions fixed "BTC" account.asset_positions + 1) ≤ℤ pos 2
unfolding validate_portfolio
validate_portfolio_lem_example =
    ((validate_portfolio_lem fixed limits resolver "BTC" (usd 500)).0 refl account refl refl).1
      (omega arith)
