-- ===== src/Examples/Settings.antt =====
-- The settings, the encodings, the connections and the kill switch at concrete inputs.
use degenbox_hyperliquid_cli.Text.{has_prefix}
use degenbox_hyperliquid_cli.Examples.Orders.{client}
use degenbox_hyperliquid_cli.Base.{
  eq_iff, arith, ◌*◌, ◌≡◌, refl, true, false, none, some, [], ◌∷◌, if◌then◌else◌, String, str_eq,
}
use degenbox_hyperliquid_cli.Examples.FixedPoint.{fixed}
use degenbox_hyperliquid_cli.Hyperliquid.Types.{ClearinghouseState, OpenOrder, AssetPosition}
use degenbox_hyperliquid_cli.Examples.Validation.{account, btc_position, limits}
use degenbox_hyperliquid_cli.Examples.Session.{config, json_text}
use degenbox_hyperliquid_cli.Hyperliquid.Assets.{Assets, no_assets, add_asset}
use degenbox_hyperliquid_cli.Relay.Canonical.{
  string, boolean, typed_array, object, nil, cons, end, field, marshal, sorted_stringify,
}
use degenbox_hyperliquid_cli.Relay.Canonical.Reordered.{same, swapped, sorted_stringify-Reordered}
use degenbox_hyperliquid_cli.Relay.Session.{Handshake}
use degenbox_hyperliquid_cli.Relay.Reconnect.{Round, new_backoff, connect_loop}
use degenbox_hyperliquid_cli.Relay.Reconnect.Delays.{connect_loop_waits}
use degenbox_hyperliquid_cli.Config.{Config, validate_config, validate_limits}
use degenbox_hyperliquid_cli.Config.Checks.{IsUsable, validate_config_lem}
use degenbox_hyperliquid_cli.Base.Int.{pos}
use degenbox_hyperliquid_cli.Clock.{second}
use degenbox_hyperliquid_cli.Relay.Canonical

abbrev value : Canonical.Json
value = object (field "b" (boolean true) (field "a" (typed_array (cons (string "x") nil)) end))

sorted_stringify-Reordered_example :
    sorted_stringify json_text value
    ≡ sorted_stringify json_text
        (object (field "a" (typed_array (cons (string "x") nil)) (field "b" (boolean true) end)))
sorted_stringify-Reordered_example =
    sorted_stringify-Reordered json_text (swapped (λ e. ground (arith, eq_iff "b" "a")) same)

abbrev refused : Handshake
refused = record { dialled = false; auth_written = false; reply = none }

abbrev down : Round
down = record { before = []; handshake = refused; during = []; after = [] }

-- The second wait is doubled; a key that is set during it leaves two seconds for the third.
connect_loop_waits_example :
    (connect_loop
      (config, client, new_backoff)
      (down ∷ record down { after = "key" ∷ [] } ∷ down ∷ [])).1
    ≡ second ∷ 2 * second ∷ 2 * second ∷ []
unfolding has_prefix
connect_loop_waits_example =
    connect_loop_waits config client (down ∷ record down { after = "key" ∷ [] } ∷ down ∷ [])

abbrev short_position : AssetPosition
short_position = record btc_position { position = record btc_position.position { szi = "0" } }

abbrev markets : Assets
markets =
    add_asset 0 (record { name = "BTC"; sz_decimals = pos 5; max_leverage = pos 40 })
      (some (record {
        funding = "0";
        open_interest = "0";
        oracle_px = "100";
        day_ntl_vlm = "0";
        premium = "0";
      }))
      no_assets

abbrev held : ClearinghouseState
held = record account { asset_positions = short_position ∷ btc_position ∷ [] }

abbrev env : String → String
env name =
    if str_eq name "HL_NETWORK"
    then "mainnet"
    else if str_eq name "HL_MAX_LEVERAGE"
    then "12"
    else ""

abbrev usable : Config fixed.F
usable = record {
  network = "testnet";
  private_key = "k";
  wallet_addr = "";
  is_agent_mode = false;
  relay = record { server_url = ""; api_key = ""; client_id = pos 0; server_public_key = "" };
  log_level = "info";
  log_format = "pretty";
  client_name = "";
  risk_limits = limits;
  circuit_breaker = record { max_consecutive_losses = pos 0; cooldown_minutes = pos 0 };
  discord_webhook_url = "";
  ticker_assets = [];
}

validate_config_lem_example : IsUsable fixed usable
unfolding validate_config validate_limits
validate_config_lem_example = (validate_config_lem fixed usable).0 refl

abbrev resting : OpenOrder
resting = record {
  coin = "BTC";
  limit_px = "90";
  oid = pos 7;
  side = "B";
  sz = "1";
  timestamp = pos 0;
}
