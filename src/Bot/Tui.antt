-- ===== src/Bot/Tui.antt =====
-- cmd/bot/tui.go and view_edit.go: the state of the terminal interface. The text field and the
-- scrolled window of the bubbles library are a parameter, and rendering is left out; what a handler
-- starts or calls outside of the model is an effect.
pub mod Edit
pub mod Update
pub mod Start
pub mod Guards
pub mod Logs
pub mod HotUpdate
use degenbox_hyperliquid_cli.Float.{Float64}
use degenbox_hyperliquid_cli.Hyperliquid.Types.{ClearinghouseState}
use degenbox_hyperliquid_cli.Relay.Validator.{RiskLimits}
use degenbox_hyperliquid_cli.Base.{
  ℕ, zero, suc, ◌+◌, ◌-◌, ◌*◌, ◌/◌, ◌%◌, ◌^◌, ◌≤◌, ◌<◌, min, ◌≡◌, refl, sym, ap, ◌∙◌, subst, ◌≢◌,
  ◌↔◌, ◌⊎◌, inl, inr, Bool, true, false, not, ◌&&◌, ◌||◌, Option, none, some, List, [], ◌∷◌, ◌++◌,
  map, append_assoc, append-nil, arith, ltb, leb, ◌==◌, if◌then◌else◌, Bool-cases, Option-cases,
  length, get_elem?, set, get_or, replicate, drop, length-append, length-set, length-replicate,
  length-drop, get_or-set_self, get_or-set_ne, All, All-append, All-mono, All-get_elem?, decimal,
  last, take, append_inj, String, str_eq, eq_iff,
}
use degenbox_hyperliquid_cli.Text.{codes}
use degenbox_hyperliquid_cli.Base.Int.{
  ℤ, pos, negsuc, pos_part, neg_part, sub_ℕ, ltb_ℤ, eqb_ℤ, ◌≤ℤ◌, ◌+ℤ◌, ◌-ℤ◌,
}
use degenbox_hyperliquid_cli.Clock.{second, minute, max_duration, sub, before, add_neg, unix_milli}

-- `new_input` is `newTextInput` with a placeholder and whether it hides what is typed; `type_key` and
-- `scroll` are `Update` with a key.
pub record Widgets : Type 1 where
  pub Input : Type 0
  pub View : Type 0
  pub new_input : String → Bool → Input
  pub value : Input → String
  pub type_key : Input → String → Input
  pub reset : Input → Input
  pub show_lines : View → List String → View
  pub resize : View → ℤ → ℤ → View
  pub scroll : View → String → View

pub data ViewMode : Type 0 where
  view_logs view_trades view_positions view_settings view_edit : ViewMode
  view_update_confirm view_update_progress view_kill_confirm : ViewMode

pub data EditStep : Type 0 where
  step_none api_key_input api_key_registering api_key_done : EditStep
  encrypt_pass1 encrypt_pass2 encrypting encrypt_done : EditStep
  risk_leverage risk_order_size risk_done ticker_toggle : EditStep
  delete_confirm deleting delete_done : EditStep

pub record EditState (Input : Type 0) : Type 0 where
  pub step : EditStep
  pub input : Input
  pub error : String
  pub success : String
  pub passphrase1 : String
  pub new_leverage : ℤ

pub record SettingsSnapshot (F : Type 0) : Type 0 where
  pub network : String
  pub wallet_addr : String
  pub is_agent_mode : Bool
  pub client_name : String
  pub relay_url : String
  pub client_id : ℤ
  pub log_level : String
  pub max_leverage : ℤ
  pub max_order_usd : F
  pub max_price_dev_pct : F
  pub max_per_minute : ℤ
  pub signing_enabled : Bool
  pub version : String

-- What a handler does outside of the model: the calls in their order, then the command it returns.
pub data Effect (F : Type 0) : Type 0 where
  call_quit_func quit tick_every_second start_update execute_kill_switch do_delete_self : Effect F
  do_register : String → String → String → String → String → String → Effect F
  do_encrypt : String → Effect F
  do_send_pause : Bool → Effect F
  do_update_api_key save_api_key_to_env : String → Effect F
  save_ticker_assets_to_config : String → List String → Effect F
  save_risk_limits_to_config : String → ℤ → F → Effect F
  update_limits : RiskLimits F → Effect F
  -- A nil pointer is read: the program ends.
  nil_dereference : Effect F

-- What calls outside of the model give while a message is handled.
pub record World : Type 0 where
  pub pause_sent : Bool
  pub private_key : String
  pub keystore_exists : Bool
  pub save_error : Option String

-- The messages of the program, keys among them.
pub data Message (F : Type 0) : Type 0 where
  key : String → Message F
  window_size : ℤ → ℤ → Message F
  flush_logs : List String → Message F
  log : String → Message F
  account_update : Option ClearinghouseState → F → Bool → Message F
  name_update : String → Message F
  pause_update : Bool → Message F
  auth_info : List String → String → Message F
  assignment_update : Option String → Option String → Message F
  version_info : String → Bool → Message F
  ticker_update : (String → Option F) → Message F
  registration_done registration_err : String → Message F
  encrypt_succeeded : Message F
  encrypt_err : String → Message F
  delete_succeeded : Message F
  delete_err : String → Message F
  kill_result : Option String → Message F
  update_succeeded : Message F
  update_error : String → Message F
  clock_tick : ℕ → Message F

pub record TickerAsset : Type 0 where
  pub display : String
  pub market : String
  pub is_xyz : Bool

abbrev pub ticker_asset_list : List TickerAsset
ticker_asset_list =
    record { display = "BTC"; market = "BTC"; is_xyz = false }
    ∷ record { display = "ETH"; market = "ETH"; is_xyz = false }
    ∷ record { display = "SOL"; market = "SOL"; is_xyz = false }
    ∷ record { display = "HYPE"; market = "HYPE"; is_xyz = false }
    ∷ record { display = "GOLD"; market = "xyz:GOLD"; is_xyz = true }
    ∷ record { display = "SILVER"; market = "xyz:SILVER"; is_xyz = true }
    ∷ record { display = "OIL"; market = "xyz:CL"; is_xyz = true }
    ∷ record { display = "XYZ100"; market = "xyz:XYZ100"; is_xyz = true }
    ∷ []

-- `tuiModel`. `has_relay`, `has_validator` and `has_quit_func` say that a pointer or a function is
-- not nil; the trade store and the clients that it points to are left out.
pub record Model (fl : Float64) (w : Widgets) : Type 0 where
  pub width : ℤ
  pub height : ℤ
  pub instance_name : String
  pub wallet_addr : String
  pub network : String
  pub caller_name : String
  pub target_wallet : String
  pub paused : Bool
  pub account_state : Option ClearinghouseState
  pub spot_usdc : fl.F
  pub connected : Bool
  pub active_view : ViewMode
  pub log_view : w.View
  pub log_lines : List String
  pub clock : ℕ
  pub settings : Option (SettingsSnapshot fl.F)
  pub edit : EditState w.Input
  pub config_path : String
  pub has_relay : Bool
  pub relay_server_url : String
  pub main_wallet_addr : String
  pub has_validator : Bool
  pub kill_status : String
  pub kill_error : String
  pub ticker_prices : String → Option fl.F
  pub ticker_enabled : String → Bool
  pub update_available : Bool
  pub latest_version : String
  pub update_status : String
  pub update_error : String
  pub update_completed : Bool
  pub quitting : Bool
  pub has_quit_func : Bool
