-- ===== src/Bot/Tui/Start.antt =====
-- cmd/bot/tui.go, `newTUIModel`, and the runs of the program: the messages in the order in which the
-- program takes them, each with what the calls outside of the model give meanwhile.
use degenbox_hyperliquid_cli.Float.{Float64}
use degenbox_hyperliquid_cli.Hyperliquid.Types.{ClearinghouseState}
use degenbox_hyperliquid_cli.Bot.Tui.{
  Widgets, view_logs, step_none, SettingsSnapshot, World, Message, Model,
}
use degenbox_hyperliquid_cli.Bot.Tui.Edit.{Handled, begin_edit, no_input}
use degenbox_hyperliquid_cli.Bot.Tui.Update.{update}
use degenbox_hyperliquid_cli.Base.{
  ℕ, Bool, false, ◌||◌, Option, none, List, [], ◌∷◌, ◌++◌, String, str_eq,
}
use degenbox_hyperliquid_cli.Base.Int.{pos}

-- `tuiConfig`, with the same fields left out as in the model.
pub record TuiConfig (F : Type 0) : Type 0 where
  pub instance_name : String
  pub wallet_addr : String
  pub network : String
  pub state : Option ClearinghouseState
  pub spot_usdc : F
  pub connected : Bool
  pub settings : Option (SettingsSnapshot F)
  pub has_quit_func : Bool
  pub config_path : String
  pub has_relay : Bool
  pub relay_server_url : String
  pub main_wallet_addr : String
  pub has_validator : Bool
  pub ticker_assets : List String

abbrev pub default_ticker_assets : List String
default_ticker_assets = "BTC" ∷ "ETH" ∷ "SOL" ∷ []

abbrev is_listed : List String → String → Bool
is_listed [] name = false
is_listed (a ∷ assets) name = str_eq a name || is_listed assets name

-- `buildTickerEnabled`.
unfoldable pub build_ticker_enabled : List String → String → Bool
build_ticker_enabled [] = is_listed default_ticker_assets
build_ticker_enabled (a ∷ assets) = is_listed (a ∷ assets)

module _ (fl : Float64) (w : Widgets) where
  open fl use {F}

  -- `newTUIModel`, with an empty window and the time.
  unfoldable pub new_tui_model : TuiConfig F → w.View → ℕ → Model fl w
  unfolding build_ticker_enabled
  new_tui_model c view now = record {
    width = pos 0;
    height = pos 0;
    instance_name = c.instance_name;
    wallet_addr = c.wallet_addr;
    network = c.network;
    caller_name = "";
    target_wallet = "";
    paused = false;
    account_state = c.state;
    spot_usdc = c.spot_usdc;
    connected = c.connected;
    active_view = view_logs;
    log_view = view;
    log_lines = [];
    clock = now;
    settings = c.settings;
    edit = begin_edit fl w step_none (no_input fl w) "";
    config_path = c.config_path;
    has_relay = c.has_relay;
    relay_server_url = c.relay_server_url;
    main_wallet_addr = c.main_wallet_addr;
    has_validator = c.has_validator;
    kill_status = "";
    kill_error = "";
    ticker_prices = λ market. none;
    ticker_enabled = build_ticker_enabled c.ticker_assets;
    update_available = false;
    latest_version = "";
    update_status = "";
    update_error = "";
    update_completed = false;
    quitting = false;
    has_quit_func = c.has_quit_func;
  }

  unfoldable pub run : Model fl w → List (World × Message F) → Handled fl w
  run m [] = (m, [])
  run m ((world, message) ∷ messages) =
      let (m', effects) = update fl w m world message in
      let (m'', later) = run m' messages in (m'', effects ++ later)
