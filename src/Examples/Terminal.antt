-- ===== src/Examples/Terminal.antt =====
-- The terminal interface at concrete messages: a text field is what was typed, a window the lines
-- that it shows.
use Prim.Native.String.{◌++◌ as str_append}
use degenbox_hyperliquid_cli.Text.Space.{trim_space}
use degenbox_hyperliquid_cli.Bot.Tui.{
  Widgets, view_edit, risk_order_size, SettingsSnapshot, start_update, execute_kill_switch,
  do_encrypt, do_send_pause, Message, key, flush_logs, log, version_info, encrypt_succeeded,
  kill_result, World, Model,
}
use degenbox_hyperliquid_cli.Bot.Tui.Edit.{
  init_encrypt_edit, read_order_size, edit_key, handle_edit_key,
}
use degenbox_hyperliquid_cli.Bot.Tui.Update.{max_log_lines, update}
use degenbox_hyperliquid_cli.Relay.Portfolio.{validate_portfolio}
use degenbox_hyperliquid_cli.Relay.Validator.{validate}
use degenbox_hyperliquid_cli.Bot.Tui.Start.{TuiConfig, new_tui_model, run}
use degenbox_hyperliquid_cli.Bot.Tui.Guards.{Allowed}
use degenbox_hyperliquid_cli.Bot.Tui.Guards.Run.{any_opens, any_offers, run-Allowed}
use degenbox_hyperliquid_cli.Bot.Tui.Logs.{last_of, all_lines, run-log_lines}
use degenbox_hyperliquid_cli.Bot.Tui.HotUpdate.{in_force, hot_update_refuses}
use degenbox_hyperliquid_cli.Examples.FixedPoint.{Fixed, fixed, one}
use degenbox_hyperliquid_cli.Examples.Validation.{limits, resolver, entry}
use degenbox_hyperliquid_cli.Base.{
  ◌*◌, ◌≡◌, refl, ◌≢◌, true, false, none, some, List, [], ◌∷◌, All, String,
}
use degenbox_hyperliquid_cli.Base.Int.{pos}

abbrev widgets : Widgets
widgets = record {
  Input = String;
  View = List String;
  new_input = λ placeholder masked. "";
  value = λ input. input;
  type_key = λ input k. str_append input k;
  reset = λ input. "";
  show_lines = λ view lines. lines;
  resize = λ view width height. view;
  scroll = λ view k. view;
}

abbrev settings : SettingsSnapshot Fixed
settings = record {
  network = "mainnet";
  wallet_addr = "0xabc";
  is_agent_mode = false;
  client_name = "bot";
  relay_url = "wss://relay/ws";
  client_id = pos 1;
  log_level = "info";
  max_leverage = pos 10;
  max_order_usd = some (pos (100 * one));
  max_price_dev_pct = some (pos (5 * one));
  max_per_minute = pos 30;
  signing_enabled = true;
  version = "1";
}

abbrev config : TuiConfig Fixed
config = record {
  instance_name = "bot";
  wallet_addr = "0xabc";
  network = "mainnet";
  state = none;
  spot_usdc = some (pos 0);
  connected = true;
  settings = some settings;
  has_quit_func = true;
  config_path = "config.json";
  has_relay = true;
  relay_server_url = "wss://relay/ws";
  main_wallet_addr = "0xabc";
  has_validator = true;
  ticker_assets = [];
}

abbrev world : World
world = record {
  pause_sent = true;
  private_key = "0x12";
  keystore_exists = false;
  save_error = none;
}

abbrev at : Message Fixed → World × Message Fixed
at message = (world, message)

-- A passphrase, the kill switch, and an update.
abbrev messages : List (World × Message Fixed)
messages =
    at (log "started")
    ∷ at (key "s")
    ∷ at (key "2")
    ∷ at (key "password")
    ∷ at (key "enter")
    ∷ at (key "password")
    ∷ at (key "enter")
    ∷ at encrypt_succeeded
    ∷ at (key "esc")
    ∷ at (key "esc")
    ∷ at (key "K")
    ∷ at (key "y")
    ∷ at (kill_result none)
    ∷ at (key "n")
    ∷ at (version_info "2" true)
    ∷ at (key "u")
    ∷ at (key "y")
    ∷ at (flush_logs ("a" ∷ "b" ∷ []))
    ∷ []

abbrev start : Model fixed widgets
start = new_tui_model fixed widgets config [] 0

started :
    (run fixed widgets start messages).1
    ≡ do_encrypt "password" ∷ execute_kill_switch ∷ do_send_pause true ∷ start_update ∷ []
unfolding run new_tui_model update handle_edit_key edit_key init_encrypt_edit
started = refl

run-Allowed_example :
    All
      (Allowed (any_opens fixed widgets messages) (any_offers fixed widgets messages))
      (run fixed widgets start messages).1
run-Allowed_example = run-Allowed fixed widgets config [] 0 messages

run-log_lines_example :
    (run fixed widgets start messages).0.log_lines
    ≡ last_of max_log_lines (all_lines fixed widgets messages)
run-log_lines_example = run-log_lines fixed widgets config [] 0 messages

abbrev editing : Model fixed widgets
editing = record start {
  active_view = view_edit;
  edit = record {
    step = risk_order_size;
    input = "250";
    error = "";
    success = "";
    passphrase1 = "";
    new_leverage = pos 5;
  };
}

size_reads :
    read_order_size fixed widgets editing.settings (trim_space editing.edit.input)
    ≡ some (some (pos (250 * one)))
unfolding read_order_size trim_space new_tui_model
size_reads = refl

editing_settings : editing.settings ≡ some settings
unfolding new_tui_model
editing_settings = refl

editing_validator : editing.has_validator ≡ true
unfolding new_tui_model
editing_validator = refl

hot_update_refuses_example :
    ((validate fixed
        (in_force fixed widgets limits (update fixed widgets editing world (key "enter")).1)
        resolver
        entry).1
      ≢ none)
    × (validate_portfolio fixed
          (in_force fixed widgets limits (update fixed widgets editing world (key "enter")).1)
          resolver
          "BTC"
          (some (pos 7))
        ≡ none)
hot_update_refuses_example =
    hot_update_refuses fixed widgets editing world settings limits (some (pos (250 * one))) refl
      refl refl editing_settings editing_validator refl size_reads resolver entry "BTC"
      (some (pos 7))
