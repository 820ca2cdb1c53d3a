-- ===== src/Bot/Tui/Edit.antt =====
-- cmd/bot/tui.go, `handleEditKey`, and the functions of view_edit.go that begin an edit: the dialogs
-- of the settings.
mod Begin
mod Tickers
mod Keys
mod Limits
unfoldable pub use Begin.{
  Handled, begin_edit, no_input, init_api_key_edit, init_encrypt_edit, init_risk_edit,
  init_delete_edit, refuse, back_to_settings, typed,
}
unfoldable pub use Tickers.{digit_key, toggle, enabled_assets, ticker_key}
unfoldable pub use Keys.{delete_key, client_name, api_key_key, pass1_key, pass2_key, done_key}
unfoldable pub use Limits.{
  read_leverage, read_order_size, order_size_placeholder, leverage_key, hot_limits, saved_text,
  hot_update, save_order_size, order_size_key,
}
use Prim.Native.String.{len, ◌++◌ as str_append}
use degenbox_hyperliquid_cli.Text.{has_prefix}
use degenbox_hyperliquid_cli.Text.Space.{trim_space, says_yes}
use degenbox_hyperliquid_cli.Config.Text.{atoi}
use degenbox_hyperliquid_cli.Relay.Messages.{format_int}
use degenbox_hyperliquid_cli.Float.{Float64}
use degenbox_hyperliquid_cli.Relay.Validator.{RiskLimits}
use degenbox_hyperliquid_cli.Bot.Tui.{
  Widgets, view_settings, EditStep, step_none, api_key_input, api_key_registering, api_key_done,
  encrypt_pass1, encrypt_pass2, encrypting, encrypt_done, risk_leverage, risk_order_size, risk_done,
  ticker_toggle, delete_confirm, deleting, delete_done, EditState, SettingsSnapshot, Effect,
  do_delete_self, do_register, do_encrypt, save_ticker_assets_to_config, save_risk_limits_to_config,
  update_limits, nil_dereference, World, TickerAsset, ticker_asset_list, Model,
}
use degenbox_hyperliquid_cli.Base.{
  ℕ, Bool, true, false, not, ◌||◌, Option, none, some, List, [], ◌∷◌, ltb, if◌then◌else◌, get_elem?,
  String, str_eq,
}
use degenbox_hyperliquid_cli.Base.Int.{ℤ, pos, ltb_ℤ}

module _ (fl : Float64) (w : Widgets) where
  open fl use {F, of_ℤ, le, parse, format_f}
  open w use {Input, new_input, value, type_key, reset}

  -- `handleEditKey`, at the step of the edit.
  unfoldable pub edit_key : EditStep → Model fl w → World → String → Handled fl w
  unfolding done_key ticker_key delete_key api_key_key pass1_key pass2_key leverage_key
      order_size_key
  edit_key step_none m world k = (m, [])
  edit_key api_key_input m world k = api_key_key fl w m k
  edit_key api_key_registering m world k = (m, [])
  edit_key api_key_done m world k = done_key fl w m k
  edit_key encrypt_pass1 m world k = pass1_key fl w m k
  edit_key encrypt_pass2 m world k = pass2_key fl w m k
  edit_key encrypting m world k = (m, [])
  edit_key encrypt_done m world k = done_key fl w m k
  edit_key risk_leverage m world k = leverage_key fl w m k
  edit_key risk_order_size m world k = order_size_key fl w m world k
  edit_key risk_done m world k = done_key fl w m k
  edit_key ticker_toggle m world k = ticker_key fl w m k
  edit_key delete_confirm m world k = delete_key fl w m k
  edit_key deleting m world k = (m, [])
  edit_key delete_done m world k = done_key fl w m k

  -- `handleEditKey`.
  unfoldable pub handle_edit_key : Model fl w → World → String → Handled fl w
  handle_edit_key m world k = edit_key m.edit.step m world k
