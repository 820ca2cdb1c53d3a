-- ===== src/Bot/Tui/Edit/Begin.antt =====
-- cmd/bot/tui.go and view_edit.go: how a dialog of the settings begins, and what the keys of all the
-- dialogs do.
use Prim.Native.String.{◌++◌ as str_append}
use degenbox_hyperliquid_cli.Relay.Messages.{format_int}
use degenbox_hyperliquid_cli.Float.{Float64}
use degenbox_hyperliquid_cli.Bot.Tui.{
  Widgets, view_settings, EditStep, api_key_input, encrypt_pass1, encrypt_done, risk_leverage,
  delete_confirm, EditState, Effect, World, Model,
}
use degenbox_hyperliquid_cli.Base.{true, false, List, [], if◌then◌else◌, String, str_eq}
use degenbox_hyperliquid_cli.Base.Int.{ℤ, pos}

module _ (fl : Float64) (w : Widgets) where
  open fl use {F, of_ℤ, le, parse, format_f}
  open w use {Input, new_input, value, type_key, reset}

  abbrev pub Handled : Type 0
  Handled = Model fl w × List (Effect F)

  -- An edit that begins at a step.
  abbrev pub begin_edit : EditStep → Input → String → EditState Input
  begin_edit step input error = record {
    step = step;
    input = input;
    error = error;
    success = "";
    passphrase1 = "";
    new_leverage = pos 0;
  }

  -- The text field of an edit that sets none.
  abbrev pub no_input : Input
  no_input = new_input "" false

  -- `initAPIKeyEdit`.
  unfoldable pub init_api_key_edit : EditState Input
  init_api_key_edit = begin_edit api_key_input (new_input "rt_..." false) ""

  -- `initEncryptEdit`.
  unfoldable pub init_encrypt_edit : World → EditState Input
  init_encrypt_edit world =
      if str_eq world.private_key ""
      then begin_edit encrypt_done no_input "No private key found in .env file"
      else begin_edit encrypt_pass1 (new_input "min 8 characters" true) (
          if world.keystore_exists
          then "Keystore exists — new passphrase will overwrite it"
          else "")

  -- `initRiskEdit`.
  unfoldable pub init_risk_edit : ℤ → EditState Input
  init_risk_edit current_leverage =
      begin_edit risk_leverage
        (new_input (str_append "current: " (format_int current_leverage)) false) ""

  -- `initDeleteEdit`.
  unfoldable pub init_delete_edit : EditState Input
  init_delete_edit = begin_edit delete_confirm (new_input "type YES to confirm" false) ""

  -- The error of a dialog that stays as it is.
  abbrev pub refuse : Model fl w → String → Handled
  refuse m text = (record m { edit = record m.edit { error = text } }, [])

  abbrev pub back_to_settings : Model fl w → Model fl w
  back_to_settings m = record m { active_view = view_settings }

  abbrev pub typed : Model fl w → String → Model fl w
  typed m k = record m { edit = record m.edit { input = type_key m.edit.input k } }
