-- ===== src/Bot/Tui/Edit/Keys.antt =====
-- cmd/bot/tui.go, `handleEditKey`: the dialogs of the key of the relay, of the passphrase and of the
-- deletion.
use Prim.Native.String.{len}
use degenbox_hyperliquid_cli.Text.{has_prefix}
use degenbox_hyperliquid_cli.Text.Space.{trim_space, says_yes}
use degenbox_hyperliquid_cli.Float.{Float64}
use degenbox_hyperliquid_cli.Bot.Tui.{
  Widgets, view_settings, api_key_registering, encrypt_pass2, encrypting, deleting,
  SettingsSnapshot, do_delete_self, do_register, do_encrypt, Model,
}
use degenbox_hyperliquid_cli.Base.{
  true, not, ◌||◌, Option, none, some, [], ◌∷◌, ltb, if◌then◌else◌, String, str_eq,
}
use degenbox_hyperliquid_cli.Bot.Tui.Edit.Begin.{Handled, refuse, back_to_settings, typed}

module _ (fl : Float64) (w : Widgets) where
  open fl use {F, of_ℤ, le, parse, format_f}
  open w use {Input, new_input, value, type_key, reset}

  unfoldable pub delete_key : Model fl w → String → Handled fl w
  delete_key m k =
      if str_eq k "esc"
      then (back_to_settings fl w m, [])
      else if str_eq k "enter"
      then (if says_yes (value m.edit.input)
          then (record m { edit = record m.edit { step = deleting } }, do_delete_self ∷ [])
          else (
            record m {
              edit = record m.edit { error = "Type YES to confirm"; input = reset m.edit.input };
            },
            [],
          ))
      else (typed fl w m k, [])

  -- `settings.ClientName`, "" with no settings.
  abbrev pub client_name : Option (SettingsSnapshot F) → String
  client_name none = ""
  client_name (some settings) = settings.client_name

  unfoldable pub api_key_key : Model fl w → String → Handled fl w
  api_key_key m k =
      if str_eq k "esc"
      then (back_to_settings fl w m, [])
      else if str_eq k "enter"
      then (if not (has_prefix (trim_space (value m.edit.input)) "rt_")
          then refuse fl w m "Token must start with rt_"
          else (
            record m { edit = record m.edit { step = api_key_registering; error = "" } },
            do_register m.relay_server_url (trim_space (value m.edit.input))
                  (client_name m.settings) m.wallet_addr m.main_wallet_addr m.network
                ∷ [],
          ))
      else (typed fl w m k, [])

  unfoldable pub pass1_key : Model fl w → String → Handled fl w
  pass1_key m k =
      if str_eq k "esc"
      then (back_to_settings fl w m, [])
      else if str_eq k "enter"
      then (if ltb (len (value m.edit.input)) 8
          then refuse fl w m "Passphrase must be at least 8 characters"
          else (
            record m {
              edit = record m.edit {
                passphrase1 = value m.edit.input;
                step = encrypt_pass2;
                input = new_input "confirm passphrase" true;
                error = "";
              };
            },
            [],
          ))
      else (typed fl w m k, [])

  unfoldable pub pass2_key : Model fl w → String → Handled fl w
  pass2_key m k =
      if str_eq k "esc"
      then (record m { active_view = view_settings; edit = record m.edit { passphrase1 = "" } }, [])
      else if str_eq k "enter"
      then (if not (str_eq (value m.edit.input) m.edit.passphrase1)
          then (
            record m {
              edit = record m.edit {
                error = "Passphrases do not match";
                input = new_input "confirm passphrase" true;
              };
            },
            [],
          )
          else (
            record m { edit = record m.edit { passphrase1 = ""; step = encrypting; error = "" } },
            do_encrypt m.edit.passphrase1 ∷ [],
          ))
      else (typed fl w m k, [])

  unfoldable pub done_key : Model fl w → String → Handled fl w
  done_key m k =
      if str_eq k "esc" || str_eq k "enter" then (back_to_settings fl w m, []) else (m, [])
