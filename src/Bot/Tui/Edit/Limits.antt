-- ===== src/Bot/Tui/Edit/Limits.antt =====
-- cmd/bot/tui.go, `handleEditKey`: the dialog of the risk limits.
use Prim.Native.String.{◌++◌ as str_append}
use degenbox_hyperliquid_cli.Text.Space.{trim_space}
use degenbox_hyperliquid_cli.Config.Text.{atoi}
use degenbox_hyperliquid_cli.Relay.Messages.{format_int}
use degenbox_hyperliquid_cli.Float.{Float64}
use degenbox_hyperliquid_cli.Relay.Validator.{RiskLimits}
use degenbox_hyperliquid_cli.Bot.Tui.{
  Widgets, risk_order_size, risk_done, SettingsSnapshot, save_risk_limits_to_config, update_limits,
  nil_dereference, World, Model,
}
use degenbox_hyperliquid_cli.Base.{
  false, not, ◌||◌, Option, none, some, [], ◌∷◌, if◌then◌else◌, String, str_eq,
}
use degenbox_hyperliquid_cli.Base.Int.{ℤ, pos, ltb_ℤ}
use degenbox_hyperliquid_cli.Bot.Tui.Edit.Begin.{Handled, refuse, back_to_settings, typed}

module _ (fl : Float64) (w : Widgets) where
  open fl use {F, of_ℤ, le, parse, format_f}
  open w use {Input, new_input, value, type_key, reset}

  -- A number that the user gives, or the one in force where the field is empty.
  unfoldable pub read_leverage : Option (SettingsSnapshot F) → String → Option ℤ
  read_leverage none val = elim (atoi val) [
    | none ↦ none
    | some n ↦ if not (ltb_ℤ (pos 0) n) then none else some n
  ]
  read_leverage (some settings) val =
      if str_eq val ""
      then some settings.max_leverage
      else elim (atoi val) [ none ↦ none | some n ↦ if not (ltb_ℤ (pos 0) n) then none else some n ]

  unfoldable pub read_order_size : Option (SettingsSnapshot F) → String → Option F
  read_order_size none val =
      if not (parse val).1 || le (parse val).0 (of_ℤ (pos 0)) then none else some (parse val).0
  read_order_size (some settings) val =
      if str_eq val ""
      then some settings.max_order_usd
      else if not (parse val).1 || le (parse val).0 (of_ℤ (pos 0))
      then none
      else some (parse val).0

  abbrev pub order_size_placeholder : Option (SettingsSnapshot F) → String
  order_size_placeholder none = "current: 5000"
  order_size_placeholder (some settings) =
      str_append "current: " (format_f settings.max_order_usd (pos 0))

  unfoldable pub leverage_key : Model fl w → String → Handled fl w
  leverage_key m k =
      if str_eq k "esc"
      then (back_to_settings fl w m, [])
      else if str_eq k "enter"
      then elim (read_leverage m.settings (trim_space (value m.edit.input))) [
        | none ↦ refuse fl w m "Enter a positive number"
        | some n ↦ (
          record m {
            edit = record m.edit {
              new_leverage = n;
              step = risk_order_size;
              error = "";
              input = new_input (order_size_placeholder m.settings) false;
            };
          },
          [],
        )
      ]
      else (typed fl w m k, [])

  -- The limits that the dialog hands to the validator: those it names, the others zero.
  unfoldable pub hot_limits : SettingsSnapshot F → ℤ → F → RiskLimits F
  hot_limits settings leverage order_size = record {
    max_leverage = leverage;
    max_order_size_usd = order_size;
    max_price_dev_pct = settings.max_price_dev_pct;
    max_orders_per_step = pos 0;
    max_steps_per_instr = pos 0;
    max_per_minute = settings.max_per_minute;
    max_total_exposure_usd = of_ℤ (pos 0);
    max_positions_per_market = pos 0;
  }

  abbrev pub saved_text : ℤ → F → String
  saved_text leverage order_size = str_append "Saved: " (
      str_append (format_int leverage)
        (str_append "× leverage, $" (str_append (format_f order_size (pos 0)) " max order")))

  -- The settings and the validator after the limits are saved; the settings are read through their
  -- pointer where there is a validator.
  unfoldable pub hot_update : Model fl w → F → Handled fl w
  unfolding hot_limits
  hot_update m order_size =
      let done = record m.edit {
        step = risk_done;
        success = saved_text m.edit.new_leverage order_size;
      } in
      elim m.settings [
        | none ↦
            if m.has_validator then (m, nil_dereference ∷ []) else (record m { edit = done }, [])
        | some settings ↦ (
          record m {
            edit = done;
            settings = some (record settings {
              max_leverage = m.edit.new_leverage;
              max_order_usd = order_size;
            });
          },
          if m.has_validator
              then update_limits (hot_limits settings m.edit.new_leverage order_size) ∷ []
              else [],
        )
      ]

  -- The limits are saved, then put in force.
  unfoldable pub save_order_size : Model fl w → World → F → Handled fl w
  unfolding hot_update
  save_order_size m world order_size =
      let save = save_risk_limits_to_config m.config_path m.edit.new_leverage order_size in
      elim world.save_error [
        | some text ↦ (
          record m {
            edit = record m.edit { step = risk_done; error = str_append "Save failed: " text };
          },
          save ∷ [],
        )
        | none ↦ ((hot_update m order_size).0, save ∷ (hot_update m order_size).1)
      ]

  unfoldable pub order_size_key : Model fl w → World → String → Handled fl w
  order_size_key m world k =
      if str_eq k "esc"
      then (back_to_settings fl w m, [])
      else if str_eq k "enter"
      then elim (read_order_size m.settings (trim_space (value m.edit.input))) [
        | none ↦ refuse fl w m "Enter a positive number"
        | some order_size ↦ save_order_size m world order_size
      ]
      else (typed fl w m k, [])
