-- ===== src/Bot/Tui/Edit/Tickers.antt =====
-- cmd/bot/tui.go, `handleEditKey`: the dialog of the ticker.
use degenbox_hyperliquid_cli.Float.{Float64}
use degenbox_hyperliquid_cli.Bot.Tui.{
  Widgets, save_ticker_assets_to_config, TickerAsset, ticker_asset_list, Model,
}
use degenbox_hyperliquid_cli.Base.{
  ℕ, Bool, not, Option, none, some, List, [], ◌∷◌, if◌then◌else◌, get_elem?, String, str_eq,
}
use degenbox_hyperliquid_cli.Bot.Tui.Edit.Begin.{Handled, back_to_settings}

-- The digit keys of the ticker dialog, from 0.
unfoldable pub digit_key : String → Option ℕ
digit_key k =
    if str_eq k "1"
    then some 0
    else if str_eq k "2"
    then some 1
    else if str_eq k "3"
    then some 2
    else if str_eq k "4"
    then some 3
    else if str_eq k "5"
    then some 4
    else if str_eq k "6"
    then some 5
    else if str_eq k "7"
    then some 6
    else if str_eq k "8"
    then some 7
    else none

unfoldable pub toggle : String → (String → Bool) → String → Bool
toggle name enabled other = if str_eq name other then not (enabled other) else enabled other

-- The assets that `saveTickerAssetsToConfig` writes.
unfoldable pub enabled_assets : (String → Bool) → List TickerAsset → List String
enabled_assets enabled [] = []
enabled_assets enabled (ta ∷ tas) =
    let rest = enabled_assets enabled tas in if enabled ta.display then ta.display ∷ rest else rest

module _ (fl : Float64) (w : Widgets) where
  open fl use {F, of_ℤ, le, parse, format_f}
  open w use {Input, new_input, value, type_key, reset}

  unfoldable pub ticker_key : Model fl w → String → Handled fl w
  ticker_key m k =
      if str_eq k "esc"
      then (
        back_to_settings fl w m,
        save_ticker_assets_to_config m.config_path
              (enabled_assets m.ticker_enabled ticker_asset_list)
            ∷ [],
      )
      else elim (digit_key k) [
        | none ↦ (m, [])
        | some i ↦ elim (get_elem? ticker_asset_list i) [
          | none ↦ (m, [])
          | some ta ↦ (record m { ticker_enabled = toggle ta.display m.ticker_enabled }, [])
        ]
      ]
