-- ===== src/Bot/Tui/HotUpdate.antt =====
-- cmd/bot/tui.go and internal/relay/validator.go: the risk limits that the dialog puts in force.
use degenbox_hyperliquid_cli.Text.Space.{trim_space}
use degenbox_hyperliquid_cli.Float.{Float64}
use degenbox_hyperliquid_cli.Bot.Tui.{
  Widgets, ViewMode, view_edit, EditStep, risk_order_size, SettingsSnapshot, Effect, update_limits,
  key, World, Model,
}
use degenbox_hyperliquid_cli.Bot.Tui.Edit.{
  Handled, read_order_size, hot_limits, hot_update, save_order_size, order_size_key, edit_key,
  handle_edit_key,
}
use degenbox_hyperliquid_cli.Bot.Tui.Update.{view_key, forward_key, update}
use degenbox_hyperliquid_cli.Relay.Types.{ExecutionInstruction}
use degenbox_hyperliquid_cli.Relay.Portfolio.{validate_portfolio}
use degenbox_hyperliquid_cli.Relay.Validator.{RiskLimits, AssetResolver, validate}
use degenbox_hyperliquid_cli.Base.{
  ◌≡◌, refl, ap, ◌∙◌, ◌≢◌, true, none, some, List, [], ◌∷◌, arith, String,
}
use degenbox_hyperliquid_cli.Base.Int.{ℤ, pos}

module _ (fl : Float64) (w : Widgets) where
  open fl use {F, of_ℤ, eq}

  -- The limits of a list of effects that are put in force last.
  abbrev pub in_force : RiskLimits F → List (Effect F) → RiskLimits F
  in_force limits [] = limits
  in_force limits (update_limits new ∷ effects) = in_force new effects
  in_force limits (effect ∷ effects) = in_force limits effects

  save_order_size-in_force :
      (m : Model fl w) (world : World) (settings : SettingsSnapshot F) (old : RiskLimits F)
      (order_size : F)
      → m.settings ≡ some settings
      → m.has_validator ≡ true
      → world.save_error ≡ none
      → in_force old (save_order_size fl w m world order_size).1
        ≡ hot_limits fl w settings m.edit.new_leverage order_size
  unfolding save_order_size hot_update
  save_order_size-in_force m world settings old order_size known has saved =
      rw (saved, known, has) refl

  validate-no_steps :
      (limits : RiskLimits F) (resolver : AssetResolver) (instr : ExecutionInstruction)
      → limits.max_steps_per_instr ≡ pos 0
      → (validate fl limits resolver instr).1 ≢ none
  unfolding validate
  validate-no_steps limits resolver instr none_left h = ground arith

  validate_portfolio-off :
      (settings : SettingsSnapshot F) (leverage : ℤ) (order_size : F) (resolver : AssetResolver)
      (market : String) (notional : F)
      → eq (of_ℤ (pos 0)) (of_ℤ (pos 0)) ≡ true
      → validate_portfolio fl
          (hot_limits fl w settings leverage order_size)
          resolver
          market
          notional
        ≡ none
  unfolding validate_portfolio hot_limits
  validate_portfolio-off settings leverage order_size resolver market notional same = rw same refl

  hot_limits-steps :
      (settings : SettingsSnapshot F) (leverage : ℤ) (order_size : F)
      → (hot_limits fl w settings leverage order_size).max_steps_per_instr ≡ pos 0
  unfolding hot_limits
  hot_limits-steps settings leverage order_size = refl

  abbrev by_view : Model fl w → World → String → ViewMode → Handled fl w
  by_view m world k shown = elim shown [
    | view_edit ↦ view_key fl w view_edit m world k
    | view ↦ forward_key fl w k (view_key fl w view m world k)
  ]

  update-edit :
      (m : Model fl w) (world : World) (k : String) (step : EditStep)
      → m.active_view ≡ view_edit
      → m.edit.step ≡ step
      → update fl w m world (key k) ≡ edit_key fl w step m world k
  unfolding update view_key handle_edit_key
  update-edit m world k step shown here =
      ap (by_view m world k) shown ∙ ap (λ (s : EditStep). edit_key fl w s m world k) here

  order_size_key-enter :
      (m : Model fl w) (world : World) (order_size : F)
      → read_order_size fl w m.settings (trim_space (w.value m.edit.input)) ≡ some order_size
      → order_size_key fl w m world "enter" ≡ save_order_size fl w m world order_size
  unfolding order_size_key
  order_size_key-enter m world order_size read = rw read refl

  enter-in_force :
      (m : Model fl w) (world : World) (settings : SettingsSnapshot F) (old : RiskLimits F)
      (order_size : F)
      → m.active_view ≡ view_edit
      → m.edit.step ≡ risk_order_size
      → m.settings ≡ some settings
      → m.has_validator ≡ true
      → world.save_error ≡ none
      → read_order_size fl w m.settings (trim_space (w.value m.edit.input)) ≡ some order_size
      → in_force old (update fl w m world (key "enter")).1
        ≡ hot_limits fl w settings m.edit.new_leverage order_size
  unfolding edit_key
  enter-in_force m world settings old order_size shown here known has saved read =
      ap (λ (h : Handled fl w). in_force old h.1)
        (update-edit m world "enter" risk_order_size shown here
          ∙ order_size_key-enter m world order_size read)
      ∙ save_order_size-in_force m world settings old order_size known has saved

  -- Once the enter key has ended the dialog of the risk limits, the limits that it has put in force
  -- refuse every instruction, and the portfolio checks under them are off. The dialog is at its last
  -- step, with a size that it can read, the settings known, a validator, and no error in saving; zero
  -- is equal to itself.
  pub hot_update_refuses :
      (m : Model fl w) (world : World) (settings : SettingsSnapshot F) (old : RiskLimits F)
      (order_size : F)
      → eq (of_ℤ (pos 0)) (of_ℤ (pos 0)) ≡ true
      → m.active_view ≡ view_edit
      → m.edit.step ≡ risk_order_size
      → m.settings ≡ some settings
      → m.has_validator ≡ true
      → world.save_error ≡ none
      → read_order_size fl w m.settings (trim_space (w.value m.edit.input)) ≡ some order_size
      → (resolver : AssetResolver) (instr : ExecutionInstruction) (market : String) (notional : F)
      → ((validate fl (in_force old (update fl w m world (key "enter")).1) resolver instr).1 ≢ none)
        × (validate_portfolio fl
              (in_force old (update fl w m world (key "enter")).1)
              resolver
              market
              notional
            ≡ none)
  hot_update_refuses m world settings old order_size same shown here known has saved read resolver
        instr market notional =
      rw (enter-in_force m world settings old order_size shown here known has saved read) (
        validate-no_steps (hot_limits fl w settings m.edit.new_leverage order_size) resolver instr
            (hot_limits-steps settings m.edit.new_leverage order_size),
        validate_portfolio-off settings m.edit.new_leverage order_size resolver market notional
            same,
      )
