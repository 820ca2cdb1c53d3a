-- ===== src/Bot/Tui/Guards.antt =====
-- cmd/bot/tui.go: what must have happened before the terminal interface starts something.
pub mod Run
use Prim.Native.String.{len}
use degenbox_hyperliquid_cli.Text.{has_prefix, codes}
use degenbox_hyperliquid_cli.Text.Space.{trim_space}
use degenbox_hyperliquid_cli.Float.{Float64}
use degenbox_hyperliquid_cli.Bot.Tui.{
  Widgets, ViewMode, view_logs, view_trades, view_positions, view_settings, view_edit,
  view_update_confirm, view_update_progress, view_kill_confirm, EditStep, step_none, api_key_input,
  api_key_registering, api_key_done, encrypt_pass1, encrypt_pass2, encrypting, encrypt_done,
  risk_leverage, risk_order_size, risk_done, ticker_toggle, delete_confirm, deleting, delete_done,
  EditState, SettingsSnapshot, Effect, call_quit_func, quit, tick_every_second, start_update,
  execute_kill_switch, do_delete_self, do_register, do_encrypt, do_send_pause, do_update_api_key,
  save_api_key_to_env, save_ticker_assets_to_config, save_risk_limits_to_config, update_limits,
  nil_dereference, Message, key, window_size, flush_logs, log, account_update, name_update,
  pause_update, auth_info, assignment_update, version_info, ticker_update, registration_done,
  registration_err, encrypt_succeeded, encrypt_err, delete_succeeded, delete_err, kill_result,
  update_succeeded, update_error, clock_tick, World, TickerAsset, ticker_asset_list, Model,
}
use degenbox_hyperliquid_cli.Bot.Tui.Edit.{
  Handled, begin_edit, no_input, init_api_key_edit, init_encrypt_edit, init_risk_edit,
  init_delete_edit, digit_key, done_key, ticker_key, delete_key, api_key_key, pass1_key, pass2_key,
  read_leverage, read_order_size, leverage_key, hot_limits, hot_update, save_order_size,
  order_size_key, edit_key, handle_edit_key,
}
use degenbox_hyperliquid_cli.Bot.Tui.Update.{
  max_log_lines, add_lines, leave, toggle_pause, update_confirm_key, update_progress_key,
  settings_key, main_key, kill_confirm_key, view_key, forward_key, kill_finished, resized, update,
}
use degenbox_hyperliquid_cli.Base.{
  ℕ, zero, suc, ◌+◌, ◌-◌, ◌*◌, ◌/◌, ◌%◌, ◌^◌, ◌≤◌, ◌<◌, min, ◌≡◌, refl, sym, ap, ◌∙◌, subst, ◌≢◌,
  ◌↔◌, ◌⊎◌, inl, inr, Bool, true, false, not, ◌&&◌, ◌||◌, Option, none, some, List, [], ◌∷◌, ◌++◌,
  map, append_assoc, append-nil, arith, ltb, leb, ◌==◌, if◌then◌else◌, Bool-cases, Option-cases,
  length, get_elem?, set, get_or, replicate, drop, length-append, length-set, length-replicate,
  length-drop, get_or-set_self, get_or-set_ne, All, All-append, All-mono, All-get_elem?, decimal,
  last, take, append_inj, String, str_eq, eq_iff,
}
use degenbox_hyperliquid_cli.Base.Int.{
  ℤ, pos, negsuc, pos_part, neg_part, sub_ℕ, ltb_ℤ, eqb_ℤ, ◌≤ℤ◌, ◌+ℤ◌, ◌-ℤ◌,
}
use degenbox_hyperliquid_cli.Clock.{second, minute, max_duration, sub, before, add_neg, unix_milli}

-- A key that opens the kill switch, and a message that offers an update.
abbrev pub opens_kill_switch : {F : Type 0} → Message F → Bool
opens_kill_switch (key k) = str_eq k "K"
opens_kill_switch other = false

abbrev pub offers_update : {F : Type 0} → Message F → Bool
offers_update (version_info latest available) = available
offers_update other = false

-- What the effects ask for: `opened` says that the kill switch was opened, `offered` that an update
-- was offered.
abbrev pub Allowed : {F : Type 0} → Bool → Bool → Effect F → Type 0
Allowed opened offered start_update = offered ≡ true
Allowed opened offered execute_kill_switch = opened ≡ true
Allowed opened offered (do_register url token name wallet main network) =
    has_prefix token "rt_" ≡ true
Allowed opened offered (do_encrypt passphrase) = 8 ≤ len passphrase
Allowed opened offered other = Unit {0}

module _ (fl : Float64) (w : Widgets) where
  open fl use {F}

  pub record Inv (opened offered : Bool) (m : Model fl w) : Type 0 where
    pub kill_view : m.active_view ≡ view_kill_confirm → opened ≡ true
    pub update_view : m.active_view ≡ view_update_confirm → offered ≡ true
    pub available : m.update_available ≡ true → offered ≡ true
    pub passphrase :
        m.active_view ≡ view_edit → m.edit.step ≡ encrypt_pass2 → 8 ≤ len m.edit.passphrase1

  pub record Keeps (opened offered : Bool) (m : Model fl w) (h : Handled fl w) : Type 0 where
    pub inv : Inv opened offered h.0
    pub allowed : All (Allowed opened offered) h.1
    pub lines : h.0.log_lines ≡ m.log_lines

  module _ (opened offered : Bool) (m : Model fl w) (v : Inv opened offered m) (world : World)
      (k : String) where
    done_key-Keeps : Keeps opened offered m (done_key fl w m k)
    unfolding done_key
    done_key-Keeps = ground arith

    ticker_key-Keeps : Keeps opened offered m (ticker_key fl w m k)
    unfolding ticker_key
    ticker_key-Keeps = ground arith

    delete_key-Keeps : Keeps opened offered m (delete_key fl w m k)
    unfolding delete_key
    delete_key-Keeps = ground arith

    api_key_key-Keeps : Keeps opened offered m (api_key_key fl w m k)
    unfolding api_key_key
    api_key_key-Keeps = ground arith

    pass1_key-Keeps : Keeps opened offered m (pass1_key fl w m k)
    unfolding pass1_key
    pass1_key-Keeps = ground arith

    Keeps-if :
        (b : Bool) (x y : Handled fl w)
        → (b ≡ true → Keeps opened offered m x)
        → (b ≡ false → Keeps opened offered m y)
        → Keeps opened offered m (if b then x else y)
    Keeps-if true x y hx hy = hx refl
    Keeps-if false x y hx hy = hy refl

    pass2_key-Keeps :
        m.active_view ≡ view_edit
        → m.edit.step ≡ encrypt_pass2
        → Keeps opened offered m (pass2_key fl w m k)
    unfolding pass2_key
    pass2_key-Keeps shown here =
        Keeps-if (str_eq k "esc") _ _ (λ _. ground arith)
          λ _.
            Keeps-if (str_eq k "enter") _ _
              (λ _.
                Keeps-if (not (str_eq (w.value m.edit.input) m.edit.passphrase1)) _ _
                  (λ _. ground arith) (λ _. ground arith))
              (λ _. ground arith)

    leverage_key-Keeps : Keeps opened offered m (leverage_key fl w m k)
    unfolding leverage_key
    leverage_key-Keeps = ground arith

    order_size_key-Keeps : Keeps opened offered m (order_size_key fl w m world k)
    unfolding order_size_key save_order_size hot_update
    order_size_key-Keeps = ground arith

    update_confirm_key-Keeps :
        m.active_view ≡ view_update_confirm → Keeps opened offered m (update_confirm_key fl w m k)
    unfolding update_confirm_key
    update_confirm_key-Keeps here = ground arith

    update_progress_key-Keeps : Keeps opened offered m (update_progress_key fl w m k)
    unfolding update_progress_key
    update_progress_key-Keeps = ground arith

    kill_confirm_key-Keeps :
        m.active_view ≡ view_kill_confirm → Keeps opened offered m (kill_confirm_key fl w m k)
    unfolding kill_confirm_key
    kill_confirm_key-Keeps here = ground arith

    leave-Keeps : Keeps opened offered m (leave fl w m)
    unfolding leave
    leave-Keeps = ground arith

    toggle_pause-Keeps : Keeps opened offered m (toggle_pause fl w m world)
    unfolding toggle_pause
    toggle_pause-Keeps = ground arith

    stay-Keeps : Keeps opened offered m (m, [])
    stay-Keeps = ground arith

    go_to-Keeps :
        (view : ViewMode)
        → (view ≡ view_kill_confirm → opened ≡ true)
        → (view ≡ view_update_confirm → offered ≡ true)
        → view ≢ view_edit
        → Keeps opened offered m (record m { active_view = view }, [])
    go_to-Keeps view kill update other = ground arith

    edit_with-Keeps :
        (edit : EditState w.Input)
        → edit.step ≢ encrypt_pass2
        → Keeps opened offered m (record m { edit = edit; active_view = view_edit }, [])
    edit_with-Keeps edit other = ground arith

    offer-Keeps : Keeps opened offered m (
        if m.update_available
        then (record m { active_view = view_update_confirm }, [])
        else (m, []))
    offer-Keeps =
        Keeps-if m.update_available _ _
          (λ available.
            go_to-Keeps view_update_confirm (λ e. cc) (λ _. v.available available) (λ e. cc))
          (λ _. stay-Keeps)

    kill_view-Keeps :
        opened ≡ true
        → Keeps opened offered m
            (record m { active_view = view_kill_confirm; kill_status = ""; kill_error = "" }, [])
    kill_view-Keeps here = ground arith

    init_encrypt_edit-step : (world : World) → (init_encrypt_edit fl w world).step ≢ encrypt_pass2
    unfolding init_encrypt_edit
    init_encrypt_edit-step world e = ground arith

    init_risk_edit-step : (leverage : ℤ) → (init_risk_edit fl w leverage).step ≢ encrypt_pass2
    unfolding init_risk_edit
    init_risk_edit-step leverage e = cc

    settings_key-Keeps : Keeps opened offered m (settings_key fl w m world k)
    unfolding settings_key
    settings_key-Keeps =
        Keeps-if (str_eq k "1") _ _
          (λ _. edit_with-Keeps (init_api_key_edit fl w) (unfold init_api_key_edit in λ e. cc))
          λ _.
            Keeps-if (str_eq k "2") _ _
              (λ _. edit_with-Keeps (init_encrypt_edit fl w world) (init_encrypt_edit-step world))
              λ _.
                Keeps-if (str_eq k "3") _ _
                  (λ _. edit_with-Keeps (init_risk_edit fl w _) (init_risk_edit-step _))
                  λ _.
                    Keeps-if (str_eq k "4") _ _
                      (λ _.
                        edit_with-Keeps (begin_edit fl w ticker_toggle (no_input fl w) "")
                          (λ e. cc))
                      λ _.
                        Keeps-if (str_eq k "5") _ _ (λ _. toggle_pause-Keeps)
                          λ _.
                            Keeps-if (str_eq k "6") _ _
                              (λ _.
                                edit_with-Keeps (init_delete_edit fl w)
                                  (unfold init_delete_edit in λ e. cc))
                              λ _.
                                Keeps-if (str_eq k "q" || str_eq k "ctrl+c") _ _ (λ _. leave-Keeps)
                                  λ _.
                                    Keeps-if (str_eq k "u") _ _ (λ _. offer-Keeps)
                                      λ _.
                                        Keeps-if (str_eq k "esc" || str_eq k "enter") _ _
                                          (λ _. go_to-Keeps view_logs (λ e. cc) (λ e. cc) (λ e. cc))
                                          (λ _. stay-Keeps)

    main_key-Keeps :
        (str_eq k "K" ≡ true → opened ≡ true) → Keeps opened offered m (main_key fl w m world k)
    unfolding main_key
    main_key-Keeps seen =
        Keeps-if (str_eq k "q" || str_eq k "ctrl+c") _ _ (λ _. leave-Keeps)
          λ _.
            Keeps-if (str_eq k "t") _ _ (λ _. go_to-Keeps view_trades (λ e. cc) (λ e. cc) (λ e. cc))
              λ _.
                Keeps-if (str_eq k "p") _ _
                  (λ _. go_to-Keeps view_positions (λ e. cc) (λ e. cc) (λ e. cc))
                  λ _.
                    Keeps-if (str_eq k "s") _ _
                      (λ _. go_to-Keeps view_settings (λ e. cc) (λ e. cc) (λ e. cc))
                      λ _.
                        Keeps-if (str_eq k "u") _ _ (λ _. offer-Keeps)
                          λ _.
                            Keeps-if (str_eq k "K") _ _ (λ here. kill_view-Keeps (seen here))
                              λ _.
                                Keeps-if (str_eq k " ") _ _ (λ _. toggle_pause-Keeps)
                                  λ _.
                                    Keeps-if (str_eq k "esc" || str_eq k "enter") _ _
                                      (λ _. go_to-Keeps view_logs (λ e. cc) (λ e. cc) (λ e. cc))
                                      (λ _. stay-Keeps)

    forward_key-Keeps :
        (h : Handled fl w)
        → Keeps opened offered m h
        → Keeps opened offered m (forward_key fl w k h)
    unfolding forward_key
    forward_key-Keeps (m', effects) h =
        Keeps-if _ (record m' { log_view = w.scroll m'.log_view k }, effects) (m', effects)
          (λ _. record {
            inv = record {
              kill_view = h.inv.kill_view;
              update_view = h.inv.update_view;
              available = h.inv.available;
              passphrase = h.inv.passphrase;
            };
            allowed = h.allowed;
            lines = h.lines;
          })
          (λ _. h)
