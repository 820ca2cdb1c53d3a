-- ===== src/Bot/Tui/Guards/Run.antt =====
-- cmd/bot/tui.go: what the effects of a run rest on, and the log that it shows.
use degenbox_hyperliquid_cli.Float.{Float64}
use degenbox_hyperliquid_cli.Bot.Tui.{
  Widgets, ViewMode, view_logs, view_trades, view_positions, view_settings, view_edit,
  view_update_confirm, view_update_progress, view_kill_confirm, EditStep, step_none, api_key_input,
  api_key_registering, api_key_done, encrypt_pass1, encrypt_pass2, encrypting, encrypt_done,
  risk_leverage, risk_order_size, risk_done, ticker_toggle, delete_confirm, deleting, delete_done,
  Message, key, window_size, flush_logs, log, account_update, name_update, pause_update, auth_info,
  assignment_update, version_info, ticker_update, registration_done, registration_err,
  encrypt_succeeded, encrypt_err, delete_succeeded, delete_err, kill_result, update_succeeded,
  update_error, clock_tick, World, Model,
}
use degenbox_hyperliquid_cli.Bot.Tui.Edit.{Handled, edit_key, handle_edit_key}
use degenbox_hyperliquid_cli.Bot.Tui.Update.{view_key, forward_key, update}
use degenbox_hyperliquid_cli.Bot.Tui.Start.{TuiConfig, new_tui_model, run}
use degenbox_hyperliquid_cli.Bot.Tui.Guards.{
  opens_kill_switch, offers_update, Allowed, Inv, Keeps, done_key-Keeps, ticker_key-Keeps,
  delete_key-Keeps, api_key_key-Keeps, pass1_key-Keeps, pass2_key-Keeps, leverage_key-Keeps,
  order_size_key-Keeps, update_confirm_key-Keeps, update_progress_key-Keeps, kill_confirm_key-Keeps,
  settings_key-Keeps, main_key-Keeps, stay-Keeps, forward_key-Keeps,
}
use degenbox_hyperliquid_cli.Base.{
  ℕ, ◌≡◌, refl, Bool, true, false, ◌||◌, none, some, List, [], ◌∷◌, arith, All, All-append, String,
  str_eq,
}

module _ (fl : Float64) (w : Widgets) where
  open fl use {F}

  module _ (opened offered : Bool) (m : Model fl w) (v : Inv fl w opened offered m)
      (world : World) where
    edit_key-Keeps :
        (step : EditStep) (k : String)
        → m.active_view ≡ view_edit
        → m.edit.step ≡ step
        → Keeps fl w opened offered m (edit_key fl w step m world k)
    unfolding edit_key
    edit_key-Keeps step_none k shown here = stay-Keeps fl w opened offered m v world k
    edit_key-Keeps api_key_input k shown here = api_key_key-Keeps fl w opened offered m v world k
    edit_key-Keeps api_key_registering k shown here = stay-Keeps fl w opened offered m v world k
    edit_key-Keeps api_key_done k shown here = done_key-Keeps fl w opened offered m v world k
    edit_key-Keeps encrypt_pass1 k shown here = pass1_key-Keeps fl w opened offered m v world k
    edit_key-Keeps encrypt_pass2 k shown here =
        pass2_key-Keeps fl w opened offered m v world k shown here
    edit_key-Keeps encrypting k shown here = stay-Keeps fl w opened offered m v world k
    edit_key-Keeps encrypt_done k shown here = done_key-Keeps fl w opened offered m v world k
    edit_key-Keeps risk_leverage k shown here = leverage_key-Keeps fl w opened offered m v world k
    edit_key-Keeps risk_order_size k shown here =
        order_size_key-Keeps fl w opened offered m v world k
    edit_key-Keeps risk_done k shown here = done_key-Keeps fl w opened offered m v world k
    edit_key-Keeps ticker_toggle k shown here = ticker_key-Keeps fl w opened offered m v world k
    edit_key-Keeps delete_confirm k shown here = delete_key-Keeps fl w opened offered m v world k
    edit_key-Keeps deleting k shown here = stay-Keeps fl w opened offered m v world k
    edit_key-Keeps delete_done k shown here = done_key-Keeps fl w opened offered m v world k

    abbrev pub key_handled : ViewMode → String → Handled fl w
    key_handled shown k = elim shown [
      | view_edit ↦ view_key fl w view_edit m world k
      | view ↦ forward_key fl w k (view_key fl w view m world k)
    ]

    pub key-Keeps :
        (shown : ViewMode) (k : String)
        → m.active_view ≡ shown
        → (str_eq k "K" ≡ true → opened ≡ true)
        → Keeps fl w opened offered m (key_handled shown k)
    unfolding view_key handle_edit_key
    key-Keeps view_edit k here seen = edit_key-Keeps m.edit.step k here refl
    key-Keeps view_update_confirm k here seen =
        forward_key-Keeps fl w opened offered m v world k _
          (update_confirm_key-Keeps fl w opened offered m v world k here)
    key-Keeps view_update_progress k here seen =
        forward_key-Keeps fl w opened offered m v world k _
          (update_progress_key-Keeps fl w opened offered m v world k)
    key-Keeps view_settings k here seen =
        forward_key-Keeps fl w opened offered m v world k _
          (settings_key-Keeps fl w opened offered m v world k)
    key-Keeps view_kill_confirm k here seen =
        forward_key-Keeps fl w opened offered m v world k _
          (kill_confirm_key-Keeps fl w opened offered m v world k here)
    key-Keeps view_logs k here seen =
        forward_key-Keeps fl w opened offered m v world k _
          (main_key-Keeps fl w opened offered m v world k seen)
    key-Keeps view_trades k here seen =
        forward_key-Keeps fl w opened offered m v world k _
          (main_key-Keeps fl w opened offered m v world k seen)
    key-Keeps view_positions k here seen =
        forward_key-Keeps fl w opened offered m v world k _
          (main_key-Keeps fl w opened offered m v world k seen)

    pub record Steps (h : Handled fl w) : Type 0 where
      pub inv : Inv fl w opened offered h.0
      pub allowed : All (Allowed opened offered) h.1

    pub update-Steps :
        (message : Message F)
        → (opens_kill_switch message ≡ true → opened ≡ true)
        → (offers_update message ≡ true → offered ≡ true)
        → Steps (update fl w m world message)
    unfolding update
    update-Steps (key k) seen offer =
        let h = key-Keeps m.active_view k refl seen in record { inv = h.inv; allowed = h.allowed }
    update-Steps (window_size width height) seen offer = ground arith
    update-Steps (flush_logs lines) seen offer = ground arith
    update-Steps (log line) seen offer = ground arith
    update-Steps (account_update state spot connected) seen offer = ground arith
    update-Steps (name_update name) seen offer = ground arith
    update-Steps (pause_update paused) seen offer = ground arith
    update-Steps (auth_info callers target) seen offer = ground arith
    update-Steps (assignment_update caller target) seen offer = ground arith
    update-Steps (version_info latest available) seen offer = ground arith
    update-Steps (ticker_update prices) seen offer = ground arith
    update-Steps (registration_done api_key) seen offer = ground arith
    update-Steps (registration_err text) seen offer = ground arith
    update-Steps encrypt_succeeded seen offer = ground arith
    update-Steps (encrypt_err text) seen offer = ground arith
    update-Steps delete_succeeded seen offer = ground arith
    update-Steps (delete_err text) seen offer = ground arith
    update-Steps (kill_result none) seen offer = ground arith
    update-Steps (kill_result (some text)) seen offer = ground arith
    update-Steps update_succeeded seen offer = ground arith
    update-Steps (update_error text) seen offer = ground arith
    update-Steps (clock_tick now) seen offer = ground arith

  -- Whether a message of a run opens the kill switch, and whether one offers an update.
  abbrev pub any_opens : List (World × Message F) → Bool
  any_opens [] = false
  any_opens ((world, message) ∷ messages) = opens_kill_switch message || any_opens messages

  abbrev pub any_offers : List (World × Message F) → Bool
  any_offers [] = false
  any_offers ((world, message) ∷ messages) = offers_update message || any_offers messages

  or_left : (a b c : Bool) → ((a || b) ≡ true → c ≡ true) → a ≡ true → c ≡ true
  or_left a b c h e = ground (arith, h)

  or_right : (a b c : Bool) → ((a || b) ≡ true → c ≡ true) → b ≡ true → c ≡ true
  or_right a b c h e = ground (arith, h)

  run_from :
      (opened offered : Bool) (m : Model fl w) (messages : List (World × Message F))
      → Inv fl w opened offered m
      → (any_opens messages ≡ true → opened ≡ true)
      → (any_offers messages ≡ true → offered ≡ true)
      → All (Allowed opened offered) (run fl w m messages).1
  unfolding run
  run_from opened offered m [] v seen offer = tt
  run_from opened offered m ((world, message) ∷ messages) v seen offer =
      let h =
        update-Steps opened offered m v world message
          (or_left (opens_kill_switch message) (any_opens messages) opened seen)
          (or_left (offers_update message) (any_offers messages) offered offer) in
      All-append (Allowed opened offered) (update fl w m world message).1 _ h.allowed (
        run_from opened offered (update fl w m world message).0 messages h.inv
          (or_right (opens_kill_switch message) (any_opens messages) opened seen)
          (or_right (offers_update message) (any_offers messages) offered offer))

  pub new_tui_model-Inv :
      (opened offered : Bool) (c : TuiConfig F) (view : w.View) (now : ℕ)
      → Inv fl w opened offered (new_tui_model fl w c view now)
  unfolding new_tui_model
  new_tui_model-Inv opened offered c view now = ground arith

  -- Whatever messages a new terminal interface takes, and whatever the calls outside of it give: it
  -- runs the kill switch only if the key of the kill switch was among them, an update only if one
  -- was offered; a passphrase that encrypts the key has at least eight bytes, and a token that is
  -- registered begins with "rt_".
  pub run-Allowed :
      (c : TuiConfig F) (view : w.View) (now : ℕ) (messages : List (World × Message F))
      → All
          (Allowed (any_opens messages) (any_offers messages))
          (run fl w (new_tui_model fl w c view now) messages).1
  run-Allowed c view now messages =
      run_from (any_opens messages) (any_offers messages) _ messages
        (new_tui_model-Inv (any_opens messages) (any_offers messages) c view now) (λ h. h) (λ h. h)
