-- ===== src/Bot/Tui/Update.antt =====
-- cmd/bot/tui.go, `Update`: what the terminal interface does with each message.
use degenbox_hyperliquid_cli.Float.{Float64}
use degenbox_hyperliquid_cli.Bot.Tui.{
  Widgets, ViewMode, view_logs, view_trades, view_positions, view_settings, view_edit,
  view_update_confirm, view_update_progress, view_kill_confirm, api_key_input, api_key_done,
  encrypt_done, ticker_toggle, delete_done, EditState, SettingsSnapshot, Effect, call_quit_func,
  quit, tick_every_second, start_update, execute_kill_switch, do_send_pause, do_update_api_key,
  save_api_key_to_env, Message, key, window_size, flush_logs, log, account_update, name_update,
  pause_update, auth_info, assignment_update, version_info, ticker_update, registration_done,
  registration_err, encrypt_succeeded, encrypt_err, delete_succeeded, delete_err, kill_result,
  update_succeeded, update_error, clock_tick, World, TickerAsset, ticker_asset_list, Model,
}
use degenbox_hyperliquid_cli.Bot.Tui.Edit.{
  Handled, begin_edit, no_input, init_api_key_edit, init_encrypt_edit, init_risk_edit,
  init_delete_edit, handle_edit_key,
}
use degenbox_hyperliquid_cli.Base.{
  ℕ, ◌+◌, ◌-◌, Bool, true, false, not, ◌&&◌, ◌||◌, Option, none, some, List, [], ◌∷◌, ◌++◌, ltb,
  if◌then◌else◌, length, drop, String, str_eq,
}
use degenbox_hyperliquid_cli.Base.Int.{ℤ, pos, ltb_ℤ, ◌-ℤ◌}

abbrev pub max_log_lines : ℕ
max_log_lines = 1000

-- The log with new lines: its last `max_log_lines` ones.
unfoldable pub add_lines : List String → List String → List String
add_lines lines new =
    if ltb max_log_lines (length (lines ++ new))
    then drop (length (lines ++ new) - max_log_lines) (lines ++ new)
    else lines ++ new

module _ (fl : Float64) (w : Widgets) where
  open fl use {F, of_ℤ, eq}
  open w use {new_input, show_lines, resize, scroll}

  abbrev pub stay : Model fl w → Handled fl w
  stay m = (m, [])

  abbrev pub go_to : Model fl w → ViewMode → Handled fl w
  go_to m view = (record m { active_view = view }, [])

  -- Leaving: the function that stops the bot is called, where there is one.
  unfoldable pub leave : Model fl w → Handled fl w
  leave m = (
    record m { quitting = true },
    if m.has_quit_func then call_quit_func ∷ quit ∷ [] else quit ∷ [],
  )

  unfoldable pub toggle_pause : Model fl w → World → Handled fl w
  toggle_pause m world =
      if m.has_relay
      then (
        if world.pause_sent then record m { paused = not m.paused } else m,
        do_send_pause (not m.paused) ∷ [],
      )
      else (m, [])

  abbrev is_quit : String → Bool
  is_quit k = str_eq k "q" || str_eq k "ctrl+c"

  unfoldable pub update_confirm_key : Model fl w → String → Handled fl w
  unfolding leave
  update_confirm_key m k =
      if str_eq k "y"
      then (
        record m { active_view = view_update_progress; update_status = "downloading" },
        start_update ∷ [],
      )
      else if str_eq k "n" || str_eq k "esc"
      then go_to m view_logs
      else if is_quit k
      then leave m
      else stay m

  unfoldable pub update_progress_key : Model fl w → String → Handled fl w
  unfolding leave
  update_progress_key m k =
      if str_eq k "esc"
      then (if str_eq m.update_status "error" then go_to m view_logs else stay m)
      else if is_quit k
      then (if str_eq m.update_status "error" then leave m else stay m)
      else stay m

  -- `settings.MaxLeverage`, 20 with no settings.
  abbrev current_leverage : Option (SettingsSnapshot F) → ℤ
  current_leverage none = pos 20
  current_leverage (some settings) = settings.max_leverage

  abbrev edit_with : Model fl w → EditState w.Input → Handled fl w
  edit_with m edit = (record m { edit = edit; active_view = view_edit }, [])

  unfoldable pub settings_key : Model fl w → World → String → Handled fl w
  unfolding leave toggle_pause
  settings_key m world k =
      if str_eq k "1"
      then edit_with m (init_api_key_edit fl w)
      else if str_eq k "2"
      then edit_with m (init_encrypt_edit fl w world)
      else if str_eq k "3"
      then edit_with m (init_risk_edit fl w (current_leverage m.settings))
      else if str_eq k "4"
      then edit_with m (begin_edit fl w ticker_toggle (no_input fl w) "")
      else if str_eq k "5"
      then toggle_pause m world
      else if str_eq k "6"
      then edit_with m (init_delete_edit fl w)
      else if is_quit k
      then leave m
      else if str_eq k "u"
      then (if m.update_available then go_to m view_update_confirm else stay m)
      else if str_eq k "esc" || str_eq k "enter"
      then go_to m view_logs
      else stay m

  unfoldable pub main_key : Model fl w → World → String → Handled fl w
  unfolding leave toggle_pause
  main_key m world k =
      if is_quit k
      then leave m
      else if str_eq k "t"
      then go_to m view_trades
      else if str_eq k "p"
      then go_to m view_positions
      else if str_eq k "s"
      then go_to m view_settings
      else if str_eq k "u"
      then (if m.update_available then go_to m view_update_confirm else stay m)
      else if str_eq k "K"
      then (record m { active_view = view_kill_confirm; kill_status = ""; kill_error = "" }, [])
      else if str_eq k " "
      then toggle_pause m world
      else if str_eq k "esc" || str_eq k "enter"
      then go_to m view_logs
      else stay m

  unfoldable pub kill_confirm_key : Model fl w → String → Handled fl w
  kill_confirm_key m k =
      if str_eq k "y" || str_eq k "Y"
      then (record m { kill_status = "running" }, execute_kill_switch ∷ [])
      else if str_eq k "n" || str_eq k "esc"
      then go_to m view_logs
      else stay m

  -- A key, at the view that is shown.
  unfoldable pub view_key : ViewMode → Model fl w → World → String → Handled fl w
  unfolding update_confirm_key update_progress_key settings_key main_key kill_confirm_key
  view_key view_update_confirm m world k = update_confirm_key m k
  view_key view_update_progress m world k = update_progress_key m k
  view_key view_edit m world k = handle_edit_key fl w m world k
  view_key view_settings m world k = settings_key m world k
  view_key view_kill_confirm m world k = kill_confirm_key m k
  view_key view_logs m world k = main_key m world k
  view_key view_trades m world k = main_key m world k
  view_key view_positions m world k = main_key m world k

  abbrev has_quit : List (Effect F) → Bool
  has_quit [] = false
  has_quit (quit ∷ effects) = true
  has_quit (effect ∷ effects) = has_quit effects

  abbrev is_logs : ViewMode → Bool
  is_logs view_logs = true
  is_logs other = false

  -- A key that leaves the logs shown scrolls them too, unless the program is left.
  unfoldable pub forward_key : String → Handled fl w → Handled fl w
  forward_key k (m, effects) =
      if is_logs m.active_view && not (has_quit effects)
      then (record m { log_view = scroll m.log_view k }, effects)
      else (m, effects)

  -- Whether `renderTickerLine` shows an asset.
  abbrev has_price : Option F → Bool
  has_price none = false
  has_price (some price) = not (eq price (of_ℤ (pos 0)))

  unfoldable pub any_price : (String → Bool) → (String → Option F) → List TickerAsset → Bool
  any_price enabled prices [] = false
  any_price enabled prices (ta ∷ tas) =
      (enabled ta.display && has_price (prices ta.market)) || any_price enabled prices tas

  abbrev lines_if : Bool → ℕ → ℕ
  lines_if b n = if b then n else 0

  abbrev is_some {ℓ} : {A : Type ℓ} → Option A → Bool
  is_some none = false
  is_some (some a) = true

  -- `headerLines`: the line breaks of `renderHeader`, where the texts that it shows have none. The
  -- logo has six, and four lines are always there.
  unfoldable pub header_lines : Model fl w → ℕ
  unfolding any_price
  header_lines m =
      8
      + (4
          + (lines_if (m.update_available && not (str_eq m.latest_version "")) 1
              + (lines_if (is_some m.account_state) 2
                  + (lines_if
                        (not (str_eq m.caller_name "")
                          || not (str_eq m.target_wallet "")
                          || m.connected)
                        1
                      + lines_if (any_price m.ticker_enabled m.ticker_prices ticker_asset_list)
                          1))))

  abbrev pub footer_lines : ℕ
  footer_lines = 4

  -- `contentHeight`.
  unfoldable pub content_height : Model fl w → ℤ
  content_height m =
      let h = m.height -ℤ pos (header_lines m + footer_lines) in
      if ltb_ℤ h (pos 1) then pos 1 else h

  abbrev with_log : Model fl w → List String → Model fl w
  with_log m new = record m {
    log_lines = add_lines m.log_lines new;
    log_view = show_lines m.log_view (add_lines m.log_lines new);
  }

  unfoldable pub resized : Model fl w → ℤ → ℤ → Model fl w
  unfolding content_height
  resized m width height =
      let m' = record m { width = width; height = height } in
      record m' { log_view = resize m.log_view width (content_height m') }

  abbrev head_or : String → List String → String
  head_or old [] = old
  head_or old (caller ∷ callers) = caller

  abbrev text_or_empty : Option String → String
  text_or_empty none = ""
  text_or_empty (some text) = text

  -- The end of the kill switch: the bot is paused where all went well.
  unfoldable pub kill_finished : Model fl w → World → Option String → Handled fl w
  kill_finished m world (some text) = (record m { kill_status = "error"; kill_error = text }, [])
  kill_finished m world none =
      if m.has_relay
      then (
        record m { kill_status = "done"; paused = if world.pause_sent then true else m.paused },
        do_send_pause true ∷ [],
      )
      else (record m { kill_status = "done" }, [])

  -- `Update`.
  unfoldable pub update : Model fl w → World → Message F → Handled fl w
  unfolding view_key forward_key resized kill_finished
  update m world (key k) = elim m.active_view [
    | view_edit ↦ view_key view_edit m world k
    | view ↦ forward_key k (view_key view m world k)
  ]
  update m world (window_size width height) = stay (resized m width height)
  update m world (flush_logs lines) = stay (with_log m lines)
  update m world (log line) = stay (with_log m (line ∷ []))
  update m world (account_update state spot connected) =
      stay (record m { account_state = state; spot_usdc = spot; connected = connected })
  update m world (name_update name) = stay (record m { instance_name = name })
  update m world (pause_update paused) = stay (record m { paused = paused })
  update m world (auth_info callers target) =
      stay (record m { caller_name = head_or m.caller_name callers; target_wallet = target })
  update m world (assignment_update caller target) =
      stay (record m { caller_name = text_or_empty caller; target_wallet = text_or_empty target })
  update m world (version_info latest available) =
      stay (record m { update_available = available; latest_version = latest })
  update m world (ticker_update prices) = stay (record m { ticker_prices = prices })
  update m world (registration_done api_key) = (
    record m {
      edit = record m.edit {
        step = api_key_done;
        success = "API key updated — reconnecting...";
        error = "";
      };
    },
    if m.has_relay
        then do_update_api_key api_key ∷ save_api_key_to_env api_key ∷ []
        else save_api_key_to_env api_key ∷ [],
  )
  update m world (registration_err text) = stay (record m {
    edit = record m.edit { step = api_key_input; error = text; input = new_input "rt_..." false };
  })
  update m world encrypt_succeeded = stay (record m {
    edit = record m.edit {
      step = encrypt_done;
      success = "Keystore saved to .keystore.json — you can delete .env";
      error = "";
    };
  })
  update m world (encrypt_err text) =
      stay (record m { edit = record m.edit { step = encrypt_done; error = text } })
  update m world delete_succeeded = (
    record m {
      edit = record m.edit {
        step = delete_done;
        success = "Wallet deleted. Bot will exit.";
        error = "";
      };
      quitting = true;
    },
    quit ∷ [],
  )
  update m world (delete_err text) =
      stay (record m { edit = record m.edit { step = delete_done; error = text } })
  update m world (kill_result error) = kill_finished m world error
  update m world update_succeeded = (
    record m { update_status = "restarting"; update_completed = true; quitting = true },
    quit ∷ [],
  )
  update m world (update_error text) =
      stay (record m { update_status = "error"; update_error = text })
  update m world (clock_tick now) = (record m { clock = now }, tick_every_second ∷ [])
