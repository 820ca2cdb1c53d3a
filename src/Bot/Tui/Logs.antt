-- ===== src/Bot/Tui/Logs.antt =====
-- cmd/bot/tui.go: the log that the terminal interface keeps is the end of what was logged.
use degenbox_hyperliquid_cli.Float.{Float64}
use degenbox_hyperliquid_cli.Bot.Tui.{
  Widgets, Message, key, window_size, flush_logs, log, kill_result, World, Model,
}
use degenbox_hyperliquid_cli.Bot.Tui.Update.{max_log_lines, add_lines, update}
use degenbox_hyperliquid_cli.Bot.Tui.Guards.{Inv}
use degenbox_hyperliquid_cli.Bot.Tui.Guards.Run.{new_tui_model-Inv, key-Keeps, update-Steps}
use degenbox_hyperliquid_cli.Bot.Tui.Start.{TuiConfig, new_tui_model, run}
use degenbox_hyperliquid_cli.Base.{
  ℕ, zero, suc, ◌+◌, ◌-◌, ◌≤◌, ◌≡◌, refl, sym, ap, ◌∙◌, inl, inr, true, false, none, some, List, [],
  ◌∷◌, ◌++◌, append_assoc, append-nil, arith, ltb, Bool-cases, length, drop, length-append,
  length-drop, String,
}

module _ {ℓ} {A : Type ℓ} where
  -- The last `n` elements.
  abbrev pub last_of : ℕ → List A → List A
  last_of n xs = drop (length xs - n) xs

  drop-append : (k : ℕ) (xs ys : List A) → k ≤ length xs → drop k (xs ++ ys) ≡ drop k xs ++ ys
  drop-append zero xs ys h = refl
  drop-append (suc k) [] ys h = absurd (omega arith)
  drop-append (suc k) (x ∷ xs) ys h = drop-append k xs ys (omega arith)

  drop-nil : (k : ℕ) → drop {A = A} k [] ≡ []
  drop-nil zero = refl
  drop-nil (suc k) = refl

  drop-drop : (i j : ℕ) (xs : List A) → drop i (drop j xs) ≡ drop (j + i) xs
  drop-drop i zero xs = ap (λ (k : ℕ). drop k xs) (omega arith)
  drop-drop i (suc j) [] = drop-nil i ∙ sym (drop-nil (suc j + i))
  drop-drop i (suc j) (x ∷ xs) =
      let e : suc (j + i) ≡ suc j + i = omega arith in
      drop-drop i j xs ∙ ap (λ (k : ℕ). drop k (x ∷ xs)) e

  -- What is cut off before more comes would be cut off then.
  last_of-append : (n : ℕ) (xs ys : List A) → last_of n (last_of n xs ++ ys) ≡ last_of n (xs ++ ys)
  last_of-append n xs ys =
      let k = length xs - n in
      let cut = drop-append k xs ys (omega arith) in
      let amount : k + (length (drop k xs ++ ys) - n) ≡ length (xs ++ ys) - n =
        omega (arith, length-append (drop k xs) ys, length-append xs ys, length-drop k xs) in
      ap (drop (length (drop k xs ++ ys) - n)) (sym cut)
      ∙ (drop-drop (length (drop k xs ++ ys) - n) k (xs ++ ys)
          ∙ ap (λ (i : ℕ). drop i (xs ++ ys)) amount)

  last_of-length : (n : ℕ) (xs : List A) → length (last_of n xs) ≤ n
  last_of-length n xs = omega (arith, length-drop (length xs - n) xs)

nothing_cut : (n : ℕ) → n ≤ max_log_lines → 0 ≡ n - max_log_lines
nothing_cut n h = omega arith

few : (n : ℕ) → ltb max_log_lines n ≡ false → 0 ≡ n - max_log_lines
few n h = ground arith

add_lines_lem :
    (lines new : List String) → add_lines lines new ≡ last_of max_log_lines (lines ++ new)
unfolding add_lines
add_lines_lem lines new = elim (Bool-cases (ltb max_log_lines (length (lines ++ new)))) [
  | inl long ↦ rw long refl
  | inr short ↦ rw short (ap (λ (k : ℕ). drop k (lines ++ new)) (few _ short))
]

module _ (fl : Float64) (w : Widgets) where
  open fl use {F}

  -- The lines that a message adds to the log.
  abbrev new_lines : Message F → List String
  new_lines (flush_logs lines) = lines
  new_lines (log line) = line ∷ []
  new_lines other = []

  -- All the lines of a run, in order.
  abbrev pub all_lines : List (World × Message F) → List String
  all_lines [] = []
  all_lines ((world, message) ∷ messages) = new_lines message ++ all_lines messages

  -- Lines that a message leaves alone.
  same_lines :
      (old new : List String)
      → length old ≤ max_log_lines
      → new ≡ old
      → new ≡ last_of max_log_lines (old ++ [])
  same_lines old new h e =
      e ∙ rw append-nil (ap (λ (k : ℕ). drop k old) (nothing_cut (length old) h))

  module _ (m : Model fl w) (world : World) (v : Inv fl w true true m)
      (h : length m.log_lines ≤ max_log_lines) where
    update-log_lines :
        (message : Message F)
        → (update fl w m world message).0.log_lines
          ≡ last_of max_log_lines (m.log_lines ++ new_lines message)
    unfolding update
    update-log_lines (key k) =
        same_lines m.log_lines _ h
          (key-Keeps fl w true true m v world m.active_view k refl (λ _. refl)).lines
    update-log_lines (flush_logs lines) = add_lines_lem m.log_lines lines
    update-log_lines (log line) = add_lines_lem m.log_lines (line ∷ [])
    update-log_lines (window_size width height) = same_lines m.log_lines _ h refl
    update-log_lines (kill_result none) = same_lines m.log_lines _ h (ground arith)
    update-log_lines (kill_result (some text)) = same_lines m.log_lines _ h refl
    update-log_lines _ = same_lines m.log_lines _ h refl

  run-log_lines_from :
      (m : Model fl w) (messages : List (World × Message F)) (past : List String)
      → Inv fl w true true m
      → m.log_lines ≡ last_of max_log_lines past
      → (run fl w m messages).0.log_lines ≡ last_of max_log_lines (past ++ all_lines messages)
  unfolding run
  run-log_lines_from m [] past v e = rw append-nil e
  run-log_lines_from m ((world, message) ∷ messages) past v e =
      let next = (update fl w m world message).0 in
      let step =
        update-log_lines m world v (omega (arith, ap length e, last_of-length max_log_lines past))
          message in
      let shown =
        step
        ∙ (ap (λ xs. last_of max_log_lines (xs ++ new_lines message)) e
            ∙ last_of-append max_log_lines past (new_lines message)) in
      run-log_lines_from next messages (past ++ new_lines message)
        (update-Steps fl w true true m v world message (λ _. refl) (λ _. refl)).inv shown
      ∙ ap (last_of max_log_lines) (append_assoc past (new_lines message) (all_lines messages))

  -- Whatever messages a new terminal interface takes: the log that it keeps is the last thousand of
  -- the lines that were logged, in order, so a line is lost only when a thousand came after it.
  pub run-log_lines :
      (c : TuiConfig F) (view : w.View) (now : ℕ) (messages : List (World × Message F))
      → (run fl w (new_tui_model fl w c view now) messages).0.log_lines
        ≡ last_of max_log_lines (all_lines messages)
  unfolding new_tui_model
  run-log_lines c view now messages =
      run-log_lines_from _ messages [] (new_tui_model-Inv fl w true true c view now) refl
