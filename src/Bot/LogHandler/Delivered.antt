-- ===== src/Bot/LogHandler/Delivered.antt =====
-- cmd/bot/loghandler.go: which lines reach the terminal interface.
use degenbox_hyperliquid_cli.Bot.LogHandler.{
  Styles, Attr, LogRecord, TuiLogHandler, new_tui_log_handler, set_program, flush_cmd, enabled,
  line_of, handle,
}
use degenbox_hyperliquid_cli.Base.{
  Bool, true, false, not, ◌≡◌, refl, sym, ap, ◌∙◌, List, [], ◌∷◌, ◌++◌, append_assoc, append-nil,
  if◌then◌else◌, String, Bool-cases, inl, inr,
}
use degenbox_hyperliquid_cli.Base.Int.{ℤ, ltb_ℤ}

-- What happens to a handler: a record is logged, the program is set, the kept lines are asked for.
pub data LogEvent : Type 0 where
  logged : LogRecord → LogEvent
  program_set : LogEvent
  flushed : LogEvent

-- The handler after an event, the lines of a flush, and the lines that are sent.
abbrev pub step : Styles → TuiLogHandler → LogEvent → TuiLogHandler × List String × List String
step s h (logged r) =
    if enabled h r.level then ((handle s h r).0, [], (handle s h r).1) else (h, [], [])
step s h program_set = (set_program h, [], [])
step s h flushed = ((flush_cmd h).0, (flush_cmd h).1, [])

abbrev pub run : Styles → TuiLogHandler → List LogEvent → TuiLogHandler × List String × List String
run s h [] = (h, [], [])
run s h (e ∷ es) =
    let (h', out, sent) = step s h e in
    let (h'', outs, sents) = run s h' es in (h'', out ++ outs, sent ++ sents)

-- The line of a record of at least the level.
abbrev pub line_if : Styles → ℤ → List Attr → LogRecord → List String
line_if s level attrs r = if not (ltb_ℤ r.level level) then line_of s attrs r ∷ [] else []

-- The lines of all records, of those before the program is set, and of those after.
abbrev pub all_lines : Styles → ℤ → List Attr → List LogEvent → List String
all_lines s level attrs [] = []
all_lines s level attrs (logged r ∷ es) = line_if s level attrs r ++ all_lines s level attrs es
all_lines s level attrs (program_set ∷ es) = all_lines s level attrs es
all_lines s level attrs (flushed ∷ es) = all_lines s level attrs es

abbrev pub early_lines : Styles → ℤ → List Attr → List LogEvent → List String
early_lines s level attrs [] = []
early_lines s level attrs (logged r ∷ es) = line_if s level attrs r ++ early_lines s level attrs es
early_lines s level attrs (program_set ∷ es) = []
early_lines s level attrs (flushed ∷ es) = early_lines s level attrs es

abbrev pub late_lines : Styles → ℤ → List Attr → List LogEvent → List String
late_lines s level attrs [] = []
late_lines s level attrs (logged r ∷ es) = late_lines s level attrs es
late_lines s level attrs (program_set ∷ es) = all_lines s level attrs es
late_lines s level attrs (flushed ∷ es) = late_lines s level attrs es

module _ (s : Styles) (level : ℤ) (attrs : List Attr) where
  abbrev handler : Bool → List String → TuiLogHandler
  handler has_program buf = record {
    level = level;
    has_program = has_program;
    attrs = attrs;
    buf = buf;
  }

  step-sent :
      (buf : List String) (r : LogRecord)
      → step s (handler true buf) (logged r) ≡ (handler true buf, [], line_if s level attrs r)
  unfolding handle enabled
  step-sent buf r = elim (Bool-cases (ltb_ℤ r.level level)) [
    | inl t ↦ rw t refl
    | inr f ↦ rw f refl
  ]

  step-kept :
      (buf : List String) (r : LogRecord)
      → step s (handler false buf) (logged r)
        ≡ (handler false (buf ++ line_if s level attrs r), [], [])
  unfolding handle enabled
  step-kept buf r = elim (Bool-cases (ltb_ℤ r.level level)) [
    | inl t ↦ rw t (rw (append-nil buf) refl)
    | inr f ↦ rw f refl
  ]

  -- With the program set, all that is logged is sent, and the kept lines stay or are flushed.
  run-sent :
      (buf : List String) (es : List LogEvent)
      → ((run s (handler true buf) es).1 ++ (run s (handler true buf) es).0.buf ≡ buf)
        × ((run s (handler true buf) es).2 ≡ all_lines s level attrs es)
  unfolding set_program flush_cmd
  run-sent buf [] = (refl, refl)
  run-sent buf (logged r ∷ es) =
      rw (step-sent buf r) (
        let (kept, sent) = run-sent buf es in (kept, ap (λ xs. line_if s level attrs r ++ xs) sent))
  run-sent buf (program_set ∷ es) = run-sent buf es
  run-sent buf (flushed ∷ es) =
      let (kept, sent) = run-sent [] es in
      (append_assoc buf _ _ ∙ ap (λ xs. buf ++ xs) kept ∙ append-nil buf, sent)

  run-kept :
      (buf : List String) (es : List LogEvent)
      → ((run s (handler false buf) es).1 ++ (run s (handler false buf) es).0.buf
          ≡ buf ++ early_lines s level attrs es)
        × ((run s (handler false buf) es).2 ≡ late_lines s level attrs es)
  unfolding set_program flush_cmd
  run-kept buf [] = (sym (append-nil buf), refl)
  run-kept buf (logged r ∷ es) = rw (step-kept buf r) (
      let (kept, sent) = run-kept (buf ++ line_if s level attrs r) es in
      (kept ∙ append_assoc buf _ _, sent))
  run-kept buf (program_set ∷ es) =
      let (kept, sent) = run-sent buf es in (kept ∙ sym (append-nil buf), sent)
  run-kept buf (flushed ∷ es) =
      let (kept, sent) = run-kept [] es in (append_assoc buf _ _ ∙ ap (λ xs. buf ++ xs) kept, sent)

-- Over any sequence of records, calls of SetProgram and calls of FlushCmd on one new handler, the
-- lines that FlushCmd has given out and those still in the buffer are those of the records of at
-- least its level before the first SetProgram, in order, each once; the lines handed to `Send` of the
-- program are those of such records after it, in order, each once.
pub run-delivered :
    (s : Styles) (level : ℤ) (es : List LogEvent)
    → ((run s (new_tui_log_handler level) es).1 ++ (run s (new_tui_log_handler level) es).0.buf
        ≡ early_lines s level [] es)
      × ((run s (new_tui_log_handler level) es).2 ≡ late_lines s level [] es)
unfolding new_tui_log_handler
run-delivered s level es = run-kept s level [] [] es
