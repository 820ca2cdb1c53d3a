-- ===== src/Examples/Logging.antt =====
-- The log of the terminal interface at concrete records, with styles that change nothing.
use degenbox_hyperliquid_cli.Bot.LogHandler.{
  Styles, LogRecord, new_tui_log_handler, line_of, level_tag, side_of, join_parts, message_text,
}
use degenbox_hyperliquid_cli.Bot.LogHandler.Delivered.{
  LogEvent, logged, program_set, flushed, run, run-delivered,
}
use degenbox_hyperliquid_cli.Base.{◌≡◌, refl, List, [], ◌∷◌, ◌++◌, String}
use degenbox_hyperliquid_cli.Base.Int.{pos}

abbrev plain : Styles
plain = record {
  format_time = λ t. "12:00:00";
  style_log_time = λ t. t;
  style_log_attr = λ t. t;
  style_green = λ t. t;
  style_red = λ t. t;
  style_log_error = λ t. t;
  style_log_warn = λ t. t;
  style_log_info = λ t. t;
  style_log_debug = λ t. t;
  pad = λ t. t;
}

abbrev entry : String → LogRecord
entry text = record {
  time = pos 0;
  level = pos 4;
  message = text;
  attrs = record { key = "side"; value = "BUY" } ∷ [];
}

line : line_of plain [] (entry "filled") ≡ " 12:00:00 WARN filled  side=BUY"
unfolding line_of level_tag side_of join_parts message_text
line = refl

abbrev events : List LogEvent
events =
    logged (entry "one")
    ∷ program_set
    ∷ logged (entry "two")
    ∷ flushed
    ∷ logged (entry "three")
    ∷ []

run-delivered_example :
    ((run plain (new_tui_log_handler (pos 0)) events).1
        ++ (run plain (new_tui_log_handler (pos 0)) events).0.buf
      ≡ line_of plain [] (entry "one") ∷ [])
    × ((run plain (new_tui_log_handler (pos 0)) events).2
        ≡ line_of plain [] (entry "two") ∷ line_of plain [] (entry "three") ∷ [])
run-delivered_example = run-delivered plain (pos 0) events
