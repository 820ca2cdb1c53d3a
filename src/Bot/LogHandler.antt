-- ===== src/Bot/LogHandler.antt =====
-- cmd/bot/loghandler.go: the handler that writes the log into the terminal interface. Until the
-- program is set, lines are kept; `FlushCmd` gives them out.
pub mod Delivered
use Prim.Native.String.{◌++◌ as str_append}
use degenbox_hyperliquid_cli.Base.{
  Bool, true, false, not, List, [], ◌∷◌, ◌++◌, map, if◌then◌else◌, String, str_eq,
}
use degenbox_hyperliquid_cli.Base.Int.{ℤ, pos, negsuc, ltb_ℤ}

-- The styles of the lipgloss library, the text of a time, and the verb `%-5s`.
pub record Styles : Type 0 where
  pub format_time : ℤ → String
  pub style_log_time : String → String
  pub style_log_attr : String → String
  pub style_green : String → String
  pub style_red : String → String
  pub style_log_error : String → String
  pub style_log_warn : String → String
  pub style_log_info : String → String
  pub style_log_debug : String → String
  pub pad : String → String

pub record Attr : Type 0 where
  pub key : String
  pub value : String

pub record LogRecord : Type 0 where
  pub time : ℤ
  pub level : ℤ
  pub message : String
  pub attrs : List Attr

pub record TuiLogHandler : Type 0 where
  pub level : ℤ
  pub has_program : Bool
  pub attrs : List Attr
  pub buf : List String

-- `NewTUILogHandler`.
unfoldable pub new_tui_log_handler : ℤ → TuiLogHandler
new_tui_log_handler level = record { level = level; has_program = false; attrs = []; buf = [] }

-- `SetProgram`.
unfoldable pub set_program : TuiLogHandler → TuiLogHandler
set_program h = record h { has_program = true }

-- `FlushCmd`: the handler, and the lines of its message, none where there is none.
unfoldable pub flush_cmd : TuiLogHandler → TuiLogHandler × List String
flush_cmd h = (record h { buf = [] }, h.buf)

-- `Enabled`.
unfoldable pub enabled : TuiLogHandler → ℤ → Bool
enabled h l = not (ltb_ℤ l h.level)

-- `levelStyle`: the tag of a level, as it is shown.
unfoldable pub level_tag : Styles → ℤ → String
level_tag s l =
    if not (ltb_ℤ l (pos 8))
    then s.style_log_error (s.pad "ERROR")
    else if not (ltb_ℤ l (pos 4))
    then s.style_log_warn (s.pad "WARN")
    else if not (ltb_ℤ l (pos 0))
    then s.style_log_info (s.pad "INFO")
    else s.style_log_debug (s.pad "DEBUG")

-- The value of the last attribute "side".
unfoldable pub side_of : String → List Attr → String
side_of side [] = side
side_of side (a ∷ attrs) = side_of (if str_eq a.key "side" then a.value else side) attrs

abbrev pub attr_text : Styles → Attr → String
attr_text s a = str_append (s.style_log_attr (str_append a.key "=")) a.value

unfoldable pub join_parts : List String → String
join_parts [] = ""
join_parts (part ∷ []) = part
join_parts (part ∷ part' ∷ parts) = str_append part (str_append "  " (join_parts (part' ∷ parts)))

abbrev pub parts_text : List String → String
parts_text [] = ""
parts_text (part ∷ parts) = str_append "  " (join_parts (part ∷ parts))

-- The message, in the colour of its side.
unfoldable pub message_text : Styles → String → String → String
message_text s side message =
    if str_eq side "BUY"
    then s.style_green message
    else if str_eq side "SELL"
    then s.style_red message
    else message

-- The line of a record.
unfoldable pub line_of : Styles → List Attr → LogRecord → String
line_of s attrs r =
    let all = attrs ++ r.attrs in
    str_append " " (
      str_append (s.style_log_time (s.format_time r.time)) (
        str_append " " (
          str_append (level_tag s r.level) (
            str_append " " (
              str_append (message_text s (side_of "" all) r.message)
                (parts_text (map (attr_text s) all)))))))

-- `Handle`: the handler, and the lines that are sent to the program.
unfoldable pub handle : Styles → TuiLogHandler → LogRecord → TuiLogHandler × List String
handle s h r =
    if h.has_program
    then (h, line_of s h.attrs r ∷ [])
    else (record h { buf = h.buf ++ (line_of s h.attrs r ∷ []) }, [])

-- `WithAttrs`: another handler, with a buffer of its own.
unfoldable pub with_attrs : TuiLogHandler → List Attr → TuiLogHandler
with_attrs h attrs = record {
  level = h.level;
  has_program = h.has_program;
  attrs = h.attrs ++ attrs;
  buf = [];
}
