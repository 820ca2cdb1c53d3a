-- ===== src/Examples/Session.antt =====
-- The client at concrete events.
use degenbox_hyperliquid_cli.Text.{has_prefix}
use degenbox_hyperliquid_cli.Base.Int.{◌*ℤ◌, pos}
use degenbox_hyperliquid_cli.Examples.FixedPoint.{fixed}
use degenbox_hyperliquid_cli.Examples.Validation.{limits, resolver, entry}
use degenbox_hyperliquid_cli.Examples.Orders.{exchange, client}
use degenbox_hyperliquid_cli.Relay.Types.{action_of, InstructionRelayMsg}
use degenbox_hyperliquid_cli.Relay.State.{ClientState, send_json}
use degenbox_hyperliquid_cli.Relay.Dedup.{
  check, is_duplicate, lookup, make_room, insert, delete, keep,
}
use degenbox_hyperliquid_cli.Relay.RateLimit.{allow, evict}
use degenbox_hyperliquid_cli.Relay.Portfolio.{estimate_instruction_notional, validate_portfolio}
use degenbox_hyperliquid_cli.Relay.Intake.{
  is_current, check_signature, signature_error, check_rate, check_risk, check_portfolio,
  portfolio_error, enqueue, Crypto, queue_capacity, handle_instruction, begin_instruction,
}
use degenbox_hyperliquid_cli.Relay.Canonical.{instruction_canonical, JsonText}
use degenbox_hyperliquid_cli.Relay.Session.{
  handle_event, connect, await_reply, read_message, Config, new_client, Event, received, beat,
  beside, logged, send_log, begin_message, finish_message, do_works, do_work, reconnected, run,
}
use degenbox_hyperliquid_cli.Relay.Validator.{
  validate, validate_steps, validate_step, validate_order,
}
use degenbox_hyperliquid_cli.Relay.Intake.Queue.{Queued, Passes, handle_instruction-Queued}
use degenbox_hyperliquid_cli.Relay.Intake.Bounds.{Bounded}
use degenbox_hyperliquid_cli.Relay.Session.Safety.{Vetted, run-Vetted, run-Bounded}
use degenbox_hyperliquid_cli.Base.{
  ℕ, ◌≤◌, ◌≡◌, refl, inr, true, false, none, some, List, [], ◌∷◌, length, get_elem?, String, str_eq,
}

-- Every text is signed by "00".
abbrev pub crypto : Crypto
crypto = record {
  Bytes = String;
  decode_hex = λ s. some s;
  verify = λ text sig_bytes. str_eq sig_bytes "00";
}

abbrev pub json_text : JsonText
json_text = record { quote = λ s. s; float_text = λ n. "" }

-- The first second of 1970.
abbrev at : ℕ
at = 62_135_596_801_000_000_000

abbrev message : InstructionRelayMsg
message = record { timestamp = pos 1_000; instruction = entry }

handle_instruction-Queued_example :
    Queued
      (Passes fixed limits resolver crypto json_text client at message)
      []
      (handle_instruction fixed limits resolver crypto json_text client at
        (some message)).exec_queue
      (validate fixed limits resolver entry).0
handle_instruction-Queued_example =
    handle_instruction-Queued fixed limits resolver crypto json_text client at message

abbrev pub config : Config
config = record {
  server_url = "wss://relay/ws";
  api_key = "k";
  client_id = pos 1;
  server_public_key = "aa";
  version = "1";
  max_consecutive_losses = pos 2;
  cooldown_minutes = pos 30;
}

abbrev fresh_client : ClientState
fresh_client = record {
  dedup = record { seen = []; max_size = 1000; ttl = pos 300_000_000_000 };
  rate_limit = record { limit = 30; timestamps = [] };
  breaker = record {
    max_consecutive = 2;
    cooldown = pos 1_800_000_000_000;
    consecutive_fails = 0;
    tripped_at = 0;
  };
  sig_failures = [];
  paused = false;
  connected = false;
  has_conn = false;
  conn_closed = false;
  pending_trips = 0;
  exec_queue = [];
  last_nonce = pos 0;
  trades = [];
  sent = [];
}

fresh_client_is_new : new_client (λ s. some 32) config (pos 0) ≡ inr fresh_client
unfolding new_client ◌*ℤ◌
fresh_client_is_new = refl

abbrev pub events : List (Event fixed crypto json_text exchange)
events =
    reconnected config
      (record { dialled = true; auth_written = true; reply = some (some (true, "")) })
    ∷ beside beat
    ∷ received limits resolver at
        (record { kind = "instruction_relay"; as_instruction = some message; as_config = none })
        (logged "info" "m" [] ∷ [])
    ∷ []

run-Bounded_example :
    (length (run fixed crypto json_text exchange fresh_client events).exec_queue ≤ queue_capacity)
    × Bounded (run fixed crypto json_text exchange fresh_client events)
run-Bounded_example =
    run-Bounded fixed crypto json_text exchange (λ s. some 32) config (pos 0) fresh_client events
      fresh_client_is_new

waits :
    get_elem? (run fixed crypto json_text exchange fresh_client events).exec_queue 0
    ≡ some (validate fixed limits resolver entry).0
unfolding run handle_event connect has_prefix await_reply send_json read_message begin_message
    begin_instruction finish_message do_works do_work send_log check is_duplicate lookup make_room
    insert delete keep is_current check_signature signature_error instruction_canonical check_rate
    allow evict check_risk check_portfolio portfolio_error estimate_instruction_notional
    validate_portfolio enqueue validate validate_steps validate_step validate_order action_of
waits = refl

run-Vetted_example :
    Vetted fixed crypto json_text exchange events (validate fixed limits resolver entry).0
run-Vetted_example =
    run-Vetted fixed crypto json_text exchange (λ s. some 32) config (pos 0) fresh_client events 0
      (validate fixed limits resolver entry).0 fresh_client_is_new waits
