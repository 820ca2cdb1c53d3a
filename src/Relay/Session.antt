-- ===== src/Relay/Session.antt =====
-- internal/relay/client.go: the life of a `Client`: `NewClient`, `connect`, the messages that
-- `readLoop` takes, the worker of the queue, and the goroutines beside them.
-- An instruction is run as one event of the worker: what the worker and the read loop both change
-- meanwhile is `sent` alone.
pub mod Kept
pub mod Safety
pub mod Flag
pub mod Pause
use degenbox_hyperliquid_cli.Text.{has_prefix}
use degenbox_hyperliquid_cli.Relay.Canonical.{JsonText, instruction_canonical}
use degenbox_hyperliquid_cli.Base.Int.{
  ◌*ℤ◌, ℤ, pos, negsuc, pos_part, neg_part, sub_ℕ, ltb_ℤ, eqb_ℤ, ◌≤ℤ◌, ◌+ℤ◌, ◌-ℤ◌,
}
use degenbox_hyperliquid_cli.Clock.{
  to_int64, second, minute, max_duration, sub, before, add_neg, unix_milli,
}
use Prim.Native.Char.{code}
use degenbox_hyperliquid_cli.Hyperliquid.Exchange.{Transport}
use degenbox_hyperliquid_cli.Relay.Types.{
  InstructionRelayMsg, auth, ping, pong, client_log, ExecutionStep, ExecutionInstruction, Action,
  update_leverage, place_order, cancel_by_cloid, cancel_by_oid, modify_order, unknown_action,
  action_of,
}
use degenbox_hyperliquid_cli.Relay.Dedup.{new_instruction_dedup}
use degenbox_hyperliquid_cli.Relay.RateLimit.{new_rate_limiter}
use degenbox_hyperliquid_cli.Relay.CircuitBreaker.{new_circuit_breaker}
use degenbox_hyperliquid_cli.Relay.State.{ClientState, send_json, on_trip}
use degenbox_hyperliquid_cli.Relay.Intake.{Crypto, begin_instruction, check_signature}
use degenbox_hyperliquid_cli.Relay.Executor.{execute_instruction}
use degenbox_hyperliquid_cli.Float.{Float64, IsNan, NanPropagates}
use degenbox_hyperliquid_cli.Hyperliquid.Types.{
  OrderWire, ModifySpec, TriggerWire, ClearinghouseState,
}
use degenbox_hyperliquid_cli.Relay.Validator.{
  RiskLimits, AssetResolver, OrderError, StepError, InstructionError, unknown_asset, invalid_price,
  invalid_size, invalid_trigger_price, notional_exceeds, price_deviates, trigger_deviates,
  parse_positive, notional_price, deviation, check_deviation, check_oracle, validate_order,
  validate_orders, validate_place_order, validate_leverage, validate_action, validate_step,
  validate_steps, validate,
}
use degenbox_hyperliquid_cli.Base.{
  ℕ, zero, suc, ◌+◌, ◌-◌, ◌*◌, ◌/◌, ◌%◌, ◌^◌, ◌≤◌, ◌<◌, min, ◌≡◌, refl, sym, ap, ◌∙◌, subst, ◌≢◌,
  ◌↔◌, ◌⊎◌, inl, inr, Bool, true, false, not, ◌&&◌, ◌||◌, Option, none, some, List, [], ◌∷◌, ◌++◌,
  map, append_assoc, append-nil, arith, ltb, leb, ◌==◌, if◌then◌else◌, Bool-cases, Option-cases,
  length, get_elem?, set, get_or, replicate, drop, length-append, length-set, length-replicate,
  length-drop, get_or-set_self, get_or-set_ne, All, All-append, All-mono, All-get_elem?, decimal,
  String, str_eq, eq_iff,
}

-- `Config`.
pub record Config : Type 0 where
  pub server_url : String
  pub api_key : String
  pub client_id : ℤ
  pub server_public_key : String
  pub version : String
  pub max_consecutive_losses : ℤ
  pub cooldown_minutes : ℤ

pub data ClientError : Type 0 where
  no_public_key bad_public_key : ClientError

-- `NewClient`; `decode_hex` gives the number of bytes that `hex.DecodeString` returns.
unfoldable pub new_client : (String → Option ℕ) → Config → ℤ → ClientError ⊎ ClientState
unfolding new_instruction_dedup new_rate_limiter new_circuit_breaker to_int64
new_client decode_hex cfg max_per_minute =
    if str_eq cfg.server_public_key ""
    then inl no_public_key
    else elim (decode_hex cfg.server_public_key) [
      | none ↦ inl bad_public_key
      | some bytes ↦
          if bytes == 32
          then inr (record {
            dedup = new_instruction_dedup 1000 (pos (5 * minute));
            rate_limit = new_rate_limiter max_per_minute;
            breaker =
                new_circuit_breaker cfg.max_consecutive_losses
                  (to_int64 (cfg.cooldown_minutes *ℤ pos minute));
            sig_failures = [];
            paused = false;
            connected = false;
            has_conn = false;
            conn_closed = false;
            pending_trips = 0;
            exec_queue = [];
            last_nonce = pos 0;
            trades = [];
            sent = [];
          })
          else inl bad_public_key
    ]

-- What a connection attempt meets: the dial, the writing of the authentication, and the first
-- message, where it can be read, with what its decoding gives.
pub record Handshake : Type 0 where
  pub dialled : Bool
  pub auth_written : Bool
  pub reply : Option (Option (Bool × String))

pub data ConnectError : Type 0 where
  insecure_url dial_failed auth_unsent no_reply bad_reply : ConnectError
  auth_refused : String → ConnectError

-- The tail of `connect`, from the first message on.
unfoldable pub await_reply :
    ClientState → Option (Option (Bool × String)) → ClientState × Option ConnectError
await_reply c none = (record c { conn_closed = true }, some no_reply)
await_reply c (some none) = (record c { conn_closed = true }, some bad_reply)
await_reply c (some (some (success, error))) =
    if success
    then (record c { connected = true }, none)
    else (record c { conn_closed = true }, some (auth_refused error))

-- `connect`.
unfoldable pub connect : Config → Handshake → ClientState → ClientState × Option ConnectError
connect cfg h c =
    if not (has_prefix cfg.server_url "wss://")
    then (c, some insecure_url)
    else if not h.dialled
    then (c, some dial_failed)
    else (let c' = record c { has_conn = true; conn_closed = false } in
        if h.auth_written
        then await_reply (send_json c' (auth cfg.api_key cfg.client_id cfg.version)) h.reply
        else (record c' { conn_closed = true }, some auth_unsent))

-- `SendLog`.
unfoldable pub send_log : ClientState → String → String → List (String × String) → ClientState
send_log c level message attrs =
    if not c.connected || c.paused then c else send_json c (client_log level message attrs)

-- A message that was read, with what the decoders make of it: an `instructionRelayMsg`, and the
-- field `paused` of a `ConfigUpdateMsg`.
pub record Incoming : Type 0 where
  pub kind : String
  pub as_instruction : Option InstructionRelayMsg
  pub as_config : Option (Option Bool)

-- The field `paused` of a configuration update, where it is set.
unfoldable pub update_config : ClientState → Option (Option Bool) → ClientState
update_config c none = c
update_config c (some none) = c
update_config c (some (some paused)) = record c { paused = paused }

-- What the goroutines beside the read loop can do: the worker, the callback of the circuit breaker,
-- the heartbeat and the log.
pub data Work : Type 0 where
  worked : (ℕ → ℕ) → Work
  tripped : Work
  beat : Work
  logged : String → String → List (String × String) → Work

-- One round of `execWorker`; an empty queue keeps it waiting.
unfoldable pub take_instruction : Transport → ClientState → (ℕ → ℕ) → ClientState
take_instruction tr c times = elim c.exec_queue [
  | [] ↦ c
  | instr ∷ rest ↦ execute_instruction tr (record c { exec_queue = rest }) instr times
]

unfoldable pub do_work : Transport → ClientState → Work → ClientState
do_work tr c (worked times) = take_instruction tr c times
do_work tr c tripped = if c.pending_trips == 0 then c else on_trip c
do_work tr c beat = send_json c ping
do_work tr c (logged level message attrs) = send_log c level message attrs

unfoldable pub do_works : Transport → ClientState → List Work → ClientState
do_works tr c [] = c
do_works tr c (w ∷ ws) = do_works tr (do_work tr c w) ws

-- The switch of `readLoop`, for an instruction up to the test of its timestamp: the instruction that
-- is left to check, if there is one. The callbacks of the other messages do not touch the client.
unfoldable pub begin_message :
    ClientState → ℕ → Incoming → ClientState × Option ExecutionInstruction
begin_message c now msg =
    if str_eq msg.kind "instruction_relay"
    then elim msg.as_instruction [
      | none ↦ (c, none)
      | some relay ↦
          let (c', goes_on) = begin_instruction c now relay in
          (c', if goes_on then some relay.instruction else none)
    ]
    else if str_eq msg.kind "ping"
    then (send_json c pong, none)
    else if str_eq msg.kind "config_update"
    then (update_config c msg.as_config, none)
    else (c, none)

module _ (fl : Float64) (crypto : Crypto) (jt : JsonText) (tr : Transport) where
  -- The rest of `handleInstruction`, from the signature on, with the risk limits and the markets as
  -- they stand at the time.
  unfoldable pub finish_message :
      RiskLimits fl.F → AssetResolver → ClientState → ℕ → Option ExecutionInstruction → ClientState
  finish_message limits resolver c now none = c
  finish_message limits resolver c now (some instr) =
      check_signature fl limits resolver crypto jt c now instr

  -- A message that is read, with what the other goroutines do after the pause was looked at and
  -- before the rest of the message is handled. What they do later in that rest comes to the same, up
  -- to the order of what is sent: it reads only the queue of what they write, at its end.
  unfoldable pub read_message :
      RiskLimits fl.F → AssetResolver → ClientState → ℕ → Incoming → List Work → ClientState
  read_message limits resolver c now msg between =
      let (c', left) = begin_message c now msg in
      finish_message limits resolver (do_works tr c' between) now left

  -- What can happen to a client that was started.
  pub data Event : Type 0 where
    received : RiskLimits fl.F → AssetResolver → ℕ → Incoming → List Work → Event
    beside : Work → Event
    disconnected : Event
    reconnected : Config → Handshake → Event

  unfoldable pub handle_event : ClientState → Event → ClientState
  handle_event c (received limits resolver now msg between) =
      read_message limits resolver c now msg between
  handle_event c (beside w) = do_work tr c w
  handle_event c disconnected = record c { connected = false; conn_closed = true }
  handle_event c (reconnected cfg h) = (connect cfg h c).0

  unfoldable pub run : ClientState → List Event → ClientState
  run c [] = c
  run c (e ∷ es) = run (handle_event c e) es
