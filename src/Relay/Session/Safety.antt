-- ===== src/Relay/Session/Safety.antt =====
-- What holds of a client of internal/relay/client.go after any sequence of events.
use degenbox_hyperliquid_cli.Relay.Canonical.{JsonText}
use degenbox_hyperliquid_cli.Hyperliquid.Exchange.{Transport}
use degenbox_hyperliquid_cli.Relay.Types.{InstructionRelayMsg, ping, pong, ExecutionInstruction}
use degenbox_hyperliquid_cli.Relay.State.{ClientState}
use degenbox_hyperliquid_cli.Relay.Dedup.{new_instruction_dedup}
use degenbox_hyperliquid_cli.Relay.RateLimit.{new_rate_limiter}
use degenbox_hyperliquid_cli.Relay.Validator.Steps.{
  StepsWithin, AllLower, validate_sound, validate-AllLower,
}
use degenbox_hyperliquid_cli.Relay.Intake.{Crypto, queue_capacity, begin_instruction}
use degenbox_hyperliquid_cli.Relay.Intake.Signature.{IsSigned}
use degenbox_hyperliquid_cli.Relay.Intake.Queue.{check_signature-Queued}
use degenbox_hyperliquid_cli.Relay.Intake.Bounds.{
  Bounded, begin_instruction-Bounded, check_signature-Bounded,
}
use degenbox_hyperliquid_cli.Relay.Session.{
  Config, new_client, Incoming, read_message, take_instruction, Event, received, worked, tripped,
  beat, logged, disconnected, reconnected, handle_event, run, Work, do_work, do_works,
  begin_message, finish_message, beside,
}
use degenbox_hyperliquid_cli.Relay.Session.Kept.{
  Kept, send_json-Kept, on_trip-Kept, send_log-Kept, update_config-Kept, connect-Kept,
  execute_instruction-Kept,
}
use degenbox_hyperliquid_cli.Float.{Float64}
use degenbox_hyperliquid_cli.Relay.Validator.{RiskLimits, AssetResolver, validate}
use degenbox_hyperliquid_cli.Base.{
  Among, subst, sym, Bool, true, false, if◌then◌else◌, ℕ, ◌*◌, ◌≤◌, ◌≡◌, refl, inl, inr, Option,
  none, some, List, [], ◌∷◌, arith, ◌==◌, Bool-cases, Option-cases, length, get_elem?,
  length-append, All, All-append, All-get_elem?, String, str_eq,
}
use degenbox_hyperliquid_cli.Base.Int.{ℤ, pos}
use degenbox_hyperliquid_cli.Clock.{minute}

module _ (fl : Float64) (crypto : Crypto) (jt : JsonText) (tr : Transport) where
  -- The events hold a message with an instruction that the server signed. `instr` is what the
  -- validator has made of it with the limits and the markets at the time of the event: the same but
  -- for leverages that were lowered, and its steps are within those limits.
  pub record Vetted (events : List (Event fl crypto jt tr)) (instr : ExecutionInstruction)
      : Type 0 where
    pub limits : RiskLimits fl.F
    pub resolver : AssetResolver
    pub now : ℕ
    pub msg : Incoming
    pub between : List Work
    pub seen : Among (received limits resolver now msg between) events
    pub relayed : str_eq msg.kind "instruction_relay" ≡ true
    pub relay : InstructionRelayMsg
    pub decoded : msg.as_instruction ≡ some relay
    pub signed : IsSigned crypto jt relay.instruction
    pub checked : instr ≡ (validate fl limits resolver relay.instruction).0
    pub same : instr ≡ record relay.instruction { steps = instr.steps }
    pub lower : AllLower fl limits resolver relay.instruction.steps instr.steps
    pub within : StepsWithin fl limits resolver relay.instruction.market instr.steps

  module _ (events : List (Event fl crypto jt tr)) where
    record Safe (c : ClientState) : Type 0 where
      vetted : All (Vetted events) c.exec_queue
      room : length c.exec_queue ≤ queue_capacity
      bounded : Bounded c

    Safe-Kept : (c c' : ClientState) → Kept c c' → Safe c → Safe c'
    Safe-Kept c c' k h = record {
      vetted = rw k.0 h.vetted;
      room = rw k.0 h.room;
      bounded = rw (k.1, k.2, k.3) h.bounded;
    }

    take_instruction-Safe :
        (c : ClientState) (times : ℕ → ℕ) → Safe c → Safe (take_instruction tr c times)
    unfolding take_instruction
    take_instruction-Safe c times h = split c.exec_queue refl
      where
        split :
            (q : List ExecutionInstruction) → c.exec_queue ≡ q → Safe (take_instruction tr c times)
        split [] e = rw (e, take_instruction) h
        split (instr ∷ rest) e =
            let taken = record c { exec_queue = rest } in
            rw (e, take_instruction)
              (Safe-Kept taken _ (execute_instruction-Kept tr taken instr times) (record {
                vetted = (rw e at h.vetted).1;
                room = let room = (rw e at h.room) in omega arith;
                bounded = h.bounded;
              }))

    do_work-Safe : (c : ClientState) (w : Work) → Safe c → Safe (do_work tr c w)
    unfolding do_work
    do_work-Safe c (worked times) h = take_instruction-Safe c times h
    do_work-Safe c tripped h = elim (Bool-cases (c.pending_trips == 0)) [
      | inl idle ↦ rw idle h
      | inr pending ↦ rw pending (Safe-Kept c _ (on_trip-Kept c) h)
    ]
    do_work-Safe c beat h = Safe-Kept c _ (send_json-Kept c ping) h
    do_work-Safe c (logged level message attrs) h =
        Safe-Kept c _ (send_log-Kept c level message attrs) h

    do_works-Safe : (c : ClientState) (ws : List Work) → Safe c → Safe (do_works tr c ws)
    unfolding do_works
    do_works-Safe c [] h = h
    do_works-Safe c (w ∷ ws) h = do_works-Safe (do_work tr c w) ws (do_work-Safe c w h)

    -- What is left of a message comes of the message.
    Left : Incoming → Option ExecutionInstruction → Type 0
    Left msg none = Unit {0}
    Left msg (some instr) =
        (str_eq msg.kind "instruction_relay" ≡ true)
        × ((relay : InstructionRelayMsg) × (msg.as_instruction ≡ some relay)
            × (relay.instruction ≡ instr))

    begin_instruction-queue :
        (c : ClientState) (now : ℕ) (relay : InstructionRelayMsg)
        → (begin_instruction c now relay).0.exec_queue ≡ c.exec_queue
    unfolding begin_instruction
    begin_instruction-queue c now relay = ground arith

    begin_instruction-Safe :
        (c : ClientState) (now : ℕ) (relay : InstructionRelayMsg)
        → Safe c
        → Safe (begin_instruction c now relay).0
    begin_instruction-Safe c now relay h =
        let same = begin_instruction-queue c now relay in
        record {
          vetted = rw same h.vetted;
          room = rw same h.room;
          bounded = begin_instruction-Bounded c now relay h.bounded;
        }

    Begun : Incoming → ClientState × Option ExecutionInstruction → Type 0
    Begun msg x = Safe x.0 × Left msg x.1

    some_if-inv :
        (msg : Incoming) (b : Bool) (relay : InstructionRelayMsg)
        → str_eq msg.kind "instruction_relay" ≡ true
        → msg.as_instruction ≡ some relay
        → Left msg (if b then some relay.instruction else none)
    unfolding Left
    some_if-inv msg true relay k e = (k, (relay, e, refl))
    some_if-inv msg false relay k e = tt

    begin_message-relay :
        (c : ClientState) (now : ℕ) (msg : Incoming) (relay : InstructionRelayMsg)
        → str_eq msg.kind "instruction_relay" ≡ true
        → msg.as_instruction ≡ some relay
        → begin_message c now msg ≡ (
          (begin_instruction c now relay).0,
          if (begin_instruction c now relay).1 then some relay.instruction else none,
        )
    unfolding begin_message
    begin_message-relay c now msg relay k e = rw (k, e, begin_message) refl

    begin_message-bad :
        (c : ClientState) (now : ℕ) (msg : Incoming)
        → str_eq msg.kind "instruction_relay" ≡ true
        → msg.as_instruction ≡ none
        → begin_message c now msg ≡ (c, none)
    unfolding begin_message
    begin_message-bad c now msg k e = rw (k, e, begin_message) refl

    begin_relay :
        (c : ClientState) (now : ℕ) (msg : Incoming)
        → str_eq msg.kind "instruction_relay" ≡ true
        → Safe c
        → Begun msg (begin_message c now msg)
    unfolding Begun Left
    begin_relay c now msg k h = elim (Option-cases msg.as_instruction) [
      | inl bad ↦ subst (Begun msg) (sym (begin_message-bad c now msg k bad)) (h, tt)
      | inr (relay, e) ↦ subst (Begun msg) (sym (begin_message-relay c now msg relay k e)) (
        begin_instruction-Safe c now relay h,
        some_if-inv msg (begin_instruction c now relay).1 relay k e,
      )
    ]

    begin_message-Begun :
        (c : ClientState) (now : ℕ) (msg : Incoming) → Safe c → Begun msg (begin_message c now msg)
    unfolding begin_message Begun Left
    begin_message-Begun c now msg h = elim (Bool-cases (str_eq msg.kind "instruction_relay")) [
      | inl instr ↦ begin_relay c now msg instr h
      | inr other ↦ elim (Bool-cases (str_eq msg.kind "ping")) [
        | inl is_ping ↦ rw (other, is_ping) (Safe-Kept c _ (send_json-Kept c pong) h, tt)
        | inr no_ping ↦ elim (Bool-cases (str_eq msg.kind "config_update")) [
          | inl config ↦
              rw (other, no_ping, config) (Safe-Kept c _ (update_config-Kept c msg.as_config) h, tt)
          | inr rest ↦ rw (other, no_ping, rest) (h, tt)
        ]
      ]
    ]

    module _ (limits : RiskLimits fl.F) (resolver : AssetResolver) (now : ℕ) (msg : Incoming)
        (between : List Work) (seen : Among (received limits resolver now msg between) events) where
      Vetted-validate :
          (relay : InstructionRelayMsg)
          → str_eq msg.kind "instruction_relay" ≡ true
          → msg.as_instruction ≡ some relay
          → IsSigned crypto jt relay.instruction
          → (validate fl limits resolver relay.instruction).1 ≡ none
          → Vetted events (validate fl limits resolver relay.instruction).0
      Vetted-validate relay relayed decoded signed valid =
          let (some_step, few, within) =
            validate_sound fl limits resolver relay.instruction valid in
          let (same, lower) = validate-AllLower fl limits resolver relay.instruction in
          record {
            limits = limits;
            resolver = resolver;
            now = now;
            msg = msg;
            between = between;
            seen = seen;
            relayed = relayed;
            relay = relay;
            decoded = decoded;
            signed = signed;
            checked = refl;
            same = same;
            lower = lower;
            within = within;
          }

      finish_message-Safe :
          (c : ClientState) (left : Option ExecutionInstruction)
          → Safe c
          → Left msg left
          → Safe (finish_message fl crypto jt tr limits resolver c now left)
      unfolding finish_message Left
      finish_message-Safe c none h from = h
      finish_message-Safe c (some instr) h (relayed, (relay, decoded, is)) =
          let bounded' =
            check_signature-Bounded fl limits resolver crypto jt c now instr h.bounded in
          let checked = (validate fl limits resolver instr).0 in
          elim (check_signature-Queued fl limits resolver crypto jt c now instr) [
            | inl (p, queued) ↦ record {
              vetted = rw queued (
                  All-append (Vetted events) c.exec_queue (checked ∷ []) h.vetted (
                    subst (λ i. Vetted events (validate fl limits resolver i).0) is
                        (Vetted-validate relay relayed decoded (rw is p.0) (rw is p.2.valid)),
                    tt,
                  ));
              room =
                  let room = p.2.room in
                  let longer = length-append c.exec_queue (checked ∷ []) in rw queued (omega arith);
              bounded = bounded';
            }
            | inr (fails, kept) ↦ record {
              vetted = rw kept h.vetted;
              room = rw kept h.room;
              bounded = bounded';
            }
          ]

      read_message-Safe :
          (c : ClientState)
          → Safe c
          → Safe (read_message fl crypto jt tr limits resolver c now msg between)
      unfolding read_message Begun
      read_message-Safe c h =
          let (safe, from) = begin_message-Begun c now msg h in
          finish_message-Safe (do_works tr (begin_message c now msg).0 between)
            (begin_message c now msg).1 (do_works-Safe (begin_message c now msg).0 between safe)
            from

    handle_event-Safe :
        (c : ClientState) (e : Event fl crypto jt tr)
        → Among e events
        → Safe c
        → Safe (handle_event fl crypto jt tr c e)
    unfolding handle_event
    handle_event-Safe c (received limits resolver now msg between) seen h =
        read_message-Safe limits resolver now msg between seen c h
    handle_event-Safe c (beside w) seen h = do_work-Safe c w h
    handle_event-Safe c disconnected seen h = record {
      vetted = h.vetted;
      room = h.room;
      bounded = h.bounded;
    }
    handle_event-Safe c (reconnected cfg s) seen h = Safe-Kept c _ (connect-Kept cfg s c) h

    run-Safe :
        (c : ClientState) (es : List (Event fl crypto jt tr))
        → ((e : Event fl crypto jt tr) → Among e es → Among e events)
        → Safe c
        → Safe (run fl crypto jt tr c es)
    unfolding run
    run-Safe c [] all h = h
    run-Safe c (e ∷ es) all h =
        run-Safe (handle_event fl crypto jt tr c e) es (λ e' there. all e' (inr there))
          (handle_event-Safe c e (all e (inl refl)) h)

  new_client-empty :
      (decode_hex : String → Option ℕ) (cfg : Config) (max_per_minute : ℤ) (c : ClientState)
      → new_client decode_hex cfg max_per_minute ≡ inr c
      → (c.exec_queue ≡ [])
        × (c.sig_failures ≡ [])
        × (c.dedup ≡ record { seen = []; max_size = 1000; ttl = pos (5 * minute) })
        × (c.rate_limit.timestamps ≡ [])
  unfolding new_client new_instruction_dedup new_rate_limiter
  new_client-empty decode_hex cfg max_per_minute c h =
      elim (Option-cases (decode_hex cfg.server_public_key)) [
        | inl bad ↦ absurd (ground arith)
        | inr (bytes, decoded) ↦ ground arith
      ]

  new_client-Safe :
      (events : List (Event fl crypto jt tr)) (decode_hex : String → Option ℕ) (cfg : Config)
      (max_per_minute : ℤ) (c : ClientState)
      → new_client decode_hex cfg max_per_minute ≡ inr c
      → Safe events c
  new_client-Safe events decode_hex cfg max_per_minute c h =
      let (queue, failures, seen, times) = new_client-empty decode_hex cfg max_per_minute c h in
      record {
        vetted = rw queue tt;
        room = rw queue (omega arith);
        bounded = rw (failures, seen, times) (omega arith, omega arith, omega arith, omega arith);
      }

  -- Whatever happens to a new client, in whatever order, for every instruction that waits for the
  -- executor there is a message among what happened whose instruction the server signed; the waiting
  -- one is what the validator made of it with the limits and the markets of the time when that message
  -- was checked, the same but for leverages that were lowered, and its steps are within those limits.
  pub run-Vetted :
      (decode_hex : String → Option ℕ) (cfg : Config) (max_per_minute : ℤ) (c : ClientState)
      (es : List (Event fl crypto jt tr)) (i : ℕ) (instr : ExecutionInstruction)
      → new_client decode_hex cfg max_per_minute ≡ inr c
      → get_elem? (run fl crypto jt tr c es).exec_queue i ≡ some instr
      → Vetted es instr
  run-Vetted decode_hex cfg max_per_minute c es i instr new waits =
      All-get_elem? (Vetted es) (run fl crypto jt tr c es).exec_queue i instr
        (run-Safe es c es (λ e there. there)
          (new_client-Safe es decode_hex cfg max_per_minute c new)).vetted
        waits

  -- Whatever happens to a new client, in whatever order, its queue has at most 16 instructions, it
  -- remembers fewer than five failures of signatures, no more ids than the deduplication has room
  -- for, and no more times than the rate limit.
  pub run-Bounded :
      (decode_hex : String → Option ℕ) (cfg : Config) (max_per_minute : ℤ) (c : ClientState)
      (es : List (Event fl crypto jt tr))
      → new_client decode_hex cfg max_per_minute ≡ inr c
      → (length (run fl crypto jt tr c es).exec_queue ≤ queue_capacity)
        × Bounded (run fl crypto jt tr c es)
  run-Bounded decode_hex cfg max_per_minute c es new =
      let safe =
        run-Safe es c es (λ e there. there)
          (new_client-Safe es decode_hex cfg max_per_minute c new) in
      (safe.room, safe.bounded)
