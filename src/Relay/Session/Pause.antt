-- ===== src/Relay/Session/Pause.antt =====
-- What a pause of the client of internal/relay/client.go stops, and what it does not.
use degenbox_hyperliquid_cli.Relay.Types.{InstructionRelayMsg, ping, pong, ExecutionInstruction}
use degenbox_hyperliquid_cli.Relay.Session.{
  Incoming, read_message, take_instruction, Event, received, worked, tripped, beat, logged,
  disconnected, reconnected, handle_event, run, Work, do_work, do_works, begin_message,
  finish_message, beside,
}
use degenbox_hyperliquid_cli.Hyperliquid.Exchange.{Transport}
use degenbox_hyperliquid_cli.Relay.State.{ClientState, on_trip}
use degenbox_hyperliquid_cli.Relay.Canonical.{JsonText}
use degenbox_hyperliquid_cli.Relay.Dedup.{check}
use degenbox_hyperliquid_cli.Relay.Executor.{execute_instruction}
use degenbox_hyperliquid_cli.Relay.Intake.{Crypto, begin_instruction}
use degenbox_hyperliquid_cli.Relay.Intake.Queue.{check_signature-Queued}
use degenbox_hyperliquid_cli.Relay.Validator.{validate, RiskLimits, AssetResolver}
use degenbox_hyperliquid_cli.Relay.Session.Flag.{
  check_signature-paused, send_json-paused, on_trip-paused, send_log-paused, connect-paused,
  update_config-paused, update_config-queue, execute_instruction-paused,
  execute_instruction-set_paused,
}
use degenbox_hyperliquid_cli.Relay.Session.Kept.{
  send_json-Kept, on_trip-Kept, send_log-Kept, connect-Kept, execute_instruction-Kept,
}
use degenbox_hyperliquid_cli.Float.{Float64}
use degenbox_hyperliquid_cli.Base.{
  append-nil, Option-cases, none, some, Option, ℕ, ◌≡◌, refl, sym, ap, ◌∙◌, subst, ◌≢◌, ◌⊎◌, inl,
  inr, Bool, true, false, List, [], ◌∷◌, ◌++◌, append_assoc, arith, ◌==◌, if◌then◌else◌, Bool-cases,
  All, str_eq,
}

-- The client is paused, and all that happened to its queue is that instructions were taken off.
record Held (c c' : ClientState) : Type 0 where
  paused : c'.paused ≡ true
  taken : List ExecutionInstruction
  left : c.exec_queue ≡ taken ++ c'.exec_queue

Held-trans : (a b c : ClientState) → Held a b → Held b c → Held a c
Held-trans a b c h k = record {
  paused = k.paused;
  taken = h.taken ++ k.taken;
  left =
      h.left
      ∙ ap (λ (q : List ExecutionInstruction). h.taken ++ q) k.left
      ∙ sym (append_assoc h.taken k.taken c.exec_queue);
}

Held-Kept : (c c' : ClientState) → c'.exec_queue ≡ c.exec_queue → c'.paused ≡ true → Held c c'
Held-Kept c c' k p = record { paused = p; taken = []; left = sym k }

pick_first {ℓ} : {A : Type ℓ} (b : Bool) (x y : A) → b ≡ true → (if b then x else y) ≡ x
pick_first b x y h = rw h refl

module _ (tr : Transport) where
  take_instruction-Held :
      (c : ClientState) (times : ℕ → ℕ) → c.paused ≡ true → Held c (take_instruction tr c times)
  unfolding take_instruction
  take_instruction-Held c times p = split c.exec_queue refl
    where
      split :
          (q : List ExecutionInstruction) → c.exec_queue ≡ q → Held c (take_instruction tr c times)
      split [] e = Held-Kept c _ (rw (e, take_instruction) e) (rw (e, take_instruction) p)
      split (instr ∷ rest) e =
          let taken' = record c { exec_queue = rest } in
          rw (e, take_instruction)
            (record {
              paused = execute_instruction-paused tr taken' instr times ∙ p;
              taken = instr ∷ [];
              left =
                  ap (λ (q : List ExecutionInstruction). instr ∷ q)
                    (sym (execute_instruction-Kept tr taken' instr times).0);
            })

  do_work-Held : (c : ClientState) (w : Work) → c.paused ≡ true → Held c (do_work tr c w)
  unfolding do_work
  do_work-Held c (worked times) p = take_instruction-Held c times p
  do_work-Held c tripped p = elim (Bool-cases (c.pending_trips == 0)) [
    | inl idle ↦ rw idle (Held-Kept c c refl p)
    | inr pending ↦ rw pending (Held-Kept c _ (on_trip-Kept c).0 (on_trip-paused c))
  ]
  do_work-Held c beat p = Held-Kept c _ (send_json-Kept c ping).0 (send_json-paused c ping ∙ p)
  do_work-Held c (logged level message attrs) p =
      Held-Kept c _ (send_log-Kept c level message attrs).0
        (send_log-paused c level message attrs ∙ p)

  do_works-Held : (c : ClientState) (ws : List Work) → c.paused ≡ true → Held c (do_works tr c ws)
  unfolding do_works
  do_works-Held c [] p = Held-Kept c c refl p
  do_works-Held c (w ∷ ws) p =
      let first = do_work-Held c w p in
      Held-trans c (do_work tr c w) _ first (do_works-Held (do_work tr c w) ws first.paused)

-- A message that begins in a paused client leaves nothing to check.
record Stops (c : ClientState) (x : ClientState × Option ExecutionInstruction) : Type 0 where
  held : Held c x.0
  over : x.1 ≡ none

begin_instruction-paused :
    (c : ClientState) (now : ℕ) (relay : InstructionRelayMsg)
    → c.paused ≡ true
    → begin_instruction c now relay
      ≡ (record c { dedup = (check c.dedup now relay.instruction.instruction_id).0 }, false)
unfolding begin_instruction
begin_instruction-paused c now relay p =
    elim (Bool-cases (check c.dedup now relay.instruction.instruction_id).1) [
      | inl fresh ↦ rw fresh (pick_first c.paused _ _ p)
      | inr seen ↦ rw seen refl
    ]

begin_message-relay :
    (c : ClientState) (now : ℕ) (msg : Incoming)
    → str_eq msg.kind "instruction_relay" ≡ true
    → c.paused ≡ true
    → Stops c (begin_message c now msg)
unfolding begin_message
begin_message-relay c now msg k p = elim (Option-cases msg.as_instruction) [
  | inl bad ↦
      subst (Stops c) (sym (rw (k, bad, begin_message) refl))
        (record { held = Held-Kept c c refl p; over = refl })
  | inr (relay, e) ↦
      let same : begin_message c now msg ≡ (
        (begin_instruction c now relay).0,
        if (begin_instruction c now relay).1 then some relay.instruction else none,
      ) =
        rw (k, e, begin_message) refl in
      subst (Stops c) (sym same) (
        rw (begin_instruction-paused c now relay p)
          (record { held = Held-Kept c _ refl p; over = refl }))
]

begin_message-Stops :
    (c : ClientState) (now : ℕ) (msg : Incoming)
    → ((str_eq msg.kind "config_update" ≡ false) ⊎ (msg.as_config ≢ some (some false)))
    → c.paused ≡ true
    → Stops c (begin_message c now msg)
unfolding begin_message
begin_message-Stops c now msg quiet p = elim (Bool-cases (str_eq msg.kind "instruction_relay")) [
  | inl instr ↦ begin_message-relay c now msg instr p
  | inr other ↦ elim (Bool-cases (str_eq msg.kind "ping")) [
    | inl is_ping ↦
        rw (other, is_ping)
          (record {
            held = Held-Kept c _ (send_json-Kept c pong).0 (send_json-paused c pong ∙ p);
            over = refl;
          })
    | inr no_ping ↦ elim (Bool-cases (str_eq msg.kind "config_update")) [
      | inl config ↦ elim quiet [
        | inl no_config ↦ absurd (ground arith)
        | inr keeps ↦
            rw (other, no_ping, config)
              (record {
                held =
                    Held-Kept c _ (update_config-queue c msg.as_config)
                      (update_config-paused c msg.as_config keeps p);
                over = refl;
              })
      ]
      | inr rest ↦ rw (other, no_ping, rest) (record { held = Held-Kept c c refl p; over = refl })
    ]
  ]
]

module _ (fl : Float64) (crypto : Crypto) (jt : JsonText) (tr : Transport) where
  -- No message of the server that resumes the client.
  abbrev pub IsQuiet : Event fl crypto jt tr → Type 0
  IsQuiet (received limits resolver now msg between) =
      (str_eq msg.kind "config_update" ≡ false) ⊎ (msg.as_config ≢ some (some false))
  IsQuiet (beside w) = Unit {0}
  IsQuiet disconnected = Unit {0}
  IsQuiet (reconnected cfg h) = Unit {0}

  read_message-Held :
      (limits : RiskLimits fl.F) (resolver : AssetResolver) (c : ClientState) (now : ℕ)
      (msg : Incoming) (between : List Work)
      → IsQuiet (received limits resolver now msg between)
      → c.paused ≡ true
      → Held c (read_message fl crypto jt tr limits resolver c now msg between)
  unfolding read_message finish_message
  read_message-Held limits resolver c now msg between quiet p =
      let begun = begin_message-Stops c now msg quiet p in
      let c' = (begin_message c now msg).0 in
      subst
        (λ (left : Option ExecutionInstruction).
          Held c (finish_message fl crypto jt tr limits resolver (do_works tr c' between) now left))
        (sym begun.over)
        (Held-trans c c' _ begun.held (do_works-Held tr c' between begun.held.paused))

  handle_event-Held :
      (c : ClientState) (e : Event fl crypto jt tr)
      → IsQuiet e
      → c.paused ≡ true
      → Held c (handle_event fl crypto jt tr c e)
  unfolding handle_event
  handle_event-Held c (received limits resolver now msg between) quiet p =
      read_message-Held limits resolver c now msg between quiet p
  handle_event-Held c (beside w) quiet p = do_work-Held tr c w p
  handle_event-Held c disconnected quiet p = record { paused = p; taken = []; left = refl }
  handle_event-Held c (reconnected cfg s) quiet p =
      Held-Kept c _ (connect-Kept cfg s c).0 (connect-paused cfg s c ∙ p)

  run-Held :
      (c : ClientState) (es : List (Event fl crypto jt tr))
      → All IsQuiet es
      → c.paused ≡ true
      → Held c (run fl crypto jt tr c es)
  unfolding run
  run-Held c [] quiet p = Held-Kept c c refl p
  run-Held c (e ∷ es) quiet p =
      let first = handle_event-Held c e quiet.0 p in
      Held-trans c (handle_event fl crypto jt tr c e) _ first
        (run-Held (handle_event fl crypto jt tr c e) es quiet.1 first.paused)

  -- What comes to the queue of a message that was being handled: its instruction at most.
  abbrev pub Came :
      RiskLimits fl.F
      → AssetResolver
      → Option ExecutionInstruction
      → List ExecutionInstruction
      → Type 0
  Came limits resolver left came =
      (came ≡ [])
      ⊎ ((instr : ExecutionInstruction) × (left ≡ some instr)
          × (came ≡ (validate fl limits resolver instr).0 ∷ []))

  finish_message-Came :
      (limits : RiskLimits fl.F) (resolver : AssetResolver) (c : ClientState) (now : ℕ)
      (left : Option ExecutionInstruction)
      → (came : List ExecutionInstruction) × Came limits resolver left came
        × ((finish_message fl crypto jt tr limits resolver c now left).exec_queue
            ≡ c.exec_queue ++ came)
        × ((finish_message fl crypto jt tr limits resolver c now left).paused ≡ c.paused)
  unfolding finish_message
  finish_message-Came limits resolver c now none =
      ([], inl refl, sym (append-nil c.exec_queue), refl)
  finish_message-Came limits resolver c now (some instr) =
      let kept = check_signature-paused fl limits resolver crypto jt c now instr in
      elim (check_signature-Queued fl limits resolver crypto jt c now instr) [
        | inl (p, queued) ↦
            ((validate fl limits resolver instr).0 ∷ [], inr (instr, refl, refl), queued, kept)
        | inr (fails, same) ↦ ([], inl refl, same ∙ sym (append-nil c.exec_queue), kept)
      ]

  -- Once the callback of the circuit breaker has run, and until a message of the server resumes the
  -- client, it stays paused, and no instruction comes to the queue but that of the one message, if
  -- any, whose handling had passed the look at the pause before: `left` is its instruction, and
  -- `between` is what the other goroutines do until it is checked. What waits in the queue already
  -- may still be taken off and run.
  pub trip_holds :
      (limits : RiskLimits fl.F) (resolver : AssetResolver) (now : ℕ)
      (left : Option ExecutionInstruction) (c : ClientState) (between : List Work)
      (es : List (Event fl crypto jt tr))
      → All IsQuiet es
      → let checked =
          finish_message fl crypto jt tr limits resolver
            (do_works tr (on_trip c) between)
            now
            left in
        let c' = run fl crypto jt tr checked es in
        (c'.paused ≡ true)
        × ((came : List ExecutionInstruction) × (taken : List ExecutionInstruction) × Came limits
              resolver left came
            × (c.exec_queue ++ came ≡ taken ++ c'.exec_queue))
  trip_holds limits resolver now left c between es quiet =
      let first = do_works-Held tr (on_trip c) between (on_trip-paused c) in
      let s = do_works tr (on_trip c) between in
      let (came, one, queue, pause) = finish_message-Came limits resolver s now left in
      let checked = finish_message fl crypto jt tr limits resolver s now left in
      let held = run-Held checked es quiet (pause ∙ first.paused) in
      let before : c.exec_queue ≡ first.taken ++ s.exec_queue =
        sym (on_trip-Kept c).0 ∙ first.left in
      (
        held.paused,
        (
          came,
          first.taken ++ held.taken,
          one,
          ap (λ (q : List ExecutionInstruction). q ++ came) before
              ∙ append_assoc first.taken s.exec_queue came
              ∙ ap (λ (q : List ExecutionInstruction). first.taken ++ q) (sym queue ∙ held.left)
              ∙ sym (append_assoc first.taken held.taken _),
        ),
      )

module _ (tr : Transport) where
  -- The worker does not look at the pause: whatever the flag, it runs the instruction at the head of
  -- the queue with the same orders, results and messages.
  pub pause_spares_queue :
      (c : ClientState) (paused : Bool) (times : ℕ → ℕ)
      → take_instruction tr (record c { paused = paused }) times
        ≡ record (take_instruction tr c times) { paused = paused }
  unfolding take_instruction
  pause_spares_queue c paused times = split c.exec_queue
    where
      split :
          (q : List ExecutionInstruction)
          → (elim q [
            | [] ↦ record c { paused = paused }
            | instr ∷ rest ↦
                execute_instruction tr (record c { exec_queue = rest; paused = paused }) instr times
          ])
            ≡ record (elim q [
              | [] ↦ c
              | instr ∷ rest ↦ execute_instruction tr (record c { exec_queue = rest }) instr times
            ]) { paused = paused }
      split [] = refl
      split (instr ∷ rest) =
          execute_instruction-set_paused tr (record c { exec_queue = rest }) paused instr times
