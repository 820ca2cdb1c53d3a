-- ===== src/Relay/Session/Kept.antt =====
-- What the parts of internal/relay/client.go beside `handleInstruction` leave as it is.
use degenbox_hyperliquid_cli.Relay.Session.{
  auth, Config, Handshake, await_reply, connect, send_log, update_config,
}
use degenbox_hyperliquid_cli.Relay.Types.{
  instruction_result, OutMsg, ExecutionStep, ExecutionInstruction,
}
use degenbox_hyperliquid_cli.Hyperliquid.Exchange.{Transport}
use degenbox_hyperliquid_cli.Relay.State.{ClientState, send_json, send_pause, on_trip}
use degenbox_hyperliquid_cli.Relay.Executor.{track, run_step, run_steps, execute_instruction}
use degenbox_hyperliquid_cli.Relay.Executor.Results.{run_steps_nil, run_steps_fine, run_steps_bad}
use degenbox_hyperliquid_cli.Base.{
  ℕ, ◌+◌, ◌≡◌, refl, ◌∙◌, inl, inr, Bool, true, false, Option, none, some, List, [], ◌∷◌, arith,
  Bool-cases, String,
}

-- The queue and the state of the checks are the same.
abbrev pub Kept : ClientState → ClientState → Type 0
Kept c c' =
    (c'.exec_queue ≡ c.exec_queue)
    × (c'.sig_failures ≡ c.sig_failures)
    × (c'.dedup ≡ c.dedup)
    × (c'.rate_limit ≡ c.rate_limit)

pub Kept-trans : (a b c : ClientState) → Kept a b → Kept b c → Kept a c
Kept-trans a b c h k = (k.0 ∙ h.0, k.1 ∙ h.1, k.2 ∙ h.2, k.3 ∙ h.3)

pub send_json-Kept : (c : ClientState) (msg : OutMsg) → Kept c (send_json c msg)
unfolding send_json
send_json-Kept c msg = ground arith

pub on_trip-Kept : (c : ClientState) → Kept c (on_trip c)
unfolding on_trip send_pause send_json
on_trip-Kept c = ground arith

pub send_log-Kept :
    (c : ClientState) (level message : String) (attrs : List (String × String))
    → Kept c (send_log c level message attrs)
unfolding send_log send_json
send_log-Kept c level message attrs = ground arith

pub update_config-Kept : (c : ClientState) (u : Option (Option Bool)) → Kept c (update_config c u)
unfolding update_config
update_config-Kept c none = (refl, refl, refl, refl)
update_config-Kept c (some none) = (refl, refl, refl, refl)
update_config-Kept c (some (some paused)) = (refl, refl, refl, refl)

await_reply-Kept :
    (c : ClientState) (reply : Option (Option (Bool × String))) → Kept c (await_reply c reply).0
unfolding await_reply
await_reply-Kept c none = (refl, refl, refl, refl)
await_reply-Kept c (some none) = (refl, refl, refl, refl)
await_reply-Kept c (some (some (success, error))) = ground arith

pub connect-Kept : (cfg : Config) (h : Handshake) (c : ClientState) → Kept c (connect cfg h c).0
unfolding connect
connect-Kept cfg h c =
    let dialled = record c { has_conn = true; conn_closed = false } in
    let authed = send_json dialled (auth cfg.api_key cfg.client_id cfg.version) in
    ground (
      arith,
      send_json-Kept dialled (auth cfg.api_key cfg.client_id cfg.version),
      await_reply-Kept authed h.reply,
    )

module _ (tr : Transport) where
  run_step-Kept :
      (c : ClientState) (instr : ExecutionInstruction) (now : ℕ) (step : ExecutionStep)
      → Kept c (run_step tr c instr now step).0
  unfolding run_step track
  run_step-Kept c instr now step = ground arith

  run_steps-Kept :
      (c : ClientState) (instr : ExecutionInstruction) (times : ℕ → ℕ) (k : ℕ)
      (steps : List ExecutionStep)
      → Kept c (run_steps tr c instr times k steps).0
  run_steps-Kept c instr times k [] = rw (run_steps_nil tr c instr times k) (refl, refl, refl, refl)
  run_steps-Kept c instr times k (step ∷ steps) =
      let c' = (run_step tr c instr (times k) step).0 in
      let first = run_step-Kept c instr (times k) step in
      elim (Bool-cases (run_step tr c instr (times k) step).1.success) [
        | inl fine ↦ rw (run_steps_fine tr c instr times k step steps fine) (
            Kept-trans c c' (run_steps tr c' instr times (k + 1) steps).0 first
              (run_steps-Kept c' instr times (k + 1) steps))
        | inr bad ↦ rw (run_steps_bad tr c instr times k step steps bad) first
      ]

  pub execute_instruction-Kept :
      (c : ClientState) (instr : ExecutionInstruction) (times : ℕ → ℕ)
      → Kept c (execute_instruction tr c instr times)
  unfolding execute_instruction
  execute_instruction-Kept c instr times =
      let ran = run_steps tr c instr times 0 instr.steps in
      let msg = instruction_result instr.instruction_id ran.1 in
      Kept-trans c ran.0 (send_json ran.0 msg) (run_steps-Kept c instr times 0 instr.steps)
        (send_json-Kept ran.0 msg)
