-- ===== src/Relay/Session/Flag.antt =====
-- The flag `paused` of the client of internal/relay/client.go, through what does not set it.
use degenbox_hyperliquid_cli.Relay.Types.{OutMsg, StepResult, ExecutionStep, ExecutionInstruction}
use degenbox_hyperliquid_cli.Relay.Session.{
  auth, Config, Handshake, await_reply, connect, send_log, update_config,
}
use degenbox_hyperliquid_cli.Hyperliquid.Exchange.{Transport}
use degenbox_hyperliquid_cli.Float.{Float64}
use degenbox_hyperliquid_cli.Relay.Canonical.{JsonText}
use degenbox_hyperliquid_cli.Relay.RateLimit.{allow}
use degenbox_hyperliquid_cli.Relay.SigFailures.{record_sig_failure}
use degenbox_hyperliquid_cli.Relay.Validator.{RiskLimits, AssetResolver, validate}
use degenbox_hyperliquid_cli.Relay.Intake.{
  Crypto, reject, enqueue, portfolio_error, check_portfolio, check_risk, check_rate,
  signature_error, check_signature,
}
use degenbox_hyperliquid_cli.Relay.State.{ClientState, send_json, send_pause, on_trip}
use degenbox_hyperliquid_cli.Relay.Executor.{track, run_step, run_steps, execute_instruction}
use degenbox_hyperliquid_cli.Relay.Executor.Results.{run_steps_nil, run_steps_fine, run_steps_bad}
use degenbox_hyperliquid_cli.Base.{
  Option-cases, ℕ, ◌+◌, ◌≡◌, refl, ◌∙◌, ◌≢◌, inl, inr, Bool, true, false, Option, none, some, List,
  [], ◌∷◌, arith, if◌then◌else◌, Bool-cases, String,
}

pub send_json-paused : (c : ClientState) (msg : OutMsg) → (send_json c msg).paused ≡ c.paused
unfolding send_json
send_json-paused c msg = ground arith

record_sig_failure-paused :
    (c : ClientState) (now : ℕ) → (record_sig_failure c now).paused ≡ c.paused
unfolding record_sig_failure
record_sig_failure-paused c now = ground arith

reject-paused :
    (c : ClientState) (instr : ExecutionInstruction) (action error : String)
    → (reject c instr action error).paused ≡ c.paused
unfolding reject
reject-paused c instr action error = send_json-paused c _

enqueue-paused :
    (c : ClientState) (instr : ExecutionInstruction) → (enqueue c instr).paused ≡ c.paused
unfolding enqueue
enqueue-paused c instr = ground (arith, reject-paused c instr "queue" "execution queue full")

module _ (fl : Float64) (limits : RiskLimits fl.F) (resolver : AssetResolver) where
  check_portfolio-paused :
      (c : ClientState) (instr : ExecutionInstruction)
      → (check_portfolio fl limits resolver c instr).paused ≡ c.paused
  unfolding check_portfolio
  check_portfolio-paused c instr = elim (Option-cases (portfolio_error fl limits resolver instr)) [
    | inl fine ↦ rw (fine, check_portfolio) (enqueue-paused c instr)
    | inr (e, bad) ↦ rw (bad, check_portfolio) (reject-paused c instr "validate_portfolio" e)
  ]

  check_risk-paused :
      (c : ClientState) (instr : ExecutionInstruction)
      → (check_risk fl limits resolver c instr).paused ≡ c.paused
  unfolding check_risk
  check_risk-paused c instr = elim (Option-cases (validate fl limits resolver instr).1) [
    | inl fine ↦ rw (fine, check_risk) (check_portfolio-paused c _)
    | inr (e, bad) ↦ rw (bad, check_risk) (reject-paused c _ "validate" _)
  ]

  check_rate-paused :
      (c : ClientState) (now : ℕ) (instr : ExecutionInstruction)
      → (check_rate fl limits resolver c now instr).paused ≡ c.paused
  unfolding check_rate
  check_rate-paused c now instr =
      let c' = record c { rate_limit = (allow c.rate_limit now).0 } in
      elim (Bool-cases (allow c.rate_limit now).1) [
        | inl ok ↦ rw ok (check_risk-paused c' instr)
        | inr over ↦ rw over (reject-paused c' instr "rate_limit" "rate limit exceeded")
      ]

  pub check_signature-paused :
      (crypto : Crypto) (jt : JsonText) (c : ClientState) (now : ℕ) (instr : ExecutionInstruction)
      → (check_signature fl limits resolver crypto jt c now instr).paused ≡ c.paused
  unfolding check_signature
  check_signature-paused crypto jt c now instr =
      elim (Option-cases (signature_error crypto jt instr)) [
        | inl fine ↦ rw (fine, check_signature) (check_rate-paused c now instr)
        | inr (none, silent) ↦ rw (silent, check_signature) (record_sig_failure-paused c now)
        | inr (some text, told) ↦
            rw (told, check_signature)
              (record_sig_failure-paused (reject c instr "verify_signature" text) now
                ∙ reject-paused c instr "verify_signature" text)
      ]

pub on_trip-paused : (c : ClientState) → (on_trip c).paused ≡ true
unfolding on_trip send_pause send_json
on_trip-paused c = ground arith

pub send_log-paused :
    (c : ClientState) (level message : String) (attrs : List (String × String))
    → (send_log c level message attrs).paused ≡ c.paused
unfolding send_log send_json
send_log-paused c level message attrs = ground arith

await_reply-paused :
    (c : ClientState) (reply : Option (Option (Bool × String)))
    → (await_reply c reply).0.paused ≡ c.paused
unfolding await_reply
await_reply-paused c none = refl
await_reply-paused c (some none) = refl
await_reply-paused c (some (some (success, error))) = ground arith

pub connect-paused :
    (cfg : Config) (h : Handshake) (c : ClientState) → (connect cfg h c).0.paused ≡ c.paused
unfolding connect
connect-paused cfg h c =
    let dialled = record c { has_conn = true; conn_closed = false } in
    let authed = send_json dialled (auth cfg.api_key cfg.client_id cfg.version) in
    ground (
      arith,
      send_json-paused dialled (auth cfg.api_key cfg.client_id cfg.version),
      await_reply-paused authed h.reply,
    )

pub update_config-paused :
    (c : ClientState) (u : Option (Option Bool))
    → u ≢ some (some false)
    → c.paused ≡ true
    → (update_config c u).paused ≡ true
unfolding update_config
update_config-paused c none quiet p = p
update_config-paused c (some none) quiet p = p
update_config-paused c (some (some true)) quiet p = refl
update_config-paused c (some (some false)) quiet p = absurd (quiet refl)

pub update_config-queue :
    (c : ClientState) (u : Option (Option Bool)) → (update_config c u).exec_queue ≡ c.exec_queue
unfolding update_config
update_config-queue c none = refl
update_config-queue c (some none) = refl
update_config-queue c (some (some paused)) = refl

abbrev set_both : Bool → ClientState × List StepResult → ClientState × List StepResult
set_both b x = (record x.0 { paused = b }, x.1)

set_if :
    (t b : Bool) (x y : ClientState × List StepResult)
    → (if t then set_both b x else set_both b y) ≡ set_both b (if t then x else y)
set_if true b x y = refl
set_if false b x y = refl

module _ (tr : Transport) where
  run_step-paused :
      (c : ClientState) (instr : ExecutionInstruction) (now : ℕ) (step : ExecutionStep)
      → (run_step tr c instr now step).0.paused ≡ c.paused
  unfolding run_step track
  run_step-paused c instr now step = ground arith

  run_steps-paused :
      (c : ClientState) (instr : ExecutionInstruction) (times : ℕ → ℕ) (k : ℕ)
      (steps : List ExecutionStep)
      → (run_steps tr c instr times k steps).0.paused ≡ c.paused
  run_steps-paused c instr times k [] = rw (run_steps_nil tr c instr times k) refl
  run_steps-paused c instr times k (step ∷ steps) =
      let c' = (run_step tr c instr (times k) step).0 in
      let first = run_step-paused c instr (times k) step in
      elim (Bool-cases (run_step tr c instr (times k) step).1.success) [
        | inl fine ↦
            rw (run_steps_fine tr c instr times k step steps fine)
              (run_steps-paused c' instr times (k + 1) steps ∙ first)
        | inr bad ↦ rw (run_steps_bad tr c instr times k step steps bad) first
      ]

  pub execute_instruction-paused :
      (c : ClientState) (instr : ExecutionInstruction) (times : ℕ → ℕ)
      → (execute_instruction tr c instr times).paused ≡ c.paused
  unfolding execute_instruction
  execute_instruction-paused c instr times =
      send_json-paused _ _ ∙ run_steps-paused c instr times 0 instr.steps

  run_step-set_paused :
      (c : ClientState) (b : Bool) (instr : ExecutionInstruction) (now : ℕ) (step : ExecutionStep)
      → run_step tr (record c { paused = b }) instr now step
        ≡ (record (run_step tr c instr now step).0 { paused = b }, (run_step tr c instr now step).1)
  unfolding run_step track
  run_step-set_paused c b instr now step = ground arith

  -- A run of steps does not look at the flag.
  pub run_steps-set_paused :
      (c : ClientState) (b : Bool) (instr : ExecutionInstruction) (times : ℕ → ℕ) (k : ℕ)
      (steps : List ExecutionStep)
      → run_steps tr (record c { paused = b }) instr times k steps ≡ (
        record (run_steps tr c instr times k steps).0 { paused = b },
        (run_steps tr c instr times k steps).1,
      )
  unfolding run_steps
  run_steps-set_paused c b instr times k [] = refl
  run_steps-set_paused c b instr times k (step ∷ steps) =
      let c' = (run_step tr c instr (times k) step).0 in
      rw
        (
          run_step-set_paused c b instr (times k) step,
          run_steps-set_paused c' b instr times (k + 1) steps,
        )
        (set_if (run_step tr c instr (times k) step).1.success b _ _)

  pub execute_instruction-set_paused :
      (c : ClientState) (b : Bool) (instr : ExecutionInstruction) (times : ℕ → ℕ)
      → execute_instruction tr (record c { paused = b }) instr times
        ≡ record (execute_instruction tr c instr times) { paused = b }
  unfolding execute_instruction send_json
  execute_instruction-set_paused c b instr times =
      rw (run_steps-set_paused c b instr times 0 instr.steps) (ground arith)
