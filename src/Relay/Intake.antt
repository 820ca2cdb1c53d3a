-- ===== src/Relay/Intake.antt =====
-- internal/relay/client.go: `handleInstruction`, the checks between a message and the queue.
-- The readings of the clock within one call are taken as one. Hex decoding and Ed25519 are
-- parameters.
pub mod Signature
pub mod Queue
pub mod Bounds
use degenbox_hyperliquid_cli.Relay.Canonical.{JsonText, instruction_canonical}
use degenbox_hyperliquid_cli.Relay.Types.{
  InstructionRelayMsg, instruction_result, ExecutionInstruction,
}
use degenbox_hyperliquid_cli.Relay.Dedup.{check}
use degenbox_hyperliquid_cli.Relay.RateLimit.{allow}
use degenbox_hyperliquid_cli.Relay.SigFailures.{record_sig_failure}
use degenbox_hyperliquid_cli.Relay.State.{ClientState, send_json}
use degenbox_hyperliquid_cli.Relay.Messages.{instruction_error_text, portfolio_error_text}
use degenbox_hyperliquid_cli.Relay.Portfolio.{validate_portfolio, estimate_instruction_notional}
use degenbox_hyperliquid_cli.Float.{Float64}
use degenbox_hyperliquid_cli.Relay.Validator.{RiskLimits, AssetResolver, validate}
use degenbox_hyperliquid_cli.Base.{
  ℕ, Bool, false, not, ◌&&◌, Option, none, some, [], ◌∷◌, ◌++◌, ltb, if◌then◌else◌, length, String,
  str_eq,
}
use degenbox_hyperliquid_cli.Base.Int.{ℤ, pos, negsuc, ltb_ℤ, ◌+ℤ◌, ◌-ℤ◌}
use degenbox_hyperliquid_cli.Clock.{unix_milli}

-- hex.DecodeString and ed25519.Verify with the key of the server.
pub record Crypto : Type 1 where
  pub Bytes : Type 0
  pub decode_hex : String → Option Bytes
  pub verify : String → Bytes → Bool

abbrev pub queue_capacity : ℕ
queue_capacity = 16

-- The answer to an instruction that is turned down.
unfoldable pub reject : ClientState → ExecutionInstruction → String → String → ClientState
reject c instr action error = send_json c (
    instruction_result instr.instruction_id
      (record { action = action; success = false; response = none; error = error } ∷ []))

-- The last `select`: a full queue drops the instruction.
unfoldable pub enqueue : ClientState → ExecutionInstruction → ClientState
enqueue c instr =
    if ltb (length c.exec_queue) queue_capacity
    then record c { exec_queue = c.exec_queue ++ instr ∷ [] }
    else reject c instr "queue" "execution queue full"

-- The tests of the timestamp, in milliseconds.
unfoldable pub is_current : ℤ → ℤ → Bool
unfolding ◌-ℤ◌ ◌+ℤ◌
is_current timestamp millis =
    let age = millis -ℤ timestamp in
    ltb_ℤ (pos 0) timestamp && not (ltb_ℤ (pos 60_000) age) && not (ltb_ℤ age (negsuc 9_999))

-- `handleInstruction` up to the test of the timestamp: whether the message goes on to the signature.
unfoldable pub begin_instruction : ClientState → ℕ → InstructionRelayMsg → ClientState × Bool
begin_instruction c now msg =
    let (dedup', fresh) = check c.dedup now msg.instruction.instruction_id in
    let c' = record c { dedup = dedup' } in
    if not fresh
    then (c', false)
    else if c.paused
    then (c', false)
    else (c', is_current msg.timestamp (unix_milli now))

module _ (crypto : Crypto) (jt : JsonText) where
  -- What is wrong with the signature: the answer, where one is sent.
  unfoldable pub signature_error : ExecutionInstruction → Option (Option String)
  signature_error instr =
      if str_eq instr.signature ""
      then some (some "missing signature")
      else elim (crypto.decode_hex instr.signature) [
        | none ↦ some none
        | some sig_bytes ↦ elim (instruction_canonical jt instr) [
          | none ↦ some (some "canonical encoding failed")
          | some text ↦
              if crypto.verify text sig_bytes then none else some (some "invalid signature")
        ]
      ]

module _ (fl : Float64) (limits : RiskLimits fl.F) (resolver : AssetResolver) where
  open fl use {F, of_ℤ, lt}

  -- The portfolio check, for an instruction whose estimate is positive.
  unfoldable pub portfolio_error : ExecutionInstruction → Option String
  portfolio_error instr =
      let notional = estimate_instruction_notional fl instr in
      if lt (of_ℤ (pos 0)) notional
      then elim (validate_portfolio fl limits resolver instr.market notional) [
        | none ↦ none
        | some e ↦ some (portfolio_error_text fl e)
      ]
      else none

  unfoldable pub check_portfolio : ClientState → ExecutionInstruction → ClientState
  check_portfolio c instr = elim (portfolio_error instr) [
    | some e ↦ reject c instr "validate_portfolio" e
    | none ↦ enqueue c instr
  ]

  -- The risk validator, which may lower leverages of the instruction.
  unfoldable pub check_risk : ClientState → ExecutionInstruction → ClientState
  check_risk c instr =
      let (checked, error) = validate fl limits resolver instr in
      elim error [
        | some e ↦ reject c checked "validate" (instruction_error_text fl e)
        | none ↦ check_portfolio c checked
      ]

  unfoldable pub check_rate : ClientState → ℕ → ExecutionInstruction → ClientState
  check_rate c now instr =
      let (rate_limit', ok) = allow c.rate_limit now in
      let c' = record c { rate_limit = rate_limit' } in
      if ok then check_risk c' instr else reject c' instr "rate_limit" "rate limit exceeded"

  module _ (crypto : Crypto) (jt : JsonText) where
    unfoldable pub check_signature : ClientState → ℕ → ExecutionInstruction → ClientState
    check_signature c now instr = elim (signature_error crypto jt instr) [
      | none ↦ check_rate c now instr
      | some answer ↦ elim answer [
        | none ↦ record_sig_failure c now
        | some text ↦ record_sig_failure (reject c instr "verify_signature" text) now
      ]
    ]

    -- `handleInstruction`, on what the decoding of the message makes of it.
    unfoldable pub handle_instruction : ClientState → ℕ → Option InstructionRelayMsg → ClientState
    handle_instruction c now none = c
    handle_instruction c now (some msg) =
        let (c', goes_on) = begin_instruction c now msg in
        if goes_on then check_signature c' now msg.instruction else c'
