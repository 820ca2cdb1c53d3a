-- ===== src/Relay/Intake/Bounds.antt =====
-- The bounds that `handleInstruction` of internal/relay/client.go keeps.
use degenbox_hyperliquid_cli.Relay.Canonical.{JsonText}
use degenbox_hyperliquid_cli.Relay.Types.{InstructionRelayMsg, ExecutionInstruction}
use degenbox_hyperliquid_cli.Relay.Dedup.{InstructionDedup, check}
use degenbox_hyperliquid_cli.Relay.Dedup.Replay.{check_bounded}
use degenbox_hyperliquid_cli.Relay.RateLimit.{RateLimiter, evict, allow}
use degenbox_hyperliquid_cli.Relay.RateLimit.Window.{length-evict}
use degenbox_hyperliquid_cli.Relay.SigFailures.{sig_failure_threshold, record_sig_failure}
use degenbox_hyperliquid_cli.Relay.State.{ClientState, send_json}
use degenbox_hyperliquid_cli.Relay.Intake.{
  Crypto, reject, enqueue, portfolio_error, check_portfolio, check_risk, check_rate,
  signature_error, check_signature, begin_instruction,
}
use degenbox_hyperliquid_cli.Float.{Float64}
use degenbox_hyperliquid_cli.Relay.Validator.{RiskLimits, AssetResolver, validate}
use degenbox_hyperliquid_cli.Base.{
  ℕ, ◌-◌, ◌≤◌, ◌<◌, ◌≡◌, inl, inr, [], ◌∷◌, arith, Bool-cases, Option-cases, length, length-append,
  String,
}
use degenbox_hyperliquid_cli.Clock.{minute}

-- Each of the memories that the checks keep is within its bound.
abbrev pub Bounded : ClientState → Type 0
Bounded c =
    (length c.sig_failures < sig_failure_threshold)
    × (0 < c.dedup.max_size)
    × (length c.dedup.seen ≤ c.dedup.max_size)
    × (length c.rate_limit.timestamps ≤ c.rate_limit.limit)

allow_bounded :
    (r : RateLimiter) (now : ℕ)
    → length r.timestamps ≤ r.limit
    → length (allow r now).0.timestamps ≤ (allow r now).0.limit
unfolding allow
allow_bounded r now h = ground (
  arith,
  length-evict (now - minute) r.timestamps,
  length-append (evict (now - minute) r.timestamps) (now ∷ []),
)

check-max_size :
    (d : InstructionDedup) (now : ℕ) (id : String) → (check d now id).0.max_size ≡ d.max_size
unfolding check
check-max_size d now id = ground arith

record_sig_failure-Bounded :
    (c : ClientState) (now : ℕ) → Bounded c → Bounded (record_sig_failure c now)
unfolding record_sig_failure
record_sig_failure-Bounded c now h = ground arith

reject-Bounded :
    (c : ClientState) (instr : ExecutionInstruction) (action error : String)
    → Bounded c
    → Bounded (reject c instr action error)
unfolding reject send_json
reject-Bounded c instr action error h = ground arith

enqueue-Bounded :
    (c : ClientState) (instr : ExecutionInstruction) → Bounded c → Bounded (enqueue c instr)
unfolding enqueue
enqueue-Bounded c instr h = ground (arith, reject-Bounded c instr "queue" "execution queue full" h)

module _ (fl : Float64) (limits : RiskLimits fl.F) (resolver : AssetResolver) where
  check_risk-Bounded :
      (c : ClientState) (instr : ExecutionInstruction)
      → Bounded c
      → Bounded (check_risk fl limits resolver c instr)
  unfolding check_risk check_portfolio
  check_risk-Bounded c instr h = elim (Option-cases (validate fl limits resolver instr).1) [
    | inr (e, invalid) ↦ rw (invalid, check_risk) (reject-Bounded c _ _ _ h)
    | inl valid ↦
        elim (Option-cases
          (portfolio_error fl limits resolver (validate fl limits resolver instr).0)) [
            | inr (e, over) ↦
                rw (valid, check_risk, over, check_portfolio) (reject-Bounded c _ _ _ h)
            | inl within ↦ rw (valid, check_risk, within, check_portfolio) (enqueue-Bounded c _ h)
          ]
  ]

  check_rate-Bounded :
      (c : ClientState) (now : ℕ) (instr : ExecutionInstruction)
      → Bounded c
      → Bounded (check_rate fl limits resolver c now instr)
  unfolding check_rate
  check_rate-Bounded c now instr h =
      let rate = allow_bounded c.rate_limit now h.3 in
      elim (Bool-cases (allow c.rate_limit now).1) [
        | inl ok ↦ rw ok (
            check_risk-Bounded (record c { rate_limit = (allow c.rate_limit now).0 }) instr
              (h.0, h.1, h.2, rate))
        | inr over ↦ rw over (
            reject-Bounded (record c { rate_limit = (allow c.rate_limit now).0 }) _ _ _
              (h.0, h.1, h.2, rate))
      ]

  module _ (crypto : Crypto) (jt : JsonText) where
    pub check_signature-Bounded :
        (c : ClientState) (now : ℕ) (instr : ExecutionInstruction)
        → Bounded c
        → Bounded (check_signature fl limits resolver crypto jt c now instr)
    unfolding check_signature
    check_signature-Bounded c now instr h = elim (Option-cases (signature_error crypto jt instr)) [
      | inl fine ↦ rw (fine, check_signature) (check_rate-Bounded c now instr h)
      | inr (answer, wrong) ↦ elim (Option-cases answer) [
        | inl silent ↦ rw (wrong, check_signature, silent) (record_sig_failure-Bounded c now h)
        | inr (text, answered) ↦
            rw (wrong, check_signature, answered)
              (record_sig_failure-Bounded _ now (reject-Bounded c _ _ _ h))
      ]
    ]

-- The test of the id leaves the memories of the checks within their bounds.
pub begin_instruction-Bounded :
    (c : ClientState) (now : ℕ) (msg : InstructionRelayMsg)
    → Bounded c
    → Bounded (begin_instruction c now msg).0
unfolding begin_instruction
begin_instruction-Bounded c now msg h =
    elim (Bool-cases (check c.dedup now msg.instruction.instruction_id).1) [
      | inr seen ↦ rw seen entered
      | inl fresh ↦ elim (Bool-cases c.paused) [
        | inl paused ↦ rw (fresh, paused) entered
        | inr running ↦ rw (fresh, running) entered
      ]
    ]
  where
    entered : Bounded (record c { dedup = (check c.dedup now msg.instruction.instruction_id).0 })
    entered =
        let same = check-max_size c.dedup now msg.instruction.instruction_id in
        (
          h.0,
          omega arith,
          rw same (check_bounded c.dedup now msg.instruction.instruction_id h.1 h.2),
          h.3,
        )
