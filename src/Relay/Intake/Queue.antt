-- ===== src/Relay/Intake/Queue.antt =====
-- Which instructions `handleInstruction` of internal/relay/client.go hands to the executor.
use degenbox_hyperliquid_cli.Relay.Canonical.{JsonText}
use degenbox_hyperliquid_cli.Relay.Types.{InstructionRelayMsg, ExecutionInstruction}
use degenbox_hyperliquid_cli.Relay.Dedup.{check}
use degenbox_hyperliquid_cli.Relay.RateLimit.{allow}
use degenbox_hyperliquid_cli.Relay.SigFailures.{record_sig_failure}
use degenbox_hyperliquid_cli.Relay.State.{ClientState, send_json}
use degenbox_hyperliquid_cli.Relay.Intake.Signature.{
  is_current-cases, IsSigned, signature_error-none,
}
use degenbox_hyperliquid_cli.Relay.Intake.{
  Crypto, queue_capacity, reject, enqueue, portfolio_error, check_portfolio, check_risk, check_rate,
  signature_error, check_signature, is_current, handle_instruction, begin_instruction,
}
use degenbox_hyperliquid_cli.Float.{Float64}
use degenbox_hyperliquid_cli.Relay.Validator.{RiskLimits, AssetResolver, validate}
use degenbox_hyperliquid_cli.Base.{
  ℕ, ◌<◌, ◌≡◌, refl, ap, ◌∙◌, ◌⊎◌, inl, inr, Bool, true, false, none, some, List, [], ◌∷◌, ◌++◌,
  arith, ltb, if◌then◌else◌, Bool-cases, Option-cases, length, String,
}
use degenbox_hyperliquid_cli.Base.Int.{pos, ◌≤ℤ◌, ◌+ℤ◌}
use degenbox_hyperliquid_cli.Clock.{unix_milli}

reject-exec_queue :
    (c : ClientState) (instr : ExecutionInstruction) (action error : String)
    → (reject c instr action error).exec_queue ≡ c.exec_queue
unfolding reject send_json
reject-exec_queue c instr action error = ground arith

record_sig_failure-exec_queue :
    (c : ClientState) (now : ℕ) → (record_sig_failure c now).exec_queue ≡ c.exec_queue
unfolding record_sig_failure
record_sig_failure-exec_queue c now = ground arith

-- The instruction comes to the end of the queue if `P` holds, and the queue is as before if not.
abbrev pub Queued :
    Type 0 → List ExecutionInstruction → List ExecutionInstruction → ExecutionInstruction → Type 0
Queued P queue queue' instr = (P × (queue' ≡ queue ++ instr ∷ [])) ⊎ ((¬ P) × (queue' ≡ queue))

pick {ℓ} : {A : Type ℓ} (b : Bool) (x y : A) → b ≡ false → (if b then x else y) ≡ y
pick b x y h = rw h refl

pub begin_instruction_current :
    (c : ClientState) (now : ℕ) (msg : InstructionRelayMsg)
    → (check c.dedup now msg.instruction.instruction_id).1 ≡ true
    → c.paused ≡ false
    → is_current msg.timestamp (unix_milli now) ≡ true
    → begin_instruction c now msg
      ≡ (record c { dedup = (check c.dedup now msg.instruction.instruction_id).0 }, true)
unfolding begin_instruction
begin_instruction_current c now msg fresh running current =
    rw (fresh, current) (pick c.paused _ _ running)

module _ (fl : Float64) (limits : RiskLimits fl.F) (resolver : AssetResolver) where
  -- What an instruction passes after the limiter.
  pub record PassesRisk (c : ClientState) (instr : ExecutionInstruction) : Type 0 where
    pub valid : (validate fl limits resolver instr).1 ≡ none
    pub in_portfolio :
        portfolio_error fl limits resolver (validate fl limits resolver instr).0 ≡ none
    pub room : length c.exec_queue < queue_capacity

  check_risk-Queued :
      (c : ClientState) (instr : ExecutionInstruction)
      → Queued
          (PassesRisk c instr)
          c.exec_queue
          (check_risk fl limits resolver c instr).exec_queue
          (validate fl limits resolver instr).0
  unfolding check_risk check_portfolio enqueue
  check_risk-Queued c instr = elim (Option-cases (validate fl limits resolver instr).1) [
    | inr (e, invalid) ↦
        inr (λ p. ground (arith, p.valid), rw (invalid, check_risk) (reject-exec_queue c _ _ _))
    | inl valid ↦
        elim (Option-cases
          (portfolio_error fl limits resolver (validate fl limits resolver instr).0)) [
            | inr (e, over) ↦ inr (
              λ p. ground (arith, p.in_portfolio),
              rw (valid, check_risk, over, check_portfolio) (reject-exec_queue c _ _ _),
            )
            | inl within ↦ elim (Bool-cases (ltb (length c.exec_queue) queue_capacity)) [
              | inl room ↦ inl (
                record { valid = valid; in_portfolio = within; room = ground arith },
                ground arith,
              )
              | inr full ↦ inr (
                λ p. ground (arith, p.room),
                rw (valid, check_risk, within, check_portfolio, full) (reject-exec_queue c _ _ _),
              )
            ]
          ]
  ]

  module _ (crypto : Crypto) (jt : JsonText) where
    -- What a message must be, in the state in which it is handled at the time `now`.
    pub record Passes (c : ClientState) (now : ℕ) (msg : InstructionRelayMsg) : Type 0 where
      pub fresh : (check c.dedup now msg.instruction.instruction_id).1 ≡ true
      pub running : c.paused ≡ false
      pub dated : pos 1 ≤ℤ msg.timestamp
      pub not_stale : unix_milli now ≤ℤ (msg.timestamp +ℤ pos 60_000)
      pub not_early : msg.timestamp ≤ℤ (unix_milli now +ℤ pos 10_000)
      pub signed : IsSigned crypto jt msg.instruction
      pub in_rate : (allow c.rate_limit now).1 ≡ true
      pub valid : (validate fl limits resolver msg.instruction).1 ≡ none
      pub in_portfolio :
          portfolio_error fl limits resolver (validate fl limits resolver msg.instruction).0 ≡ none
      pub room : length c.exec_queue < queue_capacity

    check_rate-Queued :
        (c : ClientState) (now : ℕ) (instr : ExecutionInstruction)
        → Queued
            ((((allow c.rate_limit now).1 ≡ true) × PassesRisk c instr))
            c.exec_queue
            (check_rate fl limits resolver c now instr).exec_queue
            (validate fl limits resolver instr).0
    unfolding check_rate
    check_rate-Queued c now instr = elim (Bool-cases (allow c.rate_limit now).1) [
      | inl ok ↦
          elim (check_risk-Queued (record c { rate_limit = (allow c.rate_limit now).0 }) instr) [
            | inl (p, queued) ↦ inl (
              (ok, record { valid = p.valid; in_portfolio = p.in_portfolio; room = p.room }),
              rw ok queued,
            )
            | inr (fails, kept) ↦ inr (
              λ p.
                  fails (record {
                    valid = p.1.valid;
                    in_portfolio = p.1.in_portfolio;
                    room = p.1.room;
                  }),
              rw ok kept,
            )
          ]
      | inr over ↦ inr (λ p. ground (arith, p.0), rw over (reject-exec_queue _ _ _ _))
    ]

    pub check_signature-Queued :
        (c : ClientState) (now : ℕ) (instr : ExecutionInstruction)
        → Queued
            (IsSigned crypto jt instr × ((allow c.rate_limit now).1 ≡ true) × PassesRisk c instr)
            c.exec_queue
            (check_signature fl limits resolver crypto jt c now instr).exec_queue
            (validate fl limits resolver instr).0
    unfolding check_signature
    check_signature-Queued c now instr = elim (Option-cases (signature_error crypto jt instr)) [
      | inl fine ↦ elim (check_rate-Queued c now instr) [
        | inl (p, queued) ↦ inl (
          ((signature_error-none crypto jt instr).0 fine, p.0, p.1),
          rw (fine, check_signature) queued,
        )
        | inr (fails, kept) ↦ inr (λ p. fails (p.1, p.2), rw (fine, check_signature) kept)
      ]
      | inr (answer, wrong) ↦ inr (
        λ p. ground (arith, (signature_error-none crypto jt instr).1 p.0),
        rw (wrong, check_signature)
            (elim (Option-cases answer) [
              | inl silent ↦ rw silent (record_sig_failure-exec_queue c now)
              | inr (text, answered) ↦
                  rw answered (record_sig_failure-exec_queue _ now ∙ reject-exec_queue c _ _ _)
            ]),
      )
    ]

    pub handle_instruction_current :
        (c : ClientState) (now : ℕ) (msg : InstructionRelayMsg)
        → (check c.dedup now msg.instruction.instruction_id).1 ≡ true
        → c.paused ≡ false
        → is_current msg.timestamp (unix_milli now) ≡ true
        → handle_instruction fl limits resolver crypto jt c now (some msg)
          ≡ check_signature fl limits resolver crypto jt
              (record c { dedup = (check c.dedup now msg.instruction.instruction_id).0 })
              now
              msg.instruction
    unfolding handle_instruction
    handle_instruction_current c now msg fresh running current =
        ap
          (λ (x : ClientState × Bool).
            if x.1
            then check_signature fl limits resolver crypto jt x.0 now msg.instruction
            else x.0)
          (begin_instruction_current c now msg fresh running current)

    -- An instruction comes to the end of the queue, with the leverages that the validator leaves,
    -- exactly when its message passes every check in the state in which it is handled; otherwise the
    -- queue stays as it was.
    pub handle_instruction-Queued :
        (c : ClientState) (now : ℕ) (msg : InstructionRelayMsg)
        → Queued
            (Passes c now msg)
            c.exec_queue
            (handle_instruction fl limits resolver crypto jt c now (some msg)).exec_queue
            (validate fl limits resolver msg.instruction).0
    unfolding handle_instruction begin_instruction
    handle_instruction-Queued c now msg =
        elim (Bool-cases (check c.dedup now msg.instruction.instruction_id).1) [
          | inr seen ↦ inr (λ p. ground (arith, p.fresh), rw seen refl)
          | inl fresh ↦ elim (Bool-cases c.paused) [
            | inl paused ↦ inr (λ p. ground (arith, p.running), rw (fresh, paused) refl)
            | inr running ↦ elim (Bool-cases (is_current msg.timestamp (unix_milli now))) [
              | inr stale ↦ inr (
                λ p. ground (
                  arith,
                  (is_current-cases msg.timestamp (unix_milli now)).1
                      (p.dated, p.not_stale, p.not_early),
                ),
                rw (fresh, running, stale) refl,
              )
              | inl current ↦
                  elim (check_signature-Queued
                    (record c { dedup = (check c.dedup now msg.instruction.instruction_id).0 }) now
                    msg.instruction) [
                      | inl (p, queued) ↦
                          let (dated, not_stale, not_early) =
                            (is_current-cases msg.timestamp (unix_milli now)).0 current in
                          inl (
                            record {
                              fresh = fresh;
                              running = running;
                              dated = dated;
                              not_stale = not_stale;
                              not_early = not_early;
                              signed = p.0;
                              in_rate = p.1;
                              valid = p.2.valid;
                              in_portfolio = p.2.in_portfolio;
                              room = p.2.room;
                            },
                            ap (λ (s : ClientState). s.exec_queue)
                                  (handle_instruction_current c now msg fresh running current)
                                ∙ queued,
                          )
                      | inr (fails, kept) ↦ inr (
                        λ p. fails (
                          p.signed,
                          p.in_rate,
                          record { valid = p.valid; in_portfolio = p.in_portfolio; room = p.room },
                        ),
                        ap (λ (s : ClientState). s.exec_queue)
                              (handle_instruction_current c now msg fresh running current)
                            ∙ kept,
                      )
                    ]
            ]
          ]
        ]
