-- ===== src/Relay/Executor/Results.antt =====
-- What internal/relay/executor.go does with the steps of an instruction.
use mathlib.Core.Path.{ap₂}
use degenbox_hyperliquid_cli.Hyperliquid.Exchange.{Transport}
use degenbox_hyperliquid_cli.Relay.Types.{
  ExecutionStep, ExecutionInstruction, StepResult, TradeEvent, OutMsg, instruction_result, Action,
  update_leverage, place_order, cancel_by_cloid, cancel_by_oid, modify_order, unknown_action,
  action_of,
}
use degenbox_hyperliquid_cli.Relay.State.{ClientState, send_json}
use degenbox_hyperliquid_cli.Relay.Executor.{
  execute_action, execute_step, trade_event, track, run_step, run_steps, execute_instruction,
}
use degenbox_hyperliquid_cli.Base.{
  ℕ, ◌+◌, ◌≡◌, refl, sym, ap, ◌∙◌, inl, inr, Bool, true, false, List, [], ◌∷◌, ◌++◌, append_assoc,
  append-nil, arith, if◌then◌else◌, Bool-cases,
}
use degenbox_hyperliquid_cli.Base.Int.{ℤ}
use degenbox_hyperliquid_cli.Clock.{unix_milli}

module _ (tr : Transport) where
  execute_action-action :
      (action : Action) (now last : ℤ) (step : ExecutionStep)
      → (execute_action tr action now last step).1.action ≡ step.action
  unfolding execute_action
  execute_action-action update_leverage now last step = ground arith
  execute_action-action place_order now last step = ground arith
  execute_action-action cancel_by_cloid now last step = ground arith
  execute_action-action cancel_by_oid now last step = ground arith
  execute_action-action modify_order now last step = ground arith
  execute_action-action unknown_action now last step = refl

  run_step-action :
      (c : ClientState) (instr : ExecutionInstruction) (now : ℕ) (step : ExecutionStep)
      → (run_step tr c instr now step).1.action ≡ step.action
  unfolding run_step execute_step
  run_step-action c instr now step =
      execute_action-action (action_of step.action) (unix_milli now) c.last_nonce step

  pub run_steps_fine :
      (c : ClientState) (instr : ExecutionInstruction) (times : ℕ → ℕ) (k : ℕ)
      (step : ExecutionStep) (steps : List ExecutionStep)
      → (run_step tr c instr (times k) step).1.success ≡ true
      → run_steps tr c instr times k (step ∷ steps) ≡ (
        (run_steps tr (run_step tr c instr (times k) step).0 instr times (k + 1) steps).0,
        (run_step tr c instr (times k) step).1
            ∷ (run_steps tr (run_step tr c instr (times k) step).0 instr times (k + 1) steps).1,
      )
  unfolding run_steps
  run_steps_fine c instr times k step steps h = rw h

  pub run_steps_bad :
      (c : ClientState) (instr : ExecutionInstruction) (times : ℕ → ℕ) (k : ℕ)
      (step : ExecutionStep) (steps : List ExecutionStep)
      → (run_step tr c instr (times k) step).1.success ≡ false
      → run_steps tr c instr times k (step ∷ steps)
        ≡ ((run_step tr c instr (times k) step).0, (run_step tr c instr (times k) step).1 ∷ [])
  unfolding run_steps
  run_steps_bad c instr times k step steps h = rw h

  pub run_steps_nil :
      (c : ClientState) (instr : ExecutionInstruction) (times : ℕ → ℕ) (k : ℕ)
      → run_steps tr c instr times k [] ≡ (c, [])
  unfolding run_steps
  run_steps_nil c instr times k = refl

  -- Running steps one after the other: from a client and the number of the first step to the client
  -- after them and the results. Each step is run on what the one before has left, and a failure ends
  -- it.
  pub data Ran (instr : ExecutionInstruction) (times : ℕ → ℕ)
      : ClientState → ℕ → List ExecutionStep → ClientState → List StepResult → Type 0 where
    all_done : {c : ClientState} {k : ℕ} → Ran instr times c k [] c []
    went_on :
        {c c' : ClientState} {k : ℕ} {s : ExecutionStep} {ss : List ExecutionStep}
        {rs : List StepResult}
        → (run_step tr c instr (times k) s).1.action ≡ s.action
        → (run_step tr c instr (times k) s).1.success ≡ true
        → Ran instr times (run_step tr c instr (times k) s).0 (k + 1) ss c' rs
        → Ran instr times c k (s ∷ ss) c' ((run_step tr c instr (times k) s).1 ∷ rs)
    stopped :
        {c : ClientState} {k : ℕ} {s : ExecutionStep} {ss : List ExecutionStep}
        → (run_step tr c instr (times k) s).1.action ≡ s.action
        → (run_step tr c instr (times k) s).1.success ≡ false
        → Ran instr times c k
            (s ∷ ss)
            (run_step tr c instr (times k) s).0
            ((run_step tr c instr (times k) s).1 ∷ [])

  -- The steps of an instruction are run in order, each on the client that the one before has left,
  -- up to and including the first that fails: the client at the end, with its nonce, its trades and
  -- its breaker, is the one that the last of these steps has left, and the results are theirs.
  pub run_steps-Ran :
      (c : ClientState) (instr : ExecutionInstruction) (times : ℕ → ℕ) (k : ℕ)
      (steps : List ExecutionStep)
      → Ran instr times c k steps
          (run_steps tr c instr times k steps).0
          (run_steps tr c instr times k steps).1
  run_steps-Ran c instr times k [] = rw (run_steps_nil c instr times k) all_done
  run_steps-Ran c instr times k (step ∷ steps) =
      let c' = (run_step tr c instr (times k) step).0 in
      let same = run_step-action c instr (times k) step in
      elim (Bool-cases (run_step tr c instr (times k) step).1.success) [
        | inl fine ↦
            rw (run_steps_fine c instr times k step steps fine)
              (went_on same fine (run_steps-Ran c' instr times (k + 1) steps))
        | inr bad ↦ rw (run_steps_bad c instr times k step steps bad) (stopped same bad)
      ]

  -- The events recorded for results, from step `k`.
  abbrev pub events :
      ExecutionInstruction → (ℕ → ℕ) → ℕ → List StepResult → List ExecutionStep → List TradeEvent
  events instr times k [] ss = []
  events instr times k (r ∷ rs) [] = []
  events instr times k (r ∷ rs) (s ∷ ss) =
      trade_event tr instr (times k) s r ∷ events instr times (k + 1) rs ss

  track-trades :
      (c : ClientState) (now : ℕ) (step : ExecutionStep) (r : StepResult)
      → (track tr c now step r).trades ≡ c.trades
  unfolding track
  track-trades c now step r = ground arith

  run_step-trades :
      (c : ClientState) (instr : ExecutionInstruction) (now : ℕ) (step : ExecutionStep)
      → (run_step tr c instr now step).0.trades
        ≡ c.trades ++ trade_event tr instr now step (run_step tr c instr now step).1 ∷ []
  unfolding run_step
  run_step-trades c instr now step =
      track-trades _ now step (execute_step tr (unix_milli now) c.last_nonce step).1

  -- Every step that ran is recorded once, in order, with its outcome, and nothing else is.
  pub run_steps-trades :
      (c : ClientState) (instr : ExecutionInstruction) (times : ℕ → ℕ) (k : ℕ)
      (steps : List ExecutionStep)
      → (run_steps tr c instr times k steps).0.trades
        ≡ c.trades ++ events instr times k (run_steps tr c instr times k steps).1 steps
  run_steps-trades c instr times k [] =
      rw (run_steps_nil c instr times k) (sym (append-nil c.trades))
  run_steps-trades c instr times k (step ∷ steps) =
      let c' = (run_step tr c instr (times k) step).0 in
      let recorded = run_step-trades c instr (times k) step in
      elim (Bool-cases (run_step tr c instr (times k) step).1.success) [
        | inl fine ↦ rw (run_steps_fine c instr times k step steps fine) (
            run_steps-trades c' instr times (k + 1) steps
            ∙ ap
                (λ (ts : List TradeEvent).
                  ts
                  ++ events instr times (k + 1) (run_steps tr c' instr times (k + 1) steps).1 steps)
                recorded
            ∙ append_assoc c.trades _ _)
        | inr bad ↦ rw (run_steps_bad c instr times k step steps bad) recorded
      ]

  run_step-sent :
      (c : ClientState) (instr : ExecutionInstruction) (now : ℕ) (step : ExecutionStep)
      → ((run_step tr c instr now step).0.sent ≡ c.sent)
        × ((run_step tr c instr now step).0.has_conn ≡ c.has_conn)
  unfolding run_step track
  run_step-sent c instr now step = ground arith

  run_steps-sent :
      (c : ClientState) (instr : ExecutionInstruction) (times : ℕ → ℕ) (k : ℕ)
      (steps : List ExecutionStep)
      → ((run_steps tr c instr times k steps).0.sent ≡ c.sent)
        × ((run_steps tr c instr times k steps).0.has_conn ≡ c.has_conn)
  run_steps-sent c instr times k [] = rw (run_steps_nil c instr times k) (refl, refl)
  run_steps-sent c instr times k (step ∷ steps) =
      let c' = (run_step tr c instr (times k) step).0 in
      let (sent', conn') = run_step-sent c instr (times k) step in
      let (sent'', conn'') = run_steps-sent c' instr times (k + 1) steps in
      elim (Bool-cases (run_step tr c instr (times k) step).1.success) [
        | inl fine ↦
            rw (run_steps_fine c instr times k step steps fine) (sent'' ∙ sent', conn'' ∙ conn')
        | inr bad ↦ rw (run_steps_bad c instr times k step steps bad) (sent', conn')
      ]

  send_json-sent :
      (c : ClientState) (msg : OutMsg)
      → (send_json c msg).sent ≡ c.sent ++ (if c.has_conn then msg ∷ [] else [])
  unfolding send_json
  send_json-sent c msg = ground (arith, append-nil c.sent)

  -- An instruction is answered with one result message, which carries the results of its steps; it
  -- is the only message sent, and without a connection none is.
  pub execute_instruction-sent :
      (c : ClientState) (instr : ExecutionInstruction) (times : ℕ → ℕ)
      → (execute_instruction tr c instr times).sent
        ≡ c.sent
          ++ (if c.has_conn
              then instruction_result instr.instruction_id
                  (run_steps tr c instr times 0 instr.steps).1
                ∷ []
              else [])
  unfolding execute_instruction
  execute_instruction-sent c instr times =
      let (c', results) = run_steps tr c instr times 0 instr.steps in
      let (kept, conn) = run_steps-sent c instr times 0 instr.steps in
      let msg = instruction_result instr.instruction_id results in
      send_json-sent c' msg
      ∙ ap₂ (λ (ms : List OutMsg) (b : Bool). ms ++ (if b then msg ∷ [] else [])) kept conn
