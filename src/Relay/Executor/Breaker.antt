-- ===== src/Relay/Executor/Breaker.antt =====
-- What the circuit breaker sees of the steps of an instruction, in internal/relay/executor.go.
use degenbox_hyperliquid_cli.Relay.Executor.Results.{run_steps_nil, run_steps_fine, run_steps_bad}
use degenbox_hyperliquid_cli.Hyperliquid.Exchange.{Transport}
use degenbox_hyperliquid_cli.Relay.Types.{ExecutionStep, ExecutionInstruction, StepResult}
use degenbox_hyperliquid_cli.Relay.CircuitBreaker.{CircuitBreaker, Outcome, observe, observe_all}
use degenbox_hyperliquid_cli.Relay.State.{ClientState}
use degenbox_hyperliquid_cli.Relay.Executor.{execute_step, outcome, track, run_step, run_steps}
use degenbox_hyperliquid_cli.Base.{
  ℕ, ◌+◌, ◌≡◌, refl, sym, ap, ◌∙◌, inl, inr, Bool, true, false, List, [], ◌∷◌, arith, if◌then◌else◌,
  Bool-cases, str_eq,
}
use degenbox_hyperliquid_cli.Clock.{unix_milli}

module _ (tr : Transport) where
  -- The outcomes that the circuit breaker is to see for results, from step `k`.
  abbrev pub outcomes : (ℕ → ℕ) → ℕ → List StepResult → List ExecutionStep → List Outcome
  outcomes times k [] ss = []
  outcomes times k (r ∷ rs) [] = []
  outcomes times k (r ∷ rs) (s ∷ ss) =
      if str_eq s.action "place_order"
      then outcome tr (times k) r ∷ outcomes times (k + 1) rs ss
      else outcomes times (k + 1) rs ss

  track-breaker :
      (c : ClientState) (now : ℕ) (step : ExecutionStep) (r : StepResult)
      → (track tr c now step r).breaker ≡ (
          if str_eq step.action "place_order"
          then (observe c.breaker (outcome tr now r)).0
          else c.breaker)
  unfolding track
  track-breaker c now step r = ground arith

  run_step-breaker :
      (c : ClientState) (instr : ExecutionInstruction) (now : ℕ) (step : ExecutionStep)
      → (run_step tr c instr now step).0.breaker ≡ (
          if str_eq step.action "place_order"
          then (observe c.breaker (outcome tr now (run_step tr c instr now step).1)).0
          else c.breaker)
  unfolding run_step
  run_step-breaker c instr now step =
      track-breaker _ now step (execute_step tr (unix_milli now) c.last_nonce step).1

  observe_all_nil : (cb : CircuitBreaker) → observe_all cb [] ≡ cb
  unfolding observe_all
  observe_all_nil cb = refl

  observe_all_cons :
      (cb : CircuitBreaker) (o : Outcome) (os : List Outcome)
      → observe_all cb (o ∷ os) ≡ observe_all (observe cb o).0 os
  unfolding observe_all
  observe_all_cons cb o os = refl

  observe_all_if :
      (b : Bool) (cb : CircuitBreaker) (o : Outcome) (os : List Outcome)
      → observe_all (if b then (observe cb o).0 else cb) os
        ≡ observe_all cb (if b then o ∷ os else os)
  observe_all_if true cb o os = sym (observe_all_cons cb o os)
  observe_all_if false cb o os = refl

  -- The circuit breaker ends as if it had seen, in order, the outcomes of the `place_order` steps that
  -- ran, and nothing of the other steps.
  pub run_steps-breaker :
      (c : ClientState) (instr : ExecutionInstruction) (times : ℕ → ℕ) (k : ℕ)
      (steps : List ExecutionStep)
      → (run_steps tr c instr times k steps).0.breaker
        ≡ observe_all c.breaker (outcomes times k (run_steps tr c instr times k steps).1 steps)
  run_steps-breaker c instr times k [] =
      rw (run_steps_nil tr c instr times k) (sym (observe_all_nil c.breaker))
  run_steps-breaker c instr times k (step ∷ steps) =
      let c' = (run_step tr c instr (times k) step).0 in
      let place = str_eq step.action "place_order" in
      let seen = run_step-breaker c instr (times k) step in
      let o = outcome tr (times k) (run_step tr c instr (times k) step).1 in
      let os = outcomes times (k + 1) (run_steps tr c' instr times (k + 1) steps).1 steps in
      elim (Bool-cases (run_step tr c instr (times k) step).1.success) [
        | inl fine ↦ rw (run_steps_fine tr c instr times k step steps fine) (
            run_steps-breaker c' instr times (k + 1) steps
            ∙ ap (λ (cb : CircuitBreaker). observe_all cb os) seen
            ∙ observe_all_if place c.breaker o os)
        | inr bad ↦
            rw (run_steps_bad tr c instr times k step steps bad)
              (seen ∙ sym (observe_all_nil _) ∙ observe_all_if place c.breaker o [])
      ]
