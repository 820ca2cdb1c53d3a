-- ===== src/Relay/Executor.antt =====
-- internal/relay/executor.go: runs the steps of an instruction on the exchange.
-- The readings of the clock within one step are taken as one, `times k` for the step of index `k`.
pub mod Results
pub mod Breaker
pub mod Orders
use Prim.Native.String.{◌++◌ as str_append}
use degenbox_hyperliquid_cli.Hyperliquid.Types.{OrderStatus, OrderResponse, grouping_na}
use degenbox_hyperliquid_cli.Hyperliquid.Exchange.{Transport, Result, ok, err}
use degenbox_hyperliquid_cli.Hyperliquid.Exchange
use degenbox_hyperliquid_cli.Relay.Types.{
  ExecutionStep, ExecutionInstruction, StepResult, TradeEvent, OutMsg, instruction_result, Action,
  update_leverage, place_order, cancel_by_cloid, cancel_by_oid, modify_order, unknown_action,
  action_of,
}
use degenbox_hyperliquid_cli.Relay.CircuitBreaker.{
  CircuitBreaker, Outcome, success, failure, observe,
}
use degenbox_hyperliquid_cli.Relay.State.{ClientState, send_json}
use degenbox_hyperliquid_cli.Base.{
  ℕ, zero, suc, ◌+◌, ◌-◌, ◌*◌, ◌/◌, ◌%◌, ◌^◌, ◌≤◌, ◌<◌, min, ◌≡◌, refl, sym, ap, ◌∙◌, subst, ◌≢◌,
  ◌↔◌, ◌⊎◌, inl, inr, Bool, true, false, not, ◌&&◌, ◌||◌, Option, none, some, List, [], ◌∷◌, ◌++◌,
  map, append_assoc, append-nil, arith, ltb, leb, ◌==◌, if◌then◌else◌, Bool-cases, Option-cases,
  length, get_elem?, set, get_or, replicate, drop, length-append, length-set, length-replicate,
  length-drop, get_or-set_self, get_or-set_ne, All, All-append, All-mono, All-get_elem?, decimal,
  String, str_eq, eq_iff,
}
use degenbox_hyperliquid_cli.Base.Int.{
  ℤ, pos, negsuc, pos_part, neg_part, sub_ℕ, ltb_ℤ, eqb_ℤ, ◌≤ℤ◌, ◌+ℤ◌, ◌-ℤ◌,
}
use degenbox_hyperliquid_cli.Clock.{second, minute, max_duration, sub, before, add_neg, unix_milli}

unfoldable pub failed : ExecutionStep → String → StepResult
failed step error = record { action = step.action; success = false; response = none; error = error }

unfoldable pub succeeded : ExecutionStep → Option OrderResponse → StepResult
succeeded step response = record {
  action = step.action;
  success = true;
  response = response;
  error = "";
}

-- The loop over the statuses of a batch: the first error, with its index.
unfoldable pub first_error : ℕ → List OrderStatus → Option (ℕ × String)
first_error i [] = none
first_error i (status ∷ statuses) =
    let rest = first_error (i + 1) statuses in
    if str_eq status.error "" then rest else some (i, status.error)

-- The result of a `place_order` step, from the reply that was not an error.
unfoldable pub place_order_result : ExecutionStep → Option OrderResponse → StepResult
unfolding first_error failed succeeded
place_order_result step none = succeeded step none
place_order_result step (some resp) = elim (first_error 0 resp.statuses) [
  | none ↦ succeeded step (some resp)
  | some (i, e) ↦ record {
    action = step.action;
    success = false;
    response = some resp;
    error = str_append "order " (
        str_append (decimal (i + 1)) (
          str_append "/" (str_append (decimal (length resp.statuses)) (str_append " failed: " e))));
  }
]

module _ (tr : Transport) where
  -- `executePlaceOrder`.
  unfoldable pub execute_place_order : ℤ → ℤ → ExecutionStep → ℤ × StepResult
  unfolding place_order_result failed
  execute_place_order now last step =
      let grouping = if str_eq step.grouping "" then grouping_na else step.grouping in
      let (last', reply) = Exchange.place_order tr now last step.orders grouping in
      (last', elim reply [ err e ↦ failed step e | ok resp ↦ place_order_result step resp ])

  -- `executeModifyOrder`.
  unfoldable pub execute_modify_order : ℤ → ℤ → ExecutionStep → ℤ × StepResult
  unfolding succeeded failed
  execute_modify_order now last step =
      let (last', reply) = Exchange.modify_order tr now last step.modifications in
      (last', elim reply [ err e ↦ failed step e | ok resp ↦ succeeded step resp ])

  -- The results of the operations that return an error only.
  unfoldable pub plain_result : ExecutionStep → Result (Unit {0}) → StepResult
  unfolding succeeded failed
  plain_result step (err e) = failed step e
  plain_result step (ok _) = succeeded step none

  -- The switch of `executeStep`, with `executeUpdateLeverage`, `executeCancelByCloid` and
  -- `executeCancelByOid`.
  unfoldable pub execute_action : Action → ℤ → ℤ → ExecutionStep → ℤ × StepResult
  unfolding execute_place_order execute_modify_order plain_result failed
  execute_action place_order now last step = execute_place_order now last step
  execute_action update_leverage now last step =
      let (last', reply) =
        Exchange.update_leverage tr now last step.asset step.leverage step.is_cross in
      (last', plain_result step reply)
  execute_action cancel_by_cloid now last step =
      let (last', reply) = Exchange.cancel_order_by_cloid tr now last step.cancels in
      (last', plain_result step reply)
  execute_action cancel_by_oid now last step =
      let (last', reply) = Exchange.cancel_order tr now last step.oid_cancels in
      (last', plain_result step reply)
  execute_action modify_order now last step = execute_modify_order now last step
  execute_action unknown_action now last step =
      (last, failed step (str_append "unknown step action: " step.action))

  -- `executeStep`.
  unfoldable pub execute_step : ℤ → ℤ → ExecutionStep → ℤ × StepResult
  unfolding execute_action
  execute_step now last step = execute_action (action_of step.action) now last step

  -- The event that is recorded for a step.
  unfoldable pub trade_event : ExecutionInstruction → ℕ → ExecutionStep → StepResult → TradeEvent
  trade_event instr now step result = record {
    time = now;
    market = instr.market;
    action = step.action;
    success = result.success;
    error = result.error;
    signal_id = instr.signal_id;
  }

  -- The circuit breaker sees the outcomes of `place_order` steps.
  unfoldable pub outcome : ℕ → StepResult → Outcome
  outcome now result = if result.success then success else failure now

  unfoldable pub track : ClientState → ℕ → ExecutionStep → StepResult → ClientState
  unfolding outcome
  track c now step result =
      if str_eq step.action "place_order"
      then (record c {
        breaker = (observe c.breaker (outcome now result)).0;
        pending_trips =
            if (observe c.breaker (outcome now result)).1
            then c.pending_trips + 1
            else c.pending_trips;
      })
      else c

  -- One round of the loop: the step's request, the trade event, the circuit breaker.
  unfoldable pub run_step :
      ClientState → ExecutionInstruction → ℕ → ExecutionStep → ClientState × StepResult
  run_step c instr now step =
      let (last', result) = execute_step (unix_milli now) c.last_nonce step in
      (
        track
            (record c {
              last_nonce = last';
              trades = c.trades ++ trade_event instr now step result ∷ [];
            })
            now step result,
        result,
      )

  -- The loop of `executeInstruction`, from step `k`: it stops after the first failure.
  unfoldable pub run_steps :
      ClientState
      → ExecutionInstruction
      → (ℕ → ℕ)
      → ℕ
      → List ExecutionStep
      → ClientState × List StepResult
  run_steps c instr times k [] = (c, [])
  run_steps c instr times k (step ∷ steps) =
      let (c', result) = run_step c instr (times k) step in
      let (c'', results) = run_steps c' instr times (k + 1) steps in
      if result.success then (c'', result ∷ results) else (c', result ∷ [])

  -- `executeInstruction`: the state after it.
  unfoldable pub execute_instruction : ClientState → ExecutionInstruction → (ℕ → ℕ) → ClientState
  execute_instruction c instr times =
      let (c', results) = run_steps c instr times 0 instr.steps in
      send_json c' (instruction_result instr.instruction_id results)
