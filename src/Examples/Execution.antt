-- ===== src/Examples/Execution.antt =====
-- The execution of instructions at concrete inputs.
use degenbox_hyperliquid_cli.Examples.Validation.{limit_order, instruction}
use degenbox_hyperliquid_cli.Examples.Orders.{exchange, step_at, modify_step, client}
use degenbox_hyperliquid_cli.Hyperliquid.Types.{OrderResponse}
use degenbox_hyperliquid_cli.Hyperliquid.Exchange.{ok, order_action, response_data_of}
use degenbox_hyperliquid_cli.Hyperliquid.Exchange
use degenbox_hyperliquid_cli.Relay.Types.{ExecutionStep}
use degenbox_hyperliquid_cli.Relay.CircuitBreaker.{observe_all}
use degenbox_hyperliquid_cli.Relay.Executor.{execute_modify_order, place_order_result, run_steps}
use degenbox_hyperliquid_cli.Relay.Executor.Orders.{modify_order_hides_failures}
use degenbox_hyperliquid_cli.Relay.Executor.Breaker.{outcomes, run_steps-breaker}
use degenbox_hyperliquid_cli.Relay.Executor.Results.{Ran, run_steps-Ran}
use degenbox_hyperliquid_cli.Base.{ℕ, ◌+◌, ◌*◌, ◌≡◌, refl, true, false, none, some, List, [], ◌∷◌}
use degenbox_hyperliquid_cli.Base.Int.{pos}

-- The second order is refused, the third step does not run.
abbrev steps : List ExecutionStep
steps = step_at "101" ∷ step_at "0" ∷ step_at "102" ∷ []

abbrev times : ℕ → ℕ
times k = 1_000_000 * (k + 1)

run_steps-Ran_example :
    Ran exchange
      (instruction steps)
      times
      client
      0
      steps
      (run_steps exchange client (instruction steps) times 0 steps).0
      (run_steps exchange client (instruction steps) times 0 steps).1
run_steps-Ran_example = run_steps-Ran exchange client (instruction steps) times 0 steps

run_steps-breaker_example :
    (run_steps exchange client (instruction steps) times 0 steps).0.breaker
    ≡ observe_all client.breaker (
        outcomes exchange times 0
          (run_steps exchange client (instruction steps) times 0 steps).1
          steps)
run_steps-breaker_example = run_steps-breaker exchange client (instruction steps) times 0 steps

placed :
    (Exchange.place_order exchange (pos 5) (pos 3) (limit_order "101" ∷ []) "na").1
    ≡ ok (some (record { statuses = record { resting = none; filled = none; error = "" } ∷ [] }))
unfolding Exchange.place_order Exchange.post_exchange Exchange.check_status
    Exchange.response_data_of
placed = refl

abbrev refused : OrderResponse
refused = record { statuses = record { resting = none; filled = none; error = "bad price" } ∷ [] }

modified :
    (Exchange.modify_order exchange (pos 5) (pos 3) modify_step.modifications).1 ≡ ok (some refused)
unfolding Exchange.modify_order Exchange.post_exchange Exchange.check_status
    Exchange.response_data_of
modified = refl

modify_order_hides_failures_example :
    ((execute_modify_order exchange (pos 5) (pos 3) modify_step).1.success ≡ true)
    × ((place_order_result modify_step (some refused)).success ≡ false)
modify_order_hides_failures_example =
    modify_order_hides_failures exchange (pos 5) (pos 3) modify_step refused modified (λ h. cc)
