-- ===== src/Examples/Safeguards.antt =====
-- Pauses, bad signatures and the signed encoding at concrete inputs.
use degenbox_hyperliquid_cli.Base.{some, map, ℕ, ◌≡◌, refl, inl, true, List, [], ◌∷◌, ◌++◌, arith}
use degenbox_hyperliquid_cli.Examples.Validation.{resolver, limits, instruction}
use degenbox_hyperliquid_cli.Base.Int.{ℤ, pos}
use degenbox_hyperliquid_cli.Examples.FixedPoint.{fixed}
use degenbox_hyperliquid_cli.Examples.Orders.{exchange, client, step_at}
use degenbox_hyperliquid_cli.Examples.Session.{crypto, json_text, events}
use degenbox_hyperliquid_cli.Relay.Types.{ExecutionInstruction}
use degenbox_hyperliquid_cli.Relay.State.{ClientState, on_trip}
use degenbox_hyperliquid_cli.Relay.SigFailures.{record_all}
use degenbox_hyperliquid_cli.Relay.SigFailures.Disconnect.{five_failures_disconnect}
use degenbox_hyperliquid_cli.Relay.Session.{take_instruction, run, finish_message, do_works, worked}
use degenbox_hyperliquid_cli.Relay.Session.Pause.{Came, trip_holds, pause_spares_queue}
use degenbox_hyperliquid_cli.Relay.Canonical.{instruction_json, step_json, items, cancel_json}
use degenbox_hyperliquid_cli.Relay.Canonical.Covers.{covered_instruction}
use degenbox_hyperliquid_cli.Relay.Canonical.Signed.{signed_determines, signed_execution}
use degenbox_hyperliquid_cli.Relay.Executor.{execute_step}
use degenbox_hyperliquid_cli.Float.Integers.{to_float64}

-- An order step does not carry a leverage into the text.
abbrev odd_entry : ExecutionInstruction
odd_entry = instruction (record (step_at "101") { leverage = pos 50 } ∷ [])

-- One instruction waits.
abbrev busy : ClientState
busy = record client { exec_queue = instruction (step_at "101" ∷ []) ∷ [] }

-- The handling of a message is past the look at the pause when the breaker trips.
abbrev late : ClientState
late =
    finish_message fixed crypto json_text exchange limits resolver
      (do_works exchange (on_trip busy) (worked (λ k. k) ∷ [])) 0 (some odd_entry)

trip_holds_example :
    ((run fixed crypto json_text exchange late events).paused ≡ true)
    × ((came : List ExecutionInstruction) × (taken : List ExecutionInstruction) × Came fixed crypto
          json_text exchange limits resolver
          (some odd_entry)
          came
        × (busy.exec_queue ++ came
            ≡ taken ++ (run fixed crypto json_text exchange late events).exec_queue))
trip_holds_example =
    trip_holds fixed crypto json_text exchange limits resolver 0 (some odd_entry) busy
      (worked (λ k. k) ∷ []) events (tt, (tt, (inl refl, tt)))

pause_spares_queue_example :
    take_instruction exchange (record busy { paused = true }) (λ k. k)
    ≡ record (take_instruction exchange busy (λ k. k)) { paused = true }
pause_spares_queue_example = pause_spares_queue exchange busy true (λ k. k)

abbrev failures : List ℕ
failures = 100_000_000_000 ∷ 110_000_000_000 ∷ 120_000_000_000 ∷ 130_000_000_000 ∷ []

five_failures_disconnect_example :
    (record_all client (failures ++ 140_000_000_000 ∷ [])).conn_closed ≡ true
five_failures_disconnect_example =
    five_failures_disconnect client failures 140_000_000_000 refl refl refl (
      (omega arith, omega arith),
      ((omega arith, omega arith), ((omega arith, omega arith), ((omega arith, omega arith), tt))),
    )

abbrev plain_entry : ExecutionInstruction
plain_entry = instruction (step_at "101" ∷ [])

same_tree : instruction_json odd_entry ≡ instruction_json plain_entry
unfolding instruction_json items step_json
same_tree = refl

signed_determines_example : covered_instruction odd_entry ≡ covered_instruction plain_entry
signed_determines_example = signed_determines odd_entry plain_entry same_tree

signed_execution_example :
    map (execute_step exchange (pos 5) (pos 3)) odd_entry.steps
    ≡ map (execute_step exchange (pos 5) (pos 3)) plain_entry.steps
signed_execution_example =
    signed_execution exchange (pos 5) (pos 3) odd_entry plain_entry (omega arith) (omega arith)
      same_tree

-- 2 ^ 53 + 1 is rounded down, 2 ^ 53 + 3 up.
rounded_down : to_float64 (pos 9007199254740993) ≡ pos 9007199254740992
unfolding to_float64
rounded_down = refl

rounded_up : to_float64 (pos 9007199254740995) ≡ pos 9007199254740996
unfolding to_float64
rounded_up = refl

oid_cancel : ℤ → ExecutionInstruction
oid_cancel oid = instruction (
    record (step_at "101") {
      action = "cancel_order";
      orders = [];
      oid_cancels = record { a = pos 0; o = oid } ∷ [];
    }
    ∷ [])

-- The text for the signature does not tell two large order ids apart.
same_oids :
    instruction_json (oid_cancel (pos 9007199254740993))
    ≡ instruction_json (oid_cancel (pos 9007199254740992))
unfolding instruction_json items step_json cancel_json to_float64 oid_cancel
same_oids = refl
