-- ===== src/Relay/CircuitBreaker.antt =====
-- internal/relay/circuitbreaker.go: pauses the client after consecutive failures of orders.
-- The readings of the clock within one call are taken as one, `now`.
pub mod Trips
use degenbox_hyperliquid_cli.Base.{
  ℕ, zero, suc, ◌+◌, ◌-◌, ◌*◌, ◌/◌, ◌%◌, ◌^◌, ◌≤◌, ◌<◌, min, ◌≡◌, refl, sym, ap, ◌∙◌, subst, ◌≢◌,
  ◌↔◌, ◌⊎◌, inl, inr, Bool, true, false, not, ◌&&◌, ◌||◌, Option, none, some, List, [], ◌∷◌, ◌++◌,
  map, append_assoc, append-nil, arith, ltb, leb, ◌==◌, if◌then◌else◌, Bool-cases, Option-cases,
  length, get_elem?, set, get_or, replicate, drop, length-append, length-set, length-replicate,
  length-drop, get_or-set_self, get_or-set_ne, All, All-append, All-mono, All-get_elem?, String,
  str_eq, eq_iff,
}
use degenbox_hyperliquid_cli.Base.Int.{ℤ, pos, negsuc, pos_part, neg_part, sub_ℕ, ltb_ℤ, ◌≤ℤ◌}
use degenbox_hyperliquid_cli.Clock.{second, minute, max_duration, sub, before, add_neg, unix_milli}

-- `max_consecutive` is an int, never negative by construction; 0 disables the breaker.
pub record CircuitBreaker : Type 0 where
  pub max_consecutive : ℕ
  pub cooldown : ℤ
  pub consecutive_fails : ℕ
  pub tripped_at : ℕ

-- `NewCircuitBreaker`. The callback is the second result of `record_failure`.
unfoldable pub new_circuit_breaker : ℤ → ℤ → CircuitBreaker
new_circuit_breaker max_consecutive cooldown = record {
  max_consecutive = if ltb_ℤ (pos 0) max_consecutive then pos_part max_consecutive else 0;
  cooldown = if ltb_ℤ (pos 0) cooldown then cooldown else pos (30 * minute);
  consecutive_fails = 0;
  tripped_at = 0;
}

-- `RecordSuccess`.
unfoldable pub record_success : CircuitBreaker → CircuitBreaker
record_success cb = if cb.max_consecutive == 0 then cb else record cb { consecutive_fails = 0 }

-- `RecordFailure`; the flag says that `onTrip` is called.
unfoldable pub record_failure : CircuitBreaker → ℕ → CircuitBreaker × Bool
unfolding sub
record_failure cb now =
    let fails = cb.consecutive_fails + 1 in
    if cb.max_consecutive == 0
    then (cb, false)
    else if leb cb.max_consecutive fails
    then (if ltb_ℤ (sub now cb.tripped_at) cb.cooldown
        then (record cb { consecutive_fails = fails }, false)
        else (record cb { consecutive_fails = 0; tripped_at = now }, true))
    else (record cb { consecutive_fails = fails }, false)

-- The outcome of a `place_order` step, with the time at which it is recorded.
pub data Outcome : Type 0 where
  success : Outcome
  failure : ℕ → Outcome

-- The executor's use of the breaker.
unfoldable pub observe : CircuitBreaker → Outcome → CircuitBreaker × Bool
unfolding record_success record_failure
observe cb success = (record_success cb, false)
observe cb (failure now) = record_failure cb now

-- The times of the trips over a sequence of outcomes, and the state after it.
unfoldable pub trips : CircuitBreaker → List Outcome → List ℕ
trips cb [] = []
trips cb (success ∷ os) = trips (observe cb success).0 os
trips cb (failure now ∷ os) =
    let rest = trips (observe cb (failure now)).0 os in
    if (observe cb (failure now)).1 then now ∷ rest else rest

unfoldable pub observe_all : CircuitBreaker → List Outcome → CircuitBreaker
observe_all cb [] = cb
observe_all cb (o ∷ os) = observe_all (observe cb o).0 os
