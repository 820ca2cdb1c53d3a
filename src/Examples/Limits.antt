-- ===== src/Examples/Limits.antt =====
-- The rate limiter, the circuit breaker, the deduplication and the trade store at concrete inputs.
use degenbox_hyperliquid_cli.Relay.RateLimit.{new_rate_limiter, evict, allow, admitted}
use degenbox_hyperliquid_cli.Relay.RateLimit.Window.{admitted_window}
use degenbox_hyperliquid_cli.Relay.CircuitBreaker.{
  CircuitBreaker, new_circuit_breaker, Outcome, success, failure, observe, trips,
}
use degenbox_hyperliquid_cli.Relay.CircuitBreaker.Trips.{trips_apart}
use degenbox_hyperliquid_cli.Relay.Dedup.{Entry, InstructionDedup, check, check_all}
use degenbox_hyperliquid_cli.Relay.Dedup.Replay.{replay_rejected}
use degenbox_hyperliquid_cli.Bot.TradeStore.{
  TradeRecord, zero_record, new_trade_store, add_all, recent,
}
use degenbox_hyperliquid_cli.Bot.TradeStore.History.{recent_history}
use degenbox_hyperliquid_cli.Base.{ℕ, ◌+◌, ◌<◌, ◌≡◌, refl, false, List, [], ◌∷◌, arith, eq_iff}
use degenbox_hyperliquid_cli.Base.Int.{pos, ◌≤ℤ◌}
use degenbox_hyperliquid_cli.Clock.{minute, sub}

abbrev calls : List ℕ
calls = 0 ∷ 30_000_000_000 ∷ 61_000_000_000 ∷ []

admitted_window_example : 0 + minute < 61_000_000_000
unfolding new_rate_limiter admitted allow evict
admitted_window_example = admitted_window (pos 1) 0 calls 0 0 61_000_000_000 (omega arith) refl refl

abbrev breaker : CircuitBreaker
breaker = record { max_consecutive = 2; cooldown = pos 10; consecutive_fails = 0; tripped_at = 0 }

breaker_is_new : new_circuit_breaker (pos 2) (pos 10) ≡ breaker
unfolding new_circuit_breaker
breaker_is_new = refl

abbrev story : List Outcome
story = failure 100 ∷ failure 101 ∷ success ∷ failure 102 ∷ failure 200 ∷ []

trips_apart_example : pos 10 ≤ℤ sub 200 101
unfolding trips observe
trips_apart_example = trips_apart breaker story 0 101 200 refl refl

abbrev dedup : InstructionDedup
dedup = record { seen = []; max_size = 3; ttl = pos 100 }

abbrev later_calls : List Entry
later_calls = ("b", 6) ∷ ("c", 7) ∷ []

replay_rejected_example : (check (check_all (check dedup 5 "a").0 later_calls) 50 "a").1 ≡ false
unfolding check sub
replay_rejected_example =
    replay_rejected dedup "a" 5 50 later_calls refl (ground (arith, eq_iff "a" "")) tt tt
      (
        (ground (arith, eq_iff "b" ""), omega arith, refl),
        ((ground (arith, eq_iff "c" ""), omega arith, refl), tt),
      )
      (omega arith) refl

abbrev trade : ℕ → TradeRecord
trade t = record zero_record { time = t; market = "BTC" }

recent_history_example :
    recent (add_all (new_trade_store 2) (trade 1 ∷ trade 2 ∷ trade 3 ∷ [])) 5
    ≡ trade 2 ∷ trade 3 ∷ []
recent_history_example = recent_history 2 (trade 1 ∷ trade 2 ∷ trade 3 ∷ []) 5 (omega arith)
