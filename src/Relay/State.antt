-- ===== src/Relay/State.antt =====
-- internal/relay/client.go: the state of `Client` that its goroutines change.
use degenbox_hyperliquid_cli.Relay.Types.{ExecutionInstruction, TradeEvent, OutMsg, client_pause}
use degenbox_hyperliquid_cli.Relay.Dedup.{InstructionDedup}
use degenbox_hyperliquid_cli.Relay.RateLimit.{RateLimiter}
use degenbox_hyperliquid_cli.Relay.CircuitBreaker.{CircuitBreaker}
use degenbox_hyperliquid_cli.Base.{ℕ, ◌-◌, Bool, true, List, [], ◌∷◌, ◌++◌, if◌then◌else◌}
use degenbox_hyperliquid_cli.Base.Int.{ℤ}

-- `has_conn` says that `conn` is not nil, `conn_closed` that the last connection was closed by the
-- client; `pending_trips` counts the `onTrip` goroutines that were started and have not run;
-- `last_nonce` is the one of the exchange client; `trades` and `sent` are in order of time;
-- what is in `sent` was handed to the connection, which may have been closed.
pub record ClientState : Type 0 where
  pub dedup : InstructionDedup
  pub rate_limit : RateLimiter
  pub breaker : CircuitBreaker
  pub sig_failures : List ℕ
  pub paused : Bool
  pub connected : Bool
  pub has_conn : Bool
  pub conn_closed : Bool
  pub pending_trips : ℕ
  pub exec_queue : List ExecutionInstruction
  pub last_nonce : ℤ
  pub trades : List TradeEvent
  pub sent : List OutMsg

-- `sendJSON`: without a connection it fails, and its callers pass the error over.
unfoldable pub send_json : ClientState → OutMsg → ClientState
send_json c msg = if c.has_conn then record c { sent = c.sent ++ msg ∷ [] } else c

-- `SendPause`.
unfoldable pub send_pause : ClientState → Bool → ClientState
unfolding send_json
send_pause c paused = if c.connected then send_json c (client_pause paused) else c

-- The callback of the circuit breaker, when its goroutine runs.
unfoldable pub on_trip : ClientState → ClientState
unfolding send_pause
on_trip c = send_pause (record c { paused = true; pending_trips = c.pending_trips - 1 }) true
