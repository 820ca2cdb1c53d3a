-- ===== src/Relay/Reconnect.antt =====
-- internal/relay/client.go: `connectLoop`, with the delay between attempts to connect.
pub mod Delays
use degenbox_hyperliquid_cli.Relay.State.{ClientState}
use degenbox_hyperliquid_cli.Relay.Session.{Config, Handshake, ConnectError, connect}
use degenbox_hyperliquid_cli.Base.{
  ℕ, zero, suc, ◌+◌, ◌-◌, ◌*◌, ◌/◌, ◌%◌, ◌^◌, ◌≤◌, ◌<◌, min, ◌≡◌, refl, sym, ap, ◌∙◌, subst, ◌≢◌,
  ◌↔◌, ◌⊎◌, inl, inr, Bool, true, false, not, ◌&&◌, ◌||◌, Option, none, some, List, [], ◌∷◌, ◌++◌,
  map, append_assoc, append-nil, arith, ltb, leb, ◌==◌, if◌then◌else◌, Bool-cases, Option-cases,
  length, get_elem?, set, get_or, replicate, drop, length-append, length-set, length-replicate,
  length-drop, get_or-set_self, get_or-set_ne, All, All-append, All-mono, All-get_elem?, decimal,
  String, str_eq, eq_iff,
}
use degenbox_hyperliquid_cli.Base.Int.{
  ℤ, pos, negsuc, pos_part, neg_part, sub_ℕ, ltb_ℤ, eqb_ℤ, ◌≤ℤ◌, ◌+ℤ◌, ◌-ℤ◌,
}
use degenbox_hyperliquid_cli.Clock.{second, minute, max_duration, sub, before, add_neg, unix_milli}

-- The fields of `Client` that the loop keeps, `reconnectDelay` and `consecutiveFailures`.
pub record Backoff : Type 0 where
  pub reconnect_delay : ℕ
  pub consecutive_failures : ℕ

abbrev pub max_reconnect : ℕ
max_reconnect = 30 * second

-- As `NewClient` sets them.
abbrev pub new_backoff : Backoff
new_backoff = record { reconnect_delay = second; consecutive_failures = 0 }

-- After an attempt that failed and the wait that follows it.
unfoldable pub after_failure : Backoff → Backoff
after_failure b =
    let doubled = b.reconnect_delay * 2 in
    record {
      reconnect_delay = if ltb max_reconnect doubled then max_reconnect else doubled;
      consecutive_failures = b.consecutive_failures + 1;
    }

unfoldable pub after_success : Backoff → Backoff
after_success b = record { reconnect_delay = second; consecutive_failures = 0 }

-- `UpdateAPIKey`.
unfoldable pub update_api_key : Config → Backoff → String → Config × Backoff
update_api_key cfg b key = (record cfg { api_key = key }, record b { reconnect_delay = second })

-- Calls of `UpdateAPIKey` in turn.
unfoldable pub update_keys : Config × Backoff → List String → Config × Backoff
update_keys s [] = s
update_keys (cfg, b) (key ∷ keys) = update_keys (update_api_key cfg b key) keys

-- What a round of the loop meets: the connection attempt, and the keys that are set before it, while
-- it goes on, and after it, which is during the wait or while the connection is up.
pub record Round : Type 0 where
  pub before : List String
  pub handshake : Handshake
  pub during : List String
  pub after : List String

-- One round of the loop: the wait after a failure, or the end of the connection after the read loop.
unfoldable pub connect_round :
    Config × ClientState × Backoff → Round → (Config × ClientState × Backoff) × Option ℕ
connect_round (cfg, c, b) r =
    let (cfg1, b1) = update_keys (cfg, b) r.before in
    let (c', error) = connect cfg1 r.handshake c in
    let (cfg2, b2) = update_keys (cfg1, b1) r.during in
    elim error [
      | some e ↦
          let (cfg3, b3) = update_keys (cfg2, b2) r.after in
          ((cfg3, c', after_failure b3), some b2.reconnect_delay)
      | none ↦
          let (cfg3, b3) = update_keys (cfg2, after_success b2) r.after in
          ((cfg3, record c' { connected = false; conn_closed = true }, b3), none)
    ]

-- `connectLoop` over a sequence of rounds: where it stands after them, and the waits.
unfoldable pub connect_loop :
    Config × ClientState × Backoff → List Round → (Config × ClientState × Backoff) × List ℕ
connect_loop s [] = (s, [])
connect_loop s (r ∷ rs) =
    let (s', wait) = connect_round s r in
    let (s'', waits) = connect_loop s' rs in (s'', elim wait [ none ↦ waits | some d ↦ d ∷ waits ])
