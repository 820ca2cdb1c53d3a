-- ===== src/Relay/SigFailures.antt =====
-- internal/relay/client.go: `recordSigFailure`, which disconnects after too many bad signatures.
pub mod Disconnect
use degenbox_hyperliquid_cli.Base.{List, ℕ, ◌*◌, true, [], ◌∷◌, ◌++◌, leb, if◌then◌else◌, length}
use degenbox_hyperliquid_cli.Relay.RateLimit.{evict}
use degenbox_hyperliquid_cli.Relay.State.{ClientState}
use degenbox_hyperliquid_cli.Clock.{second, add_neg}

abbrev pub sig_failure_threshold : ℕ
sig_failure_threshold = 5

abbrev pub sig_failure_window : ℕ
sig_failure_window = 60 * second

-- `recordSigFailure`, at the time `now`. The loop that evicts is the one of the rate limiter.
unfoldable pub record_sig_failure : ClientState → ℕ → ClientState
unfolding evict
record_sig_failure c now =
    let kept = evict (add_neg now sig_failure_window) c.sig_failures ++ now ∷ [] in
    if leb sig_failure_threshold (length kept)
    then record c { sig_failures = []; conn_closed = if c.has_conn then true else c.conn_closed }
    else record c { sig_failures = kept }

-- A sequence of failures, each at its time.
unfoldable pub record_all : ClientState → List ℕ → ClientState
record_all c [] = c
record_all c (t ∷ ts) = record_all (record_sig_failure c t) ts
