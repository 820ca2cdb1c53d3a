-- ===== src/Relay/SigFailures/Disconnect.antt =====
-- When bad signatures make the client of internal/relay/client.go disconnect.
use degenbox_hyperliquid_cli.Relay.RateLimit.{evict}
use degenbox_hyperliquid_cli.Relay.RateLimit.Window.{length-evict}
use degenbox_hyperliquid_cli.Relay.State.{ClientState}
use degenbox_hyperliquid_cli.Relay.SigFailures.{
  sig_failure_threshold, sig_failure_window, record_sig_failure, record_all,
}
use degenbox_hyperliquid_cli.Base.{
  ℕ, ◌+◌, ◌-◌, ◌≤◌, ◌<◌, ◌≡◌, refl, ◌∙◌, true, List, [], ◌∷◌, ◌++◌, arith, length, length-append,
  All, All-append, All-mono,
}

-- The times from a window before `now` on, up to `now`.
abbrev pub Recent : ℕ → List ℕ → Type 0
Recent now ts = All (λ t. (now - sig_failure_window ≤ t) × (t ≤ now)) ts

evict_recent : (cutoff : ℕ) (ts : List ℕ) → All (λ t. cutoff ≤ t) ts → evict cutoff ts ≡ ts
unfolding evict
evict_recent cutoff [] h = refl
evict_recent cutoff (t ∷ ts) h = ground (arith, h.0)

Recent-cutoff :
    (now u : ℕ) (ts : List ℕ) → u ≤ now → Recent now ts → All (λ t. u - sig_failure_window ≤ t) ts
Recent-cutoff now u ts le' h =
    All-mono (λ t. (now - sig_failure_window ≤ t) × (t ≤ now)) (λ t. u - sig_failure_window ≤ t) ts
      (λ t k. omega arith) h

record_sig_failure_kept :
    (c : ClientState) (now u : ℕ)
    → u ≤ now
    → Recent now c.sig_failures
    → length c.sig_failures < 4
    → record_sig_failure c u ≡ record c { sig_failures = c.sig_failures ++ u ∷ [] }
unfolding record_sig_failure
record_sig_failure_kept c now u le' h few =
    let all =
      evict_recent (u - sig_failure_window) c.sig_failures
        (Recent-cutoff now u c.sig_failures le' h) in
    let longer = length-append c.sig_failures (u ∷ []) in rw all (ground (arith, longer))

record_sig_failure_last :
    (c : ClientState) (now : ℕ)
    → Recent now c.sig_failures
    → length c.sig_failures ≡ 4
    → c.has_conn ≡ true
    → (record_sig_failure c now).conn_closed ≡ true
unfolding record_sig_failure
record_sig_failure_last c now h four conn =
    let all =
      evict_recent (now - sig_failure_window) c.sig_failures
        (Recent-cutoff now now c.sig_failures (omega arith) h) in
    let longer = length-append c.sig_failures (now ∷ []) in rw all (ground (arith, longer, conn))

record_all_step :
    (c : ClientState) (t : ℕ) (ts : List ℕ)
    → record_all c (t ∷ ts) ≡ record_all (record_sig_failure c t) ts
unfolding record_all
record_all_step c t ts = refl

record_all_nil : (c : ClientState) → record_all c [] ≡ c
unfolding record_all
record_all_nil c = refl

record_all_disconnects :
    (c : ClientState) (ts : List ℕ) (now : ℕ)
    → Recent now c.sig_failures
    → Recent now ts
    → length c.sig_failures + length ts ≡ 4
    → c.has_conn ≡ true
    → (record_all c (ts ++ now ∷ [])).conn_closed ≡ true
record_all_disconnects c [] now h k four conn =
    rw (record_all_step c now [], record_all_nil (record_sig_failure c now))
      (record_sig_failure_last c now h (omega arith) conn)
record_all_disconnects c (t ∷ ts) now h k four conn =
    let longer = length-append c.sig_failures (t ∷ []) in
    let kept = record_sig_failure_kept c now t k.0.1 h (omega arith) in
    rw (record_all_step c t (ts ++ now ∷ []), kept)
      (record_all_disconnects (record c { sig_failures = c.sig_failures ++ t ∷ [] }) ts now
        (All-append (λ t. (now - sig_failure_window ≤ t) × (t ≤ now)) c.sig_failures (t ∷ []) h
          (k.0, tt))
        k.1 (omega arith) conn)

record_sig_failure_few :
    (c : ClientState) (t : ℕ)
    → length c.sig_failures < 4
    → ((record_sig_failure c t).conn_closed ≡ c.conn_closed)
      × (length (record_sig_failure c t).sig_failures ≤ length c.sig_failures + 1)
unfolding record_sig_failure
record_sig_failure_few c t few =
    let fewer = length-evict (t - sig_failure_window) c.sig_failures in
    let longer = length-append (evict (t - sig_failure_window) c.sig_failures) (t ∷ []) in
    ground (arith, fewer, longer)

-- From none remembered on, four failures and a fifth, none of them more than a minute before the
-- fifth, close the connection that is open.
pub five_failures_disconnect :
    (c : ClientState) (ts : List ℕ) (now : ℕ)
    → c.sig_failures ≡ []
    → c.has_conn ≡ true
    → length ts ≡ 4
    → Recent now ts
    → (record_all c (ts ++ now ∷ [])).conn_closed ≡ true
five_failures_disconnect c ts now none' conn four recent =
    record_all_disconnects c ts now (rw none' tt) recent (rw none' (omega arith)) conn

-- Fewer failures than five, those remembered before among them, never close the connection.
pub few_failures_keep :
    (c : ClientState) (ts : List ℕ)
    → length c.sig_failures + length ts < sig_failure_threshold
    → (record_all c ts).conn_closed ≡ c.conn_closed
unfolding record_all
few_failures_keep c [] few = refl
few_failures_keep c (t ∷ ts) few =
    let (same, more) = record_sig_failure_few c t (omega arith) in
    few_failures_keep (record_sig_failure c t) ts (omega arith) ∙ same
