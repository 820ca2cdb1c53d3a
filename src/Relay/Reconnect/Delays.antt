-- ===== src/Relay/Reconnect/Delays.antt =====
-- The waits of `connectLoop` in internal/relay/client.go.
use degenbox_hyperliquid_cli.Relay.Session.{
  auth_unsent, auth_refused, dial_failed, bad_reply, no_reply, insecure_url, Config, Handshake,
  ConnectError, connect, await_reply,
}
use mathlib.Core.Path.{ap₂}
use native.Mathlib.Nat.{two-pow-succ}
use degenbox_hyperliquid_cli.Text.{has_prefix}
use degenbox_hyperliquid_cli.Relay.State.{ClientState}
use degenbox_hyperliquid_cli.Relay.Reconnect.{
  Backoff, max_reconnect, new_backoff, after_failure, after_success, update_api_key, update_keys,
  Round, connect_round, connect_loop,
}
use degenbox_hyperliquid_cli.Base.{
  ℕ, suc, ◌+◌, ◌*◌, ◌^◌, min, ◌≡◌, refl, sym, ap, ◌∙◌, ◌⊎◌, inl, inr, Bool, true, false, ◌&&◌,
  Option, none, some, List, [], ◌∷◌, arith, Bool-cases, if◌then◌else◌, String,
}
use degenbox_hyperliquid_cli.Clock.{second}

-- The connection attempt succeeds.
abbrev pub answered : Option (Option (Bool × String)) → Bool
answered none = false
answered (some none) = false
answered (some (some (success, error))) = success

abbrev pub connects : String → Handshake → Bool
connects url h = has_prefix url "wss://" && h.dialled && h.auth_written && answered h.reply

-- The doublings that are left after keys are set: a key starts them anew.
abbrev pub kept : ℕ → List String → ℕ
kept k [] = k
kept k (key ∷ keys) = 0

-- The delay after a number of doublings: a second, doubled, at most 30 seconds.
abbrev pub delay_after : ℕ → ℕ
delay_after k = min (2 ^ k * second) max_reconnect

-- The waits of rounds, after `k` doublings: one for each attempt that fails.
abbrev pub waits_from : String → ℕ → List Round → List ℕ
waits_from url k [] = []
waits_from url k (r ∷ rs) =
    let k' = kept (kept k r.before) r.during in
    let rest_up = waits_from url 0 rs in
    let rest_down = waits_from url (kept k' r.after + 1) rs in
    if connects url r.handshake then rest_up else delay_after k' ∷ rest_down

two-pow-suc : (k : ℕ) → 2 ^ (k + 1) ≡ 2 ^ k + 2 ^ k
two-pow-suc k = ap (λ n. 2 ^ n) add-one ∙ two-pow-succ k
  where
    add-one : k + 1 ≡ suc k
    add-one = omega arith

after_failure-delay :
    (b : Backoff) (k : ℕ)
    → b.reconnect_delay ≡ delay_after k
    → (after_failure b).reconnect_delay ≡ delay_after (k + 1)
unfolding after_failure
after_failure-delay b k h = let double = two-pow-suc k in ground arith

update_keys-delay :
    (cfg : Config) (b : Backoff) (k : ℕ) (keys : List String)
    → b.reconnect_delay ≡ delay_after k
    → ((update_keys (cfg, b) keys).1.reconnect_delay ≡ delay_after (kept k keys))
      × ((update_keys (cfg, b) keys).0.server_url ≡ cfg.server_url)
unfolding update_keys update_api_key
update_keys-delay cfg b k [] h = (h, refl)
update_keys-delay cfg b k (key ∷ []) h = (refl, refl)
update_keys-delay cfg b k (key ∷ key' ∷ keys) h =
    update_keys-delay (record cfg { api_key = key }) (record b { reconnect_delay = second }) 0
      (key' ∷ keys) refl

await_reply-answered :
    (c : ClientState) (reply : Option (Option (Bool × String)))
    → ((answered reply ≡ true) × ((await_reply c reply).1 ≡ none))
      ⊎ ((answered reply ≡ false) × ((e : ConnectError) × ((await_reply c reply).1 ≡ some e)))
unfolding await_reply
await_reply-answered c none = inr (refl, (no_reply, refl))
await_reply-answered c (some none) = inr (refl, (bad_reply, refl))
await_reply-answered c (some (some (true, error))) = inl (refl, refl)
await_reply-answered c (some (some (false, error))) = inr (refl, (auth_refused error, refl))

connect-connects :
    (cfg : Config) (h : Handshake) (c : ClientState)
    → ((connects cfg.server_url h ≡ true) × ((connect cfg h c).1 ≡ none))
      ⊎ ((connects cfg.server_url h ≡ false)
          × ((e : ConnectError) × ((connect cfg h c).1 ≡ some e)))
unfolding connect
connect-connects cfg h c = elim (Bool-cases (has_prefix cfg.server_url "wss://")) [
  | inr u ↦ inr (rw u refl, (insecure_url, rw u refl))
  | inl u ↦ elim (Bool-cases h.dialled) [
    | inr d ↦ inr (rw (u, d) refl, (dial_failed, rw (u, d) refl))
    | inl d ↦ elim (Bool-cases h.auth_written) [
      | inr a ↦ inr (rw (u, d, a) refl, (auth_unsent, rw (u, d, a) refl))
      | inl a ↦ rw (u, d, a) (await_reply-answered _ h.reply)
    ]
  ]
]

module _ (cfg : Config) (c : ClientState) (b : Backoff) (r : Round) where
  abbrev s1 : Config × Backoff
  s1 = update_keys (cfg, b) r.before

  abbrev s2 : Config × Backoff
  s2 = update_keys s1 r.during

  abbrev c1 : ClientState
  c1 = (connect s1.0 r.handshake c).0

  abbrev s3_down : Config × Backoff
  s3_down = update_keys s2 r.after

  abbrev s3_up : Config × Backoff
  s3_up = update_keys (s2.0, after_success s2.1) r.after

  round_down :
      {e : ConnectError}
      → (connect s1.0 r.handshake c).1 ≡ some e
      → connect_round (cfg, c, b) r
        ≡ ((s3_down.0, c1, after_failure s3_down.1), some s2.1.reconnect_delay)
  unfolding connect_round
  round_down h = rw (h, connect_round) refl

  round_up :
      (connect s1.0 r.handshake c).1 ≡ none
      → connect_round (cfg, c, b) r
        ≡ ((s3_up.0, record c1 { connected = false; conn_closed = true }, s3_up.1), none)
  unfolding connect_round
  round_up h = rw (h, connect_round) refl

  -- The waits of the loop after a round, with the wait of the round.
  abbrev loop_from : List Round → (Config × ClientState × Backoff) × Option ℕ → List ℕ
  loop_from rs (s, wait) = elim wait [
    | none ↦ (connect_loop s rs).1
    | some d ↦ d ∷ (connect_loop s rs).1
  ]

  loop_down :
      {e : ConnectError} (rs : List Round)
      → (connect s1.0 r.handshake c).1 ≡ some e
      → (connect_loop (cfg, c, b) (r ∷ rs)).1
        ≡ s2.1.reconnect_delay ∷ (connect_loop (s3_down.0, c1, after_failure s3_down.1) rs).1
  unfolding connect_loop
  loop_down rs h = ap (loop_from rs) (round_down h)

  loop_up :
      (rs : List Round)
      → (connect s1.0 r.handshake c).1 ≡ none
      → (connect_loop (cfg, c, b) (r ∷ rs)).1
        ≡ (connect_loop
            (s3_up.0, record c1 { connected = false; conn_closed = true }, s3_up.1)
            rs).1
  unfolding connect_loop
  loop_up rs h = ap (loop_from rs) (round_up h)

kept-zero : (keys : List String) → kept 0 keys ≡ 0
kept-zero [] = refl
kept-zero (key ∷ keys) = refl

if_false {ℓ} : {A : Type ℓ} (t : Bool) (x y : A) → t ≡ false → y ≡ (if t then x else y)
if_false t x y h = rw h refl

if_true {ℓ} : {A : Type ℓ} (t : Bool) (x y : A) → t ≡ true → x ≡ (if t then x else y)
if_true t x y h = rw h refl

connect_loop-waits :
    (cfg : Config) (c : ClientState) (b : Backoff) (k : ℕ) (rs : List Round)
    → b.reconnect_delay ≡ delay_after k
    → (connect_loop (cfg, c, b) rs).1 ≡ waits_from cfg.server_url k rs
unfolding connect_loop after_success
connect_loop-waits cfg c b k [] e = refl
connect_loop-waits cfg c b k (r ∷ rs) e =
    let (d1, u1) = update_keys-delay cfg b k r.before e in
    let k1 = kept k r.before in
    let (d2, u2) = update_keys-delay (s1 cfg c b r).0 (s1 cfg c b r).1 k1 r.during d1 in
    let k2 = kept k1 r.during in
    let url : connects cfg.server_url r.handshake
        ≡ connects (s1 cfg c b r).0.server_url r.handshake =
      ap (λ u. connects u r.handshake) (sym u1) in
    elim (connect-connects (s1 cfg c b r).0 r.handshake c) [
      | inl (fine, up) ↦
          let (d3, u3) =
            update_keys-delay (s2 cfg c b r).0 (after_success (s2 cfg c b r).1) 0 r.after refl in
          loop_up cfg c b r rs up
          ∙ connect_loop-waits (s3_up cfg c b r).0 _ (s3_up cfg c b r).1 0 rs
              (d3 ∙ ap delay_after (kept-zero r.after))
          ∙ ap (λ u. waits_from u 0 rs) (u3 ∙ u2 ∙ u1)
          ∙ if_true _ _ _ (url ∙ fine)
      | inr (bad, (error, down)) ↦
          let (d3, u3) = update_keys-delay (s2 cfg c b r).0 (s2 cfg c b r).1 k2 r.after d2 in
          loop_down cfg c b r rs down
          ∙ ap₂ (λ d ds. d ∷ ds) d2
              (connect_loop-waits (s3_down cfg c b r).0 _ (after_failure (s3_down cfg c b r).1)
                  (kept k2 r.after + 1) rs
                  (after_failure-delay (s3_down cfg c b r).1 (kept k2 r.after) d3)
                ∙ ap (λ u. waits_from u (kept k2 r.after + 1) rs) (u3 ∙ u2 ∙ u1))
          ∙ if_false _ _ _ (url ∙ bad)
    ]

-- Over any rounds of the loop, from a new client on, the waits are one for each attempt that fails: a
-- second, doubled for each wait since the last connection and the last `UpdateAPIKey`, but at most 30
-- seconds. A key that is set during a wait is followed by a doubling, and a key that is set between
-- the waits is not.
pub connect_loop_waits :
    (cfg : Config) (c : ClientState) (rs : List Round)
    → (connect_loop (cfg, c, new_backoff) rs).1 ≡ waits_from cfg.server_url 0 rs
connect_loop_waits cfg c rs = connect_loop-waits cfg c new_backoff 0 rs refl
