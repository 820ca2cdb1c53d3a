-- ===== src/Relay/Dedup/Replay.antt =====
-- The size of the map of internal/relay/dedup.go, and ids that come again.
use native.Mathlib.Nat.{add-zero, add-suc, suc-add}
use degenbox_hyperliquid_cli.Relay.Dedup.{
  Entry, InstructionDedup, delete, insert, expire, oldest_from, drop_oldest, make_room,
  is_duplicate, check, check_all,
}
use degenbox_hyperliquid_cli.Relay.Dedup.Eviction.{length-keep-le, All-keep, length-make_room-lt}
use degenbox_hyperliquid_cli.Relay.Dedup.Holds.{
  Holds, Holds-make_room, Holds-insert_other, Holds-insert_self,
}
use degenbox_hyperliquid_cli.Base.{
  ℕ, suc, ◌+◌, ◌≤◌, ◌<◌, ◌≡◌, refl, ◌∙◌, ◌≢◌, inl, inr, Bool, true, false, not, List, [], ◌∷◌,
  arith, leb, if◌then◌else◌, Bool-cases, length, All, String, str_eq,
}
use degenbox_hyperliquid_cli.Base.Int.{ℤ, ltb_ℤ}
use degenbox_hyperliquid_cli.Clock.{sub}

-- A call never takes the map past `max_size`.
pub check_bounded :
    (d : InstructionDedup) (now : ℕ) (id : String)
    → 0 < d.max_size
    → length d.seen ≤ d.max_size
    → length (check d now id).0.seen ≤ d.max_size
unfolding check insert delete
check_bounded d now id some' h = ground (
  arith,
  length-make_room-lt d now some' h,
  length-keep-le (λ f. not (str_eq f.0 id)) (make_room d now),
)

is_duplicate_live :
    {id : String} {t0 n : ℕ} (d : InstructionDedup) (now : ℕ)
    → ltb_ℤ (sub now t0) d.ttl ≡ true
    → Holds id t0 n d.seen
    → is_duplicate d now id ≡ true
unfolding is_duplicate
is_duplicate_live d now live h = rw (h.found, is_duplicate) live

check_settings :
    (d : InstructionDedup) (now : ℕ) (id : String)
    → ((check d now id).0.max_size ≡ d.max_size) × ((check d now id).0.ttl ≡ d.ttl)
unfolding check
check_settings d now id = ground arith

check_fresh :
    (d : InstructionDedup) (now : ℕ) (id : String)
    → (check d now id).1 ≡ true
    → check d now id ≡ (record d { seen = insert id now (make_room d now) }, true)
unfolding check
check_fresh d now id h = ground arith

check_dup :
    (d : InstructionDedup) (now : ℕ) (id : String)
    → is_duplicate d now id ≡ true
    → (check d now id).1 ≡ false
unfolding check
check_dup d now id h = rw h

All-make_room :
    (P : Entry → Type 0) (d : InstructionDedup) (now : ℕ) → All P d.seen → All P (make_room d now)
unfolding make_room expire drop_oldest delete
All-make_room P d now h =
    second (if leb d.max_size (length d.seen) then expire d.ttl now d.seen else d.seen)
      (first (leb d.max_size (length d.seen)))
  where
    first : (b : Bool) → All P (if b then expire d.ttl now d.seen else d.seen)
    first true = All-keep P (λ e. ltb_ℤ (sub now e.1) d.ttl) d.seen h
    first false = h

    second :
        (m : List Entry) → All P m → All P (if leb d.max_size (length m) then drop_oldest m else m)
    second m k = elim (Bool-cases (leb d.max_size (length m))) [
      | inl full ↦ rw full (All-keep P (λ e. not (str_eq e.0 (oldest_from ("", 0) m).0)) m k)
      | inr free ↦ rw free k
    ]

Holds-check :
    {id : String} {t0 n : ℕ} (d : InstructionDedup) (k : String) (now : ℕ)
    → n + 1 < d.max_size
    → ltb_ℤ (sub now t0) d.ttl ≡ true
    → k ≢ ""
    → t0 < now
    → Holds id t0 n d.seen
    → Holds id t0 (suc n) (check d now k).0.seen
unfolding check
Holds-check d k now small live named late h = elim (Bool-cases (is_duplicate d now k)) [
  | inl dup ↦ rw dup (record {
    found = h.found;
    only = h.only;
    named = h.named;
    alone = h.alone;
    newer = omega (arith, h.newer);
  })
  | inr fresh ↦ rw fresh (
      Holds-insert_other k now (make_room d now)
        (λ same. cc (rw same at fresh, is_duplicate_live d now live h)) named late
        (Holds-make_room d now small live h))
]

-- The calls that come after `t0`, each with an id and within the time to live.
abbrev pub Within : ℤ → ℕ → List Entry → Type 0
Within ttl t0 cs = All (λ c. (c.0 ≢ "") × (t0 < c.1) × (ltb_ℤ (sub c.1 t0) ttl ≡ true)) cs

Holds-check_all :
    {id : String} (t0 n : ℕ) (d : InstructionDedup) (cs : List Entry)
    → n + length cs < d.max_size
    → Within d.ttl t0 cs
    → Holds id t0 n d.seen
    → Holds id t0 (n + length cs) (check_all d cs).seen × ((check_all d cs).ttl ≡ d.ttl)
unfolding check_all
Holds-check_all t0 n d [] small w h = (rw add-zero h, refl)
Holds-check_all t0 n d (c ∷ cs) small w h =
    let (same_size, same_ttl) = check_settings d c.1 c.0 in
    let now_holds = Holds-check d c.0 c.1 (omega arith) w.0.2 w.0.0 w.0.1 h in
    let (later, ttl_later) =
      Holds-check_all t0 (suc n) (check d c.1 c.0).0 cs (omega arith) (rw same_ttl w.1) now_holds in
    (rw (add-suc, ← suc-add) later, ttl_later ∙ same_ttl)

-- An id that was let through at `t0` is rejected at every later time within the time to live, if
-- fewer than `max_size` calls came between: no eviction can have dropped it. The ids are not empty,
-- those calls come after `t0` and within the time to live, and the map held only older entries.
pub replay_rejected :
    (d : InstructionDedup) (id : String) (t0 now : ℕ) (cs : List Entry)
    → (check d t0 id).1 ≡ true
    → id ≢ ""
    → All (λ e. e.0 ≢ "") d.seen
    → All (λ e. e.1 < t0) d.seen
    → Within d.ttl t0 cs
    → length cs < d.max_size
    → ltb_ℤ (sub now t0) d.ttl ≡ true
    → (check (check_all (check d t0 id).0 cs) now id).1 ≡ false
replay_rejected d id t0 now cs accepted name named older w small live =
    let entered = record d { seen = insert id t0 (make_room d t0) } in
    let holds =
      Holds-insert_self id t0 (make_room d t0) name (All-make_room (λ e. e.0 ≢ "") d t0 named)
        (All-make_room (λ e. e.1 < t0) d t0 older) in
    let (kept, ttl) = Holds-check_all t0 0 entered cs (omega arith) w holds in
    rw (check_fresh d t0 id accepted) (
      check_dup (check_all entered cs) now id
        (is_duplicate_live (check_all entered cs) now (rw ttl live) kept))
