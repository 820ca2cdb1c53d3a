-- ===== src/Relay/Dedup/Holds.antt =====
-- An entry of the map of internal/relay/dedup.go, under the operations on the map.
use degenbox_hyperliquid_cli.Relay.Dedup.{
  Entry, InstructionDedup, keep, lookup, delete, insert, expire, oldest_from, drop_oldest,
  make_room,
}
use degenbox_hyperliquid_cli.Relay.Dedup.Eviction.{
  count, count-keep-le, All-keep, All-oldest_from, oldest_from_first, oldest_from_start,
  count_below, length-count,
}
use degenbox_hyperliquid_cli.Base.{
  ℕ, suc, ◌+◌, ◌≤◌, ◌<◌, ◌≡◌, refl, ◌≢◌, inl, inr, Bool, true, false, not, some, List, [], ◌∷◌,
  arith, ltb, leb, ◌==◌, if◌then◌else◌, Bool-cases, length, All, String, str_eq, eq_iff,
}
use degenbox_hyperliquid_cli.Base.Int.{ℤ, ltb_ℤ}
use degenbox_hyperliquid_cli.Clock.{sub}

-- The entry of an id, let through at `t0`, while at most `n` ids were let through after it.
pub record Holds (id : String) (t0 : ℕ) (n : ℕ) (m : List Entry) : Type 0 where
  pub found : lookup id m ≡ some t0
  pub only : All (λ e. e.0 ≡ id → e.1 ≡ t0) m
  pub named : All (λ e. e.0 ≢ "") m
  pub alone : count (λ e. e.1 == t0) m ≤ 1
  pub newer : count (λ e. ltb t0 e.1) m ≤ n

pub lookup-keep :
    (q : Entry → Bool) (id : String) (t0 : ℕ) (m : List Entry)
    → ((e : Entry) → e.0 ≡ id → e.1 ≡ t0 → q e ≡ true)
    → All (λ e. e.0 ≡ id → e.1 ≡ t0) m
    → lookup id m ≡ some t0
    → lookup id (keep q m) ≡ some t0
unfolding lookup keep
lookup-keep q id t0 [] pass only h = cc
lookup-keep q id t0 (e ∷ m) pass only h =
    ground (arith, eq_iff e.0 id, pass e, only.0, lookup-keep q id t0 m pass only.1)

pub Holds-keep :
    {id : String} {t0 n : ℕ} (q : Entry → Bool) (m : List Entry)
    → ((e : Entry) → e.0 ≡ id → e.1 ≡ t0 → q e ≡ true)
    → Holds id t0 n m
    → Holds id t0 n (keep q m)
Holds-keep {id = id} {t0 = t0} {n = n} q m pass h = record {
  found = lookup-keep q id t0 m pass h.only h.found;
  only = All-keep (λ e. e.0 ≡ id → e.1 ≡ t0) q m h.only;
  named = All-keep (λ e. e.0 ≢ "") q m h.named;
  alone = omega (arith, count-keep-le (λ e. e.1 == t0) q m, h.alone);
  newer = omega (arith, count-keep-le (λ e. ltb t0 e.1) q m, h.newer);
}

pub Holds-expire :
    {id : String} {t0 n : ℕ} (ttl : ℤ) (now : ℕ) (m : List Entry)
    → ltb_ℤ (sub now t0) ttl ≡ true
    → Holds id t0 n m
    → Holds id t0 n (expire ttl now m)
unfolding expire
Holds-expire ttl now m live h =
    Holds-keep (λ e. ltb_ℤ (sub now e.1) ttl) m (λ e same at. rw at live) h

-- The oldest entry is another's, as long as an entry older than `t0` is left.
pub oldest-ne :
    {id : String} {t0 n : ℕ} (m : List Entry)
    → n + 1 < length m
    → Holds id t0 n m
    → (oldest_from ("", 0) m).0 ≢ id
oldest-ne [] big h same = absurd (omega arith)
oldest-ne {id = id} {t0 = t0} {n = n} (e ∷ m) big h same =
    let low : (oldest_from ("", 0) (e ∷ m)).1 < t0 =
      count_below t0 (oldest_from ("", 0) (e ∷ m)).1 (e ∷ m) (oldest_from_start e m h.named)
        (omega (arith, length-count t0 (e ∷ m), h.alone, h.newer)) in
    let at : (oldest_from ("", 0) (e ∷ m)).1 ≡ t0 = rw (oldest_from_first e m) (
      All-oldest_from (λ e. e.0 ≡ id → e.1 ≡ t0) e m h.only.0 h.only.1
        (rw (oldest_from_first e m) at same)) in
    omega arith

pub Holds-drop_oldest :
    {id : String} {t0 n : ℕ} (m : List Entry)
    → n + 1 < length m
    → Holds id t0 n m
    → Holds id t0 n (drop_oldest m)
unfolding drop_oldest delete
Holds-drop_oldest {id = id} m big h =
    Holds-keep (λ e. not (str_eq e.0 (oldest_from ("", 0) m).0)) m
      (λ e same at. ground (arith, eq_iff e.0 (oldest_from ("", 0) m).0, oldest-ne m big h)) h

pub Holds-make_room :
    {id : String} {t0 n : ℕ} (d : InstructionDedup) (now : ℕ)
    → n + 1 < d.max_size
    → ltb_ℤ (sub now t0) d.ttl ≡ true
    → Holds id t0 n d.seen
    → Holds id t0 n (make_room d now)
unfolding make_room
Holds-make_room {id = id} {t0 = t0} {n = n} d now small live h =
    second (if leb d.max_size (length d.seen) then expire d.ttl now d.seen else d.seen)
      (first (leb d.max_size (length d.seen)))
  where
    first : (b : Bool) → Holds id t0 n (if b then expire d.ttl now d.seen else d.seen)
    first true = Holds-expire d.ttl now d.seen live h
    first false = h

    second :
        (m : List Entry)
        → Holds id t0 n m
        → Holds id t0 n (if leb d.max_size (length m) then drop_oldest m else m)
    second m k = elim (Bool-cases (leb d.max_size (length m))) [
      | inl full ↦ rw full (Holds-drop_oldest m (ground arith) k)
      | inr free ↦ rw free k
    ]

-- A call for another id keeps the entry, and counts as one more after it.
pub Holds-insert_other :
    {id : String} {t0 n : ℕ} (k : String) (now : ℕ) (m : List Entry)
    → k ≢ id
    → k ≢ ""
    → t0 < now
    → Holds id t0 n m
    → Holds id t0 (suc n) (insert k now m)
unfolding insert delete lookup
Holds-insert_other {id = id} {t0 = t0} {n = n} k now m other named late h =
    let rest : Holds id t0 n (delete k m) =
      Holds-keep (λ e. not (str_eq e.0 k)) m (λ e same at. ground (arith, eq_iff e.0 k)) h in
    record {
      found = ground (arith, eq_iff k id, rest.found);
      only = (λ e. absurd (other e), rest.only);
      named = (named, rest.named);
      alone = ground (arith, rest.alone);
      newer = ground (arith, rest.newer);
    }

pub only-delete :
    (id : String) (t0 : ℕ) (m : List Entry) → All (λ e. e.0 ≡ id → e.1 ≡ t0) (delete id m)
unfolding delete keep
only-delete id t0 [] = tt
only-delete id t0 (e ∷ m) = elim (Bool-cases (str_eq e.0 id)) [
  | inl same ↦ rw same (only-delete id t0 m)
  | inr other ↦ rw other (λ same. ground (arith, eq_iff e.0 id), only-delete id t0 m)
]

pub count-older :
    (t0 : ℕ) (m : List Entry)
    → All (λ e. e.1 < t0) m
    → (count (λ e. e.1 == t0) m ≡ 0) × (count (λ e. ltb t0 e.1) m ≡ 0)
count-older t0 [] h = (refl, refl)
count-older t0 (e ∷ m) h = ground (arith, count-older t0 m h.1)

-- A new entry, over entries that are all older.
pub Holds-insert_self :
    (id : String) (t0 : ℕ) (m : List Entry)
    → id ≢ ""
    → All (λ e. e.0 ≢ "") m
    → All (λ e. e.1 < t0) m
    → Holds id t0 0 (insert id t0 m)
unfolding insert delete lookup
Holds-insert_self id t0 m name named older =
    let older' = All-keep (λ e. e.1 < t0) (λ e. not (str_eq e.0 id)) m older in
    record {
      found = ground (arith, eq_iff id id);
      only = (λ e. refl, only-delete id t0 m);
      named = (name, All-keep (λ e. e.0 ≢ "") _ m named);
      alone = ground (arith, count-older t0 (keep (λ e. not (str_eq e.0 id)) m) older');
      newer = ground (arith, count-older t0 (keep (λ e. not (str_eq e.0 id)) m) older');
    }
