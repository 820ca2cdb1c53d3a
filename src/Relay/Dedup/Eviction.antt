-- ===== src/Relay/Dedup/Eviction.antt =====
-- The two evictions of internal/relay/dedup.go: what they keep, and the room that they make.
use degenbox_hyperliquid_cli.Relay.Dedup.{
  Entry, InstructionDedup, keep, delete, expire, oldest_from, drop_oldest, make_room,
}
use degenbox_hyperliquid_cli.Base.{
  ℕ, ◌+◌, ◌≤◌, ◌<◌, ◌≡◌, refl, sym, subst, ◌≢◌, ◌⊎◌, inl, inr, Bool, true, false, not, ◌||◌, List,
  [], ◌∷◌, arith, ltb, leb, ◌==◌, if◌then◌else◌, Bool-cases, length, All, String, str_eq, eq_iff,
}
use degenbox_hyperliquid_cli.Base.Int.{ltb_ℤ}
use degenbox_hyperliquid_cli.Clock.{sub, before}

-- The number of entries that pass a test.
abbrev pub count : (Entry → Bool) → List Entry → ℕ
count p [] = 0
count p (e ∷ m) = (if p e then 1 else 0) + count p m

pub count-keep-le : (p q : Entry → Bool) (m : List Entry) → count p (keep q m) ≤ count p m
unfolding keep
count-keep-le p q [] = omega arith
count-keep-le p q (e ∷ m) = ground (arith, count-keep-le p q m)

pub length-keep-le : (q : Entry → Bool) (m : List Entry) → length (keep q m) ≤ length m
unfolding keep
length-keep-le q [] = omega arith
length-keep-le q (e ∷ m) = ground (arith, length-keep-le q m)

pub All-keep : (P : Entry → Type 0) (q : Entry → Bool) (m : List Entry) → All P m → All P (keep q m)
unfolding keep
All-keep P q [] h = tt
All-keep P q (e ∷ m) h = elim (Bool-cases (q e)) [
  | inl yes' ↦ rw yes' (h.0, All-keep P q m h.1)
  | inr no' ↦ rw no' (All-keep P q m h.1)
]

-- The entry that the search ends with has every property that the entries share.
pub All-oldest_from :
    (P : Entry → Type 0) (best : Entry) (m : List Entry) → P best → All P m → P (oldest_from best m)
unfolding oldest_from
All-oldest_from P best [] p h = p
All-oldest_from P best (e ∷ m) p h = elim (Bool-cases (str_eq best.0 "" || before e.1 best.1)) [
  | inl older ↦ rw older (All-oldest_from P e m h.0 h.1)
  | inr newer ↦ rw newer (All-oldest_from P best m p h.1)
]

pub oldest_from_nil : (best : Entry) → oldest_from best [] ≡ best
unfolding oldest_from
oldest_from_nil best = refl

pub oldest_from_first : (e : Entry) (m : List Entry) → oldest_from ("", 0) (e ∷ m) ≡ oldest_from e m
unfolding oldest_from
oldest_from_first e m = refl

pub oldest_from_take :
    (best e : Entry) (m : List Entry)
    → before e.1 best.1 ≡ true
    → oldest_from best (e ∷ m) ≡ oldest_from e m
unfolding oldest_from
oldest_from_take best e m h = ground arith

pub oldest_from_skip :
    (best e : Entry) (m : List Entry)
    → best.0 ≢ ""
    → before e.1 best.1 ≡ false
    → oldest_from best (e ∷ m) ≡ oldest_from best m
unfolding oldest_from
oldest_from_skip best e m n h = ground (arith, eq_iff best.0 "")

-- With no empty ids it is not newer than any.
pub oldest_from-le :
    (best : Entry) (m : List Entry)
    → best.0 ≢ ""
    → All (λ e. e.0 ≢ "") m
    → ((oldest_from best m).1 ≤ best.1) × All (λ e. (oldest_from best m).1 ≤ e.1) m
oldest_from-le best [] n h = (rw (oldest_from_nil best) (omega arith), tt)
oldest_from-le best (e ∷ m) n h = elim (Bool-cases (before e.1 best.1)) [
  | inl older ↦
      let (low, all) = oldest_from-le e m h.0 h.1 in
      subst (λ (r : Entry). (r.1 ≤ best.1) × All (λ f. r.1 ≤ f.1) (e ∷ m))
        (sym (oldest_from_take best e m older)) (ground arith, (low, all))
  | inr newer ↦
      let (low, all) = oldest_from-le best m n h.1 in
      subst (λ (r : Entry). (r.1 ≤ best.1) × All (λ f. r.1 ≤ f.1) (e ∷ m))
        (sym (oldest_from_skip best e m n newer)) (low, (ground arith, all))
]

-- From the loop's start, the empty id at the zero time, on a map with an entry.
pub oldest_from_start :
    (e : Entry) (m : List Entry)
    → All (λ e. e.0 ≢ "") (e ∷ m)
    → All (λ f. (oldest_from ("", 0) (e ∷ m)).1 ≤ f.1) (e ∷ m)
unfolding oldest_from
oldest_from_start e m h = oldest_from-le e m h.0 h.1

pub count_below :
    (t bound : ℕ) (m : List Entry)
    → All (λ e. bound ≤ e.1) m
    → 0 < count (λ e. ltb e.1 t) m
    → bound < t
count_below t bound [] h pos' = absurd (omega arith)
count_below t bound (e ∷ m) h pos' = ground (arith, count_below t bound m h.1)

pub length-count :
    (t : ℕ) (m : List Entry)
    → length m ≡ count (λ e. ltb e.1 t) m + count (λ e. e.1 == t) m + count (λ e. ltb t e.1) m
length-count t [] = omega arith
length-count t (e ∷ m) = ground (arith, length-count t m)

-- Deleting an id that the map has makes it smaller.
abbrev pub HasKey : String → List Entry → Type 0
HasKey k [] = ⊥
HasKey k (e ∷ m) = (e.0 ≡ k) ⊎ HasKey k m

pub oldest_from-HasKey :
    (best : Entry) (m : List Entry)
    → (oldest_from best m).0 ≡ best.0 ⊎ HasKey (oldest_from best m).0 m
unfolding oldest_from
oldest_from-HasKey best [] = inl refl
oldest_from-HasKey best (e ∷ m) = ground (arith, oldest_from-HasKey e m, oldest_from-HasKey best m)

pub length-delete-lt : (k : String) (m : List Entry) → HasKey k m → length (delete k m) < length m
unfolding delete keep
length-delete-lt k [] h = elim h [ ]
length-delete-lt k (e ∷ m) h =
    ground (arith, eq_iff e.0 k, length-delete-lt k m, length-keep-le (λ f. not (str_eq f.0 k)) m)

pub length-drop_oldest-lt :
    (e : Entry) (m : List Entry) → length (drop_oldest (e ∷ m)) < length (e ∷ m)
unfolding drop_oldest oldest_from
length-drop_oldest-lt e m = length-delete-lt _ (e ∷ m) (ground (arith, oldest_from-HasKey e m))

pub length-drop_oldest_if_full :
    (m : List Entry) (n : ℕ)
    → 0 < n
    → length m ≤ n
    → length (if leb n (length m) then drop_oldest m else m) < n
length-drop_oldest_if_full [] n some' h = ground arith
length-drop_oldest_if_full (e ∷ m) n some' h = ground (arith, length-drop_oldest-lt e m)

-- After both evictions there is room for one more.
pub length-make_room-lt :
    (d : InstructionDedup) (now : ℕ)
    → 0 < d.max_size
    → length d.seen ≤ d.max_size
    → length (make_room d now) < d.max_size
unfolding make_room
length-make_room-lt d now some' h =
    length-drop_oldest_if_full
      (if leb d.max_size (length d.seen) then expire d.ttl now d.seen else d.seen) d.max_size some'
      (ground (arith, length-keep-le (λ e. ltb_ℤ (sub now e.1) d.ttl) d.seen))
