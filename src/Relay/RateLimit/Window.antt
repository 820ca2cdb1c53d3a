-- ===== src/Relay/RateLimit/Window.antt =====
-- What the limiter of internal/relay/client.go promises over any sequence of calls.
use native.Mathlib.Nat.{suc-add}
use degenbox_hyperliquid_cli.Relay.RateLimit.{RateLimiter, new_rate_limiter, evict, allow, admitted}
use degenbox_hyperliquid_cli.Base.{
  ℕ, zero, suc, ◌+◌, ◌-◌, ◌≤◌, ◌<◌, ◌≡◌, refl, subst, inl, inr, some, List, [], ◌∷◌, ◌++◌,
  append_assoc, arith, leb, if◌then◌else◌, Bool-cases, length, get_elem?, length-append, All,
  All-mono, All-get_elem?,
}
use degenbox_hyperliquid_cli.Base.Int.{ℤ}
use degenbox_hyperliquid_cli.Clock.{minute, before}

-- The clock does not run backwards.
abbrev pub Rising : ℕ → List ℕ → Type 0
Rising t [] = Unit {0}
Rising t (u ∷ us) = (t ≤ u) × Rising u us

-- What is evicted, as the part of the list before what is kept.
evicted : ℕ → List ℕ → List ℕ
evicted cutoff [] = []
evicted cutoff (t ∷ ts) = let rest = evicted cutoff ts in if before t cutoff then t ∷ rest else []

evicted-append-evict : (c : ℕ) (ts : List ℕ) → evicted c ts ++ evict c ts ≡ ts
unfolding evicted evict
evicted-append-evict c [] = refl
evicted-append-evict c (t ∷ ts) = ground (arith, evicted-append-evict c ts)

evicted-old : (c : ℕ) (ts : List ℕ) → All (λ t. t < c) (evicted c ts)
unfolding evicted
evicted-old c [] = tt
evicted-old c (t ∷ ts) = ground (arith, evicted-old c ts)

-- Each element is followed at distance `k` by one more than a minute later.
abbrev pub Spaced : ℕ → List ℕ → Type 0
Spaced k [] = Unit {0}
Spaced k (a ∷ rest) = ((b : ℕ) → get_elem? (a ∷ rest) k ≡ some b → a + minute < b) × Spaced k rest

get_elem?-append_late :
    (P : ℕ → Type 0) (xs ys : List ℕ) (k b : ℕ)
    → length xs ≤ k
    → All P ys
    → get_elem? (xs ++ ys) k ≡ some b
    → P b
get_elem?-append_late P [] ys k b h later e = All-get_elem? P ys k b later e
get_elem?-append_late P (x ∷ xs) ys zero b h later e = absurd (omega arith)
get_elem?-append_late P (x ∷ xs) ys (suc k) b h later e =
    get_elem?-append_late P xs ys k b (omega arith) later e

Spaced-append :
    (k now : ℕ) (old kept later : List ℕ)
    → All (λ t. t < now - minute) old
    → All (λ t. now ≤ t) later
    → length (old ++ kept) ≤ k
    → Spaced k (kept ++ later)
    → Spaced k ((old ++ kept) ++ later)
Spaced-append k now [] kept later o l h s = s
Spaced-append k now (a ∷ old) kept later o l h s = (
  λ b e.
      let late : now ≤ b = get_elem?-append_late (λ t. now ≤ t) (a ∷ old ++ kept) later k b h l e in
      let early : a < now - minute = o.0 in omega arith,
  Spaced-append k now old kept later o.1 l (omega arith) s,
)

Rising-All : (t : ℕ) (us : List ℕ) → Rising t us → All (λ u. t ≤ u) us
Rising-All t [] h = tt
Rising-All t (u ∷ us) h =
    (h.0, All-mono (λ v. u ≤ v) (λ v. t ≤ v) us (λ a p. omega arith) (Rising-All u us h.1))

admitted-All :
    (r : RateLimiter) (t : ℕ) (nows : List ℕ)
    → All (λ u. t ≤ u) nows
    → All (λ u. t ≤ u) (admitted r nows)
unfolding admitted
admitted-All r t [] h = tt
admitted-All r t (now ∷ nows) h = ground (arith, admitted-All (allow r now).0 t nows h.1)

Spaced-short : (k : ℕ) (ts : List ℕ) → length ts ≤ k → Spaced k (ts ++ [])
Spaced-short k [] h = tt
Spaced-short k (t ∷ ts) h = (
  λ b e. absurd (get_elem?-append_late (λ _. ⊥) (t ∷ ts) [] k b h tt e),
  Spaced-short k ts (omega arith),
)

Spaced-evict :
    (k now : ℕ) (ts later : List ℕ)
    → length ts ≤ k
    → All (λ t. now ≤ t) later
    → Spaced k (evict (now - minute) ts ++ later)
    → Spaced k (ts ++ later)
Spaced-evict k now ts later h l s =
    subst (λ xs. length xs ≤ k → Spaced k (xs ++ later)) (evicted-append-evict (now - minute) ts)
      (λ cap.
        Spaced-append k now (evicted (now - minute) ts) (evict (now - minute) ts) later
          (evicted-old (now - minute) ts) l cap s)
      h

pub length-evict : (c : ℕ) (ts : List ℕ) → length (evict c ts) ≤ length ts
unfolding evict
length-evict c [] = omega arith
length-evict c (t ∷ ts) = ground (arith, length-evict c ts)

-- From any state within its limit, whatever the kept timestamps.
Spaced-admitted :
    (r : RateLimiter) (t : ℕ) (nows : List ℕ)
    → Rising t nows
    → length r.timestamps ≤ r.limit
    → Spaced r.limit (r.timestamps ++ admitted r nows)
unfolding admitted allow
Spaced-admitted r t [] h full = Spaced-short r.limit r.timestamps full
Spaced-admitted r t (now ∷ nows) h full =
    let kept = evict (now - minute) r.timestamps in
    let fewer = length-evict (now - minute) r.timestamps in
    let later = Rising-All now nows h.1 in
    elim (Bool-cases (leb r.limit (length kept))) [
      | inl reached ↦ rw reached (
          Spaced-evict r.limit now r.timestamps (admitted (record r { timestamps = kept }) nows)
            full (admitted-All (record r { timestamps = kept }) now nows later)
            (Spaced-admitted (record r { timestamps = kept }) now nows h.1 (omega arith)))
      | inr free ↦ rw free (
          Spaced-evict r.limit now r.timestamps
            (now ∷ admitted (record r { timestamps = kept ++ now ∷ [] }) nows) full
            (omega arith, admitted-All (record r { timestamps = kept ++ now ∷ [] }) now nows later)
            (rw append_assoc at (
              Spaced-admitted (record r { timestamps = kept ++ now ∷ [] }) now nows h.1
                (ground (arith, length-append kept (now ∷ []))))))
    ]

Spaced-get_elem? :
    (k : ℕ) (xs : List ℕ) (i a b : ℕ)
    → Spaced k xs
    → get_elem? xs i ≡ some a
    → get_elem? xs (i + k) ≡ some b
    → a + minute < b
Spaced-get_elem? k [] i a b s ea eb = cc
Spaced-get_elem? k (x ∷ xs) zero a b s ea eb = ground (arith, s.0 b)
Spaced-get_elem? k (x ∷ xs) (suc i) a b s ea eb =
    Spaced-get_elem? k xs i a b s.1 ea (rw suc-add at eb)

-- Over any calls of `Allow` at times that do not run backwards, on a new limiter: a call that is
-- let through comes more than a minute after the one let through `limit` places before it. So no
-- minute, wherever it begins, has more than `limit` calls that were let through.
pub admitted_window :
    (per_minute : ℤ) (t : ℕ) (nows : List ℕ) (i a b : ℕ)
    → Rising t nows
    → get_elem? (admitted (new_rate_limiter per_minute) nows) i ≡ some a
    → get_elem?
        (admitted (new_rate_limiter per_minute) nows)
        (i + (new_rate_limiter per_minute).limit)
      ≡ some b
    → a + minute < b
unfolding new_rate_limiter
admitted_window per_minute t nows i a b h ea eb =
    Spaced-get_elem? (new_rate_limiter per_minute).limit
      (admitted (new_rate_limiter per_minute) nows) i a b
      (Spaced-admitted (new_rate_limiter per_minute) t nows h (omega arith)) ea eb
