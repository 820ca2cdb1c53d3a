-- ===== src/Relay/CircuitBreaker/Trips.antt =====
-- When the breaker of internal/relay/circuitbreaker.go trips, over any sequence of outcomes.
use native.Mathlib.Decide.{dec_lt}
use mathlib.Core.Option.{some-injective}
use degenbox_hyperliquid_cli.Relay.CircuitBreaker.{
  CircuitBreaker, record_success, record_failure, Outcome, success, failure, observe, trips,
  observe_all,
}
use degenbox_hyperliquid_cli.Base.{
  ℕ, zero, suc, ◌+◌, ◌*◌, ◌≤◌, ◌<◌, ◌≡◌, refl, sym, ◌∙◌, inl, inr, true, false, some, List, [], ◌∷◌,
  ◌++◌, map, arith, if◌then◌else◌, Bool-cases, length, get_elem?,
}
use degenbox_hyperliquid_cli.Base.Int.{ℤ, ◌≤ℤ◌}
use degenbox_hyperliquid_cli.Clock.{sub}

abbrev pub failures : List Outcome → ℕ
failures [] = 0
failures (success ∷ os) = failures os
failures (failure now ∷ os) = suc (failures os)

-- The failures at the end of the outcomes, `n` before them.
abbrev pub trailing : ℕ → List Outcome → ℕ
trailing n [] = n
trailing n (success ∷ os) = trailing 0 os
trailing n (failure now ∷ os) = trailing (suc n) os

-- The settings are never changed.
record_failure_settings :
    (cb : CircuitBreaker) (now : ℕ)
    → ((record_failure cb now).0.max_consecutive ≡ cb.max_consecutive)
      × ((record_failure cb now).0.cooldown ≡ cb.cooldown)
unfolding record_failure
record_failure_settings cb now = ground arith

record_success_settings :
    (cb : CircuitBreaker)
    → ((record_success cb).max_consecutive ≡ cb.max_consecutive)
      × ((record_success cb).cooldown ≡ cb.cooldown)
      × ((record_success cb).tripped_at ≡ cb.tripped_at)
unfolding record_success
record_success_settings cb = ground arith

record_success_fails :
    (cb : CircuitBreaker) → (record_success cb).consecutive_fails ≤ cb.consecutive_fails
unfolding record_success
record_success_fails cb = ground arith

record_success_resets :
    (cb : CircuitBreaker) → 0 < cb.max_consecutive → (record_success cb).consecutive_fails ≤ 0
unfolding record_success
record_success_resets cb h = ground arith

record_failure_counts :
    (cb : CircuitBreaker) (now : ℕ)
    → cb.consecutive_fails + 1 < cb.max_consecutive
    → record_failure cb now ≡ (record cb { consecutive_fails = cb.consecutive_fails + 1 }, false)
unfolding record_failure
record_failure_counts cb now h = ground arith

record_failure_trips :
    (cb : CircuitBreaker) (now : ℕ)
    → cb.consecutive_fails + 1 ≡ cb.max_consecutive
    → cb.cooldown ≤ℤ sub now cb.tripped_at
    → record_failure cb now ≡ (record cb { consecutive_fails = 0; tripped_at = now }, true)
unfolding record_failure
record_failure_trips cb now e c = ground arith

trailing-append_failure :
    (n : ℕ) (os : List Outcome) (now : ℕ)
    → trailing n (os ++ failure now ∷ []) ≡ suc (trailing n os)
trailing-append_failure n [] now = refl
trailing-append_failure n (success ∷ os) now = trailing-append_failure 0 os now
trailing-append_failure n (failure t ∷ os) now = trailing-append_failure (suc n) os now

-- A trip, or its absence, in the count of failures.
record_failure_fails :
    (cb : CircuitBreaker) (now : ℕ)
    → cb.max_consecutive * (if (record_failure cb now).1 then 1 else 0)
        + (record_failure cb now).0.consecutive_fails
      ≤ cb.consecutive_fails + 1
unfolding record_failure
record_failure_fails cb now = ground arith

record_failure_trip :
    (cb : CircuitBreaker) (now : ℕ)
    → (record_failure cb now).1 ≡ true
    → (cb.cooldown ≤ℤ sub now cb.tripped_at)
      × (cb.max_consecutive ≤ cb.consecutive_fails + 1)
      × ((record_failure cb now).0.tripped_at ≡ now)
unfolding record_failure
record_failure_trip cb now h = ground arith

record_failure_quiet :
    (cb : CircuitBreaker) (now : ℕ)
    → (record_failure cb now).1 ≡ false
    → (record_failure cb now).0.tripped_at ≡ cb.tripped_at
unfolding record_failure
record_failure_quiet cb now h = ground arith

-- Over any outcomes, from any state: every trip uses up `max_consecutive` failures, so there are at
-- most as many trips as the failures, and those counted before, pay for.
pub trips_cost :
    (cb : CircuitBreaker) (os : List Outcome)
    → cb.max_consecutive * length (trips cb os) + (observe_all cb os).consecutive_fails
      ≤ cb.consecutive_fails + failures os
unfolding trips observe_all observe
trips_cost cb [] = omega arith
trips_cost cb (success ∷ os) =
    let ih = rw (record_success_settings cb).0 at (trips_cost (record_success cb) os) in
    omega (arith, record_success_fails cb)
trips_cost cb (failure now ∷ os) =
    let ih = rw (record_failure_settings cb now).0 at (trips_cost (record_failure cb now).0 os) in
    let paid = record_failure_fails cb now in
    elim (Bool-cases (record_failure cb now).1) [
      | inl trip ↦ let paid' = rw trip at paid in rw trip (omega arith)
      | inr quiet ↦ let paid' = rw quiet at paid in rw quiet (omega arith)
    ]

-- Each trip after `last` comes a cooldown after the one before it.
abbrev Apart : ℤ → ℕ → List ℕ → Type 0
Apart cooldown last [] = Unit {0}
Apart cooldown last (t ∷ ts) = (cooldown ≤ℤ sub t last) × Apart cooldown t ts

Apart-trips :
    (cb : CircuitBreaker) (os : List Outcome) → Apart cb.cooldown cb.tripped_at (trips cb os)
unfolding trips observe
Apart-trips cb [] = tt
Apart-trips cb (success ∷ os) =
    let ih = rw (record_success_settings cb).1 at (Apart-trips (record_success cb) os) in
    rw (record_success_settings cb).2 at ih
Apart-trips cb (failure now ∷ os) =
    let ih = rw (record_failure_settings cb now).1 at (Apart-trips (record_failure cb now).0 os) in
    elim (Bool-cases (record_failure cb now).1) [
      | inl trip ↦
          let (waited, reached, at_now) = record_failure_trip cb now trip in
          rw trip (waited, rw at_now at ih)
      | inr quiet ↦ rw quiet (rw (record_failure_quiet cb now quiet) at ih)
    ]

Apart-get_elem? :
    (cooldown : ℤ) (last : ℕ) (ts : List ℕ) (i a b : ℕ)
    → Apart cooldown last ts
    → get_elem? ts i ≡ some a
    → get_elem? ts (suc i) ≡ some b
    → cooldown ≤ℤ sub b a
Apart-get_elem? cooldown last [] i a b h ea eb = cc
Apart-get_elem? cooldown last (t ∷ []) i a b h ea eb = cc
Apart-get_elem? cooldown last (t ∷ u ∷ ts) zero a b h ea eb =
    rw (sym (some-injective _ _ ea), sym (some-injective _ _ eb)) h.1.0
Apart-get_elem? cooldown last (t ∷ u ∷ ts) (suc i) a b h ea eb =
    Apart-get_elem? cooldown t (u ∷ ts) i a b h.1 ea eb

-- Over any outcomes, from any state: two trips in a row are at least the cooldown apart.
pub trips_apart :
    (cb : CircuitBreaker) (os : List Outcome) (i a b : ℕ)
    → get_elem? (trips cb os) i ≡ some a
    → get_elem? (trips cb os) (suc i) ≡ some b
    → cb.cooldown ≤ℤ sub b a
trips_apart cb os i a b ea eb =
    Apart-get_elem? cb.cooldown cb.tripped_at (trips cb os) i a b (Apart-trips cb os) ea eb

fails-le-trailing :
    (cb : CircuitBreaker) (n : ℕ) (os : List Outcome)
    → 0 < cb.max_consecutive
    → cb.consecutive_fails ≤ n
    → (observe_all cb os).consecutive_fails ≤ trailing n os
unfolding observe_all observe
fails-le-trailing cb n [] on h = h
fails-le-trailing cb n (success ∷ os) on h =
    fails-le-trailing (record_success cb) 0 os (grind (arith, record_success_settings cb))
      (record_success_resets cb on)
fails-le-trailing cb n (failure now ∷ os) on h =
    fails-le-trailing (record_failure cb now).0 (suc n) os
      (grind (arith, record_failure_settings cb now)) (grind (arith, record_failure_fails cb now))

observe_all_settings :
    (cb : CircuitBreaker) (os : List Outcome)
    → (observe_all cb os).max_consecutive ≡ cb.max_consecutive
unfolding observe_all observe
observe_all_settings cb [] = refl
observe_all_settings cb (success ∷ os) =
    observe_all_settings (record_success cb) os ∙ (record_success_settings cb).0
observe_all_settings cb (failure now ∷ os) =
    observe_all_settings (record_failure cb now).0 os ∙ (record_failure_settings cb now).0

-- A breaker that has just counted nothing trips at a failure only if that failure ends a run of at
-- least `max_consecutive` failures with no success between them.
pub trip_needs_run :
    (cb : CircuitBreaker) (os : List Outcome) (now : ℕ)
    → cb.consecutive_fails ≡ 0
    → (observe (observe_all cb os) (failure now)).1 ≡ true
    → cb.max_consecutive ≤ trailing 0 (os ++ failure now ∷ [])
unfolding observe
trip_needs_run cb os now z h = elim (dec_lt 0 cb.max_consecutive) [
  | yes on ↦ omega (
    arith,
    record_failure_trip (observe_all cb os) now h,
    fails-le-trailing cb 0 os on (omega arith),
    observe_all_settings cb os,
    trailing-append_failure 0 os now,
  )
  | no off ↦ omega arith
]

-- The run of failures that brings the count to `max_consecutive` trips exactly once, at its last
-- failure, if that comes a cooldown after the trip before.
pub trips_prompt :
    (cb : CircuitBreaker) (nows : List ℕ) (now : ℕ)
    → cb.consecutive_fails + length nows + 1 ≡ cb.max_consecutive
    → cb.cooldown ≤ℤ sub now cb.tripped_at
    → trips cb (map failure nows ++ failure now ∷ []) ≡ now ∷ []
unfolding trips observe
trips_prompt cb [] now e c = rw (record_failure_trips cb now (omega arith) c)
trips_prompt cb (t ∷ nows) now e c = rw (record_failure_counts cb t (omega arith)) (
    trips_prompt (record cb { consecutive_fails = cb.consecutive_fails + 1 }) nows now (omega arith)
      c)
