-- ===== src/Base/Outcome.antt =====
-- What a chain of fallible steps gives: a value, an error, or a panic of a library that it calls.
use mathlib.Core.Bool.{Bool, true, false}
use mathlib.Core.Option.{Option, none, some}
use mathlib.Core.Path.{◌≡◌, refl}

pub data Outcome (E A : Type 0) : Type 0 where
  ok : A → Outcome E A
  err : E → Outcome E A
  panics : Outcome E A

infixl 5 ◌>>=◌ ◌>>◌
abbrev pub ◌>>=◌ : {E A B : Type 0} → Outcome E A → (A → Outcome E B) → Outcome E B
panics >>= next = panics
err e >>= next = err e
ok a >>= next = next a

abbrev pub ◌>>◌ : {E B : Type 0} → Outcome E (Unit {0}) → Outcome E B → Outcome E B
panics >> next = panics
err e >> next = err e
ok done >> next = next

-- A test that returns an error where it fails.
abbrev pub ensure : {E : Type 0} → Bool → E → Outcome E (Unit {0})
ensure false e = err e
ensure true e = ok tt

-- A test whose failure panics.
abbrev pub assert : {E : Type 0} → Bool → Outcome E (Unit {0})
assert false = panics
assert true = ok tt

-- A value that may be missing.
abbrev pub require : {E A : Type 0} → Option A → E → Outcome E A
require (some a) e = ok a
require none e = err e

-- Inversion of a chain that has gone well, step by step.
pub >>=-inv :
    {E A B : Type 0} (first : Outcome E A) (next : A → Outcome E B) {result : B}
    → (first >>= next) ≡ ok result
    → (a : A) × (first ≡ ok a) × (next a ≡ ok result)
>>=-inv panics next h = cc
>>=-inv (err e) next h = cc
>>=-inv (ok a) next h = (a, refl, h)

pub >>-inv :
    {E B : Type 0} (first : Outcome E (Unit {0})) (next : Outcome E B) {result : B}
    → (first >> next) ≡ ok result
    → (first ≡ ok tt) × (next ≡ ok result)
>>-inv panics next h = cc
>>-inv (err e) next h = cc
>>-inv (ok done) next h = (refl, h)

pub ensure-ok : {E : Type 0} (b : Bool) (e : E) {u : Unit {0}} → ensure b e ≡ ok u → b ≡ true
ensure-ok false e h = cc
ensure-ok true e h = refl

pub assert-ok : {E : Type 0} (b : Bool) {u : Unit {0}} → assert {E = E} b ≡ ok u → b ≡ true
assert-ok false h = cc
assert-ok true h = refl

pub require-ok : {E A : Type 0} (o : Option A) (e : E) {a : A} → require o e ≡ ok a → o ≡ some a
require-ok none e h = cc
require-ok (some a) e h = cc
