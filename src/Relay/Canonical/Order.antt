-- ===== src/Relay/Canonical/Order.antt =====
-- The order of keys in internal/relay/canonical.go, `sort.Strings`, and the sort by it.
use Prim.Native.Char.{Char, code}
use Prim.Native.String.{compare}
use Prim.Native.String.compare.{nil-cons, cons-nil, cons-cons}
use text.Mathlib.Text.{is_lt}
use text.Mathlib.TextPositions.{compare_self}
use text.Mathlib.TextEquality.{codes_equal}
use degenbox_hyperliquid_cli.Base.{
  ℕ, ◌<◌, ◌≡◌, refl, sym, ◌≢◌, ◌↔◌, ◌⊎◌, inl, inr, true, arith, ltb, Bool-cases, String,
}
use degenbox_hyperliquid_cli.Clock.{second}

-- Texts in the order of their code points.
abbrev pub Before : String → String → Type 0
Before s String.[] = ⊥
Before String.[] (String.◌∷◌ d t) = Unit {0}
Before (String.◌∷◌ c s) (String.◌∷◌ d t) = (code c < code d) ⊎ ((code c ≡ code d) × Before s t)

pub Before-trans : (s t u : String) → Before s t → Before t u → Before s u
Before-trans s t String.[] h k = k
Before-trans s String.[] (String.◌∷◌ e u) h k = elim h [ ]
Before-trans String.[] (String.◌∷◌ d t) (String.◌∷◌ e u) h k = tt
Before-trans (String.◌∷◌ c s) (String.◌∷◌ d t) (String.◌∷◌ e u) (inl h) (inl k) = inl (omega arith)
Before-trans (String.◌∷◌ c s) (String.◌∷◌ d t) (String.◌∷◌ e u) (inl h) (inr k) = inl (omega arith)
Before-trans (String.◌∷◌ c s) (String.◌∷◌ d t) (String.◌∷◌ e u) (inr h) (inl k) = inl (omega arith)
Before-trans (String.◌∷◌ c s) (String.◌∷◌ d t) (String.◌∷◌ e u) (inr h) (inr k) =
    inr (omega arith, Before-trans s t u h.1 k.1)

pub Before-irrefl : (s : String) → ¬ Before s s
Before-irrefl String.[] h = h
Before-irrefl (String.◌∷◌ c s) (inl h) = omega arith
Before-irrefl (String.◌∷◌ c s) (inr h) = Before-irrefl s h.1

tri : (a b : ℕ) → (a < b) ⊎ ((a ≡ b) ⊎ (b < a))
tri a b = elim (Bool-cases (ltb a b)) [
  | inl small ↦ inl (ground arith)
  | inr other ↦ elim (Bool-cases (ltb b a)) [
    | inl big ↦ inr (inr (ground arith))
    | inr neither ↦ inr (inl (ground arith))
  ]
]

same_code : (c d : Char) → code c ≡ code d → c ≡ d
same_code c d h = codes_equal c d (rw h (compare_self (code d)))

cons_same : (c d : Char) (s t : String) → c ≡ d → s ≡ t → String.◌∷◌ c s ≡ String.◌∷◌ d t
cons_same c d s t p q = rw (p, q) refl

pub Before-total : (s t : String) → s ≢ t → Before s t ⊎ Before t s
Before-total String.[] String.[] h = absurd (h refl)
Before-total String.[] (String.◌∷◌ d t) h = inl tt
Before-total (String.◌∷◌ c s) String.[] h = inr tt
Before-total (String.◌∷◌ c s) (String.◌∷◌ d t) h = elim (tri (code c) (code d)) [
  | inl small ↦ inl (inl small)
  | inr rest ↦ elim rest [
    | inr big ↦ inr (inl big)
    | inl same ↦ elim (Before-total s t (λ e. h (cons_same c d s t (same_code c d same) e))) [
      | inl first ↦ inl (inr (same, first))
      | inr second ↦ inr (inr (sym same, second))
    ]
  ]
]

pub is_lt-Before : (s t : String) → (is_lt (compare s t) ≡ true) ↔ Before s t
is_lt-Before String.[] String.[] = (λ h. ground (arith), λ h. elim h [ ])
is_lt-Before String.[] (String.◌∷◌ d t) = (λ h. tt, λ h. rw (nil-cons d t) refl)
is_lt-Before (String.◌∷◌ c s) String.[] = (λ h. ground (arith, cons-nil c s), λ h. elim h [ ])
is_lt-Before (String.◌∷◌ c s) (String.◌∷◌ d t) = rw (cons-cons c d s t) (
  λ h. elim (tri (code c) (code d)) [
    | inl small ↦ inl small
    | inr rest ↦ elim rest [
      | inl same ↦ inr (same, (is_lt-Before s t).0 (rw (same, compare_self (code d)) at h))
      | inr big ↦ absurd (ground arith)
    ]
  ],
  λ h. elim h [
    | inl small ↦ ground arith
    | inr later ↦ rw (later.0, compare_self (code d)) ((is_lt-Before s t).1 later.1)
  ],
)
