-- ===== src/Hyperliquid/Nonce/Race.antt =====
-- Goroutines that draw nonces at once, in internal/hyperliquid/client.go: every interleaving of their
-- atomic loads and compare-and-swaps.
use degenbox_hyperliquid_cli.Base.{
  zero, suc, suc, sym, inr, inl, some, subst, Bool-cases, get_elem?, ℕ, ◌+◌, ◌-◌, ◌<◌, ◌≡◌, ◌≢◌,
  List, [], ◌∷◌, arith, ◌==◌, if◌then◌else◌,
}
use mathlib.Core.Option.{some-injective}
use degenbox_hyperliquid_cli.Hyperliquid.Nonce.{next_nonce}
use degenbox_hyperliquid_cli.Base.Int.{ℤ, pos, pos_part, neg_part, ◌≤ℤ◌}
use degenbox_hyperliquid_cli.Clock.{max_duration}

-- Where a goroutine stands in the loop: before the load, or between it and the swap.
pub data Phase : Type 0 where
  idle : Phase
  loaded : ℤ → ℤ → Phase

-- The shared `lastNonce`, the phase of each goroutine, and the nonces drawn, last first.
pub record Shared : Type 0 where
  pub last_nonce : ℤ
  pub phase : ℕ → Phase
  pub drawn : List ℤ

unfoldable pub set_phase : (ℕ → Phase) → ℕ → Phase → ℕ → Phase
set_phase f g p i = if i == g then p else f i

-- One atomic operation of goroutine `g`.
pub data Step : Shared → Shared → Type 0 where
  load :
      (s : Shared) (g : ℕ) (now : ℤ)
      → Step s (record s {
        phase = set_phase s.phase g (loaded s.last_nonce (next_nonce now s.last_nonce));
      })
  swap :
      (s : Shared) (g : ℕ) (old next : ℤ)
      → s.phase g ≡ loaded old next
      → s.last_nonce ≡ old
      → Step s
          (record s { last_nonce = next; phase = set_phase s.phase g idle; drawn = next ∷ s.drawn })
  retry :
      (s : Shared) (g : ℕ) (old next : ℤ)
      → s.phase g ≡ loaded old next
      → s.last_nonce ≢ old
      → Step s (record s { phase = set_phase s.phase g idle })

abbrev pub bound : ℤ
bound = pos (max_duration - 1)

-- A run during which `lastNonce` does not come to the end of an int64.
pub data Run (s : Shared) : Shared → Type 0 where
  here : Run s s
  more : {t u : Shared} → Run s t → t.last_nonce ≤ℤ bound → Step t u → Run s u

infix 50 ◌<ℤ◌
abbrev pub ◌<ℤ◌ : ℤ → ℤ → Type 0
a <ℤ b = pos_part a + neg_part b < pos_part b + neg_part a

next_nonce-gt : (now old : ℤ) → old ≤ℤ bound → old <ℤ next_nonce now old
unfolding next_nonce
next_nonce-gt now old h = ground arith

-- Newest first, each below the one drawn after it.
abbrev Below : ℤ → List ℤ → Type 0
Below top [] = Unit {0}
Below top (n ∷ ns) = (n <ℤ top) × Below n ns

abbrev Capped : ℤ → List ℤ → Type 0
Capped last [] = Unit {0}
Capped last (n ∷ ns) = (n ≤ℤ last) × Below n ns

abbrev Ahead : Phase → Type 0
Ahead idle = Unit {0}
Ahead (loaded old next) = old <ℤ next

record Inv (s : Shared) : Type 0 where
  ahead : (g : ℕ) → Ahead (s.phase g)
  capped : Capped s.last_nonce s.drawn

Ahead-set_phase :
    (f : ℕ → Phase) (g : ℕ) (p : Phase)
    → ((i : ℕ) → Ahead (f i))
    → Ahead p
    → (i : ℕ) → Ahead (set_phase f g p i)
unfolding set_phase
Ahead-set_phase f g p h new i = elim (Bool-cases (i == g)) [
  | inl same ↦ rw same new
  | inr other ↦ rw other (h i)
]

Capped-Below : (last next : ℤ) (ns : List ℤ) → Capped last ns → last <ℤ next → Below next ns
Capped-Below last next [] h lt' = tt
Capped-Below last next (n ∷ ns) h lt' = (omega arith, h.1)

Step-Inv : {s t : Shared} → Step s t → s.last_nonce ≤ℤ bound → Inv s → Inv t
Step-Inv (load s g now) fits h = record {
  ahead = Ahead-set_phase s.phase g _ h.ahead (next_nonce-gt now s.last_nonce fits);
  capped = h.capped;
}
Step-Inv (swap s g old next at same) fits h = record {
  ahead = Ahead-set_phase s.phase g idle h.ahead tt;
  capped = (
    omega arith,
    Capped-Below s.last_nonce next s.drawn h.capped (rw same (subst Ahead at (h.ahead g))),
  );
}
Step-Inv (retry s g old next at other) fits h = record {
  ahead = Ahead-set_phase s.phase g idle h.ahead tt;
  capped = h.capped;
}

Run-Inv : {s t : Shared} → Run s t → Inv s → Inv t
Run-Inv here h = h
Run-Inv (more r fits st) h = Step-Inv st fits (Run-Inv r h)

Below-get_elem? :
    (top : ℤ) (ns : List ℤ) (i : ℕ) (b : ℤ) → Below top ns → get_elem? ns i ≡ some b → b <ℤ top
Below-get_elem? top [] i b h e = cc
Below-get_elem? top (n ∷ ns) zero b h e = rw (sym (some-injective _ _ e)) h.0
Below-get_elem? top (n ∷ ns) (suc i) b h e =
    let deeper = Below-get_elem? n ns i b h.1 e in omega arith

Capped-get_elem? :
    (last : ℤ) (ns : List ℤ) (i j : ℕ) (a b : ℤ)
    → Capped last ns
    → i < j
    → get_elem? ns i ≡ some a
    → get_elem? ns j ≡ some b
    → b <ℤ a
Capped-get_elem? last [] i j a b h lt' ea eb = cc
Capped-get_elem? last (n ∷ ns) zero (suc j) a b h lt' ea eb =
    rw (sym (some-injective _ _ ea)) (Below-get_elem? n ns j b h.1 eb)
Capped-get_elem? last (n ∷ ns) (suc i) (suc j) a b h lt' ea eb =
    Capped-get_elem? n ns i j a b (weaken ns h.1) (omega arith) ea eb
  where
    weaken : (ns : List ℤ) → Below n ns → Capped n ns
    weaken [] k = tt
    weaken (m ∷ ms) k = (omega arith, k.1)
Capped-get_elem? last (n ∷ ns) i zero a b h lt' ea eb = absurd (omega arith)

-- The goroutines of the client before any draw.
abbrev pub IsFresh : Shared → Type 0
IsFresh s = (s.drawn ≡ []) × ((g : ℕ) → s.phase g ≡ idle)

-- However the loads and swaps of any number of goroutines interleave, while `lastNonce` is not at the
-- end of an int64: a nonce drawn later is above every nonce drawn before, so no two are the same.
pub drawn_increases :
    {s t : Shared} (i j : ℕ) (a b : ℤ)
    → IsFresh s
    → Run s t
    → i < j
    → get_elem? t.drawn i ≡ some a
    → get_elem? t.drawn j ≡ some b
    → b <ℤ a
drawn_increases {s} {t} i j a b fresh r lt' ea eb =
    Capped-get_elem? t.last_nonce t.drawn i j a b (Run-Inv r start).capped lt' ea eb
  where
    start : Inv s
    start = record { ahead = λ g. rw (fresh.1 g) tt; capped = rw (fresh.0) tt }
