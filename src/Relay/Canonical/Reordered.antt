-- ===== src/Relay/Canonical/Reordered.antt =====
-- The text of internal/relay/canonical.go and the order in which Go visits a map.
use Prim.Native.String.{compare, ◌++◌ as str_append}
use text.Mathlib.Text.{is_lt}
use degenbox_hyperliquid_cli.Relay.Canonical.{
  Json, object, Fields, field, JsonText, insert_key, sort_keys, join, sorted_stringify,
  stringify_fields,
}
use degenbox_hyperliquid_cli.Relay.Canonical.Order.{
  Before, Before-trans, Before-irrefl, Before-total, is_lt-Before,
}
use degenbox_hyperliquid_cli.Base.{
  ◌≡◌, refl, sym, ap, ◌∙◌, ◌≢◌, ◌⊎◌, inl, inr, Bool, true, false, List, [], ◌∷◌, map, arith,
  Bool-cases, String,
}

abbrev Part : Type 0
Part = String × String

-- Whether the key of `f` comes before that of `e`.
abbrev first : Part → Part → Bool
first f e = is_lt (compare f.0 e.0)

first-Before : (f e : Part) → first f e ≡ true → Before f.0 e.0
first-Before f e h = (is_lt-Before f.0 e.0).0 h

-- Of two keys that differ, exactly one comes first.
first-cases :
    (e f : Part)
    → e.0 ≢ f.0
    → ((first f e ≡ true) × (first e f ≡ false)) ⊎ ((first f e ≡ false) × (first e f ≡ true))
first-cases e f ne = elim (Bool-cases (first f e)) [
  | inl fe ↦ inl (
    fe,
    elim (Bool-cases (first e f)) [
      | inr after ↦ after
      | inl ef ↦
          absurd (
            Before-irrefl e.0
              (Before-trans e.0 f.0 e.0 (first-Before e f ef) (first-Before f e fe)))
    ],
  )
  | inr after ↦ inr (
    after,
    elim (Before-total e.0 f.0 ne) [
      | inl b ↦ (is_lt-Before e.0 f.0).1 b
      | inr b ↦ absurd (ground (arith, (is_lt-Before f.0 e.0).1 b))
    ],
  )
]

-- An element before `e` and not before `f` leaves `f` before `e`.
first_between : (e f g : Part) → e.0 ≢ f.0 → first g e ≡ true → first g f ≡ false → first f e ≡ true
first_between e f g ne ge gf = elim (first-cases e f ne) [
  | inl w ↦ w.0
  | inr w ↦
      let gf' =
        (is_lt-Before g.0 f.0).1
          (Before-trans g.0 e.0 f.0 (first-Before g e ge) (first-Before e f w.1)) in
      absurd (ground arith)
]

past : (e g : Part) (l : List Part) → first g e ≡ true → insert_key e (g ∷ l) ≡ g ∷ insert_key e l
unfolding insert_key
past e g l h = rw h refl

here : (e g : Part) (l : List Part) → first g e ≡ false → insert_key e (g ∷ l) ≡ e ∷ g ∷ l
unfolding insert_key
here e g l h = rw h refl

insert_key_nil : (e : Part) → insert_key e [] ≡ e ∷ []
unfolding insert_key
insert_key_nil e = refl

insert_key-insert_key :
    (e f : Part) (l : List Part)
    → e.0 ≢ f.0
    → insert_key e (insert_key f l) ≡ insert_key f (insert_key e l)
insert_key-insert_key e f [] ne = elim (first-cases e f ne) [
  | inl w ↦
      rw (insert_key_nil e, insert_key_nil f, past e f [] w.0, here f e [] w.1, insert_key_nil e)
        refl
  | inr w ↦
      rw (insert_key_nil e, insert_key_nil f, here e f [] w.0, past f e [] w.1, insert_key_nil f)
        refl
]
insert_key-insert_key e f (g ∷ l) ne = elim (Bool-cases (first g e)) [
  | inl ge ↦ elim (Bool-cases (first g f)) [
    | inl gf ↦
        rw
          (past f g l gf, past e g l ge, past e g (insert_key f l) ge, past f g (insert_key e l) gf)
          (ap (λ (r : List Part). g ∷ r) (insert_key-insert_key e f l ne))
    | inr gf ↦
        rw
          (
            here f g l gf,
            past e g l ge,
            past e f (g ∷ l) (first_between e f g ne ge gf),
            past e g l ge,
            here f g (insert_key e l) gf,
          )
          refl
  ]
  | inr ge ↦ elim (Bool-cases (first g f)) [
    | inl gf ↦
        rw
          (
            past f g l gf,
            here e g l ge,
            here e g (insert_key f l) ge,
            past f e (g ∷ l) (first_between f e g (λ q. ne (sym q)) gf ge),
            past f g l gf,
          )
          refl
    | inr gf ↦ elim (first-cases e f ne) [
      | inl w ↦
          rw
            (
              here f g l gf,
              here e g l ge,
              past e f (g ∷ l) w.0,
              here f e (g ∷ l) w.1,
              here e g l ge,
            )
            refl
      | inr w ↦
          rw
            (
              here f g l gf,
              here e g l ge,
              here e f (g ∷ l) w.0,
              past f e (g ∷ l) w.1,
              here f g l gf,
            )
            refl
    ]
  ]
]

-- The same fields in another order: two next to each other, with different keys, change places, any
-- number of times.
pub data Reordered : Fields → Fields → Type 0 where
  same : {fs : Fields} → Reordered fs fs
  swapped :
      {k l : String} {v w : Json} {fs gs : Fields}
      → k ≢ l
      → Reordered fs gs
      → Reordered (field k v (field l w fs)) (field l w (field k v gs))
  under :
      {k : String} {v : Json} {fs gs : Fields}
      → Reordered fs gs
      → Reordered (field k v fs) (field k v gs)
  then_again : {fs gs hs : Fields} → Reordered fs gs → Reordered gs hs → Reordered fs hs

module _ (jt : JsonText) where
  sorted : Fields → List Part
  sorted fs = sort_keys (stringify_fields jt fs)

  sorted-Reordered : {fs gs : Fields} → Reordered fs gs → sorted fs ≡ sorted gs
  unfolding sorted sort_keys stringify_fields
  sorted-Reordered same = refl
  sorted-Reordered (swapped {k} {l} {v} {w} {fs} {gs} ne r) =
      rw (sorted-Reordered r) (insert_key-insert_key _ _ (sorted gs) ne)
  sorted-Reordered (under {k} {v} {fs} {gs} r) = rw (sorted-Reordered r) refl
  sorted-Reordered (then_again r q) = sorted-Reordered r ∙ sorted-Reordered q

  -- The text of a map does not depend on the order in which its fields are visited.
  pub sorted_stringify-Reordered :
      {fs gs : Fields}
      → Reordered fs gs
      → sorted_stringify jt (object fs) ≡ sorted_stringify jt (object gs)
  unfolding sorted_stringify sorted
  sorted_stringify-Reordered {fs} {gs} r =
      ap (λ (parts : List Part). str_append "{" (str_append (join (map (λ e. e.1) parts)) "}"))
        (sorted-Reordered r)
