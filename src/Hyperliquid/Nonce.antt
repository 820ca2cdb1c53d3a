-- ===== src/Hyperliquid/Nonce.antt =====
-- internal/hyperliquid/client.go: the loop of `postExchange` that draws a nonce from `lastNonce`.
pub mod Race
use degenbox_hyperliquid_cli.Base.{
  ℕ, zero, suc, ◌+◌, ◌-◌, ◌*◌, ◌/◌, ◌%◌, ◌^◌, ◌≤◌, ◌<◌, min, ◌≡◌, refl, sym, ap, ◌∙◌, subst, ◌≢◌,
  ◌↔◌, ◌⊎◌, inl, inr, Bool, true, false, not, ◌&&◌, ◌||◌, Option, none, some, List, [], ◌∷◌, ◌++◌,
  map, append_assoc, append-nil, arith, ltb, leb, ◌==◌, if◌then◌else◌, Bool-cases, Option-cases,
  length, get_elem?, set, get_or, replicate, drop, length-append, length-set, length-replicate,
  length-drop, get_or-set_self, get_or-set_ne, All, All-append, All-mono, All-get_elem?, String,
  str_eq, eq_iff,
}
use degenbox_hyperliquid_cli.Base.Int.{
  ℤ, pos, negsuc, pos_part, neg_part, sub_ℕ, ltb_ℤ, eqb_ℤ, ◌≤ℤ◌, ◌+ℤ◌, ◌-ℤ◌,
}
use degenbox_hyperliquid_cli.Clock.{second, minute, max_duration, sub, before, add_neg, unix_milli}

-- The int64 that a sum stands for.
abbrev pub wrap_int64 : ℤ → ℤ
wrap_int64 z = if ltb_ℤ (pos max_duration) z then z -ℤ pos (2 ^ 64) else z

-- What a round proposes, for the clock `now` in milliseconds and the nonce loaded before.
unfoldable pub next_nonce : ℤ → ℤ → ℤ
unfolding ◌-ℤ◌ ◌+ℤ◌
next_nonce now old = if ltb_ℤ old now then now else wrap_int64 (old +ℤ pos 1)
