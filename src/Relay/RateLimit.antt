-- ===== src/Relay/RateLimit.antt =====
-- internal/relay/client.go: `rateLimiter`, a sliding window of one minute.
pub mod Window
use degenbox_hyperliquid_cli.Base.{
  ℕ, zero, suc, ◌+◌, ◌-◌, ◌*◌, ◌/◌, ◌%◌, ◌^◌, ◌≤◌, ◌<◌, min, ◌≡◌, refl, sym, ap, ◌∙◌, subst, ◌≢◌,
  ◌↔◌, ◌⊎◌, inl, inr, Bool, true, false, not, ◌&&◌, ◌||◌, Option, none, some, List, [], ◌∷◌, ◌++◌,
  map, append_assoc, append-nil, arith, ltb, leb, ◌==◌, if◌then◌else◌, Bool-cases, Option-cases,
  length, get_elem?, set, get_or, replicate, drop, length-append, length-set, length-replicate,
  length-drop, get_or-set_self, get_or-set_ne, All, All-append, All-mono, All-get_elem?, String,
  str_eq, eq_iff,
}
use degenbox_hyperliquid_cli.Base.Int.{ℤ, pos, negsuc, pos_part, neg_part, sub_ℕ, ltb_ℤ, ◌≤ℤ◌}
use degenbox_hyperliquid_cli.Clock.{second, minute, max_duration, sub, before, add_neg, unix_milli}

-- `limit` is an int, positive by construction.
pub record RateLimiter : Type 0 where
  pub limit : ℕ
  pub timestamps : List ℕ

-- `newRateLimiter`.
unfoldable pub new_rate_limiter : ℤ → RateLimiter
new_rate_limiter per_minute = record {
  limit = if ltb_ℤ (pos 0) per_minute then pos_part per_minute else 30;
  timestamps = [];
}

-- The loop of `Allow` that evicts the timestamps before the cutoff.
unfoldable pub evict : ℕ → List ℕ → List ℕ
evict cutoff [] = []
evict cutoff (t ∷ ts) = let rest = evict cutoff ts in if before t cutoff then rest else t ∷ ts

-- `Allow`, at the time `now`.
unfoldable pub allow : RateLimiter → ℕ → RateLimiter × Bool
allow r now =
    let kept = evict (add_neg now minute) r.timestamps in
    if leb r.limit (length kept)
    then (record r { timestamps = kept }, false)
    else (record r { timestamps = kept ++ now ∷ [] }, true)

-- The times at which a sequence of calls is let through.
unfoldable pub admitted : RateLimiter → List ℕ → List ℕ
admitted r [] = []
admitted r (now ∷ nows) =
    let (r', ok) = allow r now in let rest = admitted r' nows in if ok then now ∷ rest else rest
