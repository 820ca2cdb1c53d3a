-- ===== src/Bot/TradeStore.antt =====
-- cmd/bot/tradestore.go: the last trades, in a ring of fixed capacity.
pub mod History
use degenbox_hyperliquid_cli.Base.{
  ℕ, zero, suc, ◌+◌, ◌-◌, ◌*◌, ◌/◌, ◌%◌, ◌^◌, ◌≤◌, ◌<◌, min, ◌≡◌, refl, sym, ap, ◌∙◌, subst, ◌≢◌,
  ◌↔◌, ◌⊎◌, inl, inr, Bool, true, false, not, ◌&&◌, ◌||◌, Option, none, some, List, [], ◌∷◌, ◌++◌,
  map, append_assoc, append-nil, arith, ltb, leb, ◌==◌, if◌then◌else◌, Bool-cases, Option-cases,
  length, get_elem?, set, get_or, replicate, drop, length-append, length-set, length-replicate,
  length-drop, get_or-set_self, get_or-set_ne, All, All-append, All-mono, All-get_elem?, String,
  str_eq, eq_iff,
}
use degenbox_hyperliquid_cli.Base.Int.{ℤ, pos, negsuc, pos_part, neg_part, sub_ℕ, ltb_ℤ, ◌≤ℤ◌}
use degenbox_hyperliquid_cli.Clock.{second, minute, max_duration, sub, before, add_neg, unix_milli}

pub record TradeRecord : Type 0 where
  pub time : ℕ
  pub market : String
  pub action : String
  pub success : Bool
  pub error : String
  pub signal_id : String

-- The zero value of `TradeRecord`, which fills a new ring.
abbrev pub zero_record : TradeRecord
zero_record = record {
  time = 0;
  market = "";
  action = "";
  success = false;
  error = "";
  signal_id = "";
}

-- The ints of the struct are never negative.
pub record TradeStore : Type 0 where
  pub records : List TradeRecord
  pub cap : ℕ
  pub cursor : ℕ
  pub count : ℕ

-- `NewTradeStore`.
unfoldable pub new_trade_store : ℕ → TradeStore
new_trade_store capacity = record {
  records = replicate capacity zero_record;
  cap = capacity;
  cursor = 0;
  count = 0;
}

-- `Add`. With no capacity the source panics; the program's store has one.
unfoldable pub add_record : TradeStore → TradeRecord → TradeStore
add_record s r = record s {
  records = set s.records s.cursor r;
  cursor = (s.cursor + 1) % s.cap;
  count = if ltb s.count s.cap then s.count + 1 else s.count;
}

unfoldable pub add_all : TradeStore → List TradeRecord → TradeStore
add_all s [] = s
add_all s (r ∷ rs) = add_all (add_record s r) rs

-- The loop of `Recent`, with `n` rounds left from round `i`.
unfoldable pub read : TradeStore → ℕ → ℕ → ℕ → List TradeRecord
read s start i zero = []
read s start i (suc n) = get_or s.records ((start + i) % s.cap) zero_record ∷ read s start (i + 1) n

-- `Recent`, for an `n` that is not negative.
unfoldable pub recent : TradeStore → ℕ → List TradeRecord
unfolding read
recent s n =
    let n' = if ltb s.count n then s.count else n in
    if n' == 0 then [] else read s ((s.cursor + s.cap - n') % s.cap) 0 n'
