-- ===== src/Bot/TradeStore/History.antt =====
-- The ring of cmd/bot/tradestore.go against the list of all trades.
use native.Mathlib.Nat.{mod-add-mod, add-mod_right, zero-mod, mod-lt}
use native.Mathlib.Decide.{dec_lt}
use mathlib.Core.Path.{ap₂, ◌≡⟨◌⟩◌, ◌∎}
use degenbox_hyperliquid_cli.Bot.TradeStore.{
  TradeRecord, zero_record, TradeStore, new_trade_store, add_record, add_all, read, recent,
}
use degenbox_hyperliquid_cli.Base.{
  ℕ, zero, suc, ◌+◌, ◌-◌, ◌%◌, ◌≤◌, ◌<◌, min, ◌≡◌, refl, sym, ap, ◌∙◌, ◌≢◌, List, [], ◌∷◌, ◌++◌,
  append_assoc, append-nil, arith, ltb, ◌==◌, if◌then◌else◌, length, set, get_or, drop,
  length-append, length-set, length-replicate, get_or-set_self, get_or-set_ne,
}

-- The ring holds the end of the history `rs`, each trade at its number modulo the capacity.
pub record Shows (s : TradeStore) (rs : List TradeRecord) : Type 0 where
  pub some_cap : 0 < s.cap
  pub size : length s.records ≡ s.cap
  pub at : s.cursor ≡ length rs % s.cap
  pub counted : s.count ≡ min (length rs) s.cap
  pub held :
      (k : ℕ)
      → k < length rs
      → length rs ≤ k + s.cap
      → get_or s.records (k % s.cap) zero_record ≡ get_or rs k zero_record

mod_ne : (c k j : ℕ) → 0 < j → j < c → (k + j) % c ≢ k % c
mod_ne c k j p q = grind arith

mod_back : (c l n i : ℕ) → n ≤ l → n ≤ c → ((l % c + c - n) % c + i) % c ≡ (l - n + i) % c
mod_back c l n i p q =
    ((l % c + c - n) % c + i) % c
    ≡⟨ mod-add-mod (l % c + c - n) c i ⟩ (l % c + c - n + i) % c
    ≡⟨ ap (λ (t : ℕ). t % c) (omega arith) ⟩ (l % c + (c - n + i)) % c
    ≡⟨ mod-add-mod l c (c - n + i) ⟩ (l + (c - n + i)) % c
    ≡⟨ ap (λ (t : ℕ). t % c) (omega arith) ⟩ (l - n + i + c) % c
    ≡⟨ add-mod_right (l - n + i) c ⟩ (l - n + i) % c ∎

new-Shows : (capacity : ℕ) → 0 < capacity → Shows (new_trade_store capacity) []
unfolding new_trade_store
new-Shows capacity h = record {
  some_cap = h;
  size = length-replicate capacity zero_record;
  at = sym (zero-mod capacity);
  counted = omega arith;
  held = λ k low. absurd (omega arith);
}

get_or-append_left :
    (rs ys : List TradeRecord) (k : ℕ)
    → k < length rs
    → get_or (rs ++ ys) k zero_record ≡ get_or rs k zero_record
get_or-append_left [] ys k h = elim h [ ]
get_or-append_left (x ∷ rs) ys zero h = refl
get_or-append_left (x ∷ rs) ys (suc k) h = get_or-append_left rs ys k (omega arith)

get_or-append_last :
    (rs : List TradeRecord) (r : TradeRecord) → get_or (rs ++ r ∷ []) (length rs) zero_record ≡ r
get_or-append_last [] r = refl
get_or-append_last (x ∷ rs) r = get_or-append_last rs r

add_record-held :
    (s : TradeStore) (rs : List TradeRecord) (r : TradeRecord) (k : ℕ)
    → Shows s rs
    → k < length rs + 1
    → length rs + 1 ≤ k + s.cap
    → get_or (set s.records s.cursor r) (k % s.cap) zero_record
      ≡ get_or (rs ++ r ∷ []) k zero_record
add_record-held s rs r k h low near = elim (dec_lt k (length rs)) [
  | yes old ↦ rw (get_or-append_left rs (r ∷ []) k old) (
      get_or-set_ne s.records s.cursor (k % s.cap) r zero_record (λ e.
        mod_ne s.cap k (length rs - k) (omega arith) (omega arith)
          (ap (λ (t : ℕ). t % s.cap) (omega arith) ∙ sym h.at ∙ e))
      ∙ h.held k old (omega arith))
  | no new ↦
      let here : k ≡ length rs = omega arith in
      rw (here, get_or-append_last rs r, ← h.at)
        (get_or-set_self s.records s.cursor r zero_record
          (omega (arith, mod-lt (length rs) h.some_cap, h.at, h.size)))
]

add_record-Shows :
    (s : TradeStore) (rs : List TradeRecord) (r : TradeRecord)
    → Shows s rs
    → Shows (add_record s r) (rs ++ r ∷ [])
unfolding add_record
add_record-Shows s rs r h =
    let longer = length-append rs (r ∷ []) in
    record {
      some_cap = h.some_cap;
      size = length-set s.records s.cursor r ∙ h.size;
      at = rw (h.at, longer) (mod-add-mod (length rs) s.cap 1);
      counted = ground (arith, h.counted);
      held = λ k low near. add_record-held s rs r k h (omega arith) (omega arith);
    }

add_all-Shows :
    (s : TradeStore) (past rs : List TradeRecord) → Shows s past → Shows (add_all s rs) (past ++ rs)
unfolding add_all
add_all-Shows s past [] h = rw append-nil h
add_all-Shows s past (r ∷ rs) h =
    rw append_assoc at
      (add_all-Shows (add_record s r) (past ++ r ∷ []) rs (add_record-Shows s past r h))

drop_all : (rs : List TradeRecord) (k : ℕ) → length rs ≤ k → drop k rs ≡ []
drop_all [] zero h = refl
drop_all [] (suc k) h = refl
drop_all (x ∷ rs) zero h = absurd (omega arith)
drop_all (x ∷ rs) (suc k) h = drop_all rs k (omega arith)

drop_step :
    (rs : List TradeRecord) (k : ℕ)
    → k < length rs
    → drop k rs ≡ get_or rs k zero_record ∷ drop (suc k) rs
drop_step [] k h = elim h [ ]
drop_step (x ∷ rs) zero h = refl
drop_step (x ∷ rs) (suc k) h = drop_step rs k (omega arith)

read_history :
    (s : TradeStore) (rs : List TradeRecord) (m i n : ℕ)
    → Shows s rs
    → m ≤ length rs
    → m ≤ s.cap
    → i + n ≡ m
    → read s ((s.cursor + s.cap - m) % s.cap) i n ≡ drop (length rs - m + i) rs
unfolding read
read_history s rs m i zero h p q e = sym (drop_all rs (length rs - m + i) (omega arith))
read_history s rs m i (suc n) h p q e =
    let index : ((s.cursor + s.cap - m) % s.cap + i) % s.cap ≡ (length rs - m + i) % s.cap =
      ap (λ (c : ℕ). ((c + s.cap - m) % s.cap + i) % s.cap) h.at
      ∙ mod_back s.cap (length rs) m i p q in
    rw (drop_step rs (length rs - m + i) (omega arith)) (
      ap₂ ◌∷◌
        (ap (λ (j : ℕ). get_or s.records j zero_record) index
          ∙ h.held (length rs - m + i) (omega arith) (omega arith))
        (read_history s rs m (i + 1) n h p q (omega arith)
          ∙ ap (λ (j : ℕ). drop j rs) {y = suc (length rs - m + i)} (omega arith)))

recent_of_Shows :
    (s : TradeStore) (rs : List TradeRecord) (n : ℕ)
    → Shows s rs
    → recent s n ≡ drop (length rs - min n (min (length rs) s.cap)) rs
unfolding recent
recent_of_Shows s rs n h =
    ap (λ (m : ℕ). if m == 0 then [] else read s ((s.cursor + s.cap - m) % s.cap) 0 m) amount
    ∙ last (min n (min (length rs) s.cap)) (omega arith) (omega arith)
  where
    amount : (if ltb s.count n then s.count else n) ≡ min n (min (length rs) s.cap)
    amount = ground (arith, h.counted)

    last :
        (m : ℕ)
        → m ≤ length rs
        → m ≤ s.cap
        → (if m == 0 then [] else read s ((s.cursor + s.cap - m) % s.cap) 0 m)
          ≡ drop (length rs - m) rs
    last zero p q = sym (drop_all rs (length rs - 0) (omega arith))
    last (suc m) p q = ground (
      arith,
      read_history s rs (suc m) 0 (suc m) h p q (omega arith)
          ∙ ap (λ (j : ℕ). drop j rs) {y = length rs - suc m} (omega arith),
    )

cap-add_all : (s : TradeStore) (rs : List TradeRecord) → (add_all s rs).cap ≡ s.cap
unfolding add_all add_record
cap-add_all s [] = refl
cap-add_all s (r ∷ rs) = cap-add_all (add_record s r) rs

-- After any trades on a new store with a capacity, `Recent(n)` gives the last of them, oldest
-- first: as many as were asked for, if there are that many and the ring has room for them.
pub recent_history :
    (capacity : ℕ) (rs : List TradeRecord) (n : ℕ)
    → 0 < capacity
    → recent (add_all (new_trade_store capacity) rs) n
      ≡ drop (length rs - min n (min (length rs) capacity)) rs
recent_history capacity rs n h =
    recent_of_Shows (add_all (new_trade_store capacity) rs) rs n
      (add_all-Shows (new_trade_store capacity) [] rs (new-Shows capacity h))
    ∙ ap (λ (c : ℕ). drop (length rs - min n (min (length rs) c)) rs) cap_kept
  where
    cap_kept : (add_all (new_trade_store capacity) rs).cap ≡ capacity
    cap_kept = cap-add_all (new_trade_store capacity) rs ∙ unfold new_trade_store in refl
