-- ===== src/Relay/Dedup.antt =====
-- internal/relay/dedup.go: rejects an instruction id that was seen within the time to live.
-- The Go map is a list of entries; the order of the list stands for the order in which `range`
-- visits the map, which Go leaves open: no order is assumed.
pub mod Eviction
pub mod Holds
pub mod Replay
use degenbox_hyperliquid_cli.Base.{
  ℕ, zero, suc, ◌+◌, ◌-◌, ◌*◌, ◌/◌, ◌%◌, ◌^◌, ◌≤◌, ◌<◌, min, ◌≡◌, refl, sym, ap, ◌∙◌, subst, ◌≢◌,
  ◌↔◌, ◌⊎◌, inl, inr, Bool, true, false, not, ◌&&◌, ◌||◌, Option, none, some, List, [], ◌∷◌, ◌++◌,
  map, append_assoc, append-nil, arith, ltb, leb, ◌==◌, if◌then◌else◌, Bool-cases, Option-cases,
  length, get_elem?, set, get_or, replicate, drop, length-append, length-set, length-replicate,
  length-drop, get_or-set_self, get_or-set_ne, All, All-append, All-mono, All-get_elem?, String,
  str_eq, eq_iff,
}
use degenbox_hyperliquid_cli.Base.Int.{ℤ, pos, negsuc, pos_part, neg_part, sub_ℕ, ltb_ℤ, ◌≤ℤ◌}
use degenbox_hyperliquid_cli.Clock.{second, minute, max_duration, sub, before, add_neg, unix_milli}

abbrev pub Entry : Type 0
Entry = String × ℕ

-- `max_size` is an int; the client gives 1000.
pub record InstructionDedup : Type 0 where
  pub seen : List Entry
  pub max_size : ℕ
  pub ttl : ℤ

-- `NewInstructionDedup`.
unfoldable pub new_instruction_dedup : ℕ → ℤ → InstructionDedup
new_instruction_dedup max_size ttl = record { seen = []; max_size = max_size; ttl = ttl }

-- The entries of a map that pass a test.
unfoldable pub keep : (Entry → Bool) → List Entry → List Entry
keep p [] = []
keep p (e ∷ m) = let rest = keep p m in if p e then e ∷ rest else rest

-- `d.seen[id]`.
unfoldable pub lookup : String → List Entry → Option ℕ
lookup id [] = none
lookup id (e ∷ m) = if str_eq e.0 id then some e.1 else lookup id m

-- `delete(d.seen, id)`.
unfoldable pub delete : String → List Entry → List Entry
unfolding keep
delete id m = keep (λ e. not (str_eq e.0 id)) m

-- `d.seen[id] = now`.
unfoldable pub insert : String → ℕ → List Entry → List Entry
unfolding delete
insert id now m = (id, now) ∷ delete id m

-- The first eviction: entries whose age has reached the time to live.
unfoldable pub expire : ℤ → ℕ → List Entry → List Entry
unfolding keep sub
expire ttl now m = keep (λ e. ltb_ℤ (sub now e.1) ttl) m

-- The loop that looks for the oldest entry, from the best so far.
unfoldable pub oldest_from : Entry → List Entry → Entry
oldest_from best [] = best
oldest_from best (e ∷ m) = oldest_from (if str_eq best.0 "" || before e.1 best.1 then e else best) m

-- The second eviction: the oldest entry, if the map is still full.
unfoldable pub drop_oldest : List Entry → List Entry
unfolding oldest_from delete
drop_oldest m = delete (oldest_from ("", 0) m).0 m

-- Both evictions, each if the map is full when it is reached.
unfoldable pub make_room : InstructionDedup → ℕ → List Entry
unfolding expire drop_oldest
make_room d now =
    let m = if leb d.max_size (length d.seen) then expire d.ttl now d.seen else d.seen in
    if leb d.max_size (length m) then drop_oldest m else m

-- Whether the id was seen within the time to live.
unfoldable pub is_duplicate : InstructionDedup → ℕ → String → Bool
unfolding lookup sub
is_duplicate d now id = elim (lookup id d.seen) [ none ↦ false | some t ↦ ltb_ℤ (sub now t) d.ttl ]

-- `Check`, at the time `now`: `true` for an id to go on with.
unfoldable pub check : InstructionDedup → ℕ → String → InstructionDedup × Bool
unfolding is_duplicate make_room insert
check d now id =
    if is_duplicate d now id
    then (d, false)
    else (record d { seen = insert id now (make_room d now) }, true)

-- A sequence of calls, each an id and its time.
unfoldable pub check_all : InstructionDedup → List Entry → InstructionDedup
check_all d [] = d
check_all d (c ∷ cs) = check_all (check d c.1 c.0).0 cs
