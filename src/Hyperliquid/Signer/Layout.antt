-- ===== src/Hyperliquid/Signer/Layout.antt =====
-- internal/hyperliquid/signer.go: what the bytes that `computeActionHash` hashes determine.
use mathlib.Core.List.{tail-eq_of_cons-eq, head-eq_of_cons-eq}
use degenbox_hyperliquid_cli.Base.{
  none, ℕ, zero, suc, ◌*◌, ◌/◌, ◌%◌, ◌^◌, ◌≤◌, ◌<◌, ◌≡◌, refl, sym, ap, ◌∙◌, Option, some, List, [],
  ◌∷◌, ◌++◌, arith, length, length-append, append_inj,
}
use degenbox_hyperliquid_cli.Base.Outcome.{ok, require, >>=-inv, require-ok}
use degenbox_hyperliquid_cli.Hyperliquid.Signer.{
  Libraries, no_msgpack, to_u64, big_endian, vault_bytes, action_bytes,
}
use mathlib.Core.Option.{some-injective}
use degenbox_hyperliquid_cli.Base.Int.{ℤ, pos, negsuc, pos_part, neg_part}

length-big_endian : (k n : ℕ) → length (big_endian k n) ≡ k
unfolding big_endian
length-big_endian zero n = refl
length-big_endian (suc k) n = omega (
  arith,
  length-append {0} (big_endian k (n / 256)) (n % 256 ∷ []),
  length-big_endian k (n / 256),
)

-- A number below 256 ^ k, by the recursion of its digits.
abbrev power : ℕ → ℕ
power zero = 1
power (suc k) = 256 * power k

big_endian_inj : (k n m : ℕ) → n < power k → m < power k → big_endian k n ≡ big_endian k m → n ≡ m
unfolding big_endian
big_endian_inj zero n m hn hm e = omega arith
big_endian_inj (suc k) n m hn hm e =
    let (front, back) =
      append_inj (big_endian k (n / 256)) (big_endian k (m / 256)) (n % 256 ∷ []) (m % 256 ∷ [])
        (length-big_endian k (n / 256) ∙ sym (length-big_endian k (m / 256))) e in
    let low : n % 256 ≡ m % 256 = head-eq_of_cons-eq back in
    omega (arith, low, big_endian_inj k (n / 256) (m / 256) (omega arith) (omega arith) front)

-- The values of an int64.
abbrev pub IsInt64 : ℤ → Type 0
IsInt64 i = (pos_part i < 2 ^ 63) × (neg_part i ≤ 2 ^ 63)

to_u64_bound : (i : ℤ) → to_u64 i < power 8
unfolding to_u64
to_u64_bound (pos n) = omega arith
to_u64_bound (negsuc n) = omega arith

to_u64_inj : (i j : ℤ) → IsInt64 i → IsInt64 j → to_u64 i ≡ to_u64 j → i ≡ j
unfolding to_u64
to_u64_inj i j hi hj e = ground arith

module _ {A : Type 0} (lib : Libraries A) where
  open lib use {marshal_action_msgpack, hex_to_address}

  action_bytes-inv :
      (action : A) (nonce : ℤ) (vault bytes : List ℕ)
      → action_bytes lib action nonce vault ≡ ok bytes
      → (packed : List ℕ) × (marshal_action_msgpack action ≡ some packed)
        × (packed ++ (big_endian 8 (to_u64 nonce) ++ vault_bytes lib vault) ≡ bytes)
  unfolding action_bytes
  action_bytes-inv action nonce vault bytes h =
      let (packed, p, h1) = >>=-inv (require (marshal_action_msgpack action) no_msgpack) _ h in
      (packed, require-ok _ _ p, cc)

  -- The address of the vault, if there is one.
  abbrev pub vault_of : List ℕ → Option (List ℕ)
  vault_of [] = none
  vault_of (c ∷ cs) = some (hex_to_address (c ∷ cs))

  vault_bytes_inj : (v w : List ℕ) → vault_bytes lib v ≡ vault_bytes lib w → vault_of v ≡ vault_of w
  unfolding vault_bytes
  vault_bytes_inj [] [] e = refl
  vault_bytes_inj [] (_ ∷ _) e = absurd (omega (arith, head-eq_of_cons-eq e))
  vault_bytes_inj (_ ∷ _) [] e = absurd (omega (arith, head-eq_of_cons-eq e))
  vault_bytes_inj (c ∷ v) (d ∷ w) e = ap some (tail-eq_of_cons-eq e)

  -- Two requests that hash the same bytes have the same action, the same nonce, and the same address
  -- of a vault, or both none. The nonces are values of an int64, and an action is read back from the
  -- front of the bytes, as msgpack can.
  pub action_bytes_inj :
      (unpack : List ℕ → Option (A × List ℕ))
      → ((a : A) (packed rest : List ℕ)
          → marshal_action_msgpack a ≡ some packed
          → unpack (packed ++ rest) ≡ some (a, rest))
      → (a b : A) (n m : ℤ) (v w bytes : List ℕ) → IsInt64 n
      → IsInt64 m
      → action_bytes lib a n v ≡ ok bytes
      → action_bytes lib b m w ≡ ok bytes
      → (a ≡ b) × (n ≡ m) × (vault_of v ≡ vault_of w)
  action_bytes_inj unpack law a b n m v w bytes hn hm p q =
      let (pa, ma, ea) = action_bytes-inv a n v bytes p in
      let (pb, mb, eb) = action_bytes-inv b m w bytes q in
      let ua = law a pa (big_endian 8 (to_u64 n) ++ vault_bytes lib v) ma in
      let ub = law b pb (big_endian 8 (to_u64 m) ++ vault_bytes lib w) mb in
      let same : Path (Option (A × List ℕ)) (some (a, big_endian 8 (to_u64 n) ++ vault_bytes lib v))
          (some (b, big_endian 8 (to_u64 m) ++ vault_bytes lib w)) =
        sym ua ∙ ap unpack (ea ∙ sym eb) ∙ ub in
      let pair = some-injective _ _ same in
      let (nonces, vaults) =
        append_inj (big_endian 8 (to_u64 n)) (big_endian 8 (to_u64 m)) _ _
          (length-big_endian 8 (to_u64 n) ∙ sym (length-big_endian 8 (to_u64 m)))
          (ap (λ (x : A × List ℕ). x.1) pair) in
      (
        ap (λ (x : A × List ℕ). x.0) pair,
        to_u64_inj n m hn hm
            (big_endian_inj 8 (to_u64 n) (to_u64 m) (to_u64_bound n) (to_u64_bound m) nonces),
        vault_bytes_inj v w vaults,
      )
