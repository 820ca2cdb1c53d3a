-- ===== src/Hyperliquid/Signer/Signed.antt =====
-- internal/hyperliquid/signer.go: what `SignAction` signs and returns, and the signer of a keystore.
use degenbox_hyperliquid_cli.Hyperliquid.Signer.{
  TypedData, Libraries, Signer, Signature, no_signature, get_chain_id, is_mainnet,
  private_key_from_hex, new_signer, source_address, action_bytes, compute_action_hash,
  agent_typed_data, hash_typed_data, signature_of, sign_action,
}
use degenbox_hyperliquid_cli.Base.Outcome.{ok, require, >>=-inv, require-ok}
use degenbox_hyperliquid_cli.Text.Hex.{
  IsByte, encode_hex, decode_hex, trim_0x, decode_hex-encode_hex,
}
use degenbox_hyperliquid_cli.Config.{Network}
use degenbox_hyperliquid_cli.Keystore.{Crypto, decrypt}
use mathlib.Core.Option.{some-injective}
use degenbox_hyperliquid_cli.Keystore.Opened.{decrypt_sound}
use degenbox_hyperliquid_cli.Base.{
  ◌⊎◌, inl, inr, ◌≢◌, false, ◌==◌, ==_iff, Bool-cases, ℕ, zero, suc, ◌+◌, ◌<◌, ◌≡◌, refl, sym, ap,
  ◌∙◌, subst, false, Option, none, some, List, [], ◌∷◌, ◌++◌, arith, length, get_elem?, get_or,
  replicate, drop, All, take,
}
use degenbox_hyperliquid_cli.Text.{codes}
use degenbox_hyperliquid_cli.Base.Int.{ℤ}

All-take {ℓ} : {A : Type ℓ} (P : A → Type 0) (n : ℕ) (xs : List A) → All P xs → All P (take n xs)
All-take P zero xs h = tt
All-take P (suc n) [] h = tt
All-take P (suc n) (x ∷ xs) h = (h.0, All-take P n xs h.1)

All-drop {ℓ} : {A : Type ℓ} (P : A → Type 0) (n : ℕ) (xs : List A) → All P xs → All P (drop n xs)
All-drop P zero xs h = h
All-drop P (suc n) [] h = tt
All-drop P (suc n) (x ∷ xs) h = All-drop P n xs h.1

get_elem?-get_or : (xs : List ℕ) (i d : ℕ) → i < length xs → get_elem? xs i ≡ some (get_or xs i d)
get_elem?-get_or [] i d h = absurd (omega arith)
get_elem?-get_or (x ∷ xs) zero d h = refl
get_elem?-get_or (x ∷ xs) (suc i) d h = get_elem?-get_or xs i d (omega arith)

trim_0x-prefix : (s : List ℕ) → trim_0x (codes "0x" ++ s) ≡ s
unfolding trim_0x
trim_0x-prefix s = refl

-- The digits of bytes have no prefix.
trim_0x-encode_hex : (bs : List ℕ) → All IsByte bs → trim_0x (encode_hex bs) ≡ encode_hex bs
unfolding trim_0x encode_hex
trim_0x-encode_hex [] h = refl
trim_0x-encode_hex (b ∷ bs) h = ground arith

module _ {A : Type 0} (lib : Libraries A) where
  open lib use {to_ecdsa, address_hex, crypto_sign, keccak256}

  compute_action_hash-inv :
      (action : A) (nonce : ℤ) (vault hash : List ℕ)
      → compute_action_hash lib action nonce vault ≡ ok hash
      → (bytes : List ℕ) × (action_bytes lib action nonce vault ≡ ok bytes)
        × (keccak256 bytes ≡ hash)
  unfolding compute_action_hash
  compute_action_hash-inv action nonce vault hash h =
      let (bytes, p, h1) = >>=-inv (action_bytes lib action nonce vault) _ h in
      (bytes, p, ground arith)

  -- What a signer signs for a hash of a request: an agent of the exchange, with the source "a" on the
  -- chain of the main network and "b" on any other.
  pub record IsAgentOf (s : Signer) (connection_id : List ℕ) (data' : TypedData) : Type 0 where
    pub primary_type : data'.primary_type ≡ codes "Agent"
    pub name : data'.name ≡ codes "Exchange"
    pub version : data'.version ≡ codes "1"
    pub chain_id : data'.chain_id ≡ 1337
    pub source :
        ((s.chain_id ≡ 42161) × (data'.source ≡ codes "a"))
        ⊎ ((s.chain_id ≢ 42161) × (data'.source ≡ codes "b"))
    pub connection : data'.connection_id ≡ connection_id

  other_chain : (n : ℕ) → (n == 42161) ≡ false → n ≢ 42161
  other_chain n h = ground arith

  agent_typed_data-IsAgentOf :
      (s : Signer) (connection_id : List ℕ)
      → IsAgentOf s connection_id (agent_typed_data lib (is_mainnet s) connection_id)
  unfolding agent_typed_data is_mainnet
  agent_typed_data-IsAgentOf s connection_id = record {
    primary_type = refl;
    name = refl;
    version = refl;
    chain_id = refl;
    source = elim (Bool-cases (s.chain_id == 42161)) [
      | inl main ↦ inl ((==_iff s.chain_id 42161).0 main, rw main refl)
      | inr other ↦ inr (other_chain s.chain_id other, rw other refl)
    ];
    connection = refl;
  }

  -- A signature is of typed data for an agent of the exchange that carries the hash of the request's
  -- bytes, with the source "a" for a signer of the main network and "b" for any other, under the
  -- signer's key; its parts read back, they are the 65 bytes that the curve gives: two halves of hex
  -- and the last byte, raised by 27. What the curve gives are bytes.
  pub sign_action_lem :
      ((hash key sig : List ℕ)
        → crypto_sign hash key ≡ some sig
        → All IsByte sig × (length sig ≡ 65))
      → (s : Signer) (action : A) (nonce : ℤ) (vault : List ℕ) (signature : Signature)
      → sign_action lib s action nonce vault ≡ ok signature
      → (bytes : List ℕ) × (data' : TypedData) × (hash : List ℕ) × (sig : List ℕ) × (action_bytes
            lib action nonce vault
          ≡ ok bytes)
        × IsAgentOf s (keccak256 bytes) data'
        × (hash_typed_data lib data' ≡ ok hash)
        × (crypto_sign hash s.private_key ≡ some sig)
        × (decode_hex (trim_0x signature.r) ≡ some (take 32 sig))
        × (decode_hex (trim_0x signature.s) ≡ some (take 32 (drop 32 sig)))
        × (last_byte : ℕ) × (get_elem? sig 64 ≡ some last_byte)
        × (signature.v ≡ last_byte + 27)
  unfolding sign_action
  sign_action_lem law s action nonce vault signature h =
      let (connection_id, p, h1) = >>=-inv (compute_action_hash lib action nonce vault) _ h in
      let (bytes, packed, hashed) = compute_action_hash-inv action nonce vault connection_id p in
      let (hash, q, h2) =
        >>=-inv (hash_typed_data lib (agent_typed_data lib (is_mainnet s) connection_id)) _ h1 in
      let (sig, r, h3) = >>=-inv (require (crypto_sign hash s.private_key) no_signature) _ h2 in
      let signed = require-ok _ _ r in
      let (are_bytes, long) = law hash s.private_key sig signed in
      let same : signature_of lib sig ≡ signature = ground arith in
      let first = All-take IsByte 32 sig are_bytes in
      let second = All-take IsByte 32 (drop 32 sig) (All-drop IsByte 32 sig are_bytes) in
      (
        bytes,
        agent_typed_data lib (is_mainnet s) (keccak256 bytes),
        hash,
        sig,
        packed,
        agent_typed_data-IsAgentOf s (keccak256 bytes),
        rw (← hashed) at q,
        signed,
        subst (λ x. decode_hex (trim_0x x.r) ≡ some (take 32 sig)) same
            (unfold signature_of in
              rw (trim_0x-prefix (encode_hex (take 32 sig))) (decode_hex-encode_hex _ first)),
        subst (λ x. decode_hex (trim_0x x.s) ≡ some (take 32 (drop 32 sig))) same
            (unfold signature_of in
              rw (trim_0x-prefix (encode_hex (take 32 (drop 32 sig))))
                (decode_hex-encode_hex _ second)),
        get_or sig 64 0,
        get_elem?-get_or sig 64 0 (omega arith),
        ap (λ (x : Signature). x.v) (sym same) ∙ (unfold signature_of in refl),
      )

  -- The text of an address, where there is one.
  abbrev pub address_text : Option (List ℕ) → Option (List ℕ)
  address_text none = none
  address_text (some address) = some (address_hex address)

  abbrev signer_of : List ℕ → List ℕ → Network → Signer
  signer_of key address network = record {
    private_key = key;
    address = address;
    chain_id = get_chain_id network;
    is_agent = false;
    source = replicate 20 0;
  }

  new_signer-encode_hex :
      (key address : List ℕ) (network : Network)
      → All IsByte key
      → length key ≡ 32
      → to_ecdsa key ≡ some address
      → new_signer lib (encode_hex key) network ≡ ok (signer_of key address network)
  unfolding new_signer private_key_from_hex
  new_signer-encode_hex key address network hb long valid =
      rw (trim_0x-encode_hex key hb, decode_hex-encode_hex key hb, long, valid) refl

  address_text-some :
      (o : Option (List ℕ)) (text : List ℕ)
      → address_text o ≡ some text
      → (address : List ℕ) × (o ≡ some address) × (address_hex address ≡ text)
  address_text-some none text h = cc
  address_text-some (some address) text h = (address, refl, some-injective _ _ h)

  -- A keystore that opens gives the bot its signer: the key that `Decrypt` returns is one that
  -- `NewSigner` takes, and the signer's address is the one in the keystore. Both read keys on the
  -- same curve, which takes keys of 32 bytes, and GCM gives bytes.
  pub new_signer-decrypt :
      (c : Crypto)
      → ((key : List ℕ) → c.to_ecdsa key ≡ address_text (to_ecdsa key))
      → ((key address : List ℕ) → to_ecdsa key ≡ some address → length key ≡ 32)
      → ((key nonce ciphertext plaintext : List ℕ)
          → c.unseal key nonce ciphertext ≡ some plaintext
          → All IsByte plaintext)
      → (file : Option (List ℕ)) (passphrase hex address : List ℕ) (network : Network)
      → decrypt c file passphrase ≡ ok (hex, address)
      → (s : Signer) × (new_signer lib hex network ≡ ok s)
        × (source_address lib s ≡ address)
        × (s.chain_id ≡ get_chain_id network)
  unfolding source_address
  new_signer-decrypt c agree long gives_bytes file passphrase hex address network h =
      let (bytes, f, read, parsed, o) = decrypt_sound c file passphrase hex address h in
      let (raw, valid, text) =
        address_text-some (to_ecdsa o.plaintext) address (sym (agree o.plaintext) ∙ o.valid) in
      (
        signer_of o.plaintext raw network,
        rw o.encoded (
            new_signer-encode_hex o.plaintext raw network (gives_bytes _ _ _ o.plaintext o.opened)
              (long o.plaintext raw valid) valid),
        text,
        refl,
      )
