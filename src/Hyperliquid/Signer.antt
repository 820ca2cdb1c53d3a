-- ===== src/Hyperliquid/Signer.antt =====
-- internal/hyperliquid/signer.go: the signatures of the requests to the exchange. Texts are lists of
-- bytes; the curve, Keccak, msgpack, addresses and the hash of EIP-712 structures are parameters.
pub mod Layout
pub mod Signed
use degenbox_hyperliquid_cli.Base.Outcome.{
  Outcome, ok, err, panics, ◌>>=◌, ◌>>◌, ensure, assert, require, >>=-inv, >>-inv, ensure-ok,
  assert-ok, require-ok,
}
use degenbox_hyperliquid_cli.Text.Hex.{encode_hex, decode_hex, trim_0x}
use degenbox_hyperliquid_cli.Config.{Network, mainnet, testnet}
use degenbox_hyperliquid_cli.Base.{
  ℕ, zero, suc, ◌+◌, ◌-◌, ◌*◌, ◌/◌, ◌%◌, ◌^◌, ◌≤◌, ◌<◌, min, ◌≡◌, refl, sym, ap, ◌∙◌, subst, ◌≢◌,
  ◌↔◌, ◌⊎◌, inl, inr, Bool, true, false, not, ◌&&◌, ◌||◌, Option, none, some, List, [], ◌∷◌, ◌++◌,
  map, append_assoc, append-nil, arith, ltb, leb, ◌==◌, if◌then◌else◌, Bool-cases, Option-cases,
  length, get_elem?, set, get_or, replicate, drop, length-append, length-set, length-replicate,
  length-drop, get_or-set_self, get_or-set_ne, All, All-append, All-mono, All-get_elem?, decimal,
  last, take, append_inj, String, str_eq, eq_iff,
}
use degenbox_hyperliquid_cli.Text.{codes}
use degenbox_hyperliquid_cli.Base.Int.{
  ℤ, pos, negsuc, pos_part, neg_part, sub_ℕ, ltb_ℤ, eqb_ℤ, ◌≤ℤ◌, ◌+ℤ◌, ◌-ℤ◌,
}
use degenbox_hyperliquid_cli.Clock.{second, minute, max_duration, sub, before, add_neg, unix_milli}

-- `typedData`, but for its table of types, which is a constant.
pub record TypedData : Type 0 where
  pub primary_type : List ℕ
  pub name : List ℕ
  pub version : List ℕ
  pub chain_id : ℕ
  pub verifying_contract : List ℕ
  pub source : List ℕ
  pub connection_id : List ℕ

-- What the program takes from libraries. `to_ecdsa` gives the address of a key that the curve
-- accepts, as bytes, and `address_hex` its text.
pub record Libraries (A : Type 0) : Type 0 where
  pub to_ecdsa : List ℕ → Option (List ℕ)
  pub address_hex : List ℕ → List ℕ
  pub hex_to_address : List ℕ → List ℕ
  pub marshal_action_msgpack : A → Option (List ℕ)
  pub keccak256 : List ℕ → List ℕ
  pub hash_domain : TypedData → Option (List ℕ)
  pub hash_message : TypedData → Option (List ℕ)
  pub crypto_sign : List ℕ → List ℕ → Option (List ℕ)

pub data SignError : Type 0 where
  invalid_hex invalid_key no_msgpack no_domain_hash no_message_hash no_signature : SignError
  bad_length : ℕ → SignError

abbrev pub Result : Type 0 → Type 0
Result A = Outcome SignError A

pub record Signer : Type 0 where
  pub private_key : List ℕ
  pub address : List ℕ
  pub chain_id : ℕ
  pub is_agent : Bool
  pub source : List ℕ

pub record Signature : Type 0 where
  pub r : List ℕ
  pub s : List ℕ
  pub v : ℕ

abbrev pub mainnet_chain_id : ℕ
mainnet_chain_id = 42161

abbrev pub testnet_chain_id : ℕ
testnet_chain_id = 421614

-- `Network.GetChainID`.
unfoldable pub get_chain_id : Network → ℕ
get_chain_id testnet = testnet_chain_id
get_chain_id mainnet = mainnet_chain_id

-- `uint64(nonce)`.
unfoldable pub to_u64 : ℤ → ℕ
to_u64 (pos n) = n % 2 ^ 64
to_u64 (negsuc n) = 2 ^ 64 - 1 - n % 2 ^ 64

-- The low `k` bytes of a number, as `binary.BigEndian` puts them.
unfoldable pub big_endian : ℕ → ℕ → List ℕ
big_endian zero n = []
big_endian (suc k) n = big_endian k (n / 256) ++ n % 256 ∷ []

-- `isMainnet`.
unfoldable pub is_mainnet : Signer → Bool
is_mainnet s = s.chain_id == mainnet_chain_id

module _ {A : Type 0} (lib : Libraries A) where
  open lib use {
    to_ecdsa, address_hex, hex_to_address, marshal_action_msgpack, keccak256, hash_domain,
    hash_message, crypto_sign,
  }

  -- `PrivateKeyFromHex`: the bytes of the key, with its address.
  unfoldable pub private_key_from_hex : List ℕ → Result (List ℕ × List ℕ)
  private_key_from_hex hex_key = do
    key_bytes ← require (decode_hex (trim_0x hex_key)) invalid_hex
    ensure (length key_bytes == 32) (bad_length (length key_bytes))
    address ← require (to_ecdsa key_bytes) invalid_key
    ok (key_bytes, address)

  -- `NewSigner`.
  unfoldable pub new_signer : List ℕ → Network → Result Signer
  unfolding get_chain_id
  new_signer private_key_hex network = do
    (key, address) ← private_key_from_hex private_key_hex
    ok (record {
      private_key = key;
      address = address;
      chain_id = get_chain_id network;
      is_agent = false;
      source = replicate 20 0;
    })

  -- `NewAgentSigner`.
  unfoldable pub new_agent_signer : List ℕ → List ℕ → Network → Result Signer
  unfolding get_chain_id
  new_agent_signer private_key_hex source_address network = do
    (key, address) ← private_key_from_hex private_key_hex
    ok (record {
      private_key = key;
      address = address;
      chain_id = get_chain_id network;
      is_agent = true;
      source = hex_to_address source_address;
    })

  -- `SourceAddress`.
  unfoldable pub source_address : Signer → List ℕ
  source_address s = if s.is_agent then address_hex s.source else address_hex s.address

  -- The flag of the vault, and its address where there is one.
  unfoldable pub vault_bytes : List ℕ → List ℕ
  vault_bytes [] = 0 ∷ []
  vault_bytes (c ∷ cs) = 1 ∷ hex_to_address (c ∷ cs)

  -- The bytes that `computeActionHash` hashes.
  unfoldable pub action_bytes : A → ℤ → List ℕ → Result (List ℕ)
  unfolding to_u64 vault_bytes
  action_bytes action nonce vault_address = do
    packed ← require (marshal_action_msgpack action) no_msgpack
    ok (packed ++ (big_endian 8 (to_u64 nonce) ++ vault_bytes vault_address))

  -- `computeActionHash`.
  unfoldable pub compute_action_hash : A → ℤ → List ℕ → Result (List ℕ)
  compute_action_hash action nonce vault_address = do
    bytes ← action_bytes action nonce vault_address
    ok (keccak256 bytes)

  -- The structure that is signed.
  unfoldable pub agent_typed_data : Bool → List ℕ → TypedData
  agent_typed_data on_mainnet connection_id = record {
    primary_type = codes "Agent";
    name = codes "Exchange";
    version = codes "1";
    chain_id = 1337;
    verifying_contract = codes "0x0000000000000000000000000000000000000000";
    source = if on_mainnet then codes "a" else codes "b";
    connection_id = connection_id;
  }

  -- `hashTypedData`.
  unfoldable pub hash_typed_data : TypedData → Result (List ℕ)
  hash_typed_data typed_data = do
    domain_separator ← require (hash_domain typed_data) no_domain_hash
    message_hash ← require (hash_message typed_data) no_message_hash
    ok (keccak256 (0x19 ∷ 0x01 ∷ domain_separator ++ message_hash))

  -- The parts of a signature of 65 bytes, in hex.
  unfoldable pub signature_of : List ℕ → Signature
  signature_of sig = record {
    r = codes "0x" ++ encode_hex (take 32 sig);
    s = codes "0x" ++ encode_hex (take 32 (drop 32 sig));
    v = get_or sig 64 0 + 27;
  }

  -- `SignAction`.
  unfoldable pub sign_action : Signer → A → ℤ → List ℕ → Result Signature
  unfolding is_mainnet signature_of agent_typed_data
  sign_action s action nonce vault_address = do
    connection_id ← compute_action_hash action nonce vault_address
    hash ← hash_typed_data (agent_typed_data (is_mainnet s) connection_id)
    sig ← require (crypto_sign hash s.private_key) no_signature
    ok (signature_of sig)
