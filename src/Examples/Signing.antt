-- ===== src/Examples/Signing.antt =====
-- The signer at concrete inputs: actions are numbers, msgpack writes one as itself, hashes are the
-- text that they hash.
use mathlib.Core.Option.{some-injective}
use degenbox_hyperliquid_cli.Base.Outcome.{ok}
use degenbox_hyperliquid_cli.Config.{mainnet}
use degenbox_hyperliquid_cli.Text.Hex.{IsByte, decode_hex, trim_0x}
use degenbox_hyperliquid_cli.Hyperliquid.Signer.{
  TypedData, Libraries, Signer, Signature, get_chain_id, big_endian, new_signer, source_address,
  action_bytes, compute_action_hash, hash_typed_data, signature_of, sign_action,
}
use degenbox_hyperliquid_cli.Hyperliquid.Signer.Layout.{vault_of, action_bytes_inj}
use degenbox_hyperliquid_cli.Hyperliquid.Signer.Signed.{
  IsAgentOf, address_text, sign_action_lem, new_signer-decrypt,
}
use degenbox_hyperliquid_cli.Examples.Keys.{
  crypto, marshal, passphrase, plain_key, stored, stored_opens, all_bytes_sound,
}
use degenbox_hyperliquid_cli.Base.{
  ℕ, ◌+◌, ◌≡◌, refl, subst, false, Option, none, some, List, [], ◌∷◌, ◌++◌, arith, ◌==◌,
  if◌then◌else◌, length, get_elem?, replicate, drop, All, take,
}
use degenbox_hyperliquid_cli.Text.{codes}
use degenbox_hyperliquid_cli.Base.Int.{pos}

abbrev raw_address : List ℕ → Option (List ℕ)
raw_address key = if length key == 32 then some (0xab ∷ 0xc0 ∷ []) else none

abbrev library : Libraries ℕ
library = record {
  to_ecdsa = raw_address;
  address_hex = λ address. codes "0xabc";
  hex_to_address = λ t. replicate 20 (length t);
  marshal_action_msgpack = λ n. some (n ∷ []);
  keccak256 = λ bytes. bytes;
  hash_domain = λ data'. some data'.name;
  hash_message = λ data'. some (data'.source ++ data'.connection_id);
  crypto_sign = λ hash key. some (replicate 64 171 ++ 1 ∷ []);
}

abbrev unpack : List ℕ → Option (ℕ × List ℕ)
unpack [] = none
unpack (n ∷ rest) = some (n, rest)

unpack-msgpack :
    (a : ℕ) (packed rest : List ℕ)
    → library.marshal_action_msgpack a ≡ some packed
    → unpack (packed ++ rest) ≡ some (a, rest)
unpack-msgpack a packed rest h =
    subst (λ xs. unpack (xs ++ rest) ≡ some (a, rest)) (some-injective (a ∷ []) packed h) refl

abbrev vault : List ℕ
vault = codes "0x1234"

abbrev packed_bytes : List ℕ
packed_bytes = 7 ∷ 0 ∷ 0 ∷ 0 ∷ 0 ∷ 0 ∷ 0 ∷ 3 ∷ 232 ∷ 1 ∷ replicate 20 6

packs : action_bytes library 7 (pos 1000) vault ≡ ok packed_bytes
unfolding action_bytes big_endian
packs = refl

action_bytes_inj_example :
    (◌≡◌ {A = ℕ} 7 7) × (pos 1000 ≡ pos 1000) × (vault_of library vault ≡ vault_of library vault)
action_bytes_inj_example =
    action_bytes_inj library unpack unpack-msgpack 7 7 (pos 1000) (pos 1000) vault vault
      packed_bytes (omega arith) (omega arith) packs packs

abbrev main_signer : Signer
main_signer = record {
  private_key = plain_key;
  address = 0xab ∷ 0xc0 ∷ [];
  chain_id = 42161;
  is_agent = false;
  source = [];
}

abbrev raw_signature : List ℕ
raw_signature = replicate 64 171 ++ 1 ∷ []

raw_signature-law :
    (hash key sig : List ℕ)
    → library.crypto_sign hash key ≡ some sig
    → All IsByte sig × (length sig ≡ 65)
raw_signature-law hash key sig h =
    subst (λ xs. All IsByte xs × (length xs ≡ 65)) (some-injective raw_signature sig h)
      (omega arith, refl)

abbrev signature : Signature
signature = signature_of library raw_signature

signs : sign_action library main_signer 7 (pos 1000) vault ≡ ok signature
unfolding sign_action compute_action_hash action_bytes big_endian hash_typed_data
signs = refl

sign_action_lem_example :
    (bytes : List ℕ) × (data' : TypedData) × (hash : List ℕ) × (sig : List ℕ) × (action_bytes
        library 7
        (pos 1000)
        vault
      ≡ ok bytes)
    × IsAgentOf library main_signer bytes data'
    × (hash_typed_data library data' ≡ ok hash)
    × (library.crypto_sign hash plain_key ≡ some sig)
    × (decode_hex (trim_0x signature.r) ≡ some (take 32 sig))
    × (decode_hex (trim_0x signature.s) ≡ some (take 32 (drop 32 sig)))
    × (last_byte : ℕ) × (get_elem? sig 64 ≡ some last_byte)
    × (signature.v ≡ last_byte + 27)
sign_action_lem_example =
    sign_action_lem library raw_signature-law main_signer 7 (pos 1000) vault signature signs

same_curve : (key : List ℕ) → crypto.to_ecdsa key ≡ address_text library (raw_address key)
same_curve key = ground arith

takes_32 : (key address : List ℕ) → raw_address key ≡ some address → length key ≡ 32
takes_32 key address h = ground arith

gives_bytes :
    (key nonce ciphertext plaintext : List ℕ)
    → crypto.unseal key nonce ciphertext ≡ some plaintext
    → All IsByte plaintext
gives_bytes key nonce ciphertext plaintext h = all_bytes_sound plaintext (ground arith)

abbrev plain_hex : List ℕ
plain_hex = codes "0505050505050505050505050505050505050505050505050505050505050505"

new_signer-decrypt_example :
    (s : Signer) × (new_signer library plain_hex mainnet ≡ ok s)
    × (source_address library s ≡ codes "0xabc")
    × (s.chain_id ≡ get_chain_id mainnet)
new_signer-decrypt_example =
    new_signer-decrypt library crypto same_curve takes_32 gives_bytes (some (marshal stored))
      passphrase plain_hex (codes "0xabc") mainnet stored_opens
