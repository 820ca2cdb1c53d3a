-- ===== src/Keystore.antt =====
-- internal/keystore/keystore.go: the encrypted file of the private key. Argon2, AES-GCM, the curve
-- and the encoding of JSON are parameters; a text is the list of its bytes, a disk a function from
-- paths to what the file there holds.
pub mod AtomicWrite
pub mod RoundTrip
pub mod Opened
use degenbox_hyperliquid_cli.Base.Outcome.{
  Outcome, ok, err, panics, ◌>>=◌, ◌>>◌, ensure, assert, require, >>=-inv, >>-inv, ensure-ok,
  assert-ok, require-ok,
}
use degenbox_hyperliquid_cli.Keystore.AtomicWrite.{same}
use degenbox_hyperliquid_cli.Text.Hex.{IsByte, encode_hex, decode_hex, trim_0x}
use AtomicWrite.{Disk, WriteOutcome, atomic_write_file}
use degenbox_hyperliquid_cli.Base.{
  ℕ, zero, suc, ◌+◌, ◌-◌, ◌*◌, ◌/◌, ◌%◌, ◌^◌, ◌≤◌, ◌<◌, min, ◌≡◌, refl, sym, ap, ◌∙◌, subst, ◌≢◌,
  ◌↔◌, ◌⊎◌, inl, inr, Bool, true, false, not, ◌&&◌, ◌||◌, Option, none, some, List, [], ◌∷◌, ◌++◌,
  map, append_assoc, append-nil, arith, ltb, leb, ◌==◌, if◌then◌else◌, Bool-cases, Option-cases,
  length, get_elem?, set, get_or, replicate, drop, length-append, length-set, length-replicate,
  length-drop, get_or-set_self, get_or-set_ne, All, All-append, All-mono, All-get_elem?, decimal,
  last, String, str_eq, eq_iff,
}
use degenbox_hyperliquid_cli.Text.{codes}
use degenbox_hyperliquid_cli.Base.Int.{
  ℤ, pos, negsuc, pos_part, neg_part, sub_ℕ, ltb_ℤ, eqb_ℤ, ◌≤ℤ◌, ◌+ℤ◌, ◌-ℤ◌,
}
use degenbox_hyperliquid_cli.Clock.{second, minute, max_duration, sub, before, add_neg, unix_milli}

pub record KdfParams : Type 0 where
  pub time : ℕ
  pub memory : ℕ
  pub threads : ℕ
  pub key_len : ℕ

pub record File : Type 0 where
  pub version : ℤ
  pub algorithm : List ℕ
  pub kdf : List ℕ
  pub kdf_params : KdfParams
  pub salt : List ℕ
  pub nonce : List ℕ
  pub ciphertext : List ℕ
  pub address : List ℕ

-- What the program takes from libraries. `to_ecdsa` gives the wallet address of a key that the
-- curve accepts, `new_cipher` says that the key has a length of AES.
pub record Crypto : Type 0 where
  pub id_key : List ℕ → List ℕ → KdfParams → List ℕ
  pub new_cipher : List ℕ → Bool
  pub seal : List ℕ → List ℕ → List ℕ → List ℕ
  pub unseal : List ℕ → List ℕ → List ℕ → Option (List ℕ)
  pub to_ecdsa : List ℕ → Option (List ℕ)
  pub marshal : File → List ℕ
  pub unmarshal : List ℕ → Option File

pub data KeyError : Type 0 where
  invalid_key invalid_ec_key no_salt no_nonce no_cipher write_failed : KeyError
  read_failed invalid_format bad_salt bad_nonce bad_ciphertext wrong_passphrase : KeyError
  not_a_key address_mismatch : KeyError
  unsupported_version : ℤ → KeyError

-- A panic: Argon2 wants a round and a thread, GCM a nonce of 12 bytes.
abbrev pub Result : Type 0 → Type 0
Result A = Outcome KeyError A

abbrev pub argon2_params : KdfParams
argon2_params = record { time = 3; memory = 64 * 1024; threads = 4; key_len = 32 }

-- The file that `Encrypt` builds.
abbrev pub sealed_file : List ℕ → List ℕ → List ℕ → List ℕ → File
sealed_file salt nonce ciphertext address = record {
  version = pos 1;
  algorithm = codes "aes-256-gcm";
  kdf = codes "argon2id";
  kdf_params = argon2_params;
  salt = encode_hex salt;
  nonce = encode_hex nonce;
  ciphertext = encode_hex ciphertext;
  address = address;
}

-- The end of `Encrypt`, with the bytes to write or the error before.
unfoldable pub save_bytes :
    List ℕ → Disk → WriteOutcome → Result (List ℕ) → Disk × Result (Unit {0})
save_bytes path disk outcome (ok bytes) = (
  (atomic_write_file path bytes outcome disk).0,
  ensure (atomic_write_file path bytes outcome disk).1 write_failed,
)
save_bytes path disk outcome (err e) = (disk, err e)
save_bytes path disk outcome panics = (disk, panics)

module _ (c : Crypto) where
  open c use {id_key, new_cipher, seal, unseal, to_ecdsa, marshal, unmarshal}

  -- `Encrypt` up to the writing of the file, with what `rand.Read` gives for the salt and the nonce.
  unfoldable pub encrypt_file :
      List ℕ → List ℕ → Option (List ℕ) → Option (List ℕ) → Result (List ℕ)
  encrypt_file private_key_hex passphrase random_salt random_nonce = do
    key_bytes ← require (decode_hex (trim_0x private_key_hex)) invalid_key
    ensure (length key_bytes == 32) invalid_key
    address ← require (to_ecdsa key_bytes) invalid_ec_key
    salt ← require random_salt no_salt
    nonce ← require random_nonce no_nonce
    let derived = id_key passphrase salt argon2_params
    ensure (new_cipher derived) no_cipher
    ok (marshal (sealed_file salt nonce (seal derived nonce key_bytes) address))

  -- `Encrypt`: the disk after it, and its result.
  unfoldable pub encrypt :
      List ℕ
      → List ℕ
      → Option (List ℕ)
      → Option (List ℕ)
      → List ℕ
      → Disk
      → WriteOutcome
      → Disk × Result (Unit {0})
  encrypt private_key_hex passphrase random_salt random_nonce path disk outcome =
      save_bytes path disk outcome
        (encrypt_file private_key_hex passphrase random_salt random_nonce)

  -- `Decrypt` of the bytes of a file: the key in hex, and its address.
  unfoldable pub decrypt_file : File → List ℕ → Result (List ℕ × List ℕ)
  decrypt_file f passphrase = do
    ensure (eqb_ℤ f.version (pos 1)) (unsupported_version f.version)
    salt ← require (decode_hex f.salt) bad_salt
    nonce ← require (decode_hex f.nonce) bad_nonce
    ciphertext ← require (decode_hex f.ciphertext) bad_ciphertext
    assert (leb 1 f.kdf_params.time && leb 1 f.kdf_params.threads && leb 1 f.kdf_params.key_len)
    let derived = id_key passphrase salt f.kdf_params
    ensure (new_cipher derived) no_cipher
    assert (length nonce == 12)
    plaintext ← require (unseal derived nonce ciphertext) wrong_passphrase
    address ← require (to_ecdsa plaintext) not_a_key
    ensure (same address f.address) address_mismatch
    ok (encode_hex plaintext, address)

  -- `Decrypt`.
  unfoldable pub decrypt : Option (List ℕ) → List ℕ → Result (List ℕ × List ℕ)
  unfolding decrypt_file
  decrypt file passphrase = do
    bytes ← require file read_failed
    f ← require (unmarshal bytes) invalid_format
    decrypt_file f passphrase

  -- `ReadAddress`.
  unfoldable pub read_address : Option (List ℕ) → Result (List ℕ)
  read_address file = do
    bytes ← require file read_failed
    f ← require (unmarshal bytes) invalid_format
    ok f.address
