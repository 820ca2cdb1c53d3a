-- ===== src/Examples/Keys.antt =====
-- The keystore and the signer at concrete inputs: a cipher that hides nothing, a curve that takes any
-- 32 bytes, and a JSON that writes the length of a text before it.
use degenbox_hyperliquid_cli.Base.Outcome.{ok, panics}
use degenbox_hyperliquid_cli.Text.Hex.{
  IsByte, decode_hex, trim_0x, lower, decode_hex-encode_hex, encode_hex,
}
use degenbox_hyperliquid_cli.Keystore.{
  KdfParams, File, Crypto, encrypt, decrypt, decrypt_file, read_address, sealed_file, encrypt_file,
  save_bytes,
}
use degenbox_hyperliquid_cli.Keystore.AtomicWrite.{
  Disk, written, rename_fails, disks, atomic_write_file, IsSafe, atomic_write_file_lem,
}
use degenbox_hyperliquid_cli.Keystore.RoundTrip.{Laws, decrypt-encrypt}
use mathlib.Core.Option.{some-injective}
use degenbox_hyperliquid_cli.Keystore.Opened.{Opens, decrypt_sound, decrypt_file_panics}
use degenbox_hyperliquid_cli.Base.{
  ℕ, ◌<◌, ◌≡◌, refl, ap, subst, inr, Bool, true, false, Option, none, some, List, [], ◌∷◌, ◌++◌,
  map, arith, ltb, ◌==◌, if◌then◌else◌, length, replicate, drop, All, take,
}
use degenbox_hyperliquid_cli.Text.{codes}
use degenbox_hyperliquid_cli.Base.Int.{ℤ, pos_part, neg_part, sub_ℕ}

unfoldable pub cut : List ℕ → List ℕ × List ℕ
cut [] = ([], [])
cut (n ∷ xs) = (take n xs, drop n xs)

unfoldable pub text : List ℕ → List ℕ → List ℕ
text t rest = length t ∷ (t ++ rest)

take-append : (t rest : List ℕ) → take (length t) (t ++ rest) ≡ t
take-append [] rest = refl
take-append (x ∷ t) rest = ap (λ xs. x ∷ xs) (take-append t rest)

drop-append : (t rest : List ℕ) → drop (length t) (t ++ rest) ≡ rest
drop-append [] rest = refl
drop-append (x ∷ t) rest = drop-append t rest

cut-text : (t rest : List ℕ) → cut (text t rest) ≡ (t, rest)
unfolding cut text
cut-text t rest = rw (take-append t rest, drop-append t rest) refl

abbrev pub marshal : File → List ℕ
marshal f =
    pos_part f.version
    ∷ neg_part f.version
    ∷ f.kdf_params.time
    ∷ f.kdf_params.memory
    ∷ f.kdf_params.threads
    ∷ f.kdf_params.key_len
    ∷ text f.algorithm
        (text f.kdf (text f.salt (text f.nonce (text f.ciphertext (text f.address [])))))

abbrev unmarshal_texts : ℤ → KdfParams → List ℕ → Option File
unmarshal_texts version kdf_params bytes =
    let (algorithm, r1) = cut bytes in
    let (kdf, r2) = cut r1 in
    let (salt, r3) = cut r2 in
    let (nonce, r4) = cut r3 in
    let (ciphertext, r5) = cut r4 in
    let (address, r6) = cut r5 in
    some (record {
      version = version;
      algorithm = algorithm;
      kdf = kdf;
      kdf_params = kdf_params;
      salt = salt;
      nonce = nonce;
      ciphertext = ciphertext;
      address = address;
    })

abbrev unmarshal : List ℕ → Option File
unmarshal (p ∷ n ∷ time ∷ memory ∷ threads ∷ key_len ∷ rest) =
    unmarshal_texts (sub_ℕ p n)
      (record { time = time; memory = memory; threads = threads; key_len = key_len }) rest
unmarshal other = none

abbrev pub address_of : List ℕ → Option (List ℕ)
address_of key = if length key == 32 then some (codes "0xabc") else none

abbrev pub all_bytes : List ℕ → Bool
all_bytes [] = true
all_bytes (b ∷ bs) = let rest = all_bytes bs in if ltb b 256 then rest else false

all_bytes_lem : (bs : List ℕ) → All IsByte bs → all_bytes bs ≡ true
all_bytes_lem [] h = refl
all_bytes_lem (b ∷ bs) h = ground (arith, all_bytes_lem bs h.1)

pub all_bytes_sound : (bs : List ℕ) → all_bytes bs ≡ true → All IsByte bs
all_bytes_sound [] h = tt
all_bytes_sound (b ∷ bs) h = (ground arith, all_bytes_sound bs (ground arith))

abbrev pub crypto : Crypto
crypto = record {
  id_key = λ passphrase salt params. replicate params.key_len 1;
  new_cipher = λ key. length key == 32;
  seal = λ key nonce plaintext. plaintext;
  unseal = λ key nonce ciphertext. if all_bytes ciphertext then some ciphertext else none;
  to_ecdsa = address_of;
  marshal = marshal;
  unmarshal = unmarshal;
}

parts_version : (v : ℤ) → sub_ℕ (pos_part v) (neg_part v) ≡ v
parts_version v = ground arith

unmarshal-marshal : (f : File) → unmarshal (marshal f) ≡ some f
unmarshal-marshal f = simp (cut-text, parts_version)

address_of-IsAscii :
    (key address : List ℕ) → address_of key ≡ some address → All (λ c. c < 128) address
address_of-IsAscii key address h =
    subst (All (λ c. c < 128)) (address_of-eq (length key == 32) address h) (omega arith)
  where
    address_of-eq :
        (b : Bool) (address : List ℕ)
        → (if b then some (codes "0xabc") else none) ≡ some address
        → codes "0xabc" ≡ address
    address_of-eq true address h = some-injective _ _ h
    address_of-eq false address h = cc

crypto-Laws : Laws crypto
crypto-Laws = record {
  open_seal = λ key nonce plaintext h. rw (all_bytes_lem plaintext h) refl;
  seal_bytes = λ key nonce plaintext h. h;
  unmarshal_marshal = λ f h. unmarshal-marshal f;
  address_ascii = address_of-IsAscii;
}

abbrev key_hex : List ℕ
key_hex = codes "0xABCDEF00112233445566778899aabbccddeeff00112233445566778899AABBCC"

abbrev pub passphrase : List ℕ
passphrase = codes "correct horse"

abbrev pub salt : List ℕ
salt = replicate 32 200

abbrev pub nonce : List ℕ
nonce = replicate 12 9

abbrev path : List ℕ
path = codes ".keystore.json"

abbrev empty_disk : Disk
empty_disk p = none

abbrev saved_disk : Disk
saved_disk = (encrypt crypto key_hex passphrase (some salt) (some nonce) path empty_disk written).0

encrypt_goes_well :
    (encrypt crypto key_hex passphrase (some salt) (some nonce) path empty_disk written).1 ≡ ok tt
unfolding encrypt encrypt_file save_bytes atomic_write_file decode_hex trim_0x
encrypt_goes_well = refl

decrypt-encrypt_example :
    (key : List ℕ) × (address : List ℕ) × (decode_hex (trim_0x key_hex) ≡ some key)
    × (address_of key ≡ some address)
    × (decrypt crypto (saved_disk path) passphrase ≡ ok (map lower (trim_0x key_hex), address))
    × (read_address crypto (saved_disk path) ≡ ok address)
decrypt-encrypt_example =
    decrypt-encrypt crypto crypto-Laws key_hex passphrase salt nonce path empty_disk written
      (omega arith) (omega arith) refl encrypt_goes_well

atomic_write_file_lem_example :
    All (IsSafe path key_hex empty_disk) (disks path key_hex rename_fails empty_disk)
    × ((atomic_write_file path key_hex rename_fails empty_disk).0 path ≡ (
        if (atomic_write_file path key_hex rename_fails empty_disk).1
        then some key_hex
        else empty_disk path))
atomic_write_file_lem_example = atomic_write_file_lem path key_hex empty_disk rename_fails

-- A file of a key of 32 bytes, and the same with a nonce that is too short.
abbrev pub plain_key : List ℕ
plain_key = replicate 32 5

abbrev pub stored : File
stored = sealed_file salt nonce plain_key (codes "0xabc")

abbrev short_nonce : File
short_nonce = record stored { nonce = codes "0909" }

pub stored_opens :
    decrypt crypto (some (marshal stored)) passphrase
    ≡ ok (codes "0505050505050505050505050505050505050505050505050505050505050505", codes "0xabc")
unfolding decrypt decode_hex encode_hex text cut
stored_opens = refl

decrypt_sound_example :
    (bytes : List ℕ) × (f : File) × (some (marshal stored) ≡ some bytes)
    × (unmarshal bytes ≡ some f)
    × Opens crypto f passphrase
        (codes "0505050505050505050505050505050505050505050505050505050505050505")
        (codes "0xabc")
decrypt_sound_example =
    decrypt_sound crypto (some (marshal stored)) passphrase
      (codes "0505050505050505050505050505050505050505050505050505050505050505") (codes "0xabc")
      stored_opens

short_nonce_reads : decode_hex short_nonce.nonce ≡ some (9 ∷ 9 ∷ [])
unfolding decode_hex
short_nonce_reads = refl

decrypt_file_panics_example : decrypt_file crypto short_nonce passphrase ≡ panics
decrypt_file_panics_example =
    decrypt_file_panics crypto short_nonce passphrase salt (9 ∷ 9 ∷ []) plain_key refl
      (decode_hex-encode_hex salt (omega arith)) short_nonce_reads
      (decode_hex-encode_hex plain_key (omega arith)) (inr (inr (inr (refl, λ e. cc))))
