-- ===== src/Keystore/RoundTrip.antt =====
-- internal/keystore/keystore.go: what `Encrypt` writes, `Decrypt` reads.
use degenbox_hyperliquid_cli.Base.Outcome.{
  ok, err, panics, ensure, require, >>=-inv, >>-inv, ensure-ok, require-ok,
}
use degenbox_hyperliquid_cli.Text.Hex.{
  IsByte, encode_hex, decode_hex, trim_0x, lower, decode_hex-encode_hex, encode_hex-decode_hex,
}
use degenbox_hyperliquid_cli.Keystore.AtomicWrite.{
  Disk, WriteOutcome, atomic_write_file-path, same_refl,
}
use degenbox_hyperliquid_cli.Keystore.{
  File, Crypto, invalid_key, invalid_ec_key, no_cipher, Result, argon2_params, sealed_file,
  encrypt_file, save_bytes, encrypt, decrypt_file, decrypt, read_address,
}
use degenbox_hyperliquid_cli.Base.{
  ℕ, ◌<◌, ◌≡◌, refl, ap, ◌∙◌, true, some, List, [], ◌∷◌, map, arith, ◌==◌, length, All,
}

abbrev IsAscii : ℕ → Type 0
IsAscii c = c < 128

abbrev HasAsciiTexts : File → Type 0
HasAsciiTexts f =
    All IsAscii f.algorithm
    × All IsAscii f.kdf
    × All IsAscii f.salt
    × All IsAscii f.nonce
    × All IsAscii f.ciphertext
    × All IsAscii f.address

-- What the code relies on: GCM opens what it sealed, JSON reads what it wrote of ASCII texts, an
-- address is ASCII.
pub record Laws (c : Crypto) : Type 0 where
  pub open_seal :
      (key nonce plaintext : List ℕ)
      → All IsByte plaintext
      → c.unseal key nonce (c.seal key nonce plaintext) ≡ some plaintext
  pub seal_bytes :
      (key nonce plaintext : List ℕ)
      → All IsByte plaintext
      → All IsByte (c.seal key nonce plaintext)
  pub unmarshal_marshal : (f : File) → HasAsciiTexts f → c.unmarshal (c.marshal f) ≡ some f
  pub address_ascii : (key address : List ℕ) → c.to_ecdsa key ≡ some address → All IsAscii address

encode_hex-IsAscii : (bs : List ℕ) → All IsByte bs → All IsAscii (encode_hex bs)
unfolding encode_hex
encode_hex-IsAscii [] h = tt
encode_hex-IsAscii (b ∷ bs) h = (ground arith, (ground arith, encode_hex-IsAscii bs h.1))

save_bytes-ok :
    (path : List ℕ) (disk : Disk) (outcome : WriteOutcome) (r : Result (List ℕ))
    → (save_bytes path disk outcome r).1 ≡ ok tt
    → (bytes : List ℕ) × (r ≡ ok bytes) × ((save_bytes path disk outcome r).0 path ≡ some bytes)
unfolding save_bytes
save_bytes-ok path disk outcome (ok bytes) h =
    (bytes, refl, rw (ensure-ok _ _ h) at (atomic_write_file-path path bytes disk outcome))
save_bytes-ok path disk outcome (err e) h = cc
save_bytes-ok path disk outcome panics h = cc

module _ (c : Crypto) where
  open c use {id_key, new_cipher, seal, unseal, to_ecdsa, marshal, unmarshal}

  record Encrypted (private_key_hex passphrase salt nonce bytes : List ℕ) : Type 0 where
    key : List ℕ
    address : List ℕ
    decoded : decode_hex (trim_0x private_key_hex) ≡ some key
    valid : to_ecdsa key ≡ some address
    fits : new_cipher (id_key passphrase salt argon2_params) ≡ true
    written :
        bytes
        ≡ marshal
            (sealed_file salt nonce (seal (id_key passphrase salt argon2_params) nonce key) address)

  encrypt_file-Encrypted :
      (private_key_hex passphrase salt nonce bytes : List ℕ)
      → encrypt_file c private_key_hex passphrase (some salt) (some nonce) ≡ ok bytes
      → Encrypted private_key_hex passphrase salt nonce bytes
  unfolding encrypt_file
  encrypt_file-Encrypted private_key_hex passphrase salt nonce bytes h =
      let (key, p, h1) = >>=-inv (require (decode_hex (trim_0x private_key_hex)) invalid_key) _ h in
      let (q, h2) = >>-inv (ensure (length key == 32) invalid_key) _ h1 in
      let (address, r, h3) = >>=-inv (require (to_ecdsa key) invalid_ec_key) _ h2 in
      let (s, h4) =
        >>-inv (ensure (new_cipher (id_key passphrase salt argon2_params)) no_cipher) _ h3 in
      record {
        key = key;
        address = address;
        decoded = require-ok _ _ p;
        valid = require-ok _ _ r;
        fits = ensure-ok _ _ s;
        written = cc;
      }

  module _ (laws : Laws c) where
    sealed_file-HasAsciiTexts :
        (salt nonce ciphertext key address : List ℕ)
        → All IsByte salt
        → All IsByte nonce
        → All IsByte ciphertext
        → to_ecdsa key ≡ some address
        → HasAsciiTexts (sealed_file salt nonce ciphertext address)
    sealed_file-HasAsciiTexts salt nonce ciphertext key address hs hn hc ha = (
      omega arith,
      omega arith,
      encode_hex-IsAscii salt hs,
      encode_hex-IsAscii nonce hn,
      encode_hex-IsAscii ciphertext hc,
      laws.address_ascii key address ha,
    )

    decrypt_file-sealed_file :
        (passphrase salt nonce key address : List ℕ)
        → All IsByte salt
        → All IsByte nonce
        → length nonce ≡ 12
        → All IsByte key
        → to_ecdsa key ≡ some address
        → new_cipher (id_key passphrase salt argon2_params) ≡ true
        → decrypt_file c
            (sealed_file salt nonce (seal (id_key passphrase salt argon2_params) nonce key) address)
            passphrase
          ≡ ok (encode_hex key, address)
    unfolding decrypt_file
    decrypt_file-sealed_file passphrase salt nonce key address hs hn ln hk ha fits =
        rw
          (
            decode_hex-encode_hex salt hs,
            decode_hex-encode_hex nonce hn,
            decode_hex-encode_hex _
                (laws.seal_bytes (id_key passphrase salt argon2_params) nonce key hk),
            fits,
            ln,
            laws.open_seal (id_key passphrase salt argon2_params) nonce key hk,
            ha,
            same_refl address,
          )
          refl

    -- The key that `Encrypt` has put in a file without an error, `Decrypt` gives back with the same
    -- passphrase: in hex without its prefix, in lower case, and with the address of the wallet,
    -- which `ReadAddress` reads with no passphrase. The salt and the nonce are bytes, and the nonce
    -- has twelve of them; GCM opens what it sealed, JSON reads what it wrote of ASCII texts.
    pub decrypt-encrypt :
        (private_key_hex passphrase salt nonce path : List ℕ) (disk : Disk) (outcome : WriteOutcome)
        → All IsByte salt
        → All IsByte nonce
        → length nonce ≡ 12
        → (encrypt c private_key_hex passphrase (some salt) (some nonce) path disk outcome).1
          ≡ ok tt
        → (key : List ℕ) × (address : List ℕ) × (decode_hex (trim_0x private_key_hex) ≡ some key)
          × (to_ecdsa key ≡ some address)
          × (decrypt c
                ((encrypt c private_key_hex passphrase (some salt) (some nonce) path disk outcome).0
                  path)
                passphrase
              ≡ ok (map lower (trim_0x private_key_hex), address))
          × (read_address c (
                (encrypt c private_key_hex passphrase (some salt) (some nonce) path disk outcome).0
                  path)
              ≡ ok address)
    unfolding encrypt decrypt read_address
    decrypt-encrypt private_key_hex passphrase salt nonce path disk outcome hs hn ln h =
        let (bytes, done, stored) = save_bytes-ok path disk outcome _ h in
        let e = encrypt_file-Encrypted private_key_hex passphrase salt nonce bytes done in
        let derived = id_key passphrase salt argon2_params in
        let hex = encode_hex-decode_hex (trim_0x private_key_hex) e.key e.decoded in
        let readable =
          laws.unmarshal_marshal (sealed_file salt nonce (seal derived nonce e.key) e.address) (
            sealed_file-HasAsciiTexts salt nonce (seal derived nonce e.key) e.key e.address hs hn
              (laws.seal_bytes derived nonce e.key hex.1) e.valid) in
        (
          e.key,
          e.address,
          e.decoded,
          e.valid,
          rw (stored, e.written, readable)
              (decrypt_file-sealed_file passphrase salt nonce e.key e.address hs hn ln hex.1 e.valid
                  e.fits
                ∙ ap (λ (k : List ℕ). ok (k, e.address)) hex.0),
          rw (stored, e.written, readable) refl,
        )
