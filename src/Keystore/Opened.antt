-- ===== src/Keystore/Opened.antt =====
-- internal/keystore/keystore.go: what a successful `Decrypt` has checked, and where it panics.
use degenbox_hyperliquid_cli.Base.Outcome.{
  ok, panics, ensure, assert, require, >>=-inv, >>-inv, ensure-ok, require-ok,
}
use degenbox_hyperliquid_cli.Text.Hex.{encode_hex, decode_hex}
use degenbox_hyperliquid_cli.Keystore.AtomicWrite.{same, same_eq}
use degenbox_hyperliquid_cli.Keystore.{
  File, Crypto, invalid_format, read_failed, bad_salt, bad_nonce, bad_ciphertext,
  unsupported_version, no_cipher, wrong_passphrase, not_a_key, address_mismatch, decrypt_file,
  decrypt,
}
use degenbox_hyperliquid_cli.Base.{
  ℕ, ◌≡◌, sym, ap, ◌∙◌, ◌≢◌, ◌⊎◌, true, ◌&&◌, Option, some, List, arith, leb, ◌==◌, length,
}
use degenbox_hyperliquid_cli.Base.Int.{ℤ, pos, eqb_ℤ}

eqb_ℤ-eq : (i j : ℤ) → eqb_ℤ i j ≡ true → i ≡ j
eqb_ℤ-eq i j h = ground arith

module _ (c : Crypto) where
  open c use {id_key, new_cipher, unseal, to_ecdsa, unmarshal}

  -- A file that gives the key `hex` of the wallet `address`.
  pub record Opens (f : File) (passphrase hex address : List ℕ) : Type 0 where
    pub salt : List ℕ
    pub nonce : List ℕ
    pub ciphertext : List ℕ
    pub plaintext : List ℕ
    pub version : f.version ≡ pos 1
    pub salt_read : decode_hex f.salt ≡ some salt
    pub nonce_read : decode_hex f.nonce ≡ some nonce
    pub ciphertext_read : decode_hex f.ciphertext ≡ some ciphertext
    pub opened : unseal (id_key passphrase salt f.kdf_params) nonce ciphertext ≡ some plaintext
    pub valid : to_ecdsa plaintext ≡ some address
    pub stored : address ≡ f.address
    pub encoded : hex ≡ encode_hex plaintext

  decrypt_file-Opens :
      (f : File) (passphrase hex address : List ℕ)
      → decrypt_file c f passphrase ≡ ok (hex, address)
      → Opens f passphrase hex address
  unfolding decrypt_file
  decrypt_file-Opens f passphrase hex address h =
      let (version, h1) =
        >>-inv (ensure (eqb_ℤ f.version (pos 1)) (unsupported_version f.version)) _ h in
      let (salt, salt_read, h2) = >>=-inv (require (decode_hex f.salt) bad_salt) _ h1 in
      let (nonce, nonce_read, h3) = >>=-inv (require (decode_hex f.nonce) bad_nonce) _ h2 in
      let (ciphertext, ciphertext_read, h4) =
        >>=-inv (require (decode_hex f.ciphertext) bad_ciphertext) _ h3 in
      let (params, h5) =
        >>-inv
          (assert
            (leb 1 f.kdf_params.time && leb 1 f.kdf_params.threads && leb 1 f.kdf_params.key_len))
          _ h4 in
      let derived = id_key passphrase salt f.kdf_params in
      let (fits, h6) = >>-inv (ensure (new_cipher derived) no_cipher) _ h5 in
      let (twelve, h7) = >>-inv (assert (length nonce == 12)) _ h6 in
      let (plaintext, opened, h8) =
        >>=-inv (require (unseal derived nonce ciphertext) wrong_passphrase) _ h7 in
      let (address', valid, h9) = >>=-inv (require (to_ecdsa plaintext) not_a_key) _ h8 in
      let (equal, h10) = >>-inv (ensure (same address' f.address) address_mismatch) _ h9 in
      let one : address' ≡ address = ground arith in
      record {
        salt = salt;
        nonce = nonce;
        ciphertext = ciphertext;
        plaintext = plaintext;
        version = eqb_ℤ-eq _ _ (ensure-ok _ _ version);
        salt_read = require-ok _ _ salt_read;
        nonce_read = require-ok _ _ nonce_read;
        ciphertext_read = require-ok _ _ ciphertext_read;
        opened = require-ok _ _ opened;
        valid = require-ok _ _ valid ∙ ap some one;
        stored = sym one ∙ same_eq address' f.address (ensure-ok _ _ equal);
        encoded = ground arith;
      }

  -- When `Decrypt` gives a key and an address, the file was read and is of version 1, the passphrase
  -- has opened its ciphertext with the salt, the nonce and the parameters that the file names, the
  -- key is the opened text in hex, and the address is that of the key and the one in the file.
  pub decrypt_sound :
      (file : Option (List ℕ)) (passphrase hex address : List ℕ)
      → decrypt c file passphrase ≡ ok (hex, address)
      → (bytes : List ℕ) × (f : File) × (file ≡ some bytes)
        × (unmarshal bytes ≡ some f)
        × Opens f passphrase hex address
  unfolding decrypt
  decrypt_sound file passphrase hex address h =
      let (bytes, read, h1) = >>=-inv (require file read_failed) _ h in
      let (f, parsed, h2) = >>=-inv (require (unmarshal bytes) invalid_format) _ h1 in
      (
        bytes,
        f,
        require-ok _ _ read,
        require-ok _ _ parsed,
        decrypt_file-Opens f passphrase hex address h2,
      )

  -- A file of version 1 whose texts are hex makes `Decrypt` panic, whatever the passphrase, where
  -- its parameters have no round, no thread or no length of a key, and also where AES takes the
  -- derived key and the nonce is not twelve bytes long.
  pub decrypt_file_panics :
      (f : File) (passphrase salt nonce ciphertext : List ℕ)
      → f.version ≡ pos 1
      → decode_hex f.salt ≡ some salt
      → decode_hex f.nonce ≡ some nonce
      → decode_hex f.ciphertext ≡ some ciphertext
      → ((f.kdf_params.time ≡ 0)
          ⊎ (f.kdf_params.threads ≡ 0)
          ⊎ (f.kdf_params.key_len ≡ 0)
          ⊎ ((new_cipher (id_key passphrase salt f.kdf_params) ≡ true) × (length nonce ≢ 12)))
      → decrypt_file c f passphrase ≡ panics
  unfolding decrypt_file
  decrypt_file_panics f passphrase salt nonce ciphertext version hs hn hc bad =
      rw (version, hs, hn, hc) (ground arith)
