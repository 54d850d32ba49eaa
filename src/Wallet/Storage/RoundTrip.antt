-- ===== src/Wallet/Storage/RoundTrip.antt =====
-- About `Wallet::save` and `Wallet::load` of crates/aion-trust-wallet/src/lib.rs, one after the other.
use aion_trust.Prelude.{◌≡◌, refl, some, Bytes, Text, AreBytes, >>=-eq-ok, ok}
use aion_trust.Crypto.{Crypto, IsArray}
use aion_trust.Encoding.Hex.{to_hex}
use aion_trust.Encoding.Hex.RoundTrip.{from_hex-to_hex, decode_array-to_hex}
use aion_trust.Identity.{secret_hex, identity_from_secret_hex}
use aion_trust.Json.{Json}
use aion_trust.Wallet.{Wallet}
use aion_trust.Wallet.Storage.{
  wallet_info, wallet_aad, WalletFile, WalletInner, Platform, save, load,
}

-- What `save` and `load` count on: decryption and parsing invert encryption and printing, ciphertexts
-- are bytes, and a file that was written can be read.
pub record PlatformLaws (pl : Platform) : Type 0 where
  pub decrypt-encrypt :
      (key nonce text aad : Bytes) {sealed : Bytes}
      → pl.encrypt key nonce text aad ≡ ok sealed
      → pl.decrypt key nonce sealed aad ≡ ok text
  pub encrypt-AreBytes :
      (key nonce text aad : Bytes) {sealed : Bytes}
      → pl.encrypt key nonce text aad ≡ ok sealed
      → AreBytes sealed
  pub inner_from_slice-inner_to_vec :
      (inner : WalletInner) {bytes : Bytes}
      → pl.inner_to_vec inner ≡ ok bytes
      → pl.inner_from_slice bytes ≡ ok inner
  pub file_from_str-file_to_string :
      (file : WalletFile) {text : Text}
      → pl.file_to_string file ≡ ok text
      → pl.file_from_str text ≡ ok file
  pub read-write :
      (files : pl.Files) (path text : Text) {written : pl.Files}
      → pl.write files path text ≡ ok written
      → pl.read written path ≡ ok text

-- `SigningKey::from_bytes` inverts `to_bytes`.
pub record KeyLaws (c : Crypto) : Type 0 where
  pub signing_key_to_bytes-IsArray : (k : c.SigningKey) → IsArray 32 (c.signing_key_to_bytes k)
  pub signing_key_from_to_bytes :
      (k : c.SigningKey) → c.signing_key_from_bytes (c.signing_key_to_bytes k) ≡ some k

module _ (c : Crypto) (keys : KeyLaws c) (j : Json) (pl : Platform) (laws : PlatformLaws pl) where
  identity_from_secret_hex-secret_hex :
      (k : c.SigningKey) → identity_from_secret_hex c (secret_hex c k) ≡ ok k
  unfolding identity_from_secret_hex secret_hex
  identity_from_secret_hex-secret_hex k =
      rw
        (
          decode_array-to_hex 32 (keys.signing_key_to_bytes-IsArray k),
          keys.signing_key_from_to_bytes k,
        )
        refl

  -- A wallet that was saved is loaded again, with its identity and all of its claims, under the
  -- passphrase that it was saved with.
  pub load-save :
      (w : Wallet c j) (files : pl.Files) (path passphrase : Text) (salt nonce : Bytes)
      {written : pl.Files}
      → IsArray 12 salt
      → IsArray 12 nonce
      → save c j pl w files path passphrase (salt, nonce) ≡ ok written
      → load c j pl written path passphrase ≡ ok w
  unfolding save load
  load-save w files path passphrase salt nonce salt_array nonce_array e =
      let inner : WalletInner = record { secret = secret_hex c w.identity; claims = w.claims } in
      let (plaintext, e1, r1) = >>=-eq-ok (pl.inner_to_vec inner) _ e in
      let (key, e2, r2) = >>=-eq-ok (pl.derive_key passphrase salt wallet_info) _ r1 in
      let (sealed, e3, r3) = >>=-eq-ok (pl.encrypt key nonce plaintext wallet_aad) _ r2 in
      let file : WalletFile = record {
        version = 1;
        kdf_salt = to_hex salt;
        nonce = to_hex nonce;
        ciphertext = to_hex sealed;
      } in
      let (text, e4, r4) = >>=-eq-ok (pl.file_to_string file) _ r3 in
      rw
        (
          laws.read-write files path text r4,
          laws.file_from_str-file_to_string file e4,
          from_hex-to_hex salt salt_array.bytes,
          decode_array-to_hex 12 nonce_array,
          from_hex-to_hex sealed (laws.encrypt-AreBytes key nonce plaintext wallet_aad e3),
          e2,
          laws.decrypt-encrypt key nonce plaintext wallet_aad e3,
          laws.inner_from_slice-inner_to_vec inner e1,
          identity_from_secret_hex-secret_hex w.identity,
        )
        refl
