-- ===== src/Wallet/Storage.antt =====
-- `Wallet::save` and `Wallet::load` of crates/aion-trust-wallet/src/lib.rs: the wallet's file. The key
-- derivation and the AEAD of aion-context, serde_json and the file system are arguments, and so
-- are the two draws of `save`.
pub mod RoundTrip
use aion_trust.Prelude.{ℕ, List, Bytes, Text, codes, Result, ok, ◌>>=◌}
use aion_trust.Crypto.{Crypto}
use aion_trust.Encoding.Hex.{TrustError, to_hex, from_hex, decode_array}
use aion_trust.Identity.{secret_hex, identity_from_secret_hex}
use aion_trust.Json.{Json}
use aion_trust.Claims.Claim.{Claim}
use aion_trust.Wallet.{Wallet}

abbrev pub wallet_info : Bytes
wallet_info = codes "aion-trust-wallet/key/v1"

abbrev pub wallet_aad : Bytes
wallet_aad = codes "aion-trust-wallet/v1"

pub record WalletFile : Type 0 where
  pub version : ℕ
  pub kdf_salt : Text
  pub nonce : Text
  pub ciphertext : Text

pub record WalletInner : Type 0 where
  pub secret : Text
  pub claims : List Claim

-- What the wallet's file rests on.
pub record Platform : Type 1 where
  -- `aion_context::crypto::{derive_key, encrypt, decrypt}`: the passphrase, the salt and the info; the
  -- key, the nonce, the text and the additional data.
  pub derive_key : Bytes → Bytes → Bytes → Result TrustError Bytes
  pub encrypt : Bytes → Bytes → Bytes → Bytes → Result TrustError Bytes
  pub decrypt : Bytes → Bytes → Bytes → Bytes → Result TrustError Bytes
  -- `serde_json::{to_vec, from_slice, to_string_pretty, from_str}`
  pub inner_to_vec : WalletInner → Result TrustError Bytes
  pub inner_from_slice : Bytes → Result TrustError WalletInner
  pub file_to_string : WalletFile → Result TrustError Text
  pub file_from_str : Text → Result TrustError WalletFile
  -- `std::fs::{read_to_string, write}`
  pub Files : Type 0
  pub read : Files → Text → Result TrustError Text
  pub write : Files → Text → Text → Result TrustError Files

module _ (c : Crypto) (j : Json) (pl : Platform) where
  unfoldable pub save :
      Wallet c j → pl.Files → Text → Text → Bytes × Bytes → Result TrustError pl.Files
  unfolding secret_hex to_hex
  save w files path passphrase (salt, nonce) = do
    plaintext ← pl.inner_to_vec (record { secret = secret_hex c w.identity; claims = w.claims })
    key ← pl.derive_key passphrase salt wallet_info
    ciphertext ← pl.encrypt key nonce plaintext wallet_aad
    file ← pl.file_to_string (record {
      version = 1;
      kdf_salt = to_hex salt;
      nonce = to_hex nonce;
      ciphertext = to_hex ciphertext;
    })
    pl.write files path file

  unfoldable pub load : pl.Files → Text → Text → Result TrustError (Wallet c j)
  unfolding from_hex decode_array identity_from_secret_hex
  load files path passphrase = do
    text ← pl.read files path
    file ← pl.file_from_str text
    salt ← from_hex file.kdf_salt
    nonce ← decode_array 12 file.nonce
    ciphertext ← from_hex file.ciphertext
    key ← pl.derive_key passphrase salt wallet_info
    plaintext ← pl.decrypt key nonce ciphertext wallet_aad
    inner ← pl.inner_from_slice plaintext
    identity ← identity_from_secret_hex c inner.secret
    ok (record { identity = identity; claims = inner.claims })
