-- ===== src/Tests/Storage.antt =====
-- The round trip of the wallet's file, on a small platform: an encryption that leaves the text as it
-- is, and wallets without claims.
use aion_trust.Prelude.{
  ℕ, ◌≡◌, refl, sym, ap, subst, ◌∙◌, inl, inr, true, List, [], ◌∷◌, ◌++◌, arith, ltb, if◌then◌else◌,
  Bool-cases, length, take, drop, replicate, all, Bytes, Text, codes, AreBytes, Result,
  ok-injective, err≢ok, ok, err,
}
use aion_trust.Crypto.Toy.{toy, key_byte, key_byte_bound, key_of-array, replicate-IsArray}
use aion_trust.Json.Toy.{toy_json}
use aion_trust.Encoding.Hex.{TrustError, serialize, crypto}
use aion_trust.Identity.{secret_hex}
use aion_trust.Claims.Claim.{Claim}
use aion_trust.Wallet.{Wallet}
use aion_trust.Wallet.Storage.{WalletFile, WalletInner, Platform, save, load}
use aion_trust.Wallet.Storage.RoundTrip.{PlatformLaws, KeyLaws, load-save}

abbrev seal : Bytes → Result TrustError Bytes
seal text = if all (λ b. ltb b 256) text then ok text else err crypto

abbrev print_with : Text → List Claim → Result TrustError Bytes
print_with secret [] = ok secret
print_with secret (claim ∷ claims) = err serialize

abbrev print_inner : WalletInner → Result TrustError Bytes
print_inner inner = print_with inner.secret inner.claims

abbrev parse_file : Text → Result TrustError WalletFile
parse_file (v ∷ a ∷ b ∷ text) = ok (record {
  version = v;
  kdf_salt = take a text;
  nonce = take b (drop a text);
  ciphertext = drop b (drop a text);
})
parse_file text = err serialize

abbrev toy_platform : Platform
toy_platform = record {
  derive_key = λ passphrase salt info. ok (passphrase ++ salt);
  encrypt = λ key nonce text aad. seal text;
  decrypt = λ key nonce text aad. ok text;
  inner_to_vec = print_inner;
  inner_from_slice = λ bytes. ok (record { secret = bytes; claims = [] });
  file_to_string = λ file. ok (
      file.version ∷ length file.kdf_salt ∷ length file.nonce ∷ file.kdf_salt
      ++ (file.nonce ++ file.ciphertext));
  file_from_str = parse_file;
  Files = Text;
  read = λ files path. ok files;
  write = λ files path text. ok text;
}

seal-eq-ok :
    (text : Bytes) {sealed : Bytes} → seal text ≡ ok sealed → (text ≡ sealed) × AreBytes sealed
seal-eq-ok text e = elim (Bool-cases (all (λ b. ltb b 256) text)) [
  | inl small ↦
      let same = ok-injective (rw small at e) in
      (same, subst AreBytes same (all-AreBytes text small))
  | inr large ↦ absurd (err≢ok (rw large at e))
]
  where
    all-AreBytes : (bs : Bytes) → all (λ b. ltb b 256) bs ≡ true → AreBytes bs
    all-AreBytes [] h = tt
    all-AreBytes (b ∷ bs) h = (ground arith, all-AreBytes bs (ground arith))

take-length : (xs ys : Bytes) → take (length xs) (xs ++ ys) ≡ xs
take-length [] ys = refl
take-length (x ∷ xs) ys = ap (λ t. x ∷ t) (take-length xs ys)

drop-length : (xs ys : Bytes) → drop (length xs) (xs ++ ys) ≡ ys
drop-length [] ys = refl
drop-length (x ∷ xs) ys = drop-length xs ys

print_with-eq-ok :
    (secret : Text) (claims : List Claim) {bytes : Bytes}
    → print_with secret claims ≡ ok bytes
    → ◌≡◌ {A = Result TrustError WalletInner}
        (ok (record { secret = bytes; claims = [] }))
        (ok (record { secret = secret; claims = claims }))
print_with-eq-ok secret [] e =
    ap (λ s. ok (record { secret = s; claims = [] })) (sym (ok-injective e))
print_with-eq-ok secret (claim ∷ claims) e = absurd (err≢ok e)

parse_file-printed :
    (v : ℕ) (salt nonce sealed : Text)
    → parse_file (v ∷ length salt ∷ length nonce ∷ salt ++ (nonce ++ sealed))
      ≡ ok (record { version = v; kdf_salt = salt; nonce = nonce; ciphertext = sealed })
parse_file-printed v salt nonce sealed =
    rw
      (
        take-length salt (nonce ++ sealed),
        drop-length salt (nonce ++ sealed),
        take-length nonce sealed,
        drop-length nonce sealed,
      )
      refl

toy_platform_laws : PlatformLaws toy_platform
toy_platform_laws = record {
  decrypt-encrypt = λ key nonce text aad e. ap ok (sym (seal-eq-ok text e).0);
  encrypt-AreBytes = λ key nonce text aad e. (seal-eq-ok text e).1;
  inner_from_slice-inner_to_vec = λ inner e. print_with-eq-ok inner.secret inner.claims e;
  file_from_str-file_to_string = λ file e.
      ap parse_file (sym (ok-injective e))
      ∙ parse_file-printed file.version file.kdf_salt file.nonce file.ciphertext;
  read-write = λ files path text e. ap ok (sym (ok-injective e));
}

toy_keys : KeyLaws toy
toy_keys = record {
  signing_key_to_bytes-IsArray = λ k. replicate-IsArray 32 (key_byte k) (key_byte_bound k);
  signing_key_from_to_bytes = key_of-array;
}

abbrev wallet : Wallet toy toy_json
wallet = record { identity = true; claims = [] }

abbrev written : Text
written =
    1 ∷ 24 ∷ 24 ∷ codes "060606060606060606060606"
    ++ (codes "070707070707070707070707"
        ++ codes
            "30313031303130313031303130313031303130313031303130313031303130313031303130313031303130313031303130313031303130313031303130313031")

save_test :
    save toy toy_json toy_platform wallet []
      (codes "wallet")
      (codes "secret")
      (replicate 12 6, replicate 12 7)
    ≡ ok written
unfolding save secret_hex replicate key_byte
save_test = refl

load-save_example :
    load toy toy_json toy_platform written (codes "wallet") (codes "secret") ≡ ok wallet
load-save_example =
    load-save toy toy_keys toy_json toy_platform toy_platform_laws wallet [] (codes "wallet")
      (codes "secret") (replicate 12 6) (replicate 12 7) {written = written}
      (replicate-IsArray 12 6 (omega arith)) (replicate-IsArray 12 7 (omega arith)) save_test
