-- ===== src/Interop/DidKey/RoundTrip.antt =====
-- About `encode_did_key`, `verification_method` and `decode_did_key` of
-- crates/aion-trust-interop/src/didkey.rs, together.
use aion_trust.Prelude.{
  ℕ, ◌<◌, ◌≡◌, refl, sym, ap, ◌∙◌, true, List, [], ◌∷◌, ◌++◌, map, append-nil, arith, ◌==◌, ==_iff,
  length, All, Bytes, Text, AreBytes, bytes_eq, ok,
}
use aion_trust.Crypto.{Crypto, CryptoLaws}
use aion_trust.Interop.DidKey.{
  ed25519_multicodec, base58btc_encode, before_hash, strip_prefix, encode_did_key,
  verification_method, decode_did_key,
}
use aion_trust.Interop.DidKey.Base58.{
  base58btc_encode-chars, char_of, char_of-hash, base58btc_decode-base58btc_encode,
}

-- A text without `#` before one stays.
before_hash-map :
    (ds : List ℕ) (rest : Text)
    → All (λ d. d < 58) ds
    → before_hash (map char_of ds ++ rest) ≡ map char_of ds ++ before_hash rest
unfolding before_hash
before_hash-map [] rest h = refl
before_hash-map (d ∷ ds) rest (hd, h) = rw (char_of-hash d hd, before_hash-map ds rest h) refl

module _ (c : Crypto) (laws : CryptoLaws c) where
  abbrev payload : c.VerifyingKey → Bytes
  payload vk = ed25519_multicodec ++ c.key_to_bytes vk

  payload-AreBytes : (vk : c.VerifyingKey) → AreBytes (payload vk)
  payload-AreBytes vk = (omega arith, (omega arith, (laws.key_to_bytes-IsArray vk).bytes))

  -- Whatever follows the text of a key from a `#` on is left out.
  decode_did_key-before_hash :
      (vk : c.VerifyingKey) (rest : Text)
      → before_hash rest ≡ []
      → decode_did_key c (encode_did_key c vk ++ rest) ≡ ok vk
  unfolding decode_did_key encode_did_key strip_prefix before_hash bytes_eq
  decode_did_key-before_hash vk rest stops =
      let (ds, same, small) = base58btc_encode-chars (payload vk) in
      let kept : before_hash (base58btc_encode (payload vk) ++ rest)
          ≡ base58btc_encode (payload vk) =
        ap (λ t. before_hash (t ++ rest)) same
        ∙ before_hash-map ds rest small
        ∙ ap (λ t. map char_of ds ++ t) stops
        ∙ append-nil (map char_of ds)
        ∙ sym same in
      let sized : (length (payload vk) == 34) ≡ true =
        (==_iff (length (payload vk)) 34).1 (omega (arith, (laws.key_to_bytes-IsArray vk).len)) in
      rw
        (
          kept,
          base58btc_decode-base58btc_encode (payload vk) (payload-AreBytes vk),
          sized,
          laws.key_from_to_bytes vk,
        )
        refl

  -- The `did:key` of a key decodes to that key, and so does its verification method, with the fragment.
  pub decode_did_key-encode_did_key :
      (vk : c.VerifyingKey)
      → (decode_did_key c (encode_did_key c vk) ≡ ok vk)
        × (decode_did_key c (verification_method c vk) ≡ ok vk)
  unfolding verification_method before_hash
  decode_did_key-encode_did_key vk = (
    ap (decode_did_key c) (sym (append-nil (encode_did_key c vk)))
        ∙ decode_did_key-before_hash vk [] refl,
    decode_did_key-before_hash vk (35 ∷ _) refl,
  )
