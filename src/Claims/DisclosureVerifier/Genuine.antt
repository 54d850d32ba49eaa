-- ===== src/Claims/DisclosureVerifier/Genuine.antt =====
-- About `Claim::verify` and the commitments of crates/aion-trust-claims/src/claim.rs, as a holder
-- relies on them.
use aion_trust.Prelude.{
  ℕ, ◌^◌, ◌<◌, ◌≡◌, refl, sym, ap, subst, ◌∙◌, true, ◌&&◌, List, ◌==◌, ==_iff, &&-eq-true, length,
  length-map, Bytes, bytes_eq, bytes_eq→eq, map_err, guard, >>=-eq-ok, ok-injective, map_err-eq-ok,
  guard-eq-ok, ok, ◌>>=◌,
}
use aion_trust.Crypto.{Crypto, CryptoLaws}
use aion_trust.Json.{Json}
use aion_trust.Encoding.Hex.{to_hex, decode_array}
use aion_trust.Identity.{did_from_key, claim_id_from_signing_bytes}
use aion_trust.Merkle.{merkle_root}
use aion_trust.Claims.Reject.{
  issuer_key_mismatch, body_tampered, relies_tampered, claim_id_mismatch, bad_signature, malformed,
}
use aion_trust.Claims.Bodies.{ClaimBody, category, schema_id}
use aion_trust.Claims.Fields.{BodyLeaf, try_u32, body_leaves}
use aion_trust.Claims.Fields.Leaves.{try_u32-eq-ok, try_u32-bound}
use aion_trust.Claims.Reliance.{
  ReliesOn, ReliesLeaf, reliance_leaves, reliance_root_of, reliance_commitment,
}
use aion_trust.Claims.Claim.{Claim, ClaimCommit, VerifiedClaim, signing_bytes, body_commitment}
use aion_trust.Claims.Claim as Native
use aion_trust.Claims.DisclosureVerifier.HonestFields.{hashes_of}

module _ (c : Crypto) (laws : CryptoLaws c) (j : Json) where
  -- What verification of a claim has seen.
  pub record IsGenuine (claim : Claim) (issuer_vk : c.VerifyingKey) : Type 0 where
    pub master_salt : Bytes
    pub commit : ClaimCommit
    pub sig : Bytes
    pub issuer_binds : did_from_key c issuer_vk ≡ claim.issuer_id
    pub salt_decodes : decode_array 32 claim.master_salt ≡ ok master_salt
    pub body_commits :
        body_commitment c j master_salt claim.body ≡ ok (commit.body_root, commit.field_count)
    pub body_root_same : to_hex commit.body_root ≡ claim.body_root
    pub field_count_same : commit.field_count ≡ claim.field_count
    pub reliance_commits :
        reliance_commitment c master_salt claim.reliance
        ≡ ok (commit.reliance_root, commit.reliance_count)
    pub reliance_root_same : to_hex commit.reliance_root ≡ claim.reliance_root
    pub reliance_count_same : commit.reliance_count ≡ claim.reliance_count
    pub signing : Bytes
    pub signing_same :
        signing
        ≡ signing_bytes claim.subject_id claim.issuer_id
            (category claim.body)
            (schema_id claim.body)
            claim.validity
            commit
    pub claim_id_same : claim_id_from_signing_bytes c signing ≡ claim.claim_id
    pub sig_decodes : decode_array 64 claim.issuer_signature ≡ ok sig
    pub verifies : c.verify issuer_vk signing sig ≡ true

  pub verify-IsGenuine :
      (claim : Claim) (issuer_vk : c.VerifyingKey) {v : VerifiedClaim c j}
      → Native.verify c j claim issuer_vk ≡ ok v
      → IsGenuine claim issuer_vk
  unfolding Native.verify
  verify-IsGenuine claim issuer_vk e =
      let t1 = bytes_eq (did_from_key c issuer_vk) claim.issuer_id in
      let (u1, e1, r1) = >>=-eq-ok (guard t1 issuer_key_mismatch) _ e in
      let (ms, e2, r2) = >>=-eq-ok (map_err (decode_array 32 claim.master_salt) malformed) _ r1 in
      let ((body_root, field_count), e3, r3) = >>=-eq-ok (body_commitment c j ms claim.body) _ r2 in
      let t4 = bytes_eq (to_hex body_root) claim.body_root && (field_count == claim.field_count) in
      let (u4, e4, r4) = >>=-eq-ok (guard t4 body_tampered) _ r3 in
      let ((reliance_root, reliance_count), e5, r5) =
        >>=-eq-ok (reliance_commitment c ms claim.reliance) _ r4 in
      let t6 =
        bytes_eq (to_hex reliance_root) claim.reliance_root
        && (reliance_count == claim.reliance_count) in
      let (u6, e6, r6) = >>=-eq-ok (guard t6 relies_tampered) _ r5 in
      let commit : ClaimCommit = record {
        body_root = body_root;
        field_count = field_count;
        reliance_root = reliance_root;
        reliance_count = reliance_count;
      } in
      let signing =
        signing_bytes claim.subject_id claim.issuer_id (category claim.body) (schema_id claim.body)
          claim.validity commit in
      let t7 = bytes_eq (claim_id_from_signing_bytes c signing) claim.claim_id in
      let (u7, e7, r7) = >>=-eq-ok (guard t7 claim_id_mismatch) _ r6 in
      let (sig, e8, r8) =
        >>=-eq-ok (map_err (decode_array 64 claim.issuer_signature) malformed) _ r7 in
      let (u9, e9, r9) = >>=-eq-ok (guard (c.verify issuer_vk signing sig) bad_signature) _ r8 in
      let (body_hex, field_counted) =
        &&-eq-true (bytes_eq (to_hex body_root) claim.body_root) _
          (guard-eq-ok t4 body_tampered e4) in
      let (reliance_hex, reliance_counted) =
        &&-eq-true (bytes_eq (to_hex reliance_root) claim.reliance_root) _
          (guard-eq-ok t6 relies_tampered e6) in
      record {
        master_salt = ms;
        commit = commit;
        sig = sig;
        issuer_binds = bytes_eq→eq _ _ (guard-eq-ok t1 issuer_key_mismatch e1);
        salt_decodes = map_err-eq-ok (decode_array 32 claim.master_salt) malformed e2;
        body_commits = e3;
        body_root_same = bytes_eq→eq _ _ body_hex;
        field_count_same = (==_iff field_count claim.field_count).0 field_counted;
        reliance_commits = e5;
        reliance_root_same = bytes_eq→eq _ _ reliance_hex;
        reliance_count_same = (==_iff reliance_count claim.reliance_count).0 reliance_counted;
        signing = signing;
        signing_same = refl;
        claim_id_same = bytes_eq→eq _ _ (guard-eq-ok t7 claim_id_mismatch e7);
        sig_decodes = map_err-eq-ok (decode_array 64 claim.issuer_signature) malformed e8;
        verifies = guard-eq-ok (c.verify issuer_vk signing sig) bad_signature e9;
      }

  pub body_commitment-parts :
      (ms : Bytes) (body : ClaimBody) {root : Bytes} {count : ℕ}
      → body_commitment c j ms body ≡ ok (root, count)
      → (leaves : List (BodyLeaf j)) × (body_leaves j c ms body ≡ ok leaves)
        × (merkle_root c (hashes_of c laws j leaves) ≡ ok root)
        × (count ≡ length leaves)
        × (length leaves < 2 ^ 32)
  unfolding body_commitment
  body_commitment-parts ms body {root} {count} e =
      let (leaves, e1, r1) = >>=-eq-ok (body_leaves j c ms body) _ e in
      let hashes = hashes_of c laws j leaves in
      let (root1, e2, r2) =
        >>=-eq-ok (map_err (merkle_root c hashes) malformed)
          (λ r. do n ← try_u32 (length hashes); ok (r, n)) r1 in
      let (count1, e3, r3) = >>=-eq-ok (try_u32 (length hashes)) (λ n. ok (root1, n)) r2 in
      let committed = map_err-eq-ok (merkle_root c hashes) malformed e2 in
      let same = ok-injective r3 in
      (
        leaves,
        e1,
        committed ∙ ap ok (ap (λ p. p.0) same),
        sym (ap (λ p. p.1) same)
            ∙ try_u32-eq-ok c laws j (length hashes) e3
            ∙ length-map (λ (l : BodyLeaf j). l.hash) leaves,
        subst (λ n. n < 2 ^ 32) (length-map (λ (l : BodyLeaf j). l.hash) leaves)
            (try_u32-bound c laws j (length hashes) e3),
      )

  pub reliance_commitment-parts :
      (ms : Bytes) (on : List ReliesOn) {root : Bytes} {count : ℕ}
      → reliance_commitment c ms on ≡ ok (root, count)
      → (leaves : List ReliesLeaf) × (reliance_leaves c ms on ≡ ok leaves)
        × (reliance_root_of c leaves (length leaves) ≡ ok (root, count))
  unfolding reliance_commitment
  reliance_commitment-parts ms on {root} {count} e =
      let (leaves, e1, r1) = >>=-eq-ok (reliance_leaves c ms on) _ e in
      let (n, e2, r2) = >>=-eq-ok (try_u32 (length leaves)) (λ n. reliance_root_of c leaves n) r1 in
      (
        leaves,
        e1,
        subst (λ n. reliance_root_of c leaves n ≡ ok (root, count))
            (try_u32-eq-ok c laws j (length leaves) e2) r2,
      )
