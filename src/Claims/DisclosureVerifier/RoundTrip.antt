-- ===== src/Claims/DisclosureVerifier/RoundTrip.antt =====
-- About `Claim::disclose` and `DisclosedClaim::verify` of crates/aion-trust-claims/src/claim.rs and
-- disclosure.rs, together.
use aion_trust.Prelude.{
  ℕ, ◌≡◌, refl, sym, ap, subst, ◌∙◌, some, List, [], map, ==_iff, length, get_elem?, length-map,
  Bytes, Text, bytes_eq_refl, >>=-eq-ok, ok-injective, ok,
}
use aion_trust.Prelude.Map.{Map}
use aion_trust.Crypto.{Crypto, CryptoLaws, IsArray}
use aion_trust.Json.{Json}
use aion_trust.Encoding.Hex.RoundTrip.{decode_array-to_hex}
use aion_trust.Identity.{Did, ClaimId, did_from_key, claim_id_from_signing_bytes}
use aion_trust.Merkle.Arrays.{merkle_root-IsArray}
use aion_trust.Claims.Bodies.{field_keys_for_category, category, schema_id}
use aion_trust.Claims.Fields.{BodyLeaf}
use aion_trust.Claims.Fields.Leaves.{body_leaves-IsLeaf, body_leaves-keys}
use aion_trust.Claims.Reliance.{ReliesOn}
use aion_trust.Claims.Claim.{Claim, ClaimCommit, VerifiedClaim, signing_bytes, body_commitment}
use aion_trust.Claims.Claim as Native
use aion_trust.Claims.Disclosure.{
  FieldSelector, RevealedField, RevealedReliance, DisclosedClaim, selected_indices, reveal_all,
  disclose_reliance, build, disclose,
}
use aion_trust.Claims.DisclosureVerifier.{
  ProvenField, VerifiedDisclosure, check_signature, contains_all, prove_fields, verify_reliance,
  verify_with_required, verify,
}
use aion_trust.Claims.DisclosureVerifier.Reliance.{targets}
use aion_trust.Claims.DisclosureVerifier.Genuine.{
  IsGenuine, verify-IsGenuine, body_commitment-parts, reliance_commitment-parts,
}
use aion_trust.Claims.DisclosureVerifier.HonestFields.{
  hashes_of, hashes_AreArrays, keys_of, prove_fields-reveal_all,
}
use aion_trust.Claims.DisclosureVerifier.HonestReliance.{
  reliance_root_of-parts, verify_reliance-disclose_reliance, targets-disclose_leaves,
}
use aion_trust.Claims.DisclosureVerifier.RelianceLeaves.{
  reliance_leaves-AreLeavesFrom, leaf_hashes, from_claim_ids-reliance_leaves,
}

module _ (c : Crypto) (laws : CryptoLaws c) (j : Json) where
  module _ (claim : Claim) (issuer_vk : c.VerifyingKey)
      (g : IsGenuine c laws j claim issuer_vk) where
    check_signature-IsGenuine :
        (fields : List (RevealedField j)) (reliance : List RevealedReliance)
        → IsArray 32 g.commit.body_root
        → IsArray 32 g.commit.reliance_root
        → check_signature c j
            (record {
              claim_id = claim.claim_id;
              subject_id = claim.subject_id;
              issuer_id = claim.issuer_id;
              validity = claim.validity;
              category = category claim.body;
              schema_id = schema_id claim.body;
              body_root = claim.body_root;
              field_count = claim.field_count;
              reliance_root = claim.reliance_root;
              reliance_count = claim.reliance_count;
              issuer_signature = claim.issuer_signature;
              fields = fields;
              reliance = reliance;
            })
            issuer_vk
          ≡ ok g.commit.body_root
    unfolding check_signature
    check_signature-IsGenuine fields reliance body_array reliance_array =
        let signing = λ (issuer : Did).
          signing_bytes claim.subject_id issuer (category claim.body) (schema_id claim.body)
            claim.validity g.commit in
        let same : g.signing ≡ signing (did_from_key c issuer_vk) =
          g.signing_same ∙ ap signing (sym g.issuer_binds) in
        let same_id = ap (claim_id_from_signing_bytes c) (sym same) ∙ g.claim_id_same in
        let verifies = ap (λ m. c.verify issuer_vk m g.sig) (sym same) ∙ g.verifies in
        rw
          (
            ← g.issuer_binds,
            bytes_eq_refl (did_from_key c issuer_vk),
            ← g.body_root_same,
            ← g.field_count_same,
            ← g.reliance_root_same,
            ← g.reliance_count_same,
            decode_array-to_hex 32 body_array,
            decode_array-to_hex 32 reliance_array,
            ← same_id,
            bytes_eq_refl (claim_id_from_signing_bytes c (signing (did_from_key c issuer_vk))),
            g.sig_decodes,
            verifies,
          )
          refl

  -- What a verifier learns of a claim from its disclosure, besides the fields.
  pub record IsShownAs (claim : Claim) (d : DisclosedClaim j) (w : VerifiedDisclosure j)
      : Type 0 where
    pub claim_id_same : d.claim_id ≡ claim.claim_id
    pub subject_same : d.subject_id ≡ claim.subject_id
    pub issuer_same : d.issuer_id ≡ claim.issuer_id
    pub validity_same : w.validity ≡ claim.validity
    pub category_same : w.category ≡ category claim.body
    pub reliance_same : w.reliance ≡ map (λ (r : ReliesOn). r.from_claim_id) claim.reliance

  -- The verifier's results on the parts of a disclosure, put together.
  verify-parts :
      (d : DisclosedClaim j) (issuer_vk : c.VerifyingKey) (body_root : Bytes) (expected : List Text)
      (proven : Map (ProvenField j)) (ids : List ClaimId)
      → check_signature c j d issuer_vk ≡ ok body_root
      → field_keys_for_category d.category ≡ some expected
      → d.field_count ≡ length expected
      → prove_fields c j d.field_count expected body_root d.fields [] ≡ ok proven
      → verify_reliance c j d ≡ ok ids
      → (verify c j d issuer_vk
          ≡ ok (record {
            claim_id = d.claim_id;
            subject_id = d.subject_id;
            issuer_id = d.issuer_id;
            validity = d.validity;
            category = d.category;
            fields = proven;
            reliance = ids;
          }))
  unfolding verify verify_with_required contains_all
  verify-parts d issuer_vk body_root expected proven ids signed known counted proves relied =
      rw (signed, known, (==_iff d.field_count (length expected)).1 counted, proves, relied) refl

  -- What a holder discloses of a claim that verifies, whatever the selection, is a disclosure that
  -- verifies under the same key, and the verifier learns the claim's identifier, subject, issuer,
  -- validity, category and relied-upon claims from it.
  pub disclose-verify :
      (claim : Claim) (issuer_vk : c.VerifyingKey) (selector : FieldSelector)
      {v : VerifiedClaim c j} {d : DisclosedClaim j}
      → Native.verify c j claim issuer_vk ≡ ok v
      → disclose c j claim selector ≡ ok d
      → (w : VerifiedDisclosure j) × (verify c j d issuer_vk ≡ ok w) × IsShownAs claim d w
  unfolding disclose build
  disclose-verify claim issuer_vk selector {v} {d} verified e =
      let g = verify-IsGenuine c laws j claim issuer_vk verified in
      let ms = g.master_salt in
      let (leaves, leaves_are, committed, counted, small) =
        body_commitment-parts c laws j ms claim.body g.body_commits in
      let (rel_leaves, rel_are, rel_commits) =
        reliance_commitment-parts c laws j ms claim.reliance g.reliance_commits in
      let opened : disclose c j claim selector ≡ build c j claim leaves rel_leaves selector =
        rw (g.salt_decodes, leaves_are, rel_are) refl in
      let (indices, e1, r1) = >>=-eq-ok (selected_indices j leaves selector) _ (sym opened ∙ e) in
      let (fields, e2, r2) = >>=-eq-ok (reveal_all c j leaves indices) _ r1 in
      let (reliance, e3, r3) = >>=-eq-ok (disclose_reliance c j rel_leaves) _ r2 in
      let genuine = λ (i : ℕ) (leaf : BodyLeaf j) (there : get_elem? leaves i ≡ some leaf).
        body_leaves-IsLeaf c laws j ms claim.body leaves_are i there in
      let (proven, proves) =
        prove_fields-reveal_all c laws j leaves g.commit.body_root genuine committed indices []
          e2 in
      let body_array =
        merkle_root-IsArray c laws (hashes_of c laws j leaves)
          (hashes_AreArrays c laws j leaves g.commit.body_root genuine committed) committed in
      let from = reliance_leaves-AreLeavesFrom c laws j ms claim.reliance rel_are in
      let (reliance_array, rel_counted, kind) =
        reliance_root_of-parts c laws j rel_leaves (length rel_leaves) from refl rel_commits in
      let relied =
        verify_reliance-disclose_reliance c laws j _ rel_leaves from rel_commits e3
          (sym g.reliance_root_same) (sym g.reliance_count_same) in
      let field_counted : claim.field_count ≡ length leaves = sym g.field_count_same ∙ counted in
      let proves_all =
        ap (λ n. prove_fields c j n (keys_of c laws j leaves) g.commit.body_root fields [])
          field_counted
        ∙ proves in
      let same_targets =
        targets-disclose_leaves c laws j (leaf_hashes c laws j rel_leaves) rel_leaves e3
        ∙ from_claim_ids-reliance_leaves c laws j ms claim.reliance rel_are in
      subst
        (λ x. (w : VerifiedDisclosure j) × (verify c j x issuer_vk ≡ ok w) × IsShownAs claim x w)
        (ok-injective r3)
        (
          _,
          verify-parts _ issuer_vk g.commit.body_root (keys_of c laws j leaves) proven
              (targets reliance)
              (check_signature-IsGenuine claim issuer_vk g fields reliance body_array
                reliance_array)
              (body_leaves-keys c laws j ms claim.body leaves_are)
              (field_counted ∙ sym (length-map (λ (l : BodyLeaf j). l.key) leaves)) proves_all
              relied,
          record {
            claim_id_same = refl;
            subject_same = refl;
            issuer_same = refl;
            validity_same = refl;
            category_same = refl;
            reliance_same = same_targets;
          },
        )
