-- ===== src/Claims/DisclosureVerifier/Sound.antt =====
-- About `check_signature` and `verify_with_required` of crates/aion-trust-claims/src/disclosure.rs.
use aion_trust.Prelude.{
  ◌≡◌, refl, ap, subst, ◌∙◌, ◌⊎◌, inl, inr, true, false≢true, some, List, [], ◌∷◌, ◌==◌, ==_iff,
  Option-cases, &&-eq-true, length, All, Bytes, Text, bytes_eq, bytes_eq→eq, ok_or, map_err, guard,
  >>=-eq-ok, ok-injective, map_err-eq-ok, ok_or-eq-ok, guard-eq-ok, ok,
}
use aion_trust.Prelude.Map.{Map, get, contains_key}
use aion_trust.Crypto.{Crypto}
use aion_trust.Json.{Json}
use aion_trust.Encoding.Hex.{decode_array}
use aion_trust.Identity.{ClaimId, did_from_key, claim_id_from_signing_bytes}
use aion_trust.Claims.Reject.{
  issuer_key_mismatch, body_tampered, claim_id_mismatch, bad_signature, missing_field, malformed,
}
use aion_trust.Claims.Bodies.{field_keys_for_category}
use aion_trust.Claims.Claim.{signing_bytes}
use aion_trust.Claims.Disclosure.{DisclosedClaim}
use aion_trust.Claims.DisclosureVerifier.{
  VerifiedDisclosure, ProvenField, check_signature, prove_fields, contains_all, verify_reliance,
  verify_with_required,
}
use aion_trust.Claims.DisclosureVerifier.Fields.{IsProven, IsRevealed, prove_fields_lem}
use aion_trust.Claims.DisclosureVerifier.Reliance.{IsExactReliance, verify_reliance-IsExactReliance}

module _ (c : Crypto) (j : Json) where
  -- The issuer's signature covers this disclosure, with these decoded roots.
  pub record IsSigned (d : DisclosedClaim j) (issuer_vk : c.VerifyingKey)
      (body_root reliance_root : Bytes) : Type 0 where
    pub sig : Bytes
    pub issuer_binds : did_from_key c issuer_vk ≡ d.issuer_id
    pub body_root_decodes : decode_array 32 d.body_root ≡ ok body_root
    pub reliance_root_decodes : decode_array 32 d.reliance_root ≡ ok reliance_root
    pub sig_decodes : decode_array 64 d.issuer_signature ≡ ok sig
    pub signing : Bytes
    pub signing_same :
        signing
        ≡ signing_bytes d.subject_id d.issuer_id d.category d.schema_id d.validity (record {
          body_root = body_root;
          field_count = d.field_count;
          reliance_root = reliance_root;
          reliance_count = d.reliance_count;
        })
    pub claim_id_same : claim_id_from_signing_bytes c signing ≡ d.claim_id
    pub verifies : c.verify issuer_vk signing sig ≡ true

  pub check_signature-IsSigned :
      (d : DisclosedClaim j) (issuer_vk : c.VerifyingKey) {body_root : Bytes}
      → check_signature c j d issuer_vk ≡ ok body_root
      → (reliance_root : Bytes) × IsSigned d issuer_vk body_root reliance_root
  unfolding check_signature
  check_signature-IsSigned d issuer_vk {body_root} e =
      let (u1, e1, r1) =
        >>=-eq-ok (guard (bytes_eq (did_from_key c issuer_vk) d.issuer_id) issuer_key_mismatch) _
          e in
      let (root, e2, r2) = >>=-eq-ok (map_err (decode_array 32 d.body_root) malformed) _ r1 in
      let (reliance_root, e3, r3) =
        >>=-eq-ok (map_err (decode_array 32 d.reliance_root) malformed) _ r2 in
      let signing =
        signing_bytes d.subject_id d.issuer_id d.category d.schema_id d.validity (record {
          body_root = root;
          field_count = d.field_count;
          reliance_root = reliance_root;
          reliance_count = d.reliance_count;
        }) in
      let (u4, e4, r4) =
        >>=-eq-ok
          (guard (bytes_eq (claim_id_from_signing_bytes c signing) d.claim_id) claim_id_mismatch) _
          r3 in
      let (sig, e5, r5) = >>=-eq-ok (map_err (decode_array 64 d.issuer_signature) malformed) _ r4 in
      let (u6, e6, r6) = >>=-eq-ok (guard (c.verify issuer_vk signing sig) bad_signature) _ r5 in
      let same : root ≡ body_root = cc r6 in
      (
        reliance_root,
        record {
          sig = sig;
          issuer_binds = bytes_eq→eq _ _ (
              guard-eq-ok (bytes_eq (did_from_key c issuer_vk) d.issuer_id) issuer_key_mismatch e1);
          body_root_decodes = map_err-eq-ok (decode_array 32 d.body_root) malformed e2 ∙ ap ok same;
          reliance_root_decodes = map_err-eq-ok (decode_array 32 d.reliance_root) malformed e3;
          sig_decodes = map_err-eq-ok (decode_array 64 d.issuer_signature) malformed e5;
          signing = signing;
          signing_same = cc same;
          claim_id_same = bytes_eq→eq _ _ (
              guard-eq-ok (bytes_eq (claim_id_from_signing_bytes c signing) d.claim_id)
                claim_id_mismatch e4);
          verifies = guard-eq-ok (c.verify issuer_vk signing sig) bad_signature e6;
        },
      )

  contains_all-All :
      (m : Map (ProvenField j)) (required : List Text)
      → contains_all m required ≡ true
      → All (λ key. (v : ProvenField j) × (get key m ≡ some v)) required
  unfolding contains_all
  contains_all-All m [] h = tt
  contains_all-All m (key ∷ required) h =
      let (here, rest) = &&-eq-true (contains_key key m) _ h in
      (
        elim (Option-cases (get key m)) [
          | inl absent ↦ absurd (false≢true (rw (absent, contains_key) at here))
          | inr found ↦ found
        ],
        contains_all-All m required rest,
      )

  -- What verification of a disclosure, with required keys, establishes.
  pub record IsVerified (d : DisclosedClaim j) (issuer_vk : c.VerifyingKey) (required : List Text)
      (v : VerifiedDisclosure j) : Type 0 where
    pub body_root : Bytes
    pub reliance_root : Bytes
    pub expected : List Text
    pub signed : IsSigned d issuer_vk body_root reliance_root
    pub schema : field_keys_for_category d.category ≡ some expected
    pub every_field_committed : d.field_count ≡ length expected
    pub fields_proven : All (IsProven c j d.field_count expected body_root) d.fields
    pub values_revealed :
        (key : Text) (x : ProvenField j) → get key v.fields ≡ some x → IsRevealed c j d.fields key x
    pub required_proven : All (λ key. (x : ProvenField j) × (get key v.fields ≡ some x)) required
    pub reliance_exact : IsExactReliance c j d reliance_root v.reliance
    pub same_claim :
        (v.claim_id ≡ d.claim_id)
        × (v.subject_id ≡ d.subject_id)
        × (v.issuer_id ≡ d.issuer_id)
        × (v.validity ≡ d.validity)
        × (v.category ≡ d.category)

  IsVerified_lem :
      (d : DisclosedClaim j) (issuer_vk : c.VerifyingKey) (required : List Text)
      (body_root reliance_root : Bytes) (expected : List Text) (proven : Map (ProvenField j))
      (ids : List ClaimId)
      → IsSigned d issuer_vk body_root reliance_root
      → field_keys_for_category d.category ≡ some expected
      → d.field_count ≡ length expected
      → All (IsProven c j d.field_count expected body_root) d.fields
      → ((key : Text) (x : ProvenField j)
          → get key proven ≡ some x
          → IsRevealed c j d.fields key x ⊎ (get key [] ≡ some x))
      → contains_all proven required ≡ true
      → IsExactReliance c j d reliance_root ids
      → IsVerified d issuer_vk required (record {
        claim_id = d.claim_id;
        subject_id = d.subject_id;
        issuer_id = d.issuer_id;
        validity = d.validity;
        category = d.category;
        fields = proven;
        reliance = ids;
      })
  unfolding get
  IsVerified_lem d issuer_vk required body_root reliance_root expected proven ids signed schema
        counted facts origin all_there exact =
      record {
        body_root = body_root;
        reliance_root = reliance_root;
        expected = expected;
        signed = signed;
        schema = schema;
        every_field_committed = counted;
        fields_proven = facts;
        values_revealed =
            λ key x h. elim (origin key x h) [ inl shown ↦ shown | inr none_there ↦ cc none_there ];
        required_proven = contains_all-All proven required all_there;
        reliance_exact = exact;
        same_claim = (refl, refl, refl, refl, refl);
      }

  -- A disclosure that verifies under an issuer's key, with keys that are required: the key is the
  -- issuer's and its signature covers the roots and counts, the body has the fields of its
  -- category's schema, every revealed field is the schema's at its index and proven against the body
  -- root, every value of the result was revealed, every required key has a value, and the reliance
  -- is exact: as many leaves as committed, each proven, no index twice, its targets the result's.
  pub verify_with_required-IsVerified :
      (d : DisclosedClaim j) (issuer_vk : c.VerifyingKey) (required : List Text)
      {v : VerifiedDisclosure j}
      → verify_with_required c j d issuer_vk required ≡ ok v
      → IsVerified d issuer_vk required v
  unfolding verify_with_required
  verify_with_required-IsVerified d issuer_vk required {v} e =
      let (body_root, e1, r1) = >>=-eq-ok (check_signature c j d issuer_vk) _ e in
      let (expected, e2, r2) =
        >>=-eq-ok (ok_or (field_keys_for_category d.category) malformed) _ r1 in
      let (u3, e3, r3) = >>=-eq-ok (guard (d.field_count == length expected) body_tampered) _ r2 in
      let (proven, e4, r4) =
        >>=-eq-ok (prove_fields c j d.field_count expected body_root d.fields []) _ r3 in
      let (u5, e5, r5) = >>=-eq-ok (guard (contains_all proven required) missing_field) _ r4 in
      let (ids, e6, r6) = >>=-eq-ok (verify_reliance c j d) _ r5 in
      let (reliance_root, signed) = check_signature-IsSigned d issuer_vk e1 in
      let (facts, origin) = prove_fields_lem c j d.field_count expected body_root d.fields [] e4 in
      let shown =
        IsVerified_lem d issuer_vk required body_root reliance_root expected proven ids signed
          (ok_or-eq-ok (field_keys_for_category d.category) malformed e2)
          ((==_iff d.field_count (length expected)).0
            (guard-eq-ok (d.field_count == length expected) body_tampered e3))
          facts origin (guard-eq-ok (contains_all proven required) missing_field e5)
          (verify_reliance-IsExactReliance c j d reliance_root signed.reliance_root_decodes e6) in
      subst (IsVerified d issuer_vk required) (ok-injective r6) shown
