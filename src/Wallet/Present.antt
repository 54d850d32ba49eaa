-- ===== src/Wallet/Present.antt =====
-- About `Wallet::present` of crates/aion-trust-wallet/src/lib.rs before the verifier of
-- crates/aion-trust-claims/src/presentation.rs.
use aion_trust.Prelude.{
  suc, ◌≤◌, ◌≡◌, refl, ap, subst, ◌∙◌, ◌↔◌, inl, inr, true, false, some, List, [], ◌∷◌, ◌++◌, map,
  arith, if◌then◌else◌, Bool-cases, length, length-append, All, All-append, some-injective, Bytes,
  Text, bytes_eq, contains, guard, >>=-eq-ok, guard-eq-ok, none≢some, err≢ok, >>=-ok, ok,
}
use aion_trust.Prelude.Int.{ℤ, ◌≤ℤ◌, ◌≤ℤ◌}
use aion_trust.Crypto.{Crypto, CryptoLaws, IsArray}
use aion_trust.Json.{Json}
use aion_trust.Identity.{Did, ClaimId, Timestamp, plus_seconds}
use aion_trust.Claims.Bodies.{category, field_keys_for_category}
use aion_trust.Claims.Reliance.{ReliesOn}
use aion_trust.Claims.Claim.{Claim, VerifiedClaim, Validity, active_at}
use aion_trust.Claims.Claim as Native
use aion_trust.Claims.Anchor.{TrustAnchor, live}
use aion_trust.Claims.Report.{VerificationReport}
use aion_trust.Claims.Disclosure.{FieldSelector, all, only, DisclosedClaim, disclose}
use aion_trust.Claims.DisclosureVerifier.RoundTrip.{disclose-verify}
use aion_trust.Claims.DisclosureVerifier.Total.{IsAnswerable, disclose-total}
use aion_trust.Claims.Presentation.{Presentation}
use aion_trust.Claims.PresentationVerifier.{min_nonce_len, verify_presentation}
use aion_trust.Claims.PresentationVerifier.Trusted.{IsTrusted}
use aion_trust.Claims.PresentationVerifier.Honest.{verify-build_presentation}
use aion_trust.Wallet.{
  find_claim, ClaimSelection, unknown_field, validate_keys, validate_selector, fresh_nonce,
  is_empty, Wallet, did, claim, disclose_all, disclose_selected, present,
}

module _ (j : Json) where
  validate_keys-contains :
      (id : ClaimId) (known keys : List Text)
      → validate_keys j id known keys ≡ ok tt
      → All (λ key. contains known key ≡ true) keys
  unfolding validate_keys
  validate_keys-contains id known [] e = tt
  validate_keys-contains id known (key ∷ keys) e =
      let (u, e1, r1) = >>=-eq-ok (guard (contains known key) (unknown_field id key)) _ e in
      (
        guard-eq-ok (contains known key) (unknown_field id key) e1,
        validate_keys-contains id known keys r1,
      )

  validate_keys-ok :
      (id : ClaimId) (known keys : List Text)
      → All (λ key. contains known key ≡ true) keys
      → validate_keys j id known keys ≡ ok tt
  unfolding validate_keys
  validate_keys-ok id known [] h = refl
  validate_keys-ok id known (key ∷ keys) (h, hs) = rw h (validate_keys-ok id known keys hs)

  -- A selector is valid exactly when it asks for all fields, or for some fields that all are fields of
  -- the claim's category.
  pub validate_selector_iff :
      (held : Claim) (selector : FieldSelector) (known : List Text)
      → field_keys_for_category (category held.body) ≡ some known
      → (validate_selector j held selector ≡ ok tt) ↔ IsAnswerable known selector
  unfolding validate_selector
  validate_selector_iff held all known knows = (λ e. tt, λ h. refl)
  validate_selector_iff held (only []) known knows =
      (λ e. absurd (err≢ok e), λ (some_key, h). absurd (omega (arith, some_key)))
  validate_selector_iff held (only (key ∷ keys)) known knows = (
    λ e. (omega arith, validate_keys-contains held.claim_id known (key ∷ keys) (rw knows at e)),
    λ (some_key, h). rw knows (validate_keys-ok held.claim_id known (key ∷ keys) h),
  )

module _ (c : Crypto) (laws : CryptoLaws c) (j : Json) where
  -- A claim that the subject holds and a verifier trusts: issued to the subject by an issuer whose
  -- key the anchor knows, within its validity, of an accredited issuer where that is required, and
  -- neither it nor a claim that it relies on is revoked.
  pub record IsHeld (anchor : TrustAnchor c) (now : Timestamp) (subject : Did) (held : Claim)
      : Type 0 where
    pub issuer_vk : c.VerifyingKey
    pub verified : VerifiedClaim c j
    pub authentic : Native.verify c j held issuer_vk ≡ ok verified
    pub known : List Text
    pub knows : field_keys_for_category (category held.body) ≡ some known
    pub recognized : anchor.issuer_key held.issuer_id ≡ some issuer_vk
    pub issued_to : held.subject_id ≡ subject
    pub within : active_at held.validity now ≡ true
    pub accredited :
        (anchor.standing held.issuer_id (category held.body) now).accreditation_required ≡ true
        → (anchor.standing held.issuer_id (category held.body) now).accredited ≡ true
    pub not_revoked : anchor.is_revoked held.claim_id now ≡ false
    pub deps_live : All (λ (r : ReliesOn). anchor.status r.from_claim_id now ≡ live) held.reliance

  module _ (anchor : TrustAnchor c) (now : Timestamp) (subject : Did) where
    all_live :
        (on : List ReliesOn)
        → All (λ (r : ReliesOn). anchor.status r.from_claim_id now ≡ live) on
        → All (λ dep. anchor.status dep now ≡ live) (map (λ (r : ReliesOn). r.from_claim_id) on)
    all_live [] h = tt
    all_live (r ∷ on) (h, hs) = (h, all_live on hs)

    -- What is disclosed of such a claim is trusted.
    pub disclose-IsTrusted :
        (held : Claim) (selector : FieldSelector) {d : DisclosedClaim j}
        → IsHeld anchor now subject held
        → disclose c j held selector ≡ ok d
        → IsTrusted c j anchor now subject d
    disclose-IsTrusted held selector {d} h e =
        let (w, verifies, shown) =
          disclose-verify c laws j held h.issuer_vk selector h.authentic e in
        record {
          issuer_vk = h.issuer_vk;
          verified = w;
          subject = shown.subject_same ∙ h.issued_to;
          recognized = ap anchor.issuer_key shown.issuer_same ∙ h.recognized;
          authentic = verifies;
          within = ap (λ v. active_at v now) shown.validity_same ∙ h.within;
          accredited = rw (shown.issuer_same, shown.category_same) h.accredited;
          not_revoked = ap (λ id. anchor.is_revoked id now) shown.claim_id_same ∙ h.not_revoked;
          deps_live = rw shown.reliance_same (all_live held.reliance h.deps_live);
        }

    -- Every held claim of the wallet, disclosed in full.
    pub disclose_all-IsTrusted :
        (claims : List Claim)
        → All (IsHeld anchor now subject) claims
        → (ds : List (DisclosedClaim j)) × (disclose_all c j claims ≡ ok ds)
          × (length ds ≡ length claims)
          × All (IsTrusted c j anchor now subject) ds
    unfolding disclose_all
    disclose_all-IsTrusted [] h = ([], refl, refl, tt)
    disclose_all-IsTrusted (held ∷ claims) (h, hs) =
        let (d, discloses) =
          disclose-total c laws j held h.issuer_vk all h.known h.authentic h.knows tt in
        let (ds, rest, counted, trusted) = disclose_all-IsTrusted claims hs in
        (
          d ∷ ds,
          rw (discloses, rest) refl,
          ap suc counted,
          (disclose-IsTrusted held all h discloses, trusted),
        )

    All-find_claim :
        (id : Text) (claims : List Claim) {held : Claim}
        → All (IsHeld anchor now subject) claims
        → find_claim j id claims ≡ some held
        → IsHeld anchor now subject held
    unfolding find_claim
    All-find_claim id [] h e = absurd (none≢some e)
    All-find_claim id (x ∷ claims) (h, hs) e = elim (Bool-cases (bytes_eq x.claim_id id)) [
      | inl same_id ↦ subst (IsHeld anchor now subject) (some-injective (rw same_id at e)) h
      | inr other_id ↦ All-find_claim id claims hs (rw other_id at e)
    ]

    -- The selection names a held claim, and fields of it.
    abbrev pub IsSelectable : Wallet c j → ClaimSelection → Type 0
    IsSelectable w sel =
        (held : Claim) × (claim c j w sel.claim_id ≡ some held)
        × (validate_selector j held sel.fields ≡ ok tt)

    pub disclose_selected-IsTrusted :
        (w : Wallet c j) (selections : List ClaimSelection)
        → All (IsHeld anchor now subject) w.claims
        → All (IsSelectable w) selections
        → (ds : List (DisclosedClaim j)) × (disclose_selected c j w selections ≡ ok ds)
          × (length ds ≡ length selections)
          × All (IsTrusted c j anchor now subject) ds
    unfolding disclose_selected claim
    disclose_selected-IsTrusted w [] h s = ([], refl, refl, tt)
    disclose_selected-IsTrusted w (sel ∷ selections) h ((held, found, valid), s) =
        let held_well = All-find_claim sel.claim_id w.claims h found in
        let answerable =
          (validate_selector_iff j held sel.fields held_well.known held_well.knows).0 valid in
        let (d, discloses) =
          disclose-total c laws j held held_well.issuer_vk sel.fields held_well.known
            held_well.authentic held_well.knows answerable in
        let (ds, rest, counted, trusted) = disclose_selected-IsTrusted w selections h s in
        (
          d ∷ ds,
          rw (found, valid, discloses, rest) refl,
          ap suc counted,
          (disclose-IsTrusted held sel.fields held_well discloses, trusted),
        )

  -- The claims that `present` discloses, each of them trusted, and at least one.
  present-disclosed :
      (w : Wallet c j) (selections : List ClaimSelection) (anchor : TrustAnchor c) (now : Timestamp)
      → 1 ≤ length w.claims
      → All (IsHeld anchor now (did c j w)) w.claims
      → All (IsSelectable anchor now (did c j w) w) selections
      → (ds : List (DisclosedClaim j)) × ((if is_empty selections
            then disclose_all c j w.claims
            else disclose_selected c j w selections)
          ≡ ok ds)
        × (1 ≤ length ds)
        × All (IsTrusted c j anchor now (did c j w)) ds
  unfolding is_empty
  present-disclosed w [] anchor now some_claim h s =
      let (ds, discloses, counted, trusted) =
        disclose_all-IsTrusted anchor now (did c j w) w.claims h in
      (ds, discloses, omega (arith, counted, some_claim), trusted)
  present-disclosed w (sel ∷ selections) anchor now some_claim h s =
      let (ds, discloses, counted, trusted) =
        disclose_selected-IsTrusted anchor now (did c j w) w (sel ∷ selections) h s in
      (ds, discloses, omega (arith, counted), trusted)

  -- For a wallet with a claim, all of whose claims are the subject's own and trusted by the verifier,
  -- and for selections that name fields of held claims, `present` succeeds, and the verifier that the
  -- presentation is made for accepts it at any time until it expires.
  pub present-accepted :
      (w : Wallet c j) (audience : Did) (purpose : Text) (selections : List ClaimSelection)
      (ttl_seconds : ℤ) (now later : Timestamp) (n1 n2 : Bytes) (anchor : TrustAnchor c)
      → IsArray 12 n1
      → IsArray 12 n2
      → now ≤ℤ later
      → later ≤ℤ plus_seconds now ttl_seconds
      → 1 ≤ length w.claims
      → All (IsHeld anchor later (did c j w)) w.claims
      → All (IsSelectable anchor later (did c j w) w) selections
      → (p : Presentation c j) × (present c j w audience purpose selections ttl_seconds now (n1, n2)
          ≡ ok p)
        × ((r : VerificationReport) × (verify_presentation c j p audience later anchor false ≡ ok r)
            × (r.accepted ≡ true))
  unfolding present fresh_nonce did
  present-accepted w audience purpose selections ttl_seconds now later n1 n2 anchor a1 a2 started
        unexpired some_claim h s =
      let (ds, discloses, some_disclosed, trusted) =
        present-disclosed w selections anchor later some_claim h s in
      let long : min_nonce_len ≤ length (n1 ++ n2) =
        omega (arith, length-append n1 n2, a1.len, a2.len) in
      (
        _,
        >>=-ok
            (if is_empty selections
              then disclose_all c j w.claims
              else disclose_selected c j w selections)
            _ discloses,
        verify-build_presentation c laws j w.identity audience purpose (n1 ++ n2) now
            (plus_seconds now ttl_seconds) later ds anchor (All-append _ n1 n2 a1.bytes a2.bytes)
            long started unexpired some_disclosed trusted,
      )
