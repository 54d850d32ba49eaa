-- ===== src/Claims/PresentationVerifier/Unresolved.antt =====
-- About the claims of a presentation that rest on claims which the anchor cannot resolve
-- (crates/aion-trust-claims/src/presentation.rs).
use aion_trust.Prelude.{
  ℕ, zero, suc, ◌≡◌, refl, inl, inr, true, false, some, List, [], ◌∷◌, arith, Bool-cases, get_elem?,
  All, all, ok,
}
use aion_trust.Crypto.{Crypto}
use aion_trust.Json.{Json}
use aion_trust.Identity.{Did, ClaimId, Timestamp}
use aion_trust.Claims.Anchor.{TrustAnchor, ClaimStatus, live, revoked, unresolvable}
use aion_trust.Claims.Disclosure.{DisclosedClaim}
use aion_trust.Claims.DisclosureVerifier.{VerifiedDisclosure, verify}
use aion_trust.Claims.Presentation.{Presentation}
use aion_trust.Claims.PresentationVerifier.{unresolved_dep}
use aion_trust.Claims.PresentationVerifier.Trusted.{AllLive, IsTrusted, trusted, IsTrusted-trusted}
use aion_trust.Claims.PresentationVerifier.Resolved.{or_live, resolved}

module _ (c : Crypto) (j : Json) where
  -- A claim of the presentation, authentic under its issuer's key, that relies on a claim which the
  -- anchor cannot resolve.
  pub record RestsOnUnresolved (p : Presentation c j) (now : Timestamp) (anchor : TrustAnchor c)
      : Type 0 where
    pub index : ℕ
    pub claim : DisclosedClaim j
    pub listed : get_elem? p.claims index ≡ some claim
    pub issuer_vk : c.VerifyingKey
    pub verified : VerifiedDisclosure j
    pub recognized : anchor.issuer_key claim.issuer_id ≡ some issuer_vk
    pub authentic : verify c j claim issuer_vk ≡ ok verified
    pub position : ℕ
    pub dep : ClaimId
    pub relied_upon : get_elem? verified.reliance position ≡ some dep
    pub unresolved : anchor.status dep now ≡ unresolvable

  module _ (anchor : TrustAnchor c) (now : Timestamp) where
    unresolved_among :
        (deps : List ClaimId)
        → unresolved_dep c j anchor now deps ≡ true
        → (i : ℕ) × (dep : ClaimId) × (get_elem? deps i ≡ some dep)
          × (anchor.status dep now ≡ unresolvable)
    unfolding unresolved_dep
    unresolved_among [] h = cc
    unresolved_among (dep ∷ deps) h = elim (Bool-cases (unresolved_dep c j anchor now deps)) [
      | inl later ↦ let (i, d, at, e) = unresolved_among deps later in (suc i, d, at, e)
      | inr nowhere ↦ (zero, dep, refl, ground arith)
    ]

    live_again :
        (s : ClaimStatus)
        → or_live c j s ≡ live
        → elim s [ unresolvable ↦ true | _ ↦ false ] ≡ false
        → s ≡ live
    live_again live e h = refl
    live_again revoked e h = e
    live_again unresolvable e h = cc

    resolved-AllLive :
        (deps : List ClaimId)
        → AllLive c j (resolved c j anchor) now deps
        → unresolved_dep c j anchor now deps ≡ false
        → AllLive c j anchor now deps
    unfolding unresolved_dep
    resolved-AllLive [] h e = tt
    resolved-AllLive (dep ∷ deps) (h, hs) e = (
      live_again (anchor.status dep now) h (ground arith),
      resolved-AllLive deps hs (ground arith),
    )

    trusted_again :
        (presenter : Did) (claim : DisclosedClaim j)
        (t : IsTrusted c j (resolved c j anchor) now presenter claim)
        → unresolved_dep c j anchor now t.verified.reliance ≡ false
        → trusted c j anchor now presenter claim ≡ true
    trusted_again presenter claim t e = IsTrusted-trusted c j anchor now presenter claim (record {
      issuer_vk = t.issuer_vk;
      verified = t.verified;
      subject = t.subject;
      recognized = t.recognized;
      authentic = t.authentic;
      within = t.within;
      accredited = t.accredited;
      not_revoked = t.not_revoked;
      deps_live = resolved-AllLive t.verified.reliance t.deps_live e;
    })

    some_untrusted :
        (presenter : Did) (claims : List (DisclosedClaim j))
        → All (IsTrusted c j (resolved c j anchor) now presenter) claims
        → all (trusted c j anchor now presenter) claims ≡ false
        → (i : ℕ) × (claim : DisclosedClaim j) × (get_elem? claims i ≡ some claim)
          × (t : IsTrusted c j (resolved c j anchor) now presenter claim) × (unresolved_dep c j
                anchor now t.verified.reliance
              ≡ true)
    some_untrusted presenter [] ts h = cc
    some_untrusted presenter (claim ∷ claims) (t, ts) h =
        elim (Bool-cases (unresolved_dep c j anchor now t.verified.reliance)) [
          | inl found ↦ (zero, claim, refl, t, found)
          | inr resolved_here ↦
              let (i, cl, at, t', found) =
                some_untrusted presenter claims ts
                  (rw (trusted_again presenter claim t resolved_here) at h) in
              (suc i, cl, at, t', found)
        ]

  pub rests :
      (p : Presentation c j) (now : Timestamp) (anchor : TrustAnchor c)
      → All (IsTrusted c j (resolved c j anchor) now p.subject_id) p.claims
      → all (trusted c j anchor now p.subject_id) p.claims ≡ false
      → RestsOnUnresolved p now anchor
  rests p now anchor ts h =
      let (i, claim, at, t, found) = some_untrusted anchor now p.subject_id p.claims ts h in
      let (k, dep, there, e) = unresolved_among anchor now t.verified.reliance found in
      record {
        index = i;
        claim = claim;
        listed = at;
        issuer_vk = t.issuer_vk;
        verified = t.verified;
        recognized = t.recognized;
        authentic = t.authentic;
        position = k;
        dep = dep;
        relied_upon = there;
        unresolved = e;
      }
