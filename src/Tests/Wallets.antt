-- ===== src/Tests/Wallets.antt =====
-- The theorems on disclosures from held claims and on the wallet, on a wallet with one claim.
use aion_trust.Prelude.{
  ℕ, ◌≤◌, ◌<◌, ◌≡◌, refl, ◌↔◌, true, false, false≢true, some, List, [], ◌∷◌, arith, replicate, All,
  Text, codes, bytes_eq, contains, ok,
}
use aion_trust.Prelude.Int.{◌≤ℤ◌, ◌≤ℤ◌, pos}
use aion_trust.Prelude.Map.{less}
use aion_trust.Crypto.{IsArray}
use aion_trust.Crypto.Toy.{toy, toy_laws, mix, key_byte, replicate-IsArray}
use aion_trust.Json.Toy.{toy_json}
use aion_trust.Identity.{identity_did, plus_seconds}
use aion_trust.Claims.Bodies.{field_keys_for_category, category}
use aion_trust.Claims.Claim.{Claim, VerifiedClaim}
use aion_trust.Claims.Claim as Native
use aion_trust.Claims.Claim.Issued.{verify-issue_with_reliance}
use aion_trust.Claims.Anchor.{default_status}
use aion_trust.Claims.Report.{VerificationReport}
use aion_trust.Claims.Disclosure.{all, only, DisclosedClaim, disclose, range_from}
use aion_trust.Claims.DisclosureVerifier.{VerifiedDisclosure}
use aion_trust.Claims.DisclosureVerifier as Disclosed
use aion_trust.Claims.DisclosureVerifier.RoundTrip.{IsShownAs, disclose-verify}
use aion_trust.Claims.DisclosureVerifier.Selected.{
  selected_keys, field_keys, disclose-selected_keys,
}
use aion_trust.Claims.DisclosureVerifier.Total.{disclose-total}
use aion_trust.Claims.Presentation.{Presentation}
use aion_trust.Claims.PresentationVerifier.{verify_presentation}
use aion_trust.Wallet.{
  ClaimSelection, Wallet, did, claim, find_claim, find_satisfying, satisfies, value_satisfies,
  validate_selector, present, satisfy,
}
use aion_trust.Wallet.Present.{IsHeld, IsSelectable, validate_selector_iff, present-accepted}
use aion_trust.Wallet.Satisfy.{AreAnswers, satisfy-AreAnswers, satisfy-accepted}
use aion_trust.Tests as Run
use aion_trust.Tests.{
  issuer, subject, subject_did, draws, body, validity, upstream, issued_test, disclosure, audience,
  ask, anchor,
}

abbrev held : Claim
held = Run.claim

abbrev level_known : List Text
level_known = codes "level" ∷ codes "skill" ∷ []

known_test : field_keys_for_category (category body) ≡ some level_known
unfolding field_keys_for_category category bytes_eq
known_test = refl

held_test : Native.verify toy toy_json held issuer ≡ ok (record { claim = held })
unfolding subject_did Native.issue_with_reliance Run.issued
held_test =
    verify-issue_with_reliance toy toy_json toy_laws draws issuer subject_did validity body upstream
      {claim = held} issued_test

disclosed_test : disclose toy toy_json held all ≡ ok disclosure
unfolding disclose range_from bytes_eq less replicate mix key_byte
disclosed_test = refl

disclose-verify_example :
    (w : VerifiedDisclosure toy_json) × (Disclosed.verify toy toy_json disclosure issuer ≡ ok w)
    × IsShownAs toy toy_laws toy_json held disclosure w
disclose-verify_example =
    disclose-verify toy toy_laws toy_json held issuer all {v = record { claim = held }}
      {d = disclosure} held_test disclosed_test

disclose-selected_keys_example :
    selected_keys all body ≡ some (field_keys toy toy_laws toy_json disclosure.fields)
disclose-selected_keys_example =
    disclose-selected_keys toy toy_laws toy_json held all {d = disclosure} disclosed_test

disclose-total_example :
    (d : DisclosedClaim toy_json) × (disclose toy toy_json held (only (codes "level" ∷ [])) ≡ ok d)
unfolding contains bytes_eq
disclose-total_example =
    disclose-total toy toy_laws toy_json held issuer (only (codes "level" ∷ [])) level_known
      {v = record { claim = held }} held_test known_test (omega arith, (refl, tt))

abbrev wallet : Wallet toy toy_json
wallet = record { identity = subject; claims = held ∷ [] }

abbrev selection : List ClaimSelection
selection = record { claim_id = held.claim_id; fields = only (codes "level" ∷ []) } ∷ []

held_IsHeld : IsHeld toy toy_laws toy_json anchor (pos 30) (did toy toy_json wallet) held
unfolding anchor did identity_did default_status bytes_eq less replicate mix key_byte
    Native.active_at
held_IsHeld = record {
  issuer_vk = issuer;
  verified = record { claim = held };
  authentic = held_test;
  known = level_known;
  knows = known_test;
  recognized = refl;
  issued_to = refl;
  within = refl;
  accredited = λ required. absurd (false≢true required);
  not_revoked = refl;
  deps_live = (refl, tt);
}

twelve : (a : ℕ) → a < 256 → IsArray 12 (replicate 12 a)
twelve a h = replicate-IsArray 12 a h

validate_selector_iff_example :
    (validate_selector toy_json held (only (codes "salary" ∷ [])) ≡ ok tt)
    ↔ ((1 ≤ 1) × All (λ key. contains level_known key ≡ true) (codes "salary" ∷ []))
validate_selector_iff_example =
    validate_selector_iff toy_json held (only (codes "salary" ∷ [])) level_known known_test

selection-IsSelectable :
    IsSelectable toy toy_laws toy_json anchor
      (pos 30)
      (did toy toy_json wallet)
      wallet
      (record { claim_id = held.claim_id; fields = only (codes "level" ∷ []) })
unfolding claim find_claim validate_selector bytes_eq
selection-IsSelectable = (held, refl, refl)

unexpired : pos 30 ≤ℤ plus_seconds (pos 20) (pos 20)
unfolding plus_seconds
unexpired = omega arith

present-accepted_example :
    (p : Presentation toy toy_json) × (present toy toy_json wallet audience
        (codes "hiring")
        selection
        (pos 20)
        (pos 20)
        (replicate 12 171, replicate 12 205)
      ≡ ok p)
    × ((r : VerificationReport) × (verify_presentation toy toy_json p audience (pos 30) anchor false
          ≡ ok r)
        × (r.accepted ≡ true))
present-accepted_example =
    present-accepted toy toy_laws toy_json wallet audience (codes "hiring") selection (pos 20)
      (pos 20) (pos 30) (replicate 12 171) (replicate 12 205) anchor (twelve 171 (omega arith))
      (twelve 205 (omega arith)) (omega arith) unexpired (omega arith) (held_IsHeld, tt)
      (selection-IsSelectable, tt)

found_test : find_satisfying toy toy_json ask (held ∷ []) ≡ some held
unfolding find_satisfying satisfies value_satisfies bytes_eq less
found_test = refl

satisfy-accepted_example :
    (p : Presentation toy toy_json) × (satisfy toy toy_json wallet audience
        (codes "hiring")
        (ask ∷ [])
        (pos 20)
        (pos 20)
        (replicate 12 171, replicate 12 205)
      ≡ ok p)
    × ((r : VerificationReport) × (verify_presentation toy toy_json p audience (pos 30) anchor false
          ≡ ok r)
        × (r.accepted ≡ true))
unfolding contains bytes_eq
satisfy-accepted_example =
    satisfy-accepted toy toy_laws toy_json wallet audience (codes "hiring") (ask ∷ []) (pos 20)
      (pos 20) (pos 30) (replicate 12 171) (replicate 12 205) anchor (twelve 171 (omega arith))
      (twelve 205 (omega arith)) (omega arith) unexpired (omega arith) (held_IsHeld, tt)
      ((held, found_test, (level_known, known_test, refl)), tt)

satisfy-AreAnswers_example :
    AreAnswers toy toy_laws toy_json wallet (ask ∷ []) satisfy-accepted_example.0.claims
satisfy-AreAnswers_example =
    satisfy-AreAnswers toy toy_laws toy_json wallet audience (codes "hiring") (ask ∷ []) (pos 20)
      (pos 20) (replicate 12 171) (replicate 12 205) {p = satisfy-accepted_example.0}
      satisfy-accepted_example.1
