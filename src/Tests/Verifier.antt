-- ===== src/Tests/Verifier.antt =====
-- The verifier's theorems on an accepted presentation of one claim and one predicate.
use aion_trust.Prelude.{
  ◌≡◌, refl, true, false, not, [], ◌∷◌, map, arith, take, replicate, All, Text, codes, bytes_eq,
  Result, ok,
}
use aion_trust.Prelude.Int.{leb_ℤ→le, pos}
use aion_trust.Prelude.Map.{less}
use aion_trust.Crypto.Toy.{toy, toy_laws, mix, key_of, key_byte}
use aion_trust.Json.Toy.{toy_json}
use aion_trust.Encoding.Hex.{TrustError, from_hex}
use aion_trust.Claims.Report.{Check, VerificationReport, is_reliance_resolvable}
use aion_trust.Claims.PresentationVerifier.{
  verify_presentation, verify_presentation_with_predicates,
}
use aion_trust.Claims.PresentationVerifier.Answers.{Satisfies}
use aion_trust.Claims.PresentationVerifier.Verdict.{
  IsAccepted, accepted_sound, predicates_narrow, accepted_complete,
}
use aion_trust.Claims.PresentationVerifier.Resolved.{resolved}
use aion_trust.Claims.PresentationVerifier.Amber.{amber_sound}
use aion_trust.Claims.PresentationVerifier.Unresolved.{RestsOnUnresolved}
use aion_trust.Claims.Anchor.{TrustAnchor, unresolvable}
use aion_trust.Claims.Nonce.{
  InMemoryNonceStore, seen, remember, in_memory, evict_expired, verify_presentation_with_store,
}
use aion_trust.Claims.Nonce.Replay.{no_replay, respelled_nonce_accepted, here, evicted}
use aion_trust.Identity.{identity_did}
use aion_trust.Claims.Presentation.{build_presentation}
use aion_trust.Claims.PresentationVerifier.Honest.{verify-build_presentation}
use aion_trust.Tests.{
  subject, nonce, disclosure, presentation, audience, now, anchor, ask, report, replayed_report,
  report_test,
}

accepted_sound_example :
    IsAccepted toy toy_json presentation audience now anchor false
    × All (Satisfies toy toy_json presentation now anchor) (ask ∷ [])
accepted_sound_example =
    accepted_sound toy toy_json presentation audience now anchor false (ask ∷ []) {r = report}
      report_test refl

accepted_complete_example :
    (r : VerificationReport) × (verify_presentation toy toy_json presentation audience now anchor
        false
      ≡ ok r)
    × (r.accepted ≡ true)
accepted_complete_example =
    accepted_complete toy toy_json presentation audience now anchor false
      (accepted_sound toy toy_json presentation audience now anchor false (ask ∷ []) {r = report}
        report_test refl).0

predicates_narrow_example :
    (r : VerificationReport) × (verify_presentation toy toy_json presentation audience now anchor
        false
      ≡ ok r)
    × (r.accepted ≡ true)
predicates_narrow_example =
    predicates_narrow toy toy_json presentation audience now anchor false (ask ∷ []) {r = report}
      report_test refl

-- The anchor of the tests, but one that can resolve no relied-upon claim.
unfoldable unsure : TrustAnchor toy
unfolding anchor
unsure = record anchor { status = λ dep now. unresolvable }

-- Its report: the last check but the predicate's fails.
abbrev amber_report : VerificationReport
amber_report = record {
  accepted = false;
  amber = true;
  checks =
      map (λ (k : Check). record k { passed = not (is_reliance_resolvable k.name) })
        (take 15 report.checks);
}

amber_report_test :
    verify_presentation_with_predicates toy toy_json presentation audience now unsure false []
    ≡ ok amber_report
unfolding verify_presentation_with_predicates unsure anchor bytes_eq less replicate mix key_of
    key_byte
amber_report_test = refl

amber_sound_example :
    (amber_report.accepted ≡ false)
    × IsAccepted toy toy_json presentation audience now (resolved toy toy_json unsure) false
    × All (Satisfies toy toy_json presentation now unsure) []
    × RestsOnUnresolved toy toy_json presentation now unsure
amber_sound_example =
    amber_sound toy toy_json presentation audience now unsure false [] {r = amber_report}
      amber_report_test refl

-- A first run from an empty store.
unfoldable first_run : Result TrustError VerificationReport × InMemoryNonceStore
unfolding verify_presentation_with_store anchor
first_run =
    verify_presentation_with_store toy toy_json in_memory presentation audience now anchor []
      (ask ∷ [])

unfoldable evicted_store : InMemoryNonceStore
unfolding first_run evict_expired
evicted_store = evict_expired first_run.1 (pos 35)

first_run_test : first_run.0 ≡ ok report
unfolding first_run seen bytes_eq less replicate mix key_of key_byte
first_run_test = refl

second_run_test :
    (verify_presentation_with_store toy toy_json in_memory presentation audience
      (pos 36)
      anchor
      evicted_store
      (ask ∷ [])).0
    ≡ ok replayed_report
unfolding verify_presentation_with_store evicted_store anchor seen remember bytes_eq less replicate
    mix key_of key_byte
second_run_test = refl

no_replay_example : replayed_report.accepted ≡ false
unfolding first_run evicted_store
no_replay_example =
    no_replay toy toy_json presentation audience now anchor [] (ask ∷ []) report first_run_test refl
      (evicted (pos 35) (leb_ℤ→le now (pos 35) refl) here) (pos 36) anchor (ask ∷ [])
      replayed_report (leb_ℤ→le (pos 35) (pos 36) refl) second_run_test

-- The nonce of the presentation in capitals.
abbrev spelling : Text
spelling = codes "ABABABABABABABABABABABABABABABAB"

same_nonce : from_hex spelling ≡ from_hex presentation.nonce
unfolding from_hex
same_nonce = refl

unseen_spelling : seen first_run.1 audience spelling ≡ false
unfolding first_run seen remember bytes_eq less replicate mix key_of key_byte
unseen_spelling = refl

respelled_nonce_accepted_example :
    (verify_presentation_with_store toy toy_json in_memory
      (record presentation { nonce = spelling })
      audience
      now
      anchor
      first_run.1
      (ask ∷ [])).0
    ≡ ok report
unfolding first_run
respelled_nonce_accepted_example =
    respelled_nonce_accepted toy toy_json presentation audience now anchor [] (ask ∷ []) report
      spelling first_run_test refl same_nonce unseen_spelling

verify-build_presentation_example :
    (r : VerificationReport) × (verify_presentation toy toy_json
        (build_presentation toy toy_json subject audience
          (codes "hiring")
          nonce
          (pos 20)
          (pos 40)
          (disclosure ∷ []))
        audience
        now
        anchor
        false
      ≡ ok r)
    × (r.accepted ≡ true)
unfolding identity_did replicate mix key_byte
verify-build_presentation_example =
    verify-build_presentation toy toy_laws toy_json subject audience (codes "hiring") nonce (pos 20)
      (pos 40) now (disclosure ∷ []) anchor (ground arith) (omega arith)
      (leb_ℤ→le (pos 20) now refl) (leb_ℤ→le now (pos 40) refl) (omega arith)
      (accepted_sound toy toy_json presentation audience now anchor false (ask ∷ []) {r = report}
        report_test refl).0.claims_trusted
