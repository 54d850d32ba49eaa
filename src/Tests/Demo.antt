-- ===== src/Tests/Demo.antt =====
-- The registry of the web demonstration, over a run of requests from its seed, and the walkthrough.
use aion_trust.Prelude.{
  ◌+◌, ◌^◌, ◌≤◌, ◌<◌, ◌≡◌, refl, true, false, not, none, some, [], ◌∷◌, arith, get_elem?, replicate,
  filter, codes, bytes_eq, ok,
}
use aion_trust.Prelude.Int.{pos}
use aion_trust.Crypto.Toy.{toy, mix, key_of, key_byte}
use aion_trust.Json.Toy.{toy_json}
use aion_trust.Registry.{new_registry, register_issuer}
use aion_trust.Claims.Presentation.{Presentation}
use aion_trust.Claims.Disclosure.{DisclosedClaim}
use aion_trust.Claims.Report.{VerificationReport, claim_not_revoked}
use aion_trust.Prelude.Map.{get, less}
use aion_trust.Claims.Nonce.{seen}
use aion_trust.Web.Red.{revoked_rejected}
use aion_trust.Web.{AppState, advance_epoch, revoke_claim, run_verify}
use aion_trust.Web.Walkthrough.{walk_present}
use aion_trust.Web.Seed.{Fresh, seed, reset}
use aion_trust.Web.Requests.{
  Steps, start, next, advanced, revoked_claim, verified, was_reset, walk_presented,
}
use aion_trust.Web.Kept.{IsCurrent, seed-IsCurrent}
use aion_trust.Web.Revoked.{RunLeaves, Steps-revoked}
use aion_trust.Tests.{draws, issuer, subject, claim, presentation, disclosure, now, report}

abbrev fresh : Fresh toy toy_json
fresh = record {
  accreditor_keys = (true, false);
  employer_key = true;
  wallet_key = false;
  acme_key = true;
  screen_key = false;
  uni_key = true;
  acme_draws = draws;
  screen_draws = draws;
  uni_draws = draws;
  arrange = λ slots. slots;
}

unfoldable demo : AppState toy toy_json
unfolding seed
demo = seed toy toy_json fresh

-- The epoch advances, a claim is revoked, and the verifier runs.
unfoldable later : AppState toy toy_json
unfolding demo advance_epoch revoke_claim run_verify
later =
    (run_verify toy toy_json
      (revoke_claim toy toy_json (advance_epoch toy toy_json demo) (codes "claim")) [] (pos 30)).1

later-Steps : Steps toy toy_json demo 3 false later
unfolding later
later-Steps =
    next (next (next start advanced) (revoked_claim (codes "claim"))) (verified [] (pos 30))

-- The same, and a reset.
later-reset-Steps : Steps toy toy_json demo 4 true (reset toy toy_json fresh later)
later-reset-Steps = next later-Steps (was_reset fresh)

demo_epoch : demo.epoch ≡ 1
unfolding demo
demo_epoch = refl

demo-IsCurrent : IsCurrent toy toy_json demo
unfolding demo
demo-IsCurrent = (seed-IsCurrent toy toy_json fresh).0

Steps-revoked_example :
    (IsCurrent toy toy_json later
      × (later.epoch ≤ demo.epoch + 3)
      × RunLeaves toy toy_json demo 3 false later)
    × (IsCurrent toy toy_json (reset toy toy_json fresh later)
        × ((reset toy toy_json fresh later).epoch ≤ demo.epoch + 4)
        × RunLeaves toy toy_json demo 4 true (reset toy toy_json fresh later))
Steps-revoked_example = (
  Steps-revoked toy toy_json demo later 3 false later-Steps demo-IsCurrent
      (omega (arith, demo_epoch)),
  Steps-revoked toy toy_json demo (reset toy toy_json fresh later) 4 true later-reset-Steps
      demo-IsCurrent (omega (arith, demo_epoch)),
)

-- The subject holds the claim of the tests, and the verifier knows its issuer.
unfoldable ready : AppState toy toy_json
unfolding register_issuer new_registry
ready = record {
  epoch = 1;
  registry = register_issuer toy (toy.verifying_key issuer) (new_registry toy 1);
  issuers = [];
  employer = issuer;
  wallet = record { identity = subject; claims = claim ∷ [] };
  nonces = [];
  last_presentation = none;
  claim_labels = [];
}

-- The claim is revoked, and then presented for the walkthrough.
unfoldable red : AppState toy toy_json
unfolding ready revoke_claim walk_present
red =
    walk_present toy toy_json (revoke_claim toy toy_json ready claim.claim_id) claim.claim_id
      (pos 20) (replicate 12 1, replicate 12 2)

unfoldable pending : Presentation toy toy_json
unfolding red
pending = elim red.last_presentation [ none ↦ presentation | some p ↦ p ]

unfoldable shown : DisclosedClaim toy_json
unfolding pending
shown = elim pending.claims [ [] ↦ disclosure | claim ∷ claims ↦ claim ]

unfoldable red_report : VerificationReport
unfolding red run_verify
red_report = elim (run_verify toy toy_json red [] now).0 [ some (ok r) ↦ r | _ ↦ report ]

pending_test : red.last_presentation ≡ some pending
unfolding pending less bytes_eq replicate mix key_of key_byte
pending_test = refl

-- The revocation is all that is wrong with it.
red_report_test :
    filter (λ k. not k.passed) red_report.checks
    ≡ record { name = claim_not_revoked; passed = false } ∷ []
unfolding red_report seen less bytes_eq replicate mix key_of key_byte
red_report_test = refl

red-Steps : Steps toy toy_json (revoke_claim toy toy_json ready claim.claim_id) 1 false red
unfolding red
red-Steps = next start (walk_presented claim.claim_id (pos 20) (replicate 12 1, replicate 12 2))

ready-IsCurrent : IsCurrent toy toy_json ready
unfolding ready get
ready-IsCurrent = record { same = refl; in_force = λ id e h. cc }

ready_epoch : ready.epoch + 2 < 2 ^ 64
unfolding ready
ready_epoch = omega arith

shown_test : get_elem? pending.claims 0 ≡ some shown
unfolding shown less bytes_eq replicate mix key_of key_byte
shown_test = refl

shown_id : shown.claim_id ≡ claim.claim_id
unfolding shown less bytes_eq replicate mix key_of key_byte
shown_id = refl

red_run_test : (run_verify toy toy_json red [] now).0 ≡ some (ok red_report)
unfolding red_report seen less bytes_eq replicate mix key_of key_byte
red_run_test = refl

revoked_rejected_example : red_report.accepted ≡ false
revoked_rejected_example =
    revoked_rejected toy toy_json ready red claim.claim_id 1 pending [] now 0 shown red_report
      ready-IsCurrent red-Steps ready_epoch pending_test shown_test shown_id red_run_test
