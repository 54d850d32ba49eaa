-- ===== src/Tests.antt =====
-- Runs of the program on the toy interfaces, and the data that they share.
pub mod Verifier
pub mod Trees
pub mod Registries
pub mod Disclosures
pub mod Wallets
pub mod Storage
pub mod Interop
pub mod Demo
pub mod Nonces
use aion_trust.Prelude.{
  ◌≡◌, refl, Bool, true, false, not, none, some, List, [], ◌∷◌, map, replicate, Bytes, codes,
  bytes_eq, Result, ok, ◌>>=◌,
}
use aion_trust.Prelude.Int.{pos}
use aion_trust.Prelude.Map.{less}
use aion_trust.Crypto.{Crypto}
use aion_trust.Crypto.Toy.{toy, toy_laws, key_of, key_byte, mix}
use aion_trust.Json.Toy.{toy_json}
use aion_trust.Encoding.Hex.{TrustError}
use aion_trust.Identity.{Did, Timestamp, identity_did}
use aion_trust.Claims.Reject.{ClaimReject}
use aion_trust.Claims.Bodies.{ClaimBody, skill}
use aion_trust.Claims.Reliance.{ReliesOn, identity_basis}
use aion_trust.Claims.Claim.{Claim, Validity, Draws, issue_with_reliance, verify}
use aion_trust.Claims.Disclosure.{DisclosedClaim, all, disclose}
use aion_trust.Claims.Predicate.{PredicateRequest, ge}
use aion_trust.Claims.Anchor.{TrustAnchor}
use aion_trust.Claims.Report.{
  VerificationReport, subject_id_binds_to_key, audience_matches_verifier, unexpired, nonce_fresh,
  nonce_sufficiently_long, discloses_at_least_one_claim, subject_signature_valid,
  claim_subject_matches_presenter, claim_authentic, field_proven_against_body_root,
  claim_within_validity, claim_not_revoked, reliance_intact, reliance_resolvable,
  predicate_satisfied, CheckName, Check,
}
use aion_trust.Claims.Presentation.{
  Presentation, IssuerDirectory, register, directory_anchor, build_presentation,
}
use aion_trust.Claims.PresentationVerifier.{verify_presentation_with_predicates}

abbrev pub issuer : Bool
issuer = true

abbrev pub subject : Bool
subject = false

unfoldable pub subject_did : Did
unfolding identity_did
subject_did = identity_did toy subject

abbrev pub body : ClaimBody
body = skill (record { skill = codes "rust"; level = some (codes "5") })

abbrev pub validity : Validity
validity = record { from = pos 10; until = some (pos 90) }

abbrev pub upstream : List ReliesOn
upstream = record { from_claim_id = codes "upstream"; kind = identity_basis } ∷ []

abbrev pub draws : Draws
draws = record { first = 1 ∷ []; second = 2 ∷ []; third = 3 ∷ [] }

unfoldable pub issued : Result ClaimReject Claim
unfolding issue_with_reliance subject_did
issued = issue_with_reliance toy toy_json draws issuer subject_did validity body upstream

unfoldable pub disclosed : Result ClaimReject (DisclosedClaim toy_json)
unfolding issued disclose
disclosed = do claim ← issued; disclose toy toy_json claim all

abbrev pub audience : Did
audience = codes "did:aion:verifier"

abbrev pub nonce : Bytes
nonce = replicate 16 171

abbrev pub ask : PredicateRequest toy_json
ask = record {
  category = codes "skill";
  field = codes "level";
  op = ge;
  bound = codes "4";
  scale_version = none;
}

unfoldable pub anchor : TrustAnchor toy
unfolding register directory_anchor
anchor = directory_anchor toy toy_json (register toy toy_json issuer (record { keys = [] }))

unfoldable pub presented : Result ClaimReject (Presentation toy toy_json)
unfolding disclosed build_presentation
presented = do
  d ← disclosed
  ok (
      build_presentation toy toy_json subject audience (codes "hiring") nonce (pos 20) (pos 40)
        (d ∷ []))

-- What `disclosed` computes, as it goes over the wire.
abbrev pub disclosure : DisclosedClaim toy_json
disclosure = record {
  claim_id = codes "7070707070707070707070707070707070707070707070707070707070707070";
  subject_id = codes "did:aion:808080808080808080808080808080808080808080808080";
  issuer_id = codes "did:aion:3a3a3a3a3a3a3a3a3a3a3a3a3a3a3a3a3a3a3a3a3a3a3a3a";
  validity = record { from = pos 10; until = some (pos 90) };
  category = codes "skill";
  schema_id = codes "aion-trust/skill/v1";
  body_root = codes "f2f2f2f2f2f2f2f2f2f2f2f2f2f2f2f2f2f2f2f2f2f2f2f2f2f2f2f2f2f2f2f2";
  field_count = 2;
  reliance_root = codes "7f7f7f7f7f7f7f7f7f7f7f7f7f7f7f7f7f7f7f7f7f7f7f7f7f7f7f7f7f7f7f7f";
  reliance_count = 1;
  issuer_signature =
      codes
        "f7f7f7f7f7f7f7f7f7f7f7f7f7f7f7f7f7f7f7f7f7f7f7f7f7f7f7f7f7f7f7f7f7f7f7f7f7f7f7f7f7f7f7f7f7f7f7f7f7f7f7f7f7f7f7f7f7f7f7f7f7f7f7f7";
  fields =
      record {
        key = codes "level";
        index = 0;
        salt = codes "9494949494949494949494949494949494949494949494949494949494949494";
        value = codes "5";
        audit_path =
            (codes "3636363636363636363636363636363636363636363636363636363636363636") ∷ [];
      }
      ∷ record {
        key = codes "skill";
        index = 1;
        salt = codes "b9b9b9b9b9b9b9b9b9b9b9b9b9b9b9b9b9b9b9b9b9b9b9b9b9b9b9b9b9b9b9b9";
        value = codes "rust";
        audit_path =
            (codes "e1e1e1e1e1e1e1e1e1e1e1e1e1e1e1e1e1e1e1e1e1e1e1e1e1e1e1e1e1e1e1e1") ∷ [];
      }
      ∷ [];
  reliance =
      record {
        index = 0;
        from_claim_id = codes "upstream";
        salt = codes "babababababababababababababababababababababababababababababababa";
        kind_commit = codes "5151515151515151515151515151515151515151515151515151515151515151";
        audit_path = [];
      }
      ∷ [];
}

-- What `presented` computes.
abbrev pub presentation : Presentation toy toy_json
presentation = record {
  presentation_id = codes "1616161616161616161616161616161616161616161616161616161616161616";
  subject_id = codes "did:aion:808080808080808080808080808080808080808080808080";
  subject_key = codes "0202020202020202020202020202020202020202020202020202020202020202";
  audience = codes "did:aion:verifier";
  purpose = codes "hiring";
  nonce = codes "abababababababababababababababab";
  issued_at = pos 20;
  expires_at = pos 40;
  claims = disclosure ∷ [];
  subject_signature =
      codes
        "44444444444444444444444444444444444444444444444444444444444444444444444444444444444444444444444444444444444444444444444444444444";
}

-- What `issued` computes.
abbrev pub claim : Claim
claim = record {
  claim_id = codes "7070707070707070707070707070707070707070707070707070707070707070";
  subject_id = codes "did:aion:808080808080808080808080808080808080808080808080";
  issuer_id = codes "did:aion:3a3a3a3a3a3a3a3a3a3a3a3a3a3a3a3a3a3a3a3a3a3a3a3a";
  validity = record { from = pos 10; until = some (pos 90) };
  body = skill record { skill = codes "rust"; level = some (codes "5") };
  master_salt = codes "c4c4c4c4c4c4c4c4c4c4c4c4c4c4c4c4c4c4c4c4c4c4c4c4c4c4c4c4c4c4c4c4";
  body_root = codes "f2f2f2f2f2f2f2f2f2f2f2f2f2f2f2f2f2f2f2f2f2f2f2f2f2f2f2f2f2f2f2f2";
  field_count = 2;
  reliance = record { from_claim_id = codes "upstream"; kind = identity_basis } ∷ [];
  reliance_root = codes "7f7f7f7f7f7f7f7f7f7f7f7f7f7f7f7f7f7f7f7f7f7f7f7f7f7f7f7f7f7f7f7f";
  reliance_count = 1;
  issuer_signature =
      codes
        "f7f7f7f7f7f7f7f7f7f7f7f7f7f7f7f7f7f7f7f7f7f7f7f7f7f7f7f7f7f7f7f7f7f7f7f7f7f7f7f7f7f7f7f7f7f7f7f7f7f7f7f7f7f7f7f7f7f7f7f7f7f7f7f7";
}

pub issued_test : issued ≡ ok claim
unfolding issued bytes_eq less replicate mix key_byte
issued_test = refl

abbrev pub now : Timestamp
now = pos 30

-- `presented` is a run of issuance, disclosure and presentation.
presentation_test : presented ≡ ok presentation
unfolding presented bytes_eq less replicate mix key_byte
presentation_test = refl

abbrev pub is_nonce_fresh : CheckName → Bool
is_nonce_fresh nonce_fresh = true
is_nonce_fresh name = false

abbrev pub passed : CheckName → Check
passed name = record { name = name; passed = true }

abbrev pub report : VerificationReport
report = record {
  accepted = true;
  amber = false;
  checks = map passed (
      subject_id_binds_to_key ∷ audience_matches_verifier ∷ unexpired ∷ nonce_fresh
      ∷ nonce_sufficiently_long ∷ discloses_at_least_one_claim ∷ subject_signature_valid
      ∷ claim_subject_matches_presenter ∷ claim_authentic ∷ field_proven_against_body_root
      ∷ field_proven_against_body_root ∷ claim_within_validity ∷ claim_not_revoked ∷ reliance_intact
      ∷ reliance_resolvable ∷ predicate_satisfied ∷ []);
}

-- The report of a second run: the nonce is not fresh.
abbrev pub replayed_report : VerificationReport
replayed_report = record {
  accepted = false;
  amber = false;
  checks = map (λ (k : Check). record k { passed = not (is_nonce_fresh k.name) }) report.checks;
}

-- The verifier accepts it, with every check passed.
pub report_test :
    verify_presentation_with_predicates toy toy_json presentation audience now anchor false
      (ask ∷ [])
    ≡ ok report
unfolding verify_presentation_with_predicates anchor bytes_eq less replicate mix key_of key_byte
report_test = refl
