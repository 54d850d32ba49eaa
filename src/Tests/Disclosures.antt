-- ===== src/Tests/Disclosures.antt =====
-- The theorems on disclosures, on the disclosure of one claim with two fields.
use aion_trust.Prelude.{
  ◌≡◌, refl, some, List, [], ◌∷◌, arith, replicate, Bytes, codes, bytes_eq, ok,
}
use aion_trust.Prelude.Int.{pos}
use aion_trust.Prelude.Map.{less}
use aion_trust.Crypto.Toy.{toy, mix, key_of, key_byte}
use aion_trust.Json.Toy.{toy_json}
use aion_trust.Claims.Fields.{BodyLeaf}
use aion_trust.Claims.Claim.Signed.{Statement, IsSignable, signing_bytes-injective}
use aion_trust.Claims.Disclosure.{RevealedField}
use aion_trust.Claims.DisclosureVerifier.{VerifiedDisclosure, value, verify_with_required}
use aion_trust.Claims.DisclosureVerifier.Sound.{IsVerified, verify_with_required-IsVerified}
use aion_trust.Claims.DisclosureVerifier.NoOmission.{IsRevealedAt, no_omission}
use aion_trust.Tests.{issuer, disclosure}

abbrev verified : VerifiedDisclosure toy_json
verified = record {
  claim_id = codes "7070707070707070707070707070707070707070707070707070707070707070";
  subject_id = codes "did:aion:808080808080808080808080808080808080808080808080";
  issuer_id = codes "did:aion:3a3a3a3a3a3a3a3a3a3a3a3a3a3a3a3a3a3a3a3a3a3a3a3a";
  validity = record { from = pos 10; until = some (pos 90) };
  category = codes "skill";
  fields = (codes "level", value (codes "5")) ∷ (codes "skill", value (codes "rust")) ∷ [];
  reliance = (codes "upstream") ∷ [];
}

verified_test :
    verify_with_required toy toy_json disclosure issuer (codes "level" ∷ []) ≡ ok verified
unfolding verify_with_required bytes_eq less replicate mix key_of key_byte
verified_test = refl

verify_with_required-IsVerified_example :
    IsVerified toy toy_json disclosure issuer (codes "level" ∷ []) verified
verify_with_required-IsVerified_example =
    verify_with_required-IsVerified toy toy_json disclosure issuer (codes "level" ∷ [])
      {v = verified} verified_test

no_omission_example : IsRevealedAt disclosure.reliance 0
no_omission_example =
    no_omission toy toy_json disclosure issuer (codes "level" ∷ []) {v = verified} verified_test 0
      (omega arith)

abbrev leaves : List (BodyLeaf toy_json)
leaves =
    record {
      key = codes "level";
      value = codes "5";
      salt = (replicate 32 148);
      hash = (replicate 32 225);
    }
    ∷ record {
      key = codes "skill";
      value = codes "rust";
      salt = (replicate 32 185);
      hash = (replicate 32 54);
    }
    ∷ []

abbrev root : Bytes
root = replicate 32 242

-- The first field of the disclosure.
abbrev revealed : RevealedField toy_json
revealed = record {
  key = codes "level";
  index = 0;
  salt = codes "9494949494949494949494949494949494949494949494949494949494949494";
  value = codes "5";
  audit_path = codes "3636363636363636363636363636363636363636363636363636363636363636" ∷ [];
}

abbrev statement : Statement
statement = record {
  subject = disclosure.subject_id;
  issuer = disclosure.issuer_id;
  category = disclosure.category;
  schema_id = disclosure.schema_id;
  validity = disclosure.validity;
  commit = record {
    body_root = root;
    field_count = 2;
    reliance_root = replicate 32 127;
    reliance_count = 1;
  };
}

statement-IsSignable : IsSignable statement
unfolding replicate
statement-IsSignable = record {
  texts = (omega arith, (omega arith, (omega arith, (omega arith, tt))));
  from = (omega arith, omega arith);
  until = (omega arith, omega arith);
  roots = (omega arith, (omega arith, tt));
  field_count = omega arith;
  reliance_count = omega arith;
}

signing_bytes-injective_example : statement ≡ statement
signing_bytes-injective_example =
    signing_bytes-injective statement statement statement-IsSignable statement-IsSignable refl
