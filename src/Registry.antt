-- ===== src/Registry.antt =====
-- crates/aion-trust-registry/src/lib.rs: accreditation by K of N accreditors, revocation at an
-- epoch, and the ledger record. Epochs are `u64`.
pub mod Accredited
pub mod Revocation
use aion_trust.Prelude.{
  ℕ, ◌-◌, ◌^◌, Bool, true, false, not, ◌&&◌, Option, none, some, List, [], ◌∷◌, ◌++◌, ltb, leb,
  if◌then◌else◌, length, any, Bytes, Text, codes, bytes_eq, contains, ok, err,
}
use aion_trust.Prelude.Int.{ℤ, pos, negsuc}
use aion_trust.Prelude.Map.{Map, get, insert, contains_key}
use aion_trust.Crypto.{Crypto}
use aion_trust.Encoding.Writer.{SigningWriter, new, field, int, into_bytes, ◌▸◌}
use aion_trust.Encoding.Hex.{to_hex, decode_array}
use aion_trust.Identity.{Did, ClaimId, Timestamp, did_from_key, identity_did}
use aion_trust.Claims.Anchor.{TrustAnchor, IssuerStanding, default_status}

abbrev pub accred_domain : Bytes
accred_domain = codes "aion-trust/accreditation/v1"

pub data Status : Type 0 where
  issued revoked : Status

pub record LedgerRecord : Type 0 where
  pub claim_id : Text
  pub status : Status
  pub epoch : ℕ

pub record AccreditorSig : Type 0 where
  pub accreditor : Did
  pub signature : Text

pub record Accreditation : Type 0 where
  pub issuer_id : Did
  pub category : Text
  pub from_epoch : ℕ
  pub until_epoch : Option ℕ
  pub signatures : List AccreditorSig

-- `Accreditation::new`.
unfoldable pub new_accreditation : Did → Text → ℕ → Option ℕ → Accreditation
new_accreditation issuer_id category from_epoch until_epoch = record {
  issuer_id = issuer_id;
  category = category;
  from_epoch = from_epoch;
  until_epoch = until_epoch;
  signatures = [];
}

-- `e as i64` for a `u64`.
unfoldable pub as_i64 : ℕ → ℤ
as_i64 e = if ltb e (2 ^ 63) then pos e else negsuc (2 ^ 64 - 1 - e)

-- The `match self.until_epoch` of `signing_bytes`.
unfoldable pub write_until : Option ℕ → SigningWriter → SigningWriter
unfolding field int as_i64
write_until (some e) w = w ▸ field (codes "until") ▸ int (as_i64 e)
write_until none w = w ▸ field (codes "open")

unfoldable pub signing_bytes : Accreditation → Bytes
unfolding new field int into_bytes write_until as_i64
signing_bytes a =
    new accred_domain
    ▸ field a.issuer_id
    ▸ field a.category
    ▸ int (as_i64 a.from_epoch)
    ▸ write_until a.until_epoch
    ▸ into_bytes

unfoldable pub active_at : Accreditation → ℕ → Bool
active_at a epoch =
    leb a.from_epoch epoch && elim a.until_epoch [ none ↦ true | some u ↦ leb epoch u ]

pub record PolicyRule : Type 0 where
  pub k : ℕ
  pub accreditors : List Did

module _ (c : Crypto) where
  unfoldable pub endorse : c.SigningKey → Accreditation → Accreditation
  unfolding signing_bytes identity_did to_hex
  endorse accreditor a = record a {
    signatures =
        a.signatures
        ++ record {
          accreditor = identity_did c accreditor;
          signature = to_hex (c.sign accreditor (signing_bytes a));
        }
          ∷ [];
  }

  pub record Registry : Type 0 where
    pub issuer_keys : Map c.VerifyingKey
    pub accreditor_keys : Map c.VerifyingKey
    pub accreditations : List Accreditation
    pub policy : Map PolicyRule
    pub revoked : Map ℕ
    pub epoch : ℕ

  -- `Registry::new`.
  unfoldable pub new_registry : ℕ → Registry
  new_registry epoch = record {
    issuer_keys = [];
    accreditor_keys = [];
    accreditations = [];
    policy = [];
    revoked = [];
    epoch = epoch;
  }

  unfoldable pub register_issuer : c.VerifyingKey → Registry → Registry
  unfolding insert did_from_key
  register_issuer key r = record r { issuer_keys = insert (did_from_key c key) key r.issuer_keys }

  unfoldable pub register_accreditor : c.VerifyingKey → Registry → Registry
  unfolding insert did_from_key
  register_accreditor key r = record r {
    accreditor_keys = insert (did_from_key c key) key r.accreditor_keys;
  }

  unfoldable pub require_accreditation : Text → ℕ → List Did → Registry → Registry
  unfolding insert
  require_accreditation category k accreditors r = record r {
    policy = insert category (record { k = k; accreditors = accreditors }) r.policy;
  }

  unfoldable pub add_accreditation : Accreditation → Registry → Registry
  add_accreditation a r = record r { accreditations = r.accreditations ++ a ∷ [] }

  unfoldable pub revoke : Text → ℕ → Registry → Registry
  unfolding insert
  revoke claim_id epoch r = record r { revoked = insert claim_id epoch r.revoked }

  unfoldable pub set_epoch : ℕ → Registry → Registry
  set_epoch epoch r = record r { epoch = epoch }

  -- `self.revoked.get(claim_id).is_some_and(|&e| e <= self.epoch)`.
  unfoldable pub is_revoked_at_epoch : Registry → Text → Bool
  unfolding get
  is_revoked_at_epoch r claim_id = elim (get claim_id r.revoked) [
    | none ↦ false
    | some e ↦ leb e r.epoch
  ]

  -- The source writes the test of `is_revoked_at_epoch` a second time here.
  unfoldable pub ledger_record : Registry → Text → LedgerRecord
  unfolding get
  ledger_record r claim_id = record {
    claim_id = claim_id;
    status = elim (get claim_id r.revoked) [
      | none ↦ issued
      | some e ↦ if leb e r.epoch then revoked else issued
    ];
    epoch = r.epoch;
  }

  -- The tests of one signature in the loop of `valid_endorsements`, behind the `distinct` test.
  unfoldable pub endorses : Registry → Bytes → PolicyRule → AccreditorSig → Bool
  unfolding contains get decode_array
  endorses r bytes rule sig =
      contains rule.accreditors sig.accreditor && elim (get sig.accreditor r.accreditor_keys) [
        | none ↦ false
        | some vk ↦ elim (decode_array 64 sig.signature) [
          | err e ↦ false
          | ok sig_bytes ↦ c.verify vk bytes sig_bytes
        ]
      ]

  -- The loop of `valid_endorsements`: the distinct accreditors counted so far.
  unfoldable pub distinct_endorsers :
      Registry → Bytes → PolicyRule → List AccreditorSig → List Did → List Did
  unfolding contains endorses
  distinct_endorsers r bytes rule [] distinct = distinct
  distinct_endorsers r bytes rule (sig ∷ signatures) distinct =
      distinct_endorsers r bytes rule signatures (
        if not (contains distinct sig.accreditor) && endorses r bytes rule sig
        then sig.accreditor ∷ distinct
        else distinct)

  unfoldable pub valid_endorsements : Registry → Accreditation → PolicyRule → ℕ
  unfolding signing_bytes distinct_endorsers
  valid_endorsements r a rule = length (distinct_endorsers r (signing_bytes a) rule a.signatures [])

  -- The tests of one record in `is_accredited`.
  unfoldable pub accredits : Registry → Did → Text → PolicyRule → Accreditation → Bool
  unfolding bytes_eq active_at valid_endorsements
  accredits r issuer category rule a =
      bytes_eq a.issuer_id issuer
      && bytes_eq a.category category
      && active_at a r.epoch
      && leb rule.k (valid_endorsements r a rule)

  unfoldable pub is_accredited : Registry → Did → Text → Bool
  unfolding get accredits
  is_accredited r issuer category = elim (get category r.policy) [
    | none ↦ false
    | some rule ↦ any (accredits r issuer category rule) r.accreditations
  ]

  unfoldable pub standing : Registry → Did → Text → Timestamp → IssuerStanding
  unfolding get is_accredited
  standing r issuer category now =
      let accreditation_required = contains_key category r.policy in
      record {
        accredited = accreditation_required && is_accredited r issuer category;
        accreditation_required = accreditation_required;
      }

  -- `impl TrustAnchor for Registry`.
  unfoldable pub registry_anchor : Registry → TrustAnchor c
  unfolding get standing is_revoked_at_epoch default_status
  registry_anchor r = record {
    issuer_key = λ issuer. get issuer r.issuer_keys;
    standing = standing r;
    is_revoked = λ claim_id now. is_revoked_at_epoch r claim_id;
    status = default_status (λ claim_id now. is_revoked_at_epoch r claim_id);
  }
