-- ===== src/Claims/Bodies.antt =====
-- crates/aion-trust-claims/src/bodies.rs: the claim bodies. `object` is what the derived
-- `Serialize` of `ClaimBody` makes: the tag `claim_type`, then the fields of the body in the order
-- of their declaration, an absent option as null.
use aion_trust.Prelude.{
  ℕ, Bool, Option, none, some, List, [], ◌∷◌, if◌then◌else◌, Text, codes, bytes_eq,
}
use aion_trust.Prelude.Map.{Map}
use aion_trust.Json.{Json}

pub record EmploymentBody : Type 0 where
  pub employer : Text
  pub title : Text
  pub employment_type : Text
  pub start : Text
  pub «end» : Option Text
  pub rehire_eligible : Bool

pub record EducationBody : Type 0 where
  pub institution : Text
  pub credential : Text
  pub conferred : Text
  pub aion_edu_ref : Option Text
  pub degree_rank : Option ℕ

pub record CertificationBody : Type 0 where
  pub authority : Text
  pub name : Text
  pub issued : Text
  pub expires : Option Text
  pub credential_no : Option Text

pub record BackgroundCheckBody : Type 0 where
  pub provider : Text
  pub scope : List Text
  pub result : Text
  pub performed : Text
  pub valid_until : Option Text
  pub jurisdiction : Text
  pub fcra_compliant : Bool

pub record IdentityBody : Type 0 where
  pub method : Text
  pub verified : Text
  pub assurance : Text

pub record ReferenceBody : Type 0 where
  pub relationship : Text
  pub statement_hash : Text
  pub given : Text

pub record SkillBody : Type 0 where
  pub skill : Text
  pub level : Option Text

pub data ClaimBody : Type 0 where
  employment : EmploymentBody → ClaimBody
  education : EducationBody → ClaimBody
  certification : CertificationBody → ClaimBody
  background_check : BackgroundCheckBody → ClaimBody
  identity : IdentityBody → ClaimBody
  reference : ReferenceBody → ClaimBody
  skill : SkillBody → ClaimBody

unfoldable pub category : ClaimBody → Text
category (employment _) = codes "employment"
category (education _) = codes "education"
category (certification _) = codes "certification"
category (background_check _) = codes "background_check"
category (identity _) = codes "identity"
category (reference _) = codes "reference"
category (skill _) = codes "skill"

unfoldable pub schema_id : ClaimBody → Text
schema_id (employment _) = codes "aion-trust/employment/v1"
schema_id (education _) = codes "aion-trust/education/v1"
schema_id (certification _) = codes "aion-trust/certification/v1"
schema_id (background_check _) = codes "aion-trust/background_check/v1"
schema_id (identity _) = codes "aion-trust/identity/v1"
schema_id (reference _) = codes "aion-trust/reference/v1"
schema_id (skill _) = codes "aion-trust/skill/v1"

abbrev employment_keys : List Text
employment_keys =
    codes "employer"
    ∷ codes "employment_type"
    ∷ codes "end"
    ∷ codes "rehire_eligible"
    ∷ codes "start"
    ∷ codes "title"
    ∷ []

abbrev education_keys : List Text
education_keys =
    codes "aion_edu_ref"
    ∷ codes "conferred"
    ∷ codes "credential"
    ∷ codes "degree_rank"
    ∷ codes "institution"
    ∷ []

abbrev certification_keys : List Text
certification_keys =
    codes "authority" ∷ codes "credential_no" ∷ codes "expires" ∷ codes "issued" ∷ codes "name" ∷ []

abbrev background_check_keys : List Text
background_check_keys =
    codes "fcra_compliant"
    ∷ codes "jurisdiction"
    ∷ codes "performed"
    ∷ codes "provider"
    ∷ codes "result"
    ∷ codes "scope"
    ∷ codes "valid_until"
    ∷ []

unfoldable pub field_keys_for_category : Text → Option (List Text)
field_keys_for_category category =
    if bytes_eq category (codes "employment")
    then some employment_keys
    else if bytes_eq category (codes "education")
    then some education_keys
    else if bytes_eq category (codes "certification")
    then some certification_keys
    else if bytes_eq category (codes "background_check")
    then some background_check_keys
    else if bytes_eq category (codes "identity")
    then some (codes "assurance" ∷ codes "method" ∷ codes "verified" ∷ [])
    else if bytes_eq category (codes "reference")
    then some (codes "given" ∷ codes "relationship" ∷ codes "statement_hash" ∷ [])
    else if bytes_eq category (codes "skill")
    then some (codes "level" ∷ codes "skill" ∷ [])
    else none

module _ (j : Json) where
  -- `Option<String>` and `Option<u8>`.
  abbrev pub optional {ℓ} : {A : Type ℓ} → (A → j.Value) → Option A → j.Value
  optional f none = j.null
  optional f (some a) = f a

  unfoldable pub fields : ClaimBody → Map j.Value
  fields (employment b) =
      (codes "employer", j.string b.employer)
      ∷ (codes "title", j.string b.title)
      ∷ (codes "employment_type", j.string b.employment_type)
      ∷ (codes "start", j.string b.start)
      ∷ (codes "end", optional j.string b.«end»)
      ∷ (codes "rehire_eligible", j.boolean b.rehire_eligible)
      ∷ []
  fields (education b) =
      (codes "institution", j.string b.institution)
      ∷ (codes "credential", j.string b.credential)
      ∷ (codes "conferred", j.string b.conferred)
      ∷ (codes "aion_edu_ref", optional j.string b.aion_edu_ref)
      ∷ (codes "degree_rank", optional j.number b.degree_rank)
      ∷ []
  fields (certification b) =
      (codes "authority", j.string b.authority)
      ∷ (codes "name", j.string b.name)
      ∷ (codes "issued", j.string b.issued)
      ∷ (codes "expires", optional j.string b.expires)
      ∷ (codes "credential_no", optional j.string b.credential_no)
      ∷ []
  fields (background_check b) =
      (codes "provider", j.string b.provider)
      ∷ (codes "scope", j.strings b.scope)
      ∷ (codes "result", j.string b.result)
      ∷ (codes "performed", j.string b.performed)
      ∷ (codes "valid_until", optional j.string b.valid_until)
      ∷ (codes "jurisdiction", j.string b.jurisdiction)
      ∷ (codes "fcra_compliant", j.boolean b.fcra_compliant)
      ∷ []
  fields (identity b) =
      (codes "method", j.string b.method)
      ∷ (codes "verified", j.string b.verified)
      ∷ (codes "assurance", j.string b.assurance)
      ∷ []
  fields (reference b) =
      (codes "relationship", j.string b.relationship)
      ∷ (codes "statement_hash", j.string b.statement_hash)
      ∷ (codes "given", j.string b.given)
      ∷ []
  fields (skill b) =
      (codes "skill", j.string b.skill) ∷ (codes "level", optional j.string b.level) ∷ []

  -- `serde_json::to_value(body)`, the entries of the object.
  unfoldable pub object : ClaimBody → Map j.Value
  unfolding fields category
  object body = (codes "claim_type", j.string (category body)) ∷ fields body
