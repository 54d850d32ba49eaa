-- ===== src/Claims/Fields/Keys.antt =====
-- About the field keys of crates/aion-trust-claims/src/bodies.rs and the leaves of fields.rs.
use aion_trust.Prelude.{◌≡◌, refl, some, bytes_eq}
use aion_trust.Prelude.Map.{keys, less}
use aion_trust.Json.{Json}
use aion_trust.Claims.Bodies.{
  ClaimBody, employment, education, certification, background_check, identity, reference, skill,
  category, field_keys_for_category,
}
use aion_trust.Claims.Fields.{ordered_fields}

-- For every body, whatever its options hold, the keys of its leaves, in order, are the keys that
-- `field_keys_for_category` declares for its category.
pub ordered_fields-keys :
    (j : Json) (body : ClaimBody)
    → field_keys_for_category (category body) ≡ some (keys (ordered_fields j body))
unfolding field_keys_for_category category ordered_fields bytes_eq less
ordered_fields-keys j (employment b) = refl
ordered_fields-keys j (education b) = refl
ordered_fields-keys j (certification b) = refl
ordered_fields-keys j (background_check b) = refl
ordered_fields-keys j (identity b) = refl
ordered_fields-keys j (reference b) = refl
ordered_fields-keys j (skill b) = refl
