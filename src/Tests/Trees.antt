-- ===== src/Tests/Trees.antt =====
-- The theorems on Merkle trees and on the encodings at small inputs.
use aion_trust.Prelude.{◌*◌, ◌≤◌, ◌<◌, ◌≡◌, refl, ◌↔◌, some, List, [], ◌∷◌, arith, Bytes, ok}
use aion_trust.Prelude.Map.{keys}
use aion_trust.Crypto.Toy.{toy, toy_laws}
use aion_trust.Json.Toy.{toy_json}
use aion_trust.Encoding.Writer.Injective.{into_bytes-injective}
use aion_trust.Encoding.Hex.{to_hex, from_hex}
use aion_trust.Encoding.Hex.RoundTrip.{from_hex-to_hex}
use aion_trust.Merkle.{split_point, mth, audit_path, root_from_path, merkle_root}
use aion_trust.Merkle.TreeHash.{IsTreeHash, merkle_root-IsTreeHash}
use aion_trust.Merkle.Split.{IsPowerOfTwo, split_point_lem}
use aion_trust.Merkle.Complete.{root_from_path-audit_path}
use aion_trust.Claims.Bodies.{category, field_keys_for_category}
use aion_trust.Claims.Fields.{ordered_fields}
use aion_trust.Claims.Fields.Keys.{ordered_fields-keys}
use aion_trust.Claims.Claim.{verify}
use aion_trust.Claims.Claim.Issued.{verify-issue_with_reliance}
use aion_trust.Tests.{
  issuer, subject_did, draws, validity, body, upstream, claim, issued, issued_test,
}

split_point_lem_example :
    IsPowerOfTwo (split_point 5) × (split_point 5 < 5) × (5 ≤ 2 * split_point 5)
split_point_lem_example = split_point_lem 5 (omega arith) (omega arith)

-- Three leaves.
abbrev leaves : List Bytes
leaves = (1 ∷ []) ∷ (2 ∷ []) ∷ (3 ∷ []) ∷ []

merkle_root-IsTreeHash_example :
    (merkle_root toy leaves ≡ ok (mth toy leaves)) ↔ IsTreeHash toy leaves (mth toy leaves)
merkle_root-IsTreeHash_example = merkle_root-IsTreeHash toy leaves (mth toy leaves) (omega arith)

root_from_path-audit_path_example :
    (p : List Bytes) × (audit_path toy leaves 2 ≡ ok p)
    × (root_from_path toy (3 ∷ []) 2 3 p ≡ merkle_root toy leaves)
root_from_path-audit_path_example = root_from_path-audit_path toy leaves 2 (3 ∷ []) refl

abbrev tag : Bytes
tag = 7 ∷ []

abbrev parts : List Bytes
parts = (1 ∷ 2 ∷ []) ∷ [] ∷ []

into_bytes-injective_example : (tag ≡ tag) × (parts ≡ parts)
into_bytes-injective_example =
    into_bytes-injective tag tag parts parts (ground arith) (ground arith) refl

from_hex-to_hex_example : from_hex (to_hex (0 ∷ 171 ∷ 255 ∷ [])) ≡ ok (0 ∷ 171 ∷ 255 ∷ [])
from_hex-to_hex_example = from_hex-to_hex (0 ∷ 171 ∷ 255 ∷ []) (ground arith)

ordered_fields-keys_example :
    field_keys_for_category (category body) ≡ some (keys (ordered_fields toy_json body))
ordered_fields-keys_example = ordered_fields-keys toy_json body

verify-issue_with_reliance_example :
    verify toy toy_json claim (toy.verifying_key issuer) ≡ ok (record { claim = claim })
unfolding issued
verify-issue_with_reliance_example =
    verify-issue_with_reliance toy toy_json toy_laws draws issuer subject_did validity body upstream
      {claim = claim} issued_test
