-- ===== src/Claims/Reliance.antt =====
-- crates/aion-trust-claims/src/reliance.rs: the commitment to the claims that a claim relies on.
use aion_trust.Prelude.{
  ℕ, suc, List, [], ◌∷◌, map, length, Bytes, Text, codes, Result, map_err, ok, ◌>>=◌,
}
use aion_trust.Crypto.{Crypto}
use aion_trust.Encoding.Writer.{new, field, u32, into_bytes, ◌▸◌}
use aion_trust.Identity.{ClaimId}
use aion_trust.Merkle.{reliance_leaf_domain, reliance_leaf_hash, merkle_root}
use aion_trust.Claims.Reject.{ClaimReject, malformed}
use aion_trust.Claims.Fields.{try_u32}

abbrev pub reliance_kind_salt_domain : Bytes
reliance_kind_salt_domain = codes "aion-trust/reliance-kind-salt/v1"

abbrev pub reliance_kind_commit_domain : Bytes
reliance_kind_commit_domain = codes "aion-trust/reliance-kind-commit/v1"

pub data ReliesKind : Type 0 where
  identity_basis prior_check assessor referee renews endorses : ReliesKind

unfoldable pub as_str : ReliesKind → Text
as_str identity_basis = codes "identity_basis"
as_str prior_check = codes "prior_check"
as_str assessor = codes "assessor"
as_str referee = codes "referee"
as_str renews = codes "renews"
as_str endorses = codes "endorses"

pub record ReliesOn : Type 0 where
  pub from_claim_id : ClaimId
  pub kind : ReliesKind

pub record ReliesLeaf : Type 0 where
  pub index : ℕ
  pub from_claim_id : ClaimId
  pub salt : Bytes
  pub kind_commit : Bytes
  pub hash : Bytes

module _ (c : Crypto) where
  unfoldable pub derive_reliance_salt : Bytes → ℕ → Bytes
  unfolding new u32 into_bytes
  derive_reliance_salt master_salt index =
      c.keyed_hash master_salt (new reliance_leaf_domain ▸ u32 index ▸ into_bytes)

  unfoldable pub derive_kind_salt : Bytes → ℕ → Bytes
  unfolding new u32 into_bytes
  derive_kind_salt master_salt index =
      c.keyed_hash master_salt (new reliance_kind_salt_domain ▸ u32 index ▸ into_bytes)

  unfoldable pub kind_commit : ReliesKind → Bytes → Bytes
  unfolding new field into_bytes as_str
  kind_commit kind kind_salt =
      c.hash (new reliance_kind_commit_domain ▸ field kind_salt ▸ field (as_str kind) ▸ into_bytes)

  unfoldable pub empty_reliance_root : Bytes
  empty_reliance_root = c.hash (codes "aion-trust/reliance-empty/v1")

  -- The body of the loop of `reliance_leaves`: the leaf of one target.
  unfoldable pub relies_leaf : Bytes → ℕ → ReliesOn → ReliesLeaf
  unfolding derive_reliance_salt derive_kind_salt kind_commit reliance_leaf_hash
  relies_leaf master_salt index target =
      let salt = derive_reliance_salt master_salt index in
      let commit = kind_commit target.kind (derive_kind_salt master_salt index) in
      record {
        index = index;
        from_claim_id = target.from_claim_id;
        salt = salt;
        kind_commit = commit;
        hash = reliance_leaf_hash c index salt target.from_claim_id commit;
      }

  -- The loop of `reliance_leaves`, from the target number `index` on.
  unfoldable pub reliance_leaves_from :
      Bytes → ℕ → List ReliesOn → Result ClaimReject (List ReliesLeaf)
  unfolding try_u32 relies_leaf
  reliance_leaves_from master_salt index [] = ok []
  reliance_leaves_from master_salt index (target ∷ rest) = do
    i ← try_u32 index
    leaves ← reliance_leaves_from master_salt (suc index) rest
    ok (relies_leaf master_salt i target ∷ leaves)

  unfoldable pub reliance_leaves : Bytes → List ReliesOn → Result ClaimReject (List ReliesLeaf)
  unfolding reliance_leaves_from
  reliance_leaves master_salt targets = reliance_leaves_from master_salt 0 targets

  -- The end of `reliance_commitment`: no target has the sentinel root.
  unfoldable pub reliance_root_of : List ReliesLeaf → ℕ → Result ClaimReject (Bytes × ℕ)
  unfolding empty_reliance_root merkle_root
  reliance_root_of [] count = ok (empty_reliance_root, 0)
  reliance_root_of (l ∷ leaves) count = do
    root ← map_err (merkle_root c (map (λ (x : ReliesLeaf). x.hash) (l ∷ leaves))) malformed
    ok (root, count)

  unfoldable pub reliance_commitment : Bytes → List ReliesOn → Result ClaimReject (Bytes × ℕ)
  unfolding reliance_leaves reliance_root_of try_u32
  reliance_commitment master_salt targets = do
    leaves ← reliance_leaves master_salt targets
    count ← try_u32 (length leaves)
    reliance_root_of leaves count
