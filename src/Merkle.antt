-- ===== src/Merkle.antt =====
-- crates/aion-trust-core/src/merkle.rs: the salted-field Merkle commitment. A hash is the list of
-- its 32 bytes. The recursion of `mth` and `path` is on the leaf count, given as fuel (Merkle/Tree
-- is about it). `root_from_path` takes its path apart from the back
-- (`split_last`), here as the front of the reversed path.
pub mod Split
pub mod Tree
pub mod TreeHash
pub mod Complete
pub mod Binding
pub mod Arrays
use aion_trust.Prelude.{
  ℕ, zero, suc, ◌-◌, ◌*◌, ◌^◌, min, true, false, List, [], ◌∷◌, ◌++◌, reverse, ltb, leb, ◌==◌,
  if◌then◌else◌, length, take, drop, Bytes, Text, codes, Result, ok, err, ◌>>=◌,
}
use aion_trust.Crypto.{Crypto}
use aion_trust.Encoding.Writer.{new, field, u32, into_bytes, ◌▸◌}

pub data MerkleError : Type 0 where
  empty index_out_of_range malformed_path : MerkleError

abbrev pub field_leaf_domain : Bytes
field_leaf_domain = codes "aion-trust/claim-field-leaf/v1"

abbrev pub field_node_domain : Bytes
field_node_domain = codes "aion-trust/claim-field-node/v1"

abbrev pub reliance_leaf_domain : Bytes
reliance_leaf_domain = codes "aion-trust/reliance-leaf/v1"

-- `k.saturating_mul(2)` on a 64-bit `usize`.
unfoldable pub saturating_double : ℕ → ℕ
saturating_double k = min (k * 2) (2 ^ 64 - 1)

-- The loop of `split_point`; each round at least doubles `k`, so `n` rounds are enough.
unfoldable pub grow : ℕ → ℕ → ℕ → ℕ
unfolding saturating_double
grow zero n k = k
grow (suc fuel) n k = elim (ltb (saturating_double k) n) [
  | true ↦ grow fuel n (saturating_double k)
  | false ↦ k
]

unfoldable pub split_point : ℕ → ℕ
unfolding grow
split_point n = grow n n 1

module _ (c : Crypto) where
  unfoldable pub field_leaf_hash : ℕ → Text → Bytes → Bytes → Bytes
  unfolding new field u32 into_bytes
  field_leaf_hash index key salt jcs_value =
      c.hash
        (new field_leaf_domain ▸ u32 index ▸ field key ▸ field salt ▸ field jcs_value ▸ into_bytes)

  unfoldable pub reliance_leaf_hash : ℕ → Bytes → Bytes → Bytes → Bytes
  unfolding new field u32 into_bytes
  reliance_leaf_hash index salt from_claim_id kind_commit = c.hash (
      new reliance_leaf_domain
      ▸ u32 index
      ▸ field salt
      ▸ field from_claim_id
      ▸ field kind_commit
      ▸ into_bytes)

  unfoldable pub node_hash : Bytes → Bytes → Bytes
  unfolding new field into_bytes
  node_hash left right = c.hash (new field_node_domain ▸ field left ▸ field right ▸ into_bytes)

  -- `mth` with the number of leaves as fuel; the source never calls it on no leaf.
  unfoldable pub mth_fuel : ℕ → List Bytes → Bytes
  unfolding split_point node_hash
  mth_fuel zero leaves = []
  mth_fuel (suc fuel) [] = []
  mth_fuel (suc fuel) (single ∷ []) = single
  mth_fuel (suc fuel) (x ∷ y ∷ rest) =
      let leaves = x ∷ y ∷ rest in
      let k = split_point (length leaves) in
      node_hash (mth_fuel fuel (take k leaves)) (mth_fuel fuel (drop k leaves))

  unfoldable pub mth : List Bytes → Bytes
  unfolding mth_fuel
  mth leaves = mth_fuel (length leaves) leaves

  unfoldable pub merkle_root : List Bytes → Result MerkleError Bytes
  unfolding mth
  merkle_root [] = err empty
  merkle_root (x ∷ rest) = ok (mth (x ∷ rest))

  unfoldable pub path_fuel : ℕ → List Bytes → ℕ → List Bytes
  unfolding split_point mth
  path_fuel zero leaves index = []
  path_fuel (suc fuel) [] index = []
  path_fuel (suc fuel) (single ∷ []) index = []
  path_fuel (suc fuel) (x ∷ y ∷ rest) index =
      let leaves = x ∷ y ∷ rest in
      let k = split_point (length leaves) in
      let left = take k leaves in
      let right = drop k leaves in
      let in_left = path_fuel fuel left index ++ mth right ∷ [] in
      let in_right = path_fuel fuel right (index - k) ++ mth left ∷ [] in
      if ltb index k then in_left else in_right

  unfoldable pub path : List Bytes → ℕ → List Bytes
  unfolding path_fuel
  path leaves index = path_fuel (length leaves) leaves index

  unfoldable pub audit_path : List Bytes → ℕ → Result MerkleError (List Bytes)
  unfolding path
  audit_path [] index = err empty
  audit_path (x ∷ rest) index =
      let leaves = x ∷ rest in
      if leb (length leaves) index then err index_out_of_range else ok (path leaves index)

  -- `root_from_path` over the reversed path, whose front is the outermost sibling.
  unfoldable pub climb : Bytes → ℕ → ℕ → List Bytes → Result MerkleError Bytes
  unfolding split_point node_hash
  climb leaf index count [] =
      if count == 0
      then err empty
      else if leb count index
      then err index_out_of_range
      else if count == 1
      then ok leaf
      else err malformed_path
  climb leaf index count (outer ∷ inner) =
      let k = split_point count in
      let in_left = (do left ← climb leaf index k inner; ok (node_hash left outer)) in
      let in_right = (do
        right ← climb leaf (index - k) (count - k) inner
        ok (node_hash outer right)) in
      if count == 0
      then err empty
      else if leb count index
      then err index_out_of_range
      else if count == 1
      then err malformed_path
      else if ltb index k
      then in_left
      else in_right

  unfoldable pub root_from_path : Bytes → ℕ → ℕ → List Bytes → Result MerkleError Bytes
  unfolding climb
  root_from_path leaf index count path = climb leaf index count (reverse path)
