-- ===== src/ChainCore/Merkle.antt =====
-- crates/chain-core/src/merkle.rs: the Merkle root that an anchor signs.
pub mod Rounds
pub mod Tree
pub mod Binding
use trackward.Prelude.{
  ℕ, zero, suc, List, [], ◌∷◌, ◌++◌, map, Option, none, some, Bytes, ascii, length,
}
use trackward.ChainCore.Hashing.{Hash, Sha256}

-- `b"trackward-merkle-leaf-v1\0"`
abbrev pub merkle_leaf_domain : Bytes
merkle_leaf_domain = ascii "trackward-merkle-leaf-v1" ++ 0 ∷ []

-- `b"trackward-merkle-node-v1\0"`
abbrev pub merkle_node_domain : Bytes
merkle_node_domain = ascii "trackward-merkle-node-v1" ++ 0 ∷ []

module _ (sha256 : Sha256) where
  unfoldable pub leaf_hash : Hash → Hash
  leaf_hash row_hash = sha256 (merkle_leaf_domain ++ row_hash)

  unfoldable pub node_hash : Hash → Hash → Hash
  node_hash left right = sha256 (merkle_node_domain ++ (left ++ right))

  -- The inner `while i < level.len()`: one level of the tree from the level below it. The list is
  -- what `i` has not reached; without a right sibling the left one stands in for it.
  unfoldable pub next_level : List Hash → List Hash
  next_level [] = []
  next_level (left ∷ []) = node_hash left left ∷ []
  next_level (left ∷ right ∷ rest) = node_hash left right ∷ next_level rest

  -- The outer `while level.len() > 1`, on fuel, and `level[0]` after it. `none` is a panic or no
  -- fuel left.
  unfoldable pub climb : ℕ → List Hash → Option Hash
  climb zero level = none
  climb (suc fuel) [] = none
  climb (suc fuel) (root ∷ []) = some root
  climb (suc fuel) (left ∷ right ∷ rest) = climb fuel (next_level (left ∷ right ∷ rest))

  -- `none` is the panic on an empty slice.
  unfoldable pub compute_root : List Hash → Option Hash
  unfolding climb next_level
  compute_root row_hashes = climb (length row_hashes) (map leaf_hash row_hashes)
