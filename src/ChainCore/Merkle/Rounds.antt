-- ===== src/ChainCore/Merkle/Rounds.antt =====
-- The loops of `compute_root` end, and how a level shrinks.
use trackward.Prelude.{
  ℕ, zero, suc, ◌+◌, ◌*◌, ◌≤◌, ◌<◌, ◌≡◌, refl, List, [], ◌∷◌, map, some, length, length-map, arith,
}
use trackward.ChainCore.Hashing.{Hash, Sha256}
use trackward.ChainCore.Merkle.{next_level, climb, compute_root, leaf_hash}

module _ (sha256 : Sha256) where
  pub length-next_level_bounds :
      (level : List Hash)
      → (length level ≤ 2 * length (next_level sha256 level))
        × (2 * length (next_level sha256 level) ≤ length level + 1)
  unfolding next_level
  length-next_level_bounds [] = omega arith
  length-next_level_bounds (l ∷ []) = omega arith
  length-next_level_bounds (l ∷ r ∷ rest) = omega (arith, length-next_level_bounds rest)

  climb_total :
      (fuel : ℕ) (level : List Hash)
      → 0 < length level
      → length level ≤ fuel
      → (root : Hash) × (climb sha256 fuel level ≡ some root)
  unfolding climb
  climb_total zero level pos enough = absurd (omega arith)
  climb_total (suc fuel) [] pos enough = absurd (omega arith)
  climb_total (suc fuel) (root ∷ []) pos enough = (root, refl)
  climb_total (suc fuel) (l ∷ r ∷ rest) pos enough =
      climb_total fuel (next_level sha256 (l ∷ r ∷ rest))
        (omega (arith, length-next_level_bounds (l ∷ r ∷ rest)))
        (omega (arith, length-next_level_bounds (l ∷ r ∷ rest)))

  -- The root of a non-empty sequence is always computed: both loops end within the fuel given.
  pub compute_root_total :
      (row_hashes : List Hash)
      → 0 < length row_hashes
      → (root : Hash) × (compute_root sha256 row_hashes ≡ some root)
  unfolding compute_root
  compute_root_total row_hashes pos =
      climb_total (length row_hashes) (map (leaf_hash sha256) row_hashes)
        (omega (arith, length-map (leaf_hash sha256) row_hashes))
        (omega (arith, length-map (leaf_hash sha256) row_hashes))
