-- ===== src/ChainCore/Merkle/Tree.antt =====
-- The Merkle tree as a data type: the independent description that `compute_root` is held to.
use trackward.Prelude.{
  ℕ, zero, suc, ◌≡◌, ◌⊎◌, inl, inr, refl, sym, ap, ap₂, ◌∙◌, List, [], ◌∷◌, ◌++◌, map, append_assoc,
  append-nil, Option, none, some, length,
}
use mathlib.Core.Option
use mathlib.Core.List.{head-eq_of_cons-eq, tail-eq_of_cons-eq}
use trackward.ChainCore.Hashing.{Hash, Sha256}
use trackward.ChainCore.Merkle.{leaf_hash, node_hash, next_level, climb, compute_root}

pub data Tree : Type 0 where
  leaf : Hash → Tree
  node : Tree → Tree → Tree

-- The row hashes at the leaves, from left to right.
abbrev pub leaves : Tree → List Hash
leaves (leaf row_hash) = row_hash ∷ []
leaves (node l r) = leaves l ++ leaves r

abbrev pub forest_leaves : List Tree → List Hash
forest_leaves [] = []
forest_leaves (t ∷ ts) = leaves t ++ forest_leaves ts

-- Trees side by side are joined in pairs, and a tree that is left over with itself.
pub pair_trees : List Tree → List Tree
pair_trees [] = []
pair_trees (t ∷ []) = node t t ∷ []
pair_trees (t ∷ u ∷ ts) = node t u ∷ pair_trees ts

pub join : ℕ → List Tree → Option Tree
join zero ts = none
join (suc fuel) [] = none
join (suc fuel) (t ∷ []) = some t
join (suc fuel) (t ∷ u ∷ ts) = join fuel (pair_trees (t ∷ u ∷ ts))

-- The tree over a sequence of row hashes.
pub merkle_tree : List Hash → Option Tree
merkle_tree row_hashes = join (length row_hashes) (map leaf row_hashes)

module _ (sha256 : Sha256) where
  abbrev pub tree_hash : Tree → Hash
  tree_hash (leaf row_hash) = leaf_hash sha256 row_hash
  tree_hash (node l r) = node_hash sha256 (tree_hash l) (tree_hash r)

  next_level-map :
      (ts : List Tree) → next_level sha256 (map tree_hash ts) ≡ map tree_hash (pair_trees ts)
  unfolding next_level pair_trees
  next_level-map [] = refl
  next_level-map (t ∷ []) = refl
  next_level-map (t ∷ u ∷ ts) = ap (◌∷◌ (tree_hash (node t u))) (next_level-map ts)

  climb-map :
      (fuel : ℕ) (ts : List Tree)
      → climb sha256 fuel (map tree_hash ts) ≡ Option.map tree_hash (join fuel ts)
  unfolding climb join
  climb-map zero ts = refl
  climb-map (suc fuel) [] = refl
  climb-map (suc fuel) (t ∷ []) = refl
  climb-map (suc fuel) (t ∷ u ∷ ts) =
      ap (climb sha256 fuel) (next_level-map (t ∷ u ∷ ts))
      ∙ climb-map fuel (pair_trees (t ∷ u ∷ ts))

  map-leaf : (hs : List Hash) → map tree_hash (map leaf hs) ≡ map (leaf_hash sha256) hs
  map-leaf [] = refl
  map-leaf (h ∷ hs) = ap (◌∷◌ (leaf_hash sha256 h)) (map-leaf hs)

  -- The loops of `compute_root` compute the hash of the Merkle tree over the row hashes.
  pub compute_root-merkle_tree :
      (row_hashes : List Hash)
      → compute_root sha256 row_hashes ≡ Option.map tree_hash (merkle_tree row_hashes)
  unfolding compute_root merkle_tree
  compute_root-merkle_tree row_hashes =
      ap (climb sha256 (length row_hashes)) (sym (map-leaf row_hashes))
      ∙ climb-map (length row_hashes) (map leaf row_hashes)

-- `ys` starts with `xs`.
abbrev pub Extends : List Hash → List Hash → Type 0
Extends xs ys = (extra : List Hash) × (ys ≡ xs ++ extra)

Extends-cons : (h xs ys : List Hash) → Extends xs ys → Extends (h ++ xs) (h ++ ys)
Extends-cons h xs ys (extra, e) = (extra, rw e (sym (append_assoc h xs extra)))

Extends-trans : (xs ys zs : List Hash) → Extends xs ys → Extends ys zs → Extends xs zs
Extends-trans xs ys zs (e, p) (f, q) = (e ++ f, q ∙ rw p (append_assoc xs e f))

-- Of two starts of one list, one starts with the other.
pub Extends-compare : (xs ys e f : List Hash) → xs ++ e ≡ ys ++ f → Extends xs ys ⊎ Extends ys xs
Extends-compare [] ys e f p = inl (ys, refl)
Extends-compare (x ∷ xs) [] e f p = inr (x ∷ xs, refl)
Extends-compare (x ∷ xs) (y ∷ ys) e f p = elim (Extends-compare xs ys e f (tail-eq_of_cons-eq p)) [
  | inl (g, q) ↦ inl (g, ap₂ ◌∷◌ (sym (head-eq_of_cons-eq p)) q)
  | inr (g, q) ↦ inr (g, ap₂ ◌∷◌ (head-eq_of_cons-eq p) q)
]

pair_trees-Extends : (ts : List Tree) → Extends (forest_leaves ts) (forest_leaves (pair_trees ts))
unfolding pair_trees
pair_trees-Extends [] = ([], refl)
pair_trees-Extends (t ∷ []) = (leaves t, simp append-nil)
pair_trees-Extends (t ∷ u ∷ ts) =
    let (extra, e) = Extends-cons (leaves t ++ leaves u) _ _ (pair_trees-Extends ts) in
    (extra, e ∙ simp append_assoc)

join-Extends :
    (fuel : ℕ) (ts : List Tree) (t : Tree)
    → join fuel ts ≡ some t
    → Extends (forest_leaves ts) (leaves t)
unfolding join
join-Extends zero ts t h = cc
join-Extends (suc fuel) [] t h = cc
join-Extends (suc fuel) (u ∷ []) t h =
    let same : u ≡ t = cc h in ([], rw (← same) (simp append-nil))
join-Extends (suc fuel) (u ∷ v ∷ ts) t h =
    Extends-trans _ _ _ (pair_trees-Extends (u ∷ v ∷ ts))
      (join-Extends fuel (pair_trees (u ∷ v ∷ ts)) t h)

forest_leaves-leaf : (hs : List Hash) → forest_leaves (map leaf hs) ≡ hs
forest_leaves-leaf [] = refl
forest_leaves-leaf (h ∷ hs) = ap (◌∷◌ h) (forest_leaves-leaf hs)

-- The leaves of the tree are the row hashes, and after them only repetitions.
pub merkle_tree-Extends :
    (hs : List Hash) (t : Tree) → merkle_tree hs ≡ some t → Extends hs (leaves t)
unfolding merkle_tree
merkle_tree-Extends hs t h =
    rw (forest_leaves-leaf hs) at (join-Extends (length hs) (map leaf hs) t h)
