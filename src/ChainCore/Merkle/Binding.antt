-- ===== src/ChainCore/Merkle/Binding.antt =====
-- What a root says about the row hashes it was computed from.
use mathlib.Core.Option
use trackward.Prelude.{
  ◌<◌, ◌≡◌, refl, sym, ap, ap₂, ◌∙◌, ◌⊎◌, inl, inr, List, [], ◌∷◌, ◌++◌, Option, none, some, length,
  append_injective, append-nil, length-append, bytes_eq, bytes_eq_iff, Option-cases, arith,
}
use trackward.ChainCore.Hashing.{Hash, IsHash, Sha256, HashesTo32, Collision, preimages}
use trackward.ChainCore.Merkle.{
  merkle_leaf_domain, merkle_node_domain, leaf_hash, node_hash, compute_root,
}
use trackward.ChainCore.Merkle.Rounds.{compute_root_total}
use trackward.ChainCore.Merkle.Tree.{
  Tree, leaf, node, tree_hash, merkle_tree, compute_root-merkle_tree, Extends, merkle_tree-Extends,
  Extends-compare,
}

domains_differ : ¬ (merkle_leaf_domain ≡ merkle_node_domain)
unfolding bytes_eq
domains_differ e = let same = (bytes_eq_iff merkle_leaf_domain merkle_node_domain).1 e in cc same

Extends-eq : (xs ys : List Hash) → length xs ≡ length ys → Extends xs ys → xs ≡ ys
Extends-eq xs ys same ([], e) = sym (append-nil xs) ∙ sym e
Extends-eq xs ys same (z ∷ zs, e) = absurd (omega (arith, ap length e, length-append xs (z ∷ zs)))

module _ (sha256 : Sha256) (to32 : HashesTo32 sha256) where
  -- A leaf and an inner node never hash alike, or a collision is at hand: no inner node passes for
  -- a leaf.
  pub leaf-ne-node :
      (row_hash l r : Hash) → leaf_hash sha256 row_hash ≡ node_hash sha256 l r → Collision sha256
  unfolding leaf_hash node_hash
  leaf-ne-node row_hash l r e = elim (preimages sha256 _ _ e) [
    | inl p ↦ absurd (
        domains_differ
          (append_injective merkle_leaf_domain merkle_node_domain row_hash (l ++ r) refl p).0)
    | inr c ↦ c
  ]

  leaf_hash_injective :
      (a b : Hash) → leaf_hash sha256 a ≡ leaf_hash sha256 b → (a ≡ b) ⊎ Collision sha256
  unfolding leaf_hash
  leaf_hash_injective a b e = elim (preimages sha256 _ _ e) [
    | inl p ↦ inl (append_injective merkle_leaf_domain merkle_leaf_domain a b refl p).1
    | inr c ↦ inr c
  ]

  node_hash_injective :
      (l r l' r' : Hash)
      → length l ≡ length l'
      → node_hash sha256 l r ≡ node_hash sha256 l' r'
      → ((l ≡ l') × (r ≡ r')) ⊎ Collision sha256
  unfolding node_hash
  node_hash_injective l r l' r' same e = elim (preimages sha256 _ _ e) [
    | inl p ↦
        let q = append_injective merkle_node_domain merkle_node_domain (l ++ r) (l' ++ r') refl p in
        inl (append_injective l l' r r' same q.1)
    | inr c ↦ inr c
  ]

  tree_hash-IsHash : (t : Tree) → IsHash (tree_hash sha256 t)
  unfolding leaf_hash node_hash
  tree_hash-IsHash (leaf h) = to32 _
  tree_hash-IsHash (node l r) = to32 _

  -- A root hash determines the tree under it, up to a collision.
  pub tree_hash_injective :
      (t u : Tree) → tree_hash sha256 t ≡ tree_hash sha256 u → (t ≡ u) ⊎ Collision sha256
  tree_hash_injective (leaf a) (leaf b) e = elim (leaf_hash_injective a b e) [
    | inl p ↦ inl (ap leaf p)
    | inr c ↦ inr c
  ]
  tree_hash_injective (leaf a) (node l r) e = inr (leaf-ne-node a _ _ e)
  tree_hash_injective (node l r) (leaf a) e = inr (leaf-ne-node a _ _ (sym e))
  tree_hash_injective (node l r) (node l' r') e =
      both (node_hash_injective _ _ _ _ (tree_hash-IsHash l ∙ sym (tree_hash-IsHash l')) e)
        (tree_hash_injective l l') (tree_hash_injective r r')
    where
      both :
          ((tree_hash sha256 l ≡ tree_hash sha256 l') × (tree_hash sha256 r ≡ tree_hash sha256 r'))
            ⊎ Collision sha256
          → (tree_hash sha256 l ≡ tree_hash sha256 l' → (l ≡ l') ⊎ Collision sha256)
          → (tree_hash sha256 r ≡ tree_hash sha256 r' → (r ≡ r') ⊎ Collision sha256)
          → (node l r ≡ node l' r') ⊎ Collision sha256
      both (inr c) left right = inr c
      both (inl (p, q)) left right = elim (left p) [
        | inr c ↦ inr c
        | inl a ↦ elim (right q) [ inr c ↦ inr c | inl b ↦ inl (ap₂ node a b) ]
      ]

  optional_roots :
      (t? u? : Option Tree)
      → Option.map (tree_hash sha256) t? ≡ Option.map (tree_hash sha256) u?
      → (t? ≡ u?) ⊎ Collision sha256
  optional_roots none none e = inl refl
  optional_roots none (some u) e = cc e
  optional_roots (some t) none e = cc e
  optional_roots (some t) (some u) e = elim (tree_hash_injective t u (cc e)) [
    | inl p ↦ inl (ap some p)
    | inr c ↦ inr c
  ]

  same_tree :
      (hs ks : List Hash)
      → compute_root sha256 hs ≡ compute_root sha256 ks
      → (merkle_tree hs ≡ merkle_tree ks) ⊎ Collision sha256
  same_tree hs ks e =
      optional_roots (merkle_tree hs) (merkle_tree ks)
        (sym (compute_root-merkle_tree sha256 hs) ∙ e ∙ compute_root-merkle_tree sha256 ks)

  root_missing : (hs : List Hash) → 0 < length hs → ¬ (merkle_tree hs ≡ none)
  root_missing hs pos gone =
      let (root, r) = compute_root_total sha256 hs pos in
      let lost : compute_root sha256 hs ≡ none =
        compute_root-merkle_tree sha256 hs ∙ ap (Option.map (tree_hash sha256)) gone in
      cc (r, lost)

  -- Equal roots of two non-empty sequences: one sequence starts with the other, or SHA-256 collides.
  pub compute_root-Extends :
      (hs ks : List Hash)
      → 0 < length hs
      → compute_root sha256 hs ≡ compute_root sha256 ks
      → (Extends hs ks ⊎ Extends ks hs) ⊎ Collision sha256
  compute_root-Extends hs ks pos e = elim (same_tree hs ks e) [
    | inr c ↦ inr c
    | inl p ↦ elim (Option-cases (merkle_tree hs)) [
      | inl gone ↦ absurd (root_missing hs pos gone)
      | inr (t, q) ↦
          let (extra, a) = merkle_tree-Extends hs t q in
          let (extra', b) = merkle_tree-Extends ks t (sym p ∙ q) in
          inl (Extends-compare hs ks extra extra' (sym a ∙ b))
    ]
  ]

  -- Equal roots of two sequences of one length: the sequences are equal, or SHA-256 collides.
  pub compute_root_injective :
      (hs ks : List Hash)
      → length hs ≡ length ks
      → compute_root sha256 hs ≡ compute_root sha256 ks
      → (hs ≡ ks) ⊎ Collision sha256
  compute_root_injective [] [] same e = inl refl
  compute_root_injective [] (k ∷ ks) same e = absurd (omega arith)
  compute_root_injective (h ∷ hs) ks same e =
      elim (compute_root-Extends (h ∷ hs) ks (omega arith) e) [
        | inr c ↦ inr c
        | inl (inl x) ↦ inl (Extends-eq (h ∷ hs) ks same x)
        | inl (inr x) ↦ inl (sym (Extends-eq ks (h ∷ hs) (sym same) x))
      ]
