-- ===== src/ChainCore/Chain/Evidence.antt =====
-- The last hash of a chain commits to every row of it.
use trackward.Prelude.{
  ◌≡◌, refl, sym, ap, ap₂, ◌∙◌, ◌⊎◌, inl, inr, List, [], ◌∷◌, ◌++◌, Bytes, append_injective, take,
  bytes_eq, bytes_eq_iff, false,
}
use trackward.ChainCore.Hashing.{Hash, IsHash, Sha256, HashesTo32, Collision, preimages}
use trackward.ChainCore.Chain.{chain_domain, genesis_prev, compute_row_hash}
use trackward.ChainCore.Merkle.{merkle_leaf_domain, merkle_node_domain, leaf_hash, node_hash}

-- The first eleven bytes tell the domain of a row link from those of the Merkle tree.
heads_differ :
    (d : Bytes) (xs ys : Bytes)
    → take 11 (d ++ ys) ≡ take 11 d
    → bytes_eq (take 11 chain_domain) (take 11 d) ≡ false
    → ¬ (chain_domain ++ xs ≡ d ++ ys)
heads_differ d xs ys start differ e =
    let same : take 11 chain_domain ≡ take 11 d = ap (take 11) e ∙ start in
    cc ((bytes_eq_iff _ _).1 same, differ)

module _ (sha256 : Sha256) where
  -- The hash that ends a chain of row bytes, the newest row first.
  abbrev pub tail_hash : List Bytes → Hash
  tail_hash [] = genesis_prev
  tail_hash (row ∷ older) = compute_row_hash sha256 (tail_hash older) row

  -- SHA-256 collides, or an input is known that it takes to 32 zero bytes.
  abbrev pub Broken : Type 0
  Broken = Collision sha256 ⊎ ((input : Bytes) × (sha256 input ≡ genesis_prev))

module _ (sha256 : Sha256) (to32 : HashesTo32 sha256) where
  tail_hash-IsHash : (rows : List Bytes) → IsHash (tail_hash sha256 rows)
  unfolding compute_row_hash
  tail_hash-IsHash [] = refl
  tail_hash-IsHash (row ∷ older) = to32 _

  -- A link determines the row and the hash before it, up to a collision.
  pub compute_row_hash_injective :
      (prev prev' : Hash) (row row' : Bytes)
      → IsHash prev
      → IsHash prev'
      → compute_row_hash sha256 prev row ≡ compute_row_hash sha256 prev' row'
      → ((prev ≡ prev') × (row ≡ row')) ⊎ Collision sha256
  unfolding compute_row_hash
  compute_row_hash_injective prev prev' row row' hp hp' e = elim (preimages sha256 _ _ e) [
    | inl p ↦
        let q = append_injective chain_domain chain_domain (prev ++ row) (prev' ++ row') refl p in
        inl (append_injective prev prev' row row' (hp ∙ sym hp') q.1)
    | inr c ↦ inr c
  ]

  -- Two chains, of whatever lengths, that end in one hash hold the same rows, or SHA-256 is broken.
  pub tail_hash_injective :
      (rows rows' : List Bytes)
      → tail_hash sha256 rows ≡ tail_hash sha256 rows'
      → (rows ≡ rows') ⊎ Broken sha256
  unfolding compute_row_hash
  tail_hash_injective [] [] e = inl refl
  tail_hash_injective [] (row ∷ older) e = inr (inr (_, sym e))
  tail_hash_injective (row ∷ older) [] e = inr (inr (_, e))
  tail_hash_injective (row ∷ older) (row' ∷ older') e =
      extend
        (compute_row_hash_injective _ _ row row' (tail_hash-IsHash older) (tail_hash-IsHash older')
          e)
        (tail_hash_injective older older')
    where
      extend :
          ((tail_hash sha256 older ≡ tail_hash sha256 older') × (row ≡ row')) ⊎ Collision sha256
          → (tail_hash sha256 older ≡ tail_hash sha256 older' → (older ≡ older') ⊎ Broken sha256)
          → (row ∷ older ≡ row' ∷ older') ⊎ Broken sha256
      extend (inr c) below = inr (inl c)
      extend (inl (p, q)) below = elim (below p) [
        | inl same ↦ inl (ap₂ ◌∷◌ q same)
        | inr broken ↦ inr broken
      ]

  -- The hash of a row link is never the hash of a leaf or of an inner node of a Merkle tree, unless
  -- SHA-256 collides.
  pub row_hash-ne-merkle :
      (prev : Hash) (row : Bytes) (h l r : Hash)
      → (compute_row_hash sha256 prev row ≡ leaf_hash sha256 h)
        ⊎ (compute_row_hash sha256 prev row ≡ node_hash sha256 l r)
      → Collision sha256
  unfolding compute_row_hash leaf_hash node_hash bytes_eq
  row_hash-ne-merkle prev row h l r (inl e) = elim (preimages sha256 _ _ e) [
    | inl p ↦ absurd (heads_differ merkle_leaf_domain (prev ++ row) h refl refl p)
    | inr c ↦ c
  ]
  row_hash-ne-merkle prev row h l r (inr e) = elim (preimages sha256 _ _ e) [
    | inl p ↦ absurd (heads_differ merkle_node_domain (prev ++ row) (l ++ r) refl refl p)
    | inr c ↦ c
  ]
