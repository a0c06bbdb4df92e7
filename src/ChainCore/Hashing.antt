-- ===== src/ChainCore/Hashing.antt =====
-- What the crate takes from the `sha2` crate: SHA-256 as a parameter, and what it means that a
-- statement about hashes holds up to a collision of it.
use trackward.Prelude.{◌≡◌, ◌≢◌, ◌⊎◌, inl, inr, length, Bytes, Bytes_discrete}

-- A 32-byte digest is the list of its bytes.
abbrev pub Hash : Type 0
Hash = Bytes

abbrev pub IsHash : Hash → Type 0
IsHash h = length h ≡ 32

-- The digest function, from the whole input to the 32 bytes.
abbrev pub Sha256 : Type 0
Sha256 = Bytes → Hash

-- What SHA-256 documents of its output.
abbrev pub HashesTo32 : Sha256 → Type 0
HashesTo32 sha256 = (input : Bytes) → IsHash (sha256 input)

-- Two different inputs with one digest.
abbrev pub Collision : Sha256 → Type 0
Collision sha256 = (a : Bytes) × (b : Bytes) × (a ≢ b) × (sha256 a ≡ sha256 b)

module _ (sha256 : Sha256) where
  -- Equal digests come from equal inputs, or show a collision.
  pub preimages : (a b : Bytes) → sha256 a ≡ sha256 b → (a ≡ b) ⊎ Collision sha256
  preimages a b e = elim (Bytes_discrete a b) [ yes p ↦ inl p | no p ↦ inr (a, b, p, e) ]
