-- ===== src/ChainCore/Chain.antt =====
-- crates/chain-core/src/chain.rs: the hash that links a row to the row before it.
pub mod Evidence
use trackward.Prelude.{ℕ, List, [], ◌∷◌, ◌++◌, Bytes, ascii, replicate}
use trackward.ChainCore.Hashing.{Hash, Sha256}

-- `b"trackward-chain-v1\0"`
abbrev pub chain_domain : Bytes
chain_domain = ascii "trackward-chain-v1" ++ 0 ∷ []

-- 32 zero bytes stand for the row before the first.
abbrev pub genesis_prev : Hash
genesis_prev = replicate 32 0

module _ (sha256 : Sha256) where
  unfoldable pub compute_row_hash : Hash → Bytes → Hash
  compute_row_hash prev_hash row_bytes = sha256 (chain_domain ++ (prev_hash ++ row_bytes))
