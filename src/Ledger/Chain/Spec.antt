-- ===== src/Ledger/Chain/Spec.antt =====
-- What an auditor checks of a chain: the links and the order of its rows.
use trackward.Prelude.{◌≡◌, [], ◌∷◌, Bytes, Option, none, some, ok, true, All}
use trackward.ChainCore.Hashing.{Hash, Sha256}
use trackward.ChainCore.Chain.{genesis_prev, compute_row_hash}
use trackward.ChainCore.Encode.{Rfc3339, canonical_row_bytes}
use trackward.Ledger.Db.{Row, Table, newer, chain_of}
use trackward.Ledger.Chain.{ChainTable, table_name}

-- The hash of the newest row of a chain.
abbrev pub head_hash : Table → Option Bytes
head_hash [] = none
head_hash (r ∷ rs) = some r.row_hash

-- The hash that a link is computed over: 32 zero bytes stand for no row before.
abbrev pub or_genesis : Option Bytes → Hash
or_genesis none = genesis_prev
or_genesis (some h) = h

-- Every row is newer than the rows under it.
abbrev pub IsOrdered : Table → Type 0
IsOrdered [] = Unit
IsOrdered (r ∷ rs) = All (λ s. newer r s ≡ true) rs × IsOrdered rs

module _ (sha256 : Sha256) (rfc3339 : Rfc3339) (table : ChainTable) where
  -- `r` names the hash of the row before it, and its own hash is recomputed from that and its
  -- columns.
  pub record IsLink (older : Table) (r : Row) : Type 0 where
    pub follows : r.prev_hash ≡ head_hash older
    pub row_bytes : Bytes
    pub encoded : canonical_row_bytes rfc3339 (table_name table) r.fields ≡ ok row_bytes
    pub hashed : r.row_hash ≡ compute_row_hash sha256 (or_genesis r.prev_hash) row_bytes

  abbrev pub IsChain : Table → Type 0
  IsChain [] = Unit
  IsChain (r ∷ rs) = IsLink rs r × IsChain rs

  -- The state of a table in which each run has one chain, in the order of time.
  abbrev pub IsSound : Table → Type 0
  IsSound rows = (run : Bytes) → IsChain (chain_of run rows) × IsOrdered (chain_of run rows)
