-- ===== src/Ledger/Chain.antt =====
-- services/ledger/src/chain.rs: the link that a new row gets.
pub mod Spec
pub mod Linear
pub mod Tamper
use mathlib.Core.Option
use Prim.Native.Nat.{bit_xor}
use trackward.Prelude.{
  ℕ, zero, suc, ◌+◌, ◌*◌, ◌%◌, ◌^◌, List, [], ◌∷◌, Bytes, ascii, length, Option, none, some, Result,
  ok, err, ◌>>=◌, ◌==◌, if◌then◌else◌,
}
use trackward.ChainCore.Hashing.{Hash, Sha256}
use trackward.ChainCore.Chain.{genesis_prev, compute_row_hash}
use trackward.ChainCore.CanonicalJson.Syntax.{Panic}
use trackward.ChainCore.Encode.{CanonicalField, Rfc3339, Timestamp, canonical_row_bytes}
use trackward.Ledger.Db.{Error, internal, panicked, Row, Table, chain_of, latest}

pub data ChainTable : Type 0 where
  events artifacts tool_invocations side_effects guardrails human_approvals bias_slices : ChainTable

-- `ChainTable::name`
unfoldable pub table_name : ChainTable → Bytes
table_name events = ascii "events"
table_name artifacts = ascii "artifacts"
table_name tool_invocations = ascii "tool_invocations"
table_name side_effects = ascii "side_effects"
table_name guardrails = ascii "guardrails"
table_name human_approvals = ascii "human_approvals"
table_name bias_slices = ascii "bias_slices"

unfoldable pub lock_discriminator : ChainTable → ℕ
lock_discriminator events = 0xE7E1_0001_0000_0000
lock_discriminator artifacts = 0xA471_0002_0000_0000
lock_discriminator tool_invocations = 0x7001_0003_0000_0000
lock_discriminator side_effects = 0x51DE_0004_0000_0000
lock_discriminator guardrails = 0x6A21_0005_0000_0000
lock_discriminator human_approvals = 0xB0A0_0006_0000_0000
lock_discriminator bias_slices = 0xB1A5_0007_0000_0000

-- The loop of `uuid_to_u64`, from byte `i` on.
unfoldable pub fold_uuid : ℕ → ℕ → Bytes → ℕ
fold_uuid i key [] = key
fold_uuid i key (b ∷ bytes) = fold_uuid (i + 1) (bit_xor key (b * 2 ^ (i % 8 * 8) % 2 ^ 64)) bytes

unfoldable pub uuid_to_u64 : Bytes → ℕ
unfolding fold_uuid
uuid_to_u64 id = fold_uuid 0 0 id

-- The 64 bits of the key; `as i64` keeps them.
unfoldable pub chain_lock_key : ChainTable → Bytes → ℕ
unfolding uuid_to_u64 lock_discriminator
chain_lock_key table run_id = bit_xor (uuid_to_u64 run_id) (lock_discriminator table)

pub record ChainLink : Type 0 where
  pub prev_hash : Option Bytes
  pub row_hash : Bytes

-- The row that an INSERT with this link persists.
abbrev pub chained_row :
    (run_id id : Bytes) → (now : Timestamp) → List CanonicalField → ChainLink → Row
chained_row run_id id now fields link = record {
  id = id;
  run_id = some run_id;
  created_at = now;
  fields = fields;
  prev_hash = link.prev_hash;
  row_hash = link.row_hash;
}

-- The `match` that yields `prev_arr`.
unfoldable pub prev_array : Option Bytes → Result Error Hash
prev_array none = ok genesis_prev
prev_array (some bytes) = if length bytes == 32 then ok bytes else err internal

-- A panic inside a handler ends its task.
abbrev pub or_panic {ℓ} : {A : Type ℓ} → Result Panic A → Result Error A
or_panic (ok a) = ok a
or_panic (err p) = err (panicked p)

module _ (sha256 : Sha256) (rfc3339 : Rfc3339) where
  -- `rows` is the table as the transaction sees it when it holds the chain's lock.
  unfoldable pub compute_chain :
      Table → ChainTable → Bytes → List CanonicalField → Result Error ChainLink
  unfolding chain_of latest prev_array table_name canonical_row_bytes compute_row_hash
  compute_chain rows table run_id fields = do
    let prev = Option.map (λ (r : Row). r.row_hash) (latest (chain_of run_id rows))
    prev_arr ← prev_array prev
    row_bytes ← or_panic (canonical_row_bytes rfc3339 (table_name table) fields)
    ok (record { prev_hash = prev; row_hash = compute_row_hash sha256 prev_arr row_bytes })

  -- What every write handler does with the link: insert the row in the same transaction. `now` is
  -- the start of the transaction, which `created_at` defaults to.
  unfoldable pub insert_chained :
      ChainTable
      → (run_id id : Bytes) → (now : Timestamp) → List CanonicalField
      → Table
      → Result Error (Row × Table)
  unfolding compute_chain
  insert_chained table run_id id now fields rows = do
    link ← compute_chain rows table run_id fields
    let row = chained_row run_id id now fields link
    ok (row, row ∷ rows)
