-- ===== src/Ledger/Db.antt =====
-- What the ledger's handlers keep in Postgres, and how they fail (services/ledger/src/errors.rs).
--
-- A table is the list of its committed rows, the newest commit first. A row's columns are the
-- canonical fields that its handler hashes, next to the bookkeeping columns of the chain.
use trackward.Prelude.{
  ℕ, List, [], ◌∷◌, Bytes, bytes_eq, Bool, false, not, ◌&&◌, ◌||◌, ltb, ◌==◌, lex_le, Option, none,
  some, if◌then◌else◌, replicate,
}
use trackward.ChainCore.Encode.{CanonicalField, Timestamp}
use trackward.ChainCore.CanonicalJson.Syntax.{Panic}

pub data Error : Type 0 where
  not_found db_error s3_error bad_request conflict internal : Error
  hash_mismatch : Bytes → Bytes → Error
  -- A panic of the handler's task, which no arm of `Error` stands for.
  panicked : Panic → Error
  root_panicked score_panicked : Error

-- The status of `into_response`; a panicking task closes the connection with no status.
unfoldable pub status_code : Error → Option ℕ
status_code not_found = some 404
status_code db_error = some 500
status_code s3_error = some 500
status_code (hash_mismatch expected actual) = some 409
status_code bad_request = some 400
status_code conflict = some 409
status_code internal = some 500
status_code (panicked p) = none
status_code root_panicked = none
status_code score_panicked = none

pub record Row : Type 0 where
  pub id : Bytes
  pub run_id : Option Bytes
  pub created_at : Timestamp
  pub fields : List CanonicalField
  pub prev_hash : Option Bytes
  pub row_hash : Bytes

abbrev pub Table : Type 0
Table = List Row

-- All zeros mark a row that is in no chain (`LEGACY_ROW_HASH`).
abbrev pub legacy_row_hash : Bytes
legacy_row_hash = replicate 32 0

-- `run_id = $1`, which is not true of a NULL.
unfoldable pub of_run : Bytes → Row → Bool
of_run run r = elim r.run_id [ some id ↦ bytes_eq id run | none ↦ false ]

-- `a` comes before `b` under `ORDER BY created_at DESC, id DESC`.
unfoldable pub newer : Row → Row → Bool
newer a b =
    ltb b.created_at a.created_at || (a.created_at == b.created_at && not (lex_le a.id b.id))

-- `WHERE run_id = $1 AND row_hash <> $2`
unfoldable pub chain_of : Bytes → Table → Table
unfolding of_run
chain_of run [] = []
chain_of run (r ∷ rs) =
    if of_run run r && not (bytes_eq r.row_hash legacy_row_hash)
    then r ∷ chain_of run rs
    else chain_of run rs

-- `ORDER BY created_at DESC, id DESC LIMIT 1`
unfoldable pub latest : Table → Option Row
unfolding newer
latest [] = none
latest (r ∷ rs) = elim (latest rs) [ none ↦ some r | some s ↦ if newer s r then some s else some r ]
