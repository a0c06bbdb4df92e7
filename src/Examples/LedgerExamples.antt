-- ===== src/Examples/LedgerExamples.antt =====
-- The results on services/ledger at a run with two events.
use trackward.Prelude.{
  ℕ, ◌≡◌, refl, ◌⊎◌, [], bytes_eq, lex_le, to_be_bytes, i64_bits, none, some, ok, err, arith,
}
use trackward.ChainCore.Chain.Evidence.{Broken}
use trackward.ChainCore.Encode.{Timestamp}
use trackward.Ledger.Db.{Row, Table, newer}
use trackward.Ledger.Chain.{events, chained_row, insert_chained}
use trackward.Ledger.Chain.Spec.{IsSound, IsChain}
use trackward.Ledger.Chain.Linear.{insert_chained-IsSound, insert_chained_late_forks}
use trackward.Ledger.Chain.Tamper.{SameRows, HasFields, IsChain-tamper_evident}
use trackward.Examples.Fixtures.{
  checksum_sha256, checksum_sha256-to32, tick_text, event_fields, event_fields-IsField, row_id,
  run_a,
}

-- The table after an insertion.
abbrev pub inserted : (seq : ℕ) → Timestamp → Table → Table
inserted seq now rows =
    elim (insert_chained checksum_sha256 tick_text events run_a (row_id seq) now (event_fields seq)
      rows) [ ok (row, rows') ↦ rows' | err e ↦ rows ]

abbrev pub inserted_row : (seq : ℕ) → Timestamp → Table → Row
inserted_row seq now rows =
    elim (insert_chained checksum_sha256 tick_text events run_a (row_id seq) now (event_fields seq)
      rows) [
        | ok (row, rows') ↦ row
        | err e ↦ chained_row run_a (row_id seq) now [] (record { prev_hash = none; row_hash = [] })
      ]

abbrev pub one_row : Table
one_row = inserted 1 100 []

abbrev pub two_rows : Table
two_rows = inserted 2 200 one_row

one_row-IsSound : IsSound checksum_sha256 tick_text events one_row
unfolding insert_chained lex_le bytes_eq
one_row-IsSound =
    insert_chained-IsSound checksum_sha256 tick_text events run_a (row_id 1) 100 (event_fields 1) []
      (λ run. (tt, tt)) tt refl

insert_chained-IsSound_example : IsSound checksum_sha256 tick_text events two_rows
unfolding insert_chained lex_le bytes_eq newer to_be_bytes i64_bits
insert_chained-IsSound_example =
    insert_chained-IsSound checksum_sha256 tick_text events run_a (row_id 2) 200 (event_fields 2)
      one_row one_row-IsSound (refl, tt) refl

-- A row whose transaction started before the newest row of its run committed.
abbrev pub late_table : Table
late_table = inserted 3 150 two_rows

insert_chained_late_forks_example :
    ((inserted_row 3 150 two_rows).prev_hash ≡ some (inserted_row 2 200 one_row).row_hash)
    × ((inserted_row 4 300 late_table).prev_hash ≡ some (inserted_row 2 200 one_row).row_hash)
unfolding insert_chained lex_le bytes_eq newer to_be_bytes i64_bits
insert_chained_late_forks_example =
    insert_chained_late_forks checksum_sha256 tick_text events run_a (row_id 3) (row_id 4) 150 300
      (event_fields 3) (event_fields 4) two_rows late_table {top = inserted_row 2 200 one_row}
      {late = inserted_row 3 150 two_rows} {next = inserted_row 4 300 late_table}
      {rows'' = inserted 4 300 late_table} refl refl refl refl

two_rows-HasFields : HasFields checksum_sha256 tick_text events two_rows
unfolding insert_chained lex_le bytes_eq newer to_be_bytes i64_bits
two_rows-HasFields =
    (event_fields-IsField 2 (omega arith), (event_fields-IsField 1 (omega arith), tt))

two_rows-IsChain : IsChain checksum_sha256 tick_text events two_rows
unfolding insert_chained lex_le bytes_eq newer to_be_bytes i64_bits
two_rows-IsChain = (
  record { follows = refl; row_bytes = _; encoded = refl; hashed = refl },
  (record { follows = refl; row_bytes = _; encoded = refl; hashed = refl }, tt),
)

IsChain-tamper_evident_example :
    SameRows checksum_sha256 tick_text events two_rows two_rows ⊎ Broken checksum_sha256
unfolding insert_chained lex_le bytes_eq newer to_be_bytes i64_bits
IsChain-tamper_evident_example =
    IsChain-tamper_evident checksum_sha256 tick_text events two_rows two_rows checksum_sha256-to32
      two_rows-HasFields two_rows-HasFields two_rows-IsChain two_rows-IsChain refl
