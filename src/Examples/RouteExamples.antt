-- ===== src/Examples/RouteExamples.antt =====
-- The results on services/ledger/src/routes at a run with events and an artifact.
use trackward.Prelude.{
  ℕ, suc, ◌*◌, ◌≡◌, refl, ◌⊎◌, Bool, List, [], ◌∷◌, Bytes, ascii, bytes_eq, lex_le, to_be_bytes,
  i64_bits, length, none, some, ok, err, arith, true, to_i64,
}
use trackward.ChainCore.Hashing.{Collision}
use trackward.ChainCore.CanonicalJson.Syntax.{string}
use trackward.ChainCore.CanonicalJson.{to_canonical_string}
use trackward.Ledger.Db.{Row, newer}
use trackward.Ledger.Chain.{events, lock_discriminator}
use trackward.Ledger.Routes.Inputs.{CreateEvent}
use trackward.Ledger.Routes.{Database, append, seq_of}
use trackward.Ledger.Routes.Sequence.{IsNumbered, run_seqs, append-IsNumbered}
use trackward.Ledger.Routes.Binding.{SameEvent, next_seq, append_binds}
use trackward.Ledger.Routes.Blobs.{BlobStore, Part, find_row, str_column, upload, download}
use trackward.Ledger.Routes.Blobs.Integrity.{download_intact}
use trackward.Examples.Fixtures.{
  checksum_sha256-to32, run_a, run_b, row_id, no_json, toy_external-IsExternal,
}

abbrev empty_database : Database
empty_database = record {
  runs = run_b ∷ run_a ∷ [];
  ledger = record { tables = λ table. []; anchors = [] };
}

abbrev note_event : CreateEvent
note_event = record { kind = ascii "note"; body = string (ascii "hi"); occurred_at = 5 }

abbrev appended : (seq : ℕ) → (run : Bytes) → Database → Database
appended seq run db =
    elim (append no_json (ascii "ann") (row_id seq) (100 * seq) run note_event db) [
      | ok (row, db') ↦ db'
      | err e ↦ db
    ]

abbrev spare_row : Row
spare_row = record {
  id = [];
  run_id = none;
  created_at = 0;
  fields = [];
  prev_hash = none;
  row_hash = [];
}

abbrev appended_row : (seq : ℕ) → (run : Bytes) → Database → Row
appended_row seq run db =
    elim (append no_json (ascii "ann") (row_id seq) (100 * seq) run note_event db) [
      | ok (row, db') ↦ row
      | err e ↦ spare_row
    ]

abbrev two_events : Database
two_events = appended 2 run_b (appended 1 run_a empty_database)

one_event-IsNumbered : IsNumbered (appended 1 run_a empty_database)
unfolding append newer lex_le bytes_eq to_be_bytes i64_bits to_i64 to_canonical_string
    lock_discriminator
one_event-IsNumbered =
    (append-IsNumbered no_json (ascii "ann") (row_id 1) 100 run_a note_event empty_database
      {row = appended_row 1 run_a empty_database} (λ run. tt) refl).0

append-IsNumbered_example :
    IsNumbered (appended 2 run_a (appended 1 run_a empty_database))
    × (seq_of (appended_row 2 run_a (appended 1 run_a empty_database)).fields
        ≡ suc (length (run_seqs run_a ((appended 1 run_a empty_database).ledger.tables events))))
unfolding append newer lex_le bytes_eq to_be_bytes i64_bits to_i64 to_canonical_string
    lock_discriminator
append-IsNumbered_example =
    append-IsNumbered no_json (ascii "ann") (row_id 2) 200 run_a note_event
      (appended 1 run_a empty_database)
      {row = appended_row 2 run_a (appended 1 run_a empty_database)} one_event-IsNumbered refl

append_binds_example :
    SameEvent no_json.rfc3339
      (row_id 1)
      (row_id 1)
      run_a
      run_a
      (next_seq run_a empty_database)
      (next_seq run_a empty_database)
      (ascii "ann")
      (ascii "ann")
      note_event
      note_event
    ⊎ Collision no_json.sha256
unfolding append newer lex_le bytes_eq to_be_bytes i64_bits to_i64 to_canonical_string
    lock_discriminator
append_binds_example =
    append_binds no_json (ascii "ann") (ascii "ann") (row_id 1) (row_id 1) 100 100 run_a run_a
      note_event note_event empty_database empty_database
      {row = appended_row 1 run_a empty_database} {row' = appended_row 1 run_a empty_database}
      checksum_sha256-to32 (refl, refl, omega arith) (refl, refl, omega arith) refl refl refl

abbrev form_parts : List Part
form_parts =
    record { name = ascii "run_id"; text = some run_a; content = some run_a }
    ∷ record { name = ascii "file"; text = none; content = some (ascii "evidence") }
    ∷ []

abbrev empty_store : BlobStore
empty_store = record { reachable = true; blobs = [] }

abbrev uploaded : BlobStore × Database × Row
uploaded =
    elim (upload no_json some (ascii "ann") (row_id 3) 300 form_parts empty_store two_events) [
      | ok (store, ok (row, db)) ↦ (store, db, row)
      | _ ↦ (empty_store, two_events, spare_row)
    ]

-- Every text is the value of a header.
abbrev any_value : Bytes → Bool
any_value text = true

download_intact_example : (ascii "evidence" ≡ ascii "evidence") ⊎ Collision no_json.sha256
unfolding upload download append newer lex_le bytes_eq to_be_bytes i64_bits to_i64
    to_canonical_string str_column find_row lock_discriminator
download_intact_example =
    download_intact no_json some (toy_external-IsExternal (λ text. none)) any_value (row_id 3)
      uploaded.0 uploaded.1 uploaded.2 (ascii "evidence")
      {d = record {
        media_type = ascii "application/octet-stream";
        sha256_header = no_json.sha256 (ascii "evidence");
        body = ascii "evidence";
      }}
      refl refl refl
