-- ===== src/Ledger/Routes/Binding.antt =====
-- The hash of a written row says what was written.
use mathlib.Core.Option
use trackward.Prelude.{
  ℕ, ◌+◌, ◌^◌, pos, ◌<◌, ◌≡◌, refl, sym, ap, ◌∙◌, ◌⊎◌, inl, inr, List, [], Bytes, lex_le, Option,
  none, some, Result, ok, err, >>=-eq-ok, length, ==_iff, All, arith,
}
use trackward.ChainCore.Hashing.{Hash, IsHash, Sha256, HashesTo32, Collision}
use trackward.ChainCore.Chain.{genesis_prev, compute_row_hash}
use trackward.ChainCore.Chain.Evidence.{compute_row_hash_injective}
use trackward.ChainCore.CanonicalJson.{to_canonical_string}
use trackward.ChainCore.Encode.{
  CanonicalField, Rfc3339, Timestamp, canonical_row_bytes, sort_by_name,
}
use trackward.ChainCore.Encode.Values.{IsField}
use trackward.ChainCore.Encode.Binding.{SameFields, canonical_row_bytes_injective}
use trackward.External.{External}
use trackward.Ledger.Db.{Error, Row, Table, chain_of, latest}
use trackward.Ledger.Chain.{
  ChainTable, ChainLink, table_name, prev_array, or_panic, compute_chain, events,
}
use trackward.Ledger.Chain.Linear.{or_panic-ok}
use trackward.Ledger.Routes.Inputs.{CreateEvent}
use trackward.Ledger.Routes.Columns.{event_fields}
use trackward.Ledger.Routes.Sequence.{append-eq-ok}
use trackward.Ledger.Routes.{Database, max_seq, append}

prev_array-IsHash : (prev : Option Bytes) {arr : Hash} → prev_array prev ≡ ok arr → IsHash arr
unfolding prev_array
prev_array-IsHash none {arr} h = let e : genesis_prev ≡ arr = cc h in rw (← e) refl
prev_array-IsHash (some bytes) {arr} h = ground (arith, ==_iff (length bytes) 32)

module _ (sha256 : Sha256) (to32 : HashesTo32 sha256) (rfc3339 : Rfc3339) where
  link_parts :
      (rows : Table) (table : ChainTable) (run : Bytes) (fields : List CanonicalField)
      {link : ChainLink}
      → compute_chain sha256 rfc3339 rows table run fields ≡ ok link
      → (prev : Hash) × (bytes : Bytes) × IsHash prev
        × (canonical_row_bytes rfc3339 (table_name table) fields ≡ ok bytes)
        × (compute_row_hash sha256 prev bytes ≡ link.row_hash)
  unfolding compute_chain
  link_parts rows table run fields h =
      let prev = Option.map (λ (r : Row). r.row_hash) (latest (chain_of run rows)) in
      let (arr, hp, k) = >>=-eq-ok (prev_array prev) _ h in
      let (b, hb, e) =
        >>=-eq-ok (or_panic (canonical_row_bytes rfc3339 (table_name table) fields)) _ k in
      (arr, b, prev_array-IsHash prev hp, or_panic-ok _ hb, ap hash_of e)
    where
      hash_of : Result Error ChainLink → Bytes
      hash_of (ok link) = link.row_hash
      hash_of (err e) = []

  -- Two links with one hash were computed for one table and for columns with one content, whatever
  -- the states and the runs, or SHA-256 collides.
  pub compute_chain_binds :
      (rows rows' : Table) (table table' : ChainTable) (run run' : Bytes)
      (fields fields' : List CanonicalField) {link link' : ChainLink}
      → All IsField fields
      → All IsField fields'
      → compute_chain sha256 rfc3339 rows table run fields ≡ ok link
      → compute_chain sha256 rfc3339 rows' table' run' fields' ≡ ok link'
      → link.row_hash ≡ link'.row_hash
      → ((table_name table ≡ table_name table')
          × SameFields rfc3339 (sort_by_name fields) (sort_by_name fields'))
        ⊎ Collision sha256
  compute_chain_binds rows rows' table table' run run' fields fields' wf wf' h h' e =
      let (prev, b, hp, hb, eb) = link_parts rows table run fields h in
      let (prev', b', hp', hb', eb') = link_parts rows' table' run' fields' h' in
      elim (compute_row_hash_injective sha256 to32 prev prev' b b' hp hp' (eb ∙ e ∙ sym eb')) [
        | inr c ↦ inr c
        | inl (_, same) ↦ inl (
            canonical_row_bytes_injective rfc3339 (table_name table) (table_name table') fields
              fields' wf wf' hb (hb' ∙ ap ok (sym same)))
      ]

-- Two events with one content: the JSON of one canonical text, the times of one printed form.
pub record SameEvent (rfc3339 : Rfc3339) (id id' run run' : Bytes) (seq seq' : ℕ)
    (actor actor' : Bytes) (input input' : CreateEvent) : Type 0 where
  pub ids : id ≡ id'
  pub runs : run ≡ run'
  pub seqs : seq ≡ seq'
  pub kinds : input.kind ≡ input'.kind
  pub bodies : to_canonical_string input.body ≡ to_canonical_string input'.body
  pub times : rfc3339 input.occurred_at ≡ rfc3339 input'.occurred_at
  pub actors : actor ≡ actor'

event_fields-IsField :
    (id run : Bytes) (seq : ℕ) (actor : Bytes) (input : CreateEvent)
    → length id ≡ 16
    → length run ≡ 16
    → seq < 2 ^ 63
    → All IsField (event_fields id run seq actor input)
unfolding event_fields
event_fields-IsField id run seq actor input hid hrun small = (
  record { short_name = omega arith; typed = hid },
  (
    record { short_name = omega arith; typed = hrun },
    (
      record { short_name = omega arith; typed = small },
      (
        record { short_name = omega arith; typed = tt },
        (
          record { short_name = omega arith; typed = tt },
          (
            record { short_name = omega arith; typed = tt },
            (record { short_name = omega arith; typed = tt }, tt),
          ),
        ),
      ),
    ),
  ),
)

SameFields-event :
    (rfc3339 : Rfc3339) (id id' run run' : Bytes) (seq seq' : ℕ) (actor actor' : Bytes)
    (input input' : CreateEvent)
    → SameFields rfc3339
        (sort_by_name (event_fields id run seq actor input))
        (sort_by_name (event_fields id' run' seq' actor' input'))
    → SameEvent rfc3339 id id' run run' seq seq' actor actor' input input'
unfolding event_fields sort_by_name lex_le
SameFields-event rfc3339 id id' run run' seq seq' actor actor' input input' same = record {
  actors = same.0.1;
  bodies = same.1.0.1;
  ids = same.1.1.0.1;
  kinds = same.1.1.1.0.1;
  times = same.1.1.1.1.0.1;
  runs = same.1.1.1.1.1.0.1;
  seqs = pos_injective same.1.1.1.1.1.1.0.1;
}
  where
    pos_injective : {m n : ℕ} → pos m ≡ pos n → m ≡ n
    pos_injective e = cc e

-- The number that `append` gives to the next event of a run.
abbrev pub next_seq : Bytes → Database → ℕ
next_seq run db = max_seq run (db.ledger.tables events) + 1

-- Two events with one row hash have one id, run, number, kind, actor, body and time, the body up to
-- its canonical text and the time up to its printed form, or SHA-256 collides. The ids are UUIDs and
-- the numbers fit an `i64`.
pub append_binds :
    (x : External) (actor actor' id id' : Bytes) (now now' : Timestamp) (run run' : Bytes)
    (input input' : CreateEvent) (db db' : Database) {row row' : Row} {after after' : Database}
    → HashesTo32 x.sha256
    → (length id ≡ 16) × (length run ≡ 16) × (next_seq run db < 2 ^ 63)
    → (length id' ≡ 16) × (length run' ≡ 16) × (next_seq run' db' < 2 ^ 63)
    → append x actor id now run input db ≡ ok (row, after)
    → append x actor' id' now' run' input' db' ≡ ok (row', after')
    → row.row_hash ≡ row'.row_hash
    → SameEvent x.rfc3339 id id' run run'
        (next_seq run db)
        (next_seq run' db')
        actor
        actor'
        input
        input'
      ⊎ Collision x.sha256
append_binds x actor actor' id id' now now' run run' input input' db db' to32 wf wf' h h' e =
    let (link, hl, made, _) = append-eq-ok x actor id now run input db h in
    let (link', hl', made', _) = append-eq-ok x actor' id' now' run' input' db' h' in
    let hashes : link.row_hash ≡ link'.row_hash =
      sym (ap (λ (r : Row). r.row_hash) made) ∙ e ∙ ap (λ (r : Row). r.row_hash) made' in
    elim (compute_chain_binds x.sha256 to32 x.rfc3339 (db.ledger.tables events)
      (db'.ledger.tables events) events events run run'
      (event_fields id run (next_seq run db) actor input)
      (event_fields id' run' (next_seq run' db') actor' input')
      (event_fields-IsField id run (next_seq run db) actor input wf.0 wf.1 wf.2)
      (event_fields-IsField id' run' (next_seq run' db') actor' input' wf'.0 wf'.1 wf'.2) hl hl'
      hashes) [
        | inr c ↦ inr c
        | inl (_, same) ↦ inl (
            SameFields-event x.rfc3339 id id' run run' (next_seq run db) (next_seq run' db') actor
              actor' input input' same)
      ]
