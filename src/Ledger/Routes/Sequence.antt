-- ===== src/Ledger/Routes/Sequence.antt =====
-- `events::append` numbers the events of a run without gaps.
use trackward.Prelude.{
  ℕ, suc, ◌+◌, ◌≡◌, refl, ap, subst, ◌∙◌, inl, inr, List, [], ◌∷◌, Bytes, bytes_eq, Bool-cases, ok,
  guard-eq-ok, length, if◌then◌else◌, arith,
}
use trackward.ChainCore.Encode.{Timestamp}
use trackward.External.{External}
use trackward.Ledger.Db.{db_error, not_found, Row, Table, of_run}
use trackward.Ledger.Chain.{ChainLink, events, compute_chain, chained_row, lock_discriminator}
use trackward.Ledger.Chain.Linear.{of_run-some}
use trackward.Ledger.Anchoring.{commit}
use trackward.Ledger.Routes.Inputs.{CreateEvent}
use trackward.Ledger.Routes.Columns.{event_fields}
use trackward.Ledger.Routes.Outcomes.{create_chained-eq-ok}
use trackward.Ledger.Routes.{Database, has_run, put_ledger, seq_of, max_seq, append}

-- The numbers of a run's events, the newest commit first.
abbrev pub run_seqs : Bytes → Table → List ℕ
run_seqs run [] = []
run_seqs run (r ∷ rs) = if of_run run r then seq_of r.fields ∷ run_seqs run rs else run_seqs run rs

-- n, n - 1, ..., 1.
abbrev pub Countdown : List ℕ → Type 0
Countdown [] = Unit
Countdown (n ∷ ns) = (n ≡ suc (length ns)) × Countdown ns

-- The events of every run are numbered from 1 on, in the order of their commits.
abbrev pub IsNumbered : Database → Type 0
IsNumbered db = (run : Bytes) → Countdown (run_seqs run (db.ledger.tables events))

max_seq-Countdown :
    (run : Bytes) (rows : Table)
    → Countdown (run_seqs run rows)
    → max_seq run rows ≡ length (run_seqs run rows)
unfolding max_seq
max_seq-Countdown run [] c = refl
max_seq-Countdown run (r ∷ rs) c = elim (Bool-cases (of_run run r)) [
  | inl mine ↦
      let c' : Countdown (seq_of r.fields ∷ run_seqs run rs) = rw mine at c in
      let below = max_seq-Countdown run rs c'.1 in ground (arith, mine, below, c'.0)
  | inr other ↦ rw other (max_seq-Countdown run rs (rw other at c))
]

seq_of-event_fields :
    (id run_id : Bytes) (seq : ℕ) (actor_id : Bytes) (input : CreateEvent)
    → seq_of (event_fields id run_id seq actor_id input) ≡ seq
unfolding seq_of event_fields bytes_eq
seq_of-event_fields id run_id seq actor_id input = refl

module _ (x : External) (actor_id id : Bytes) (now : Timestamp) where
  pub append-eq-ok :
      (run_id : Bytes) (input : CreateEvent) (db : Database) {row : Row} {db' : Database}
      → append x actor_id id now run_id input db ≡ ok (row, db')
      → (link : ChainLink) × (compute_chain x.sha256 x.rfc3339
            (db.ledger.tables events)
            events
            run_id
            (event_fields id run_id (max_seq run_id (db.ledger.tables events) + 1) actor_id input)
          ≡ ok link)
        × (row
            ≡ chained_row run_id id now
                (event_fields id run_id
                  (max_seq run_id (db.ledger.tables events) + 1)
                  actor_id
                  input)
                link)
        × (db' ≡ put_ledger (commit events row db.ledger) db)
  unfolding append
  append-eq-ok run_id input db h =
      let (_, k) = guard-eq-ok (has_run run_id db.runs) not_found _ h in
      let (link, hl, made, grown) =
        create_chained-eq-ok x now db_error events run_id id
          (event_fields id run_id (max_seq run_id (db.ledger.tables events) + 1) actor_id input) db
          k in
      (link, hl, made, grown)

  -- Appending an event keeps the numbering of every run free of gaps, and gives the event the number
  -- after the last one of its run.
  pub append-IsNumbered :
      (run_id : Bytes) (input : CreateEvent) (db : Database) {row : Row} {db' : Database}
      → IsNumbered db
      → append x actor_id id now run_id input db ≡ ok (row, db')
      → IsNumbered db'
        × (seq_of row.fields ≡ suc (length (run_seqs run_id (db.ledger.tables events))))
  unfolding commit lock_discriminator
  append-IsNumbered run_id input db {row} {db'} numbered h =
      let (link, _, made, grown) = append-eq-ok run_id input db h in
      let next : seq_of row.fields ≡ suc (length (run_seqs run_id (db.ledger.tables events))) =
        ap (λ (r : Row). seq_of r.fields) made
        ∙ seq_of-event_fields id run_id (max_seq run_id (db.ledger.tables events) + 1) actor_id
            input
        ∙ omega (arith, max_seq-Countdown run_id (db.ledger.tables events) (numbered run_id)) in
      (
        rw grown (λ run. elim (Bool-cases (of_run run row)) [
          | inl mine ↦
              let own : run_id ≡ run =
                of_run-some run run_id row (ap (λ (r : Row). r.run_id) made) mine in
              rw mine (
                subst (λ r. Countdown (seq_of row.fields ∷ run_seqs r (db.ledger.tables events)))
                  own (next, numbered run_id))
          | inr other ↦ rw other (numbered run)
        ]),
        next,
      )
