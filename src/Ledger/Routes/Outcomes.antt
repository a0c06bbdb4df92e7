-- ===== src/Ledger/Routes/Outcomes.antt =====
-- What a handler that succeeded has done.
use trackward.Prelude.{
  ◌≡◌, refl, sym, ap, ◌∙◌, List, Bytes, Bool, true, false, not, none, some, Result, ok, >>=-eq-ok,
  guard-eq-ok,
}
use trackward.ChainCore.Encode.{CanonicalField, Timestamp}
use trackward.External.{External}
use trackward.Ledger.Db.{Error, db_error, Row}
use trackward.Ledger.Chain.{ChainTable, ChainLink, compute_chain, chained_row}
use trackward.Ledger.Anchoring.{commit}
use trackward.Ledger.Routes.{Database, has_run, has_id, put_ledger, insert_checked, create_chained}

pub insert_checked-eq-ok :
    (duplicate : Error) (table : ChainTable) (row : Row) (db : Database) {row' : Row}
    {db' : Database}
    → insert_checked duplicate table row db ≡ ok (row', db')
    → (row' ≡ row)
      × (db' ≡ put_ledger (commit table row' db.ledger) db)
      × (has_id row'.id (db.ledger.tables table) ≡ false)
unfolding insert_checked
insert_checked-eq-ok duplicate table row db {row'} {db'} h =
    let (fresh, k) = guard-eq-ok (not (has_id row.id (db.ledger.tables table))) duplicate _ h in
    let (_, e) =
      guard-eq-ok (elim row.run_id [ none ↦ true | some run_id ↦ has_run run_id db.runs ]) db_error
        _ k in
    let made = pair_of e in
    (
      sym made.0,
      sym made.1 ∙ ap (λ r. put_ledger (commit table r db.ledger) db) made.0,
      ap (λ r. has_id (Row.id r) (db.ledger.tables table)) (sym made.0) ∙ not_true _ fresh,
    )
  where
    pair_of :
        {r : Row} {d : Database}
        → ◌≡◌ {A = Result Error (Row × Database)} (ok (r, d)) (ok (row', db'))
        → (r ≡ row') × (d ≡ db')
    pair_of e = (cc e, cc e)

    not_true : (b : Bool) → not b ≡ true → b ≡ false
    not_true true e = sym e
    not_true false e = refl

-- The row has the link that `compute_chain` returned, and is committed to its table.
pub create_chained-eq-ok :
    (x : External) (now : Timestamp) (duplicate : Error) (table : ChainTable)
    (run_id row_id : Bytes) (fields : List CanonicalField) (db : Database) {row : Row}
    {db' : Database}
    → create_chained x now duplicate table run_id row_id fields db ≡ ok (row, db')
    → (link : ChainLink) × (compute_chain x.sha256 x.rfc3339
          (db.ledger.tables table)
          table
          run_id
          fields
        ≡ ok link)
      × (row ≡ chained_row run_id row_id now fields link)
      × (db' ≡ put_ledger (commit table row db.ledger) db)
unfolding create_chained
create_chained-eq-ok x now duplicate table run_id row_id fields db h =
    let (link, hl, k) =
      >>=-eq-ok (compute_chain x.sha256 x.rfc3339 (db.ledger.tables table) table run_id fields) _
        h in
    let (made, grown, _) =
      insert_checked-eq-ok duplicate table (chained_row run_id row_id now fields link) db k in
    (link, hl, made, grown)
