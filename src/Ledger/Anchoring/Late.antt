-- ===== src/Ledger/Anchoring/Late.antt =====
-- A row that commits after the tick over its time is in no anchor.
use trackward.Prelude.{
  ◌≤◌, ◌≡◌, refl, sym, ap, ◌∙◌, [], ◌∷◌, ◌++◌, append_assoc, Bytes, Option, some, ok, arith,
}
use trackward.ChainCore.Encode.{Timestamp}
use trackward.External.{External}
use trackward.Ledger.Db.{Row, Table}
use trackward.Ledger.Chain.{
  ChainTable, events, artifacts, tool_invocations, side_effects, guardrails, human_approvals,
  bias_slices, lock_discriminator,
}
use trackward.Ledger.Anchoring.Sink.{AnchorSink}
use trackward.Ledger.Anchoring.{
  AnchorScope, Anchor, Ledger, SigningService, run_filter, window_start, in_window, select_window,
  sort_rows, all_rows, to_leaves, collect_leaves, anchor_tick, commit,
}
use trackward.Ledger.Anchoring.Ticks.{anchor_tick_mints}

insert_old :
    (scope : Option Bytes) (from until : Timestamp) (r : Row) (before after : Table)
    → r.created_at ≤ from
    → select_window scope from until (before ++ r ∷ after)
      ≡ select_window scope from until (before ++ after)
unfolding select_window in_window
insert_old scope from until r [] after old = ground arith
insert_old scope from until r (b ∷ before) after old =
    ground (arith, insert_old scope from until r before after old)

-- The committed row stands somewhere among the rows of the chained tables.
all_rows-commit :
    (table : ChainTable) (r : Row) (db : Ledger)
    → (before : Table) × (after : Table) × (all_rows (commit table r db) ≡ before ++ r ∷ after)
      × (all_rows db ≡ before ++ after)
unfolding all_rows commit lock_discriminator
all_rows-commit events r db = (
  [],
  db.tables events
      ++ (db.tables artifacts
          ++ (db.tables tool_invocations
              ++ (db.tables side_effects
                  ++ (db.tables guardrails
                      ++ (db.tables human_approvals ++ (db.tables bias_slices)))))),
  refl,
  refl,
)
all_rows-commit artifacts r db = (
  db.tables events,
  db.tables artifacts
      ++ (db.tables tool_invocations
          ++ (db.tables side_effects
              ++ (db.tables guardrails ++ (db.tables human_approvals ++ (db.tables bias_slices))))),
  refl,
  refl,
)
all_rows-commit tool_invocations r db = (
  db.tables events ++ (db.tables artifacts),
  db.tables tool_invocations
      ++ (db.tables side_effects
          ++ (db.tables guardrails ++ (db.tables human_approvals ++ (db.tables bias_slices)))),
  simp append_assoc,
  simp append_assoc,
)
all_rows-commit side_effects r db = (
  db.tables events ++ (db.tables artifacts ++ (db.tables tool_invocations)),
  db.tables side_effects
      ++ (db.tables guardrails ++ (db.tables human_approvals ++ (db.tables bias_slices))),
  simp append_assoc,
  simp append_assoc,
)
all_rows-commit guardrails r db = (
  db.tables events
      ++ (db.tables artifacts ++ (db.tables tool_invocations ++ (db.tables side_effects))),
  db.tables guardrails ++ (db.tables human_approvals ++ (db.tables bias_slices)),
  simp append_assoc,
  simp append_assoc,
)
all_rows-commit human_approvals r db = (
  db.tables events
      ++ (db.tables artifacts
          ++ (db.tables tool_invocations ++ (db.tables side_effects ++ (db.tables guardrails)))),
  db.tables human_approvals ++ (db.tables bias_slices),
  simp append_assoc,
  simp append_assoc,
)
all_rows-commit bias_slices r db = (
  db.tables events
      ++ (db.tables artifacts
          ++ (db.tables tool_invocations
              ++ (db.tables side_effects
                  ++ (db.tables guardrails ++ (db.tables human_approvals))))),
  db.tables bias_slices,
  simp append_assoc,
  simp append_assoc,
)

-- A row with a time at or before the start of a window is not among the window's leaves, whatever
-- table it is committed to.
pub collect_leaves-commit_old :
    (table : ChainTable) (r : Row) (db : Ledger) (scope : AnchorScope) (from until : Timestamp)
    → r.created_at ≤ from
    → collect_leaves (commit table r db) scope from until ≡ collect_leaves db scope from until
unfolding collect_leaves
collect_leaves-commit_old table r db scope from until old =
    let (before, after, grown, was) = all_rows-commit table r db in
    ap (λ rows. to_leaves (sort_rows (select_window (run_filter scope) from until rows))) grown
    ∙ ap (λ rows. to_leaves (sort_rows rows))
        (insert_old (run_filter scope) from until r before after old)
    ∙ ap (λ rows. to_leaves (sort_rows (select_window (run_filter scope) from until rows)))
        (sym was)

-- A row that commits after a tick, with a time that the tick's window covers, is in no later window:
-- the leaves that the next tick collects are the same without it.
pub late_commit_unanchored :
    (x : External) (signing : SigningService) (sink : AnchorSink) (scope : AnchorScope)
    (until now until' : Timestamp) (id : Bytes) (db : Ledger) {row : Anchor} {db' : Ledger}
    {sink' : AnchorSink} (table : ChainTable) (r : Row)
    → anchor_tick x signing sink scope until now id db ≡ ok (some row, db', sink')
    → r.created_at ≤ until
    → collect_leaves (commit table r db') scope (window_start (run_filter scope) db'.anchors) until'
      ≡ collect_leaves db' scope (window_start (run_filter scope) db'.anchors) until'
late_commit_unanchored x signing sink scope until now until' id db {row} {db'} table r h old =
    let next = (anchor_tick_mints x signing sink scope until now id db h).1 in
    collect_leaves-commit_old table r db' scope (window_start (run_filter scope) db'.anchors) until'
      (omega (arith, next))
