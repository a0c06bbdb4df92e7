-- ===== src/Ledger/Records/Cases.antt =====
-- services/ledger/src/routes: cases.rs, custody_events.rs and anchors.rs.
use trackward.Prelude.{
  List, ◌∷◌, Bytes, ascii, bytes_eq, Bool, true, false, ◌&&◌, map, Option, none, some, Result, ok,
  err, ◌>>=◌, ◌>>◌, guard, if◌then◌else◌,
}
use trackward.ChainCore.CanonicalJson.Syntax.{Value}
use trackward.ChainCore.Encode.{Timestamp}
use trackward.External.{External}
use trackward.Verifier.Bundle.{ok_or, unwrap_or}
use trackward.Ledger.Db.{Error, not_found, db_error, bad_request, Row, Table}
use trackward.Ledger.Chain.{ChainTable, artifacts, tool_invocations}
use trackward.Ledger.Anchoring.{
  Anchor, AnchorScope, global, run, SigningService, Ledger, anchor_tick,
}
use trackward.Ledger.Anchoring.Sink.{AnchorSink}
use trackward.Ledger.Exports.{CaseEvidence}
use trackward.Ledger.Queries.{where_rows, fetch_optional, order_by, newest_first, oldest_first}
use trackward.Ledger.Records.Runs.{Run, is_free, is_run}

pub record Case : Type 0 where
  pub id : Bytes
  pub title : Bytes
  pub description : Bytes
  pub opened_by : Bytes
  pub opened_at : Timestamp
  pub metadata : Value
  pub actor_id : Bytes

pub record CreateCase : Type 0 where
  pub title : Bytes
  pub description : Bytes
  pub opened_by : Bytes
  pub opened_at : Timestamp
  pub metadata : Value

abbrev pub is_case : Bytes → Case → Bool
is_case id c = bytes_eq c.id id

abbrev pub case_row : (id actor_id : Bytes) → CreateCase → Case
case_row id actor_id input = record {
  id = id;
  title = input.title;
  description = input.description;
  opened_by = input.opened_by;
  opened_at = input.opened_at;
  metadata = input.metadata;
  actor_id = actor_id;
}

-- `cases::create`
unfoldable pub create_case :
    (id actor_id : Bytes) → CreateCase → List Case → Result Error (Case × List Case)
unfolding fetch_optional bytes_eq
create_case id actor_id input cases = do
  guard (is_free (is_case id) cases) db_error
  ok (case_row id actor_id input, case_row id actor_id input ∷ cases)

-- `cases::get`
unfoldable pub get_case : (id : Bytes) → List Case → Result Error Case
unfolding fetch_optional bytes_eq
get_case id cases = ok_or not_found (fetch_optional (is_case id) cases)

-- What a piece of evidence is resolved to.
pub data Resolved : Type 0 where
  run_row : Run → Resolved
  table_row : Row → Resolved

abbrev pub resolved_run : Option Run → Option Resolved
resolved_run none = none
resolved_run (some r) = some (run_row r)

abbrev pub resolved_row : Option Row → Option Resolved
resolved_row none = none
resolved_row (some r) = some (table_row r)

abbrev pub has_row_id : Bytes → Row → Bool
has_row_id id r = bytes_eq r.id id

-- `resolve_evidence`: an unknown type resolves to nothing.
unfoldable pub resolve_evidence :
    List Run → (tables : ChainTable → Table) → (evidence_type evidence_id : Bytes) → Option Resolved
unfolding fetch_optional bytes_eq
resolve_evidence runs tables evidence_type evidence_id =
    if bytes_eq evidence_type (ascii "run")
    then resolved_run (fetch_optional (is_run evidence_id) runs)
    else if bytes_eq evidence_type (ascii "artifact")
    then resolved_row (fetch_optional (has_row_id evidence_id) (tables artifacts))
    else if bytes_eq evidence_type (ascii "tool_invocation")
    then resolved_row (fetch_optional (has_row_id evidence_id) (tables tool_invocations))
    else none

pub record CaseDossier : Type 0 where
  pub the_case : Case
  pub evidence : List (CaseEvidence × Option Resolved)

-- `cases::dossier`
unfoldable pub case_dossier :
    (case_id : Bytes)
    → List Case
    → List CaseEvidence
    → List Run
    → (tables : ChainTable → Table) → Result Error CaseDossier
unfolding fetch_optional where_rows order_by resolve_evidence bytes_eq
case_dossier case_id cases links runs tables = do
  c ← ok_or not_found (fetch_optional (is_case case_id) cases)
  ok (record {
    the_case = c;
    evidence =
        map (λ l. (l, resolve_evidence runs tables l.evidence_type l.evidence_id))
          (order_by (oldest_first (λ l. l.linked_at))
            (where_rows (λ l. bytes_eq l.case_id case_id) links));
  })

pub record CustodyEvent : Type 0 where
  pub id : Bytes
  pub evidence_type : Bytes
  pub evidence_id : Bytes
  pub action : Bytes
  pub actor : Bytes
  pub reason : Option Bytes
  pub occurred_at : Timestamp
  pub metadata : Value
  pub actor_id : Bytes

pub record CreateCustodyEvent : Type 0 where
  pub evidence_type : Bytes
  pub evidence_id : Bytes
  pub action : Bytes
  pub actor : Bytes
  pub reason : Option Bytes
  pub occurred_at : Timestamp
  pub metadata : Value

abbrev pub custody_row : (id actor_id : Bytes) → CreateCustodyEvent → CustodyEvent
custody_row id actor_id input = record {
  id = id;
  evidence_type = input.evidence_type;
  evidence_id = input.evidence_id;
  action = input.action;
  actor = input.actor;
  reason = input.reason;
  occurred_at = input.occurred_at;
  metadata = input.metadata;
  actor_id = actor_id;
}

-- `custody_events::create`
unfoldable pub create_custody_event :
    (id actor_id : Bytes)
    → CreateCustodyEvent
    → List CustodyEvent
    → Result Error (CustodyEvent × List CustodyEvent)
unfolding fetch_optional bytes_eq
create_custody_event id actor_id input rows = do
  guard (is_free (λ r. bytes_eq r.id id) rows) db_error
  ok (custody_row id actor_id input, custody_row id actor_id input ∷ rows)

-- `custody_events::list`
unfoldable pub list_custody_events :
    (evidence_type evidence_id : Bytes) → List CustodyEvent → List CustodyEvent
unfolding where_rows order_by bytes_eq
list_custody_events evidence_type evidence_id rows = order_by (oldest_first (λ r. r.occurred_at)) (
    where_rows (λ r. bytes_eq r.evidence_type evidence_type && bytes_eq r.evidence_id evidence_id)
      rows)

-- `anchors::get`
unfoldable pub get_anchor : (id : Bytes) → List Anchor → Result Error Anchor
unfolding fetch_optional bytes_eq
get_anchor id anchors = ok_or not_found (fetch_optional (λ a. bytes_eq a.id id) anchors)

abbrev pub anchors_where : (Anchor → Bool) → List Anchor → List Anchor
anchors_where p anchors = order_by (newest_first (λ a. a.anchored_to)) (where_rows p anchors)

abbrev pub of_no_run : Option Bytes → Bool
of_no_run none = true
of_no_run (some id) = false

abbrev pub of_this_run : Bytes → Option Bytes → Bool
of_this_run run_id none = false
of_this_run run_id (some id) = bytes_eq id run_id

-- `anchors::list`
unfoldable pub list_anchors : (is_global : Bool) (run_id : Option Bytes) → List Anchor → List Anchor
unfolding where_rows order_by bytes_eq
list_anchors true run_id anchors = anchors_where (λ a. of_no_run a.run_id) anchors
list_anchors false (some run_id) anchors = anchors_where (λ a. of_this_run run_id a.run_id) anchors
list_anchors false none anchors = anchors_where (λ a. true) anchors

-- The scope of a trigger: exactly one of the two must be given.
abbrev pub trigger_scope : (is_global : Bool) (run_id : Option Bytes) → Result Error AnchorScope
trigger_scope true none = ok global
trigger_scope false (some id) = ok (run id)
trigger_scope true (some id) = err bad_request
trigger_scope false none = err bad_request

-- `anchors::trigger`: the caller may choose the end of the window.
unfoldable pub trigger :
    (x : External)
    → SigningService
    → AnchorSink
    → (is_global : Bool) (run_id : Option Bytes) (until : Option Timestamp) (now : Timestamp)
      (id : Bytes)
    → Ledger
    → Result Error (Option Anchor × Ledger × AnchorSink)
unfolding anchor_tick
trigger x signing sink is_global run_id until now id db = do
  scope ← trigger_scope is_global run_id
  anchor_tick x signing sink scope (unwrap_or now until) now id db
