-- ===== src/Examples/ProxyExamples.antt =====
-- The results on the gateway's proxies at a concrete network.
use trackward.Prelude.{
  ◌≡◌, refl, [], ◌∷◌, Bytes, ascii, true, Option, none, some, Result, ok, err, pos,
}
use trackward.ChainCore.CanonicalJson.Syntax.{
  Value, Items, string, array, object, nil, cons, end, entry,
}
use trackward.Verifier.Bundle
use trackward.Gateway.Approval.{
  GatewayError, unknown_tool, ledger_failed, backend_failed, Decision, PendingApproval, Approvals,
  decide, awaited,
}
use trackward.Gateway.Http.{Network, post}
use trackward.Gateway.LedgerClient.{Wire}
use trackward.Gateway.ToolProxy.{AppState, Reply, proxy, record_confirmations}
use trackward.Gateway.ToolProxy.Steps.{IsArray, posted, entry_requests, record_confirmations-posted}
use trackward.Gateway.ToolProxy.Endings.{IsAccounted, HasFailed}
use trackward.Gateway.ToolProxy.Outcome.{proxy-IsAccounted, proxy-HasFailed}
use trackward.Gateway.RetrievalProxy.{retrieve}
use trackward.Gateway.RetrievalProxy.Endings.{IsEvidenced}
use trackward.Gateway.RetrievalProxy.Evidence.{retrieve-IsEvidenced}
use trackward.Gateway.Approval.Request.{request_opened, request_decided}
use trackward.Gateway.Approval.Answers.{IsDecided, request_decided-IsDecided, request_opened-decide}
use trackward.Examples.Fixtures.{run_a, row_id}
use trackward.Examples.GatewayExamples.{grant_body}

-- A backend's answer: one side effect, and one document.
abbrev answer_value : Value
answer_value = object (
    entry (ascii "side_effects")
      (array (cons (object (entry (ascii "kind") (string (ascii "http")) end)) nil))
      (entry (ascii "docs") (array (cons (string (ascii "text")) nil)) end))

abbrev toy_wire : Wire
toy_wire = record {
  uuid_text = λ id. id;
  parse_uuid = some;
  header_text = some;
  time_text = λ t. t ∷ [];
  read_id = some;
  read_ids = λ body. some (body ∷ []);
  read_event = λ body. some (record { id = body; seq = pos 0 });
  read_artifact = λ body. some (record { id = body; sha256 = body });
  from_slice = λ body. some answer_value;
  to_vec = λ v. ascii "doc";
  utf8_lossy = λ body. body;
}

-- Every peer answers with success and an id.
abbrev healthy : Network
healthy t r = some (record { status = 200; body = some run_a })

-- The ledger answers, the tool does not.
abbrev no_backend : Network
no_backend t (post (some actor) url payload) = some (record { status = 200; body = some run_a })
no_backend t r = none

abbrev toy_state : AppState
toy_state = record {
  tool_routes = (ascii "bash", ascii "http://bash") ∷ [];
  retrieval_backend = some (ascii "http://docs");
  ledger = record { base = ascii "http://ledger"; actor = ascii "gateway" };
  binding = record {
    prompt_version_id = some run_a;
    policy_version_id = none;
    eval_result_id = none;
  };
}

abbrev bash : Bytes
bash = ascii "bash"

abbrev call_input : Value
call_input = string (ascii "ls")

abbrev ok_reply : Reply
ok_reply = record { status = 200; run_id = run_a; body = run_a }

record_confirmations-posted_example :
    (es : Items) × IsArray es (Bundle.get (ascii "side_effects") answer_value)
    × (record_confirmations toy_wire healthy toy_state run_a none answer_value []
        ≡ (ok tt, posted healthy (entry_requests healthy toy_wire toy_state run_a none es) []))
record_confirmations-posted_example =
    record_confirmations-posted healthy toy_wire toy_state run_a none answer_value []

proxy-IsAccounted_example :
    IsAccounted toy_wire healthy toy_state bash call_input [] [] ok_reply
      (proxy toy_wire healthy toy_state bash [] call_input []).1
unfolding proxy trackward.Prelude.bytes_eq
proxy-IsAccounted_example =
    proxy-IsAccounted toy_wire healthy toy_state bash call_input [] []
      (proxy toy_wire healthy toy_state bash [] call_input []).1 ok_reply refl

proxy-HasFailed_example :
    HasFailed toy_wire no_backend toy_state bash call_input [] [] backend_failed
      (proxy toy_wire no_backend toy_state bash [] call_input []).1
unfolding proxy trackward.Prelude.bytes_eq
proxy-HasFailed_example =
    proxy-HasFailed toy_wire no_backend toy_state bash call_input [] []
      (proxy toy_wire no_backend toy_state bash [] call_input []).1 backend_failed refl

retrieve-IsEvidenced_example :
    IsEvidenced toy_wire healthy toy_state call_input [] [] ok_reply
      (retrieve toy_wire healthy toy_state [] call_input []).1
unfolding retrieve trackward.Prelude.bytes_eq
retrieve-IsEvidenced_example =
    retrieve-IsEvidenced toy_wire healthy toy_state call_input [] []
      (retrieve toy_wire healthy toy_state [] call_input []).1 ok_reply refl

abbrev deploy_run : PendingApproval
deploy_run = record { run_id = run_a; tool = ascii "deploy" }

abbrev granted : Decision
granted = record { granted = true; reason = none }

abbrev decided_reply : Reply
decided_reply = record { status = 200; run_id = run_a; body = ascii "doc" }

request_decided-IsDecided_example :
    IsDecided toy_wire healthy toy_state
      (row_id 1)
      deploy_run
      7
      []
      (ok granted)
      decided_reply
      (request_decided toy_wire healthy toy_state (row_id 1) deploy_run 7 (ok granted) []).1
unfolding request_decided
request_decided-IsDecided_example =
    request_decided-IsDecided toy_wire healthy toy_state (row_id 1) deploy_run 7 [] (ok granted)
      (request_decided toy_wire healthy toy_state (row_id 1) deploy_run 7 (ok granted) []).1
      decided_reply refl

abbrev no_approvals : Approvals
no_approvals = record { pending = []; channels = [] }

abbrev deploy_body : Value
deploy_body = object (entry (ascii "tool") (string (ascii "deploy")) end)

abbrev opened_state : Approvals
opened_state =
    (request_opened toy_wire healthy toy_state (row_id 1) [] deploy_body no_approvals []).1

request_opened-decide_example :
    ((decide (row_id 1) grant_body opened_state).0 ≡ ok deploy_run)
    × (awaited (row_id 1) (decide (row_id 1) grant_body opened_state).1 ≡ some (ok granted))
unfolding request_opened trackward.Gateway.Approval.parse_decision
request_opened-decide_example =
    request_opened-decide toy_wire healthy toy_state (row_id 1) [] deploy_body no_approvals []
      opened_state
      (request_opened toy_wire healthy toy_state (row_id 1) [] deploy_body no_approvals []).2
      deploy_run grant_body granted refl refl
