-- ===== src/Examples/GatewayExamples.antt =====
-- The results on services/gateway at one pending approval.
use trackward.Prelude.{◌≡◌, ◌≢◌, refl, ◌⊎◌, [], ascii, bytes_eq, true, false, some, ok, err}
use trackward.ChainCore.CanonicalJson.Syntax.{Value, string, object, end, entry}
use trackward.Gateway.Approval.{
  GatewayError, not_found, internal, PendingApproval, Approvals, register, decide, awaited, lookup,
}
use trackward.Gateway.Approval.Decisions.{text_at, decide_once, decide_wakes}
use trackward.Examples.Fixtures.{run_a, row_id}

abbrev pub deploy : PendingApproval
deploy = record { run_id = run_a; tool = ascii "deploy" }

abbrev requested : Approvals
requested = register (row_id 1) deploy (record { pending = []; channels = [] })

abbrev pub grant_body : Value
grant_body = object (entry (ascii "decision") (string (ascii "granted")) end)

abbrev typo_body : Value
typo_body = object (entry (ascii "decision") (string (ascii "grant")) end)

decide_once_example :
    (decide (row_id 1) grant_body (decide (row_id 1) typo_body requested).1).0 ≡ err not_found
decide_once_example = decide_once (row_id 1) typo_body grant_body requested

decide_wakes_example :
    ((text_at (ascii "decision") grant_body ≡ some (ascii "granted"))
      × ((decide (row_id 1) grant_body requested).0 ≡ ok deploy)
      × (awaited (row_id 1) (decide (row_id 1) grant_body requested).1
          ≡ some (ok (record { granted = true; reason = text_at (ascii "reason") grant_body }))))
    ⊎ ((text_at (ascii "decision") grant_body ≡ some (ascii "denied"))
        × ((decide (row_id 1) grant_body requested).0 ≡ ok deploy)
        × (awaited (row_id 1) (decide (row_id 1) grant_body requested).1
            ≡ some (ok (record { granted = false; reason = text_at (ascii "reason") grant_body }))))
    ⊎ ((text_at (ascii "decision") grant_body ≢ some (ascii "granted"))
        × (text_at (ascii "decision") grant_body ≢ some (ascii "denied"))
        × ((decide (row_id 1) grant_body requested).0 ≡ err GatewayError.bad_request)
        × (awaited (row_id 1) (decide (row_id 1) grant_body requested).1 ≡ some (err internal)))
unfolding register lookup bytes_eq
decide_wakes_example = decide_wakes (row_id 1) requested refl refl grant_body

-- A mistyped word uses the approval up: the requester fails.
typo_ends_request : (decide (row_id 1) typo_body requested).0 ≡ err GatewayError.bad_request
unfolding register decide
typo_ends_request = refl
