-- ===== src/Gateway/Approval.antt =====
-- services/gateway/src/approval/mod.rs: a request waits until somebody decides.
--
-- The map of pending approvals is shared by all requests. Each request has a oneshot channel; a
-- request that goes away drops its receiver, and an entry of the map that is dropped without a
-- decision closes its channel. An entry of `pending` stands for the sender in it.
pub mod Decisions
pub mod Request
pub mod Answers
pub mod Interleavings
use trackward.Prelude.{
  ℕ, List, [], ◌∷◌, Bytes, ascii, bytes_eq, Bool, true, false, Option, none, some, Result, ok, err,
  ◌>>=◌, if◌then◌else◌,
}
unfoldable pub use trackward.Prelude.Maps.{lookup, remove, update}
use trackward.ChainCore.CanonicalJson.Syntax.{Value, Fields, string, object, end, entry, bool, null}
use trackward.Verifier.Bundle.{get, as_str, and_then}

-- services/gateway/src/errors.rs
pub data GatewayError : Type 0 where
  unknown_tool ledger_failed backend_failed bad_request not_found internal : GatewayError

unfoldable pub gateway_status : GatewayError → ℕ
gateway_status unknown_tool = 404
gateway_status not_found = 404
gateway_status bad_request = 400
gateway_status ledger_failed = 500
gateway_status backend_failed = 500
gateway_status internal = 500

pub record Decision : Type 0 where
  pub granted : Bool
  pub reason : Option Bytes

pub record PendingApproval : Type 0 where
  pub run_id : Bytes
  pub tool : Bytes

-- The oneshot channel of a request: nothing sent, a decision in it, the sender dropped, or the
-- receiver dropped.
pub data Channel : Type 0 where
  waiting : Channel
  holding : Decision → Channel
  sender_dropped receiver_dropped : Channel

pub record Approvals : Type 0 where
  pub pending : List (Bytes × PendingApproval)
  pub channels : List (Bytes × Channel)

-- `request` up to the await: the entry is stored before the event is recorded.
unfoldable pub register : (id : Bytes) → PendingApproval → Approvals → Approvals
unfolding update
register id approval s = record {
  pending = update id approval s.pending;
  channels = update id waiting s.channels;
}

-- A request ends early: its receiver is dropped, its entry stays.
unfoldable pub cancel : (id : Bytes) → Approvals → Approvals
unfolding update
cancel id s = record s { channels = update id receiver_dropped s.channels }

abbrev pub received : Option Channel → Option (Result GatewayError Decision)
received (some (holding d)) = some (ok d)
received (some sender_dropped) = some (err internal)
received _ = none

-- What `rx.await` yields: `none` while it blocks.
unfoldable pub awaited : (id : Bytes) → Approvals → Option (Result GatewayError Decision)
unfolding lookup
awaited id s = received (lookup id s.channels)

-- The body of `decide`: `decision` must be one of two words.
unfoldable pub parse_decision : Value → Result GatewayError Decision
unfolding get as_str bytes_eq
parse_decision body =
    let reason = and_then (get (ascii "reason") body) as_str in
    elim (and_then (get (ascii "decision") body) as_str) [
      | none ↦ err bad_request
      | some word ↦
          if bytes_eq word (ascii "granted")
          then ok (record { granted = true; reason = reason })
          else if bytes_eq word (ascii "denied")
          then ok (record { granted = false; reason = reason })
          else err bad_request
    ]

unfoldable pub send_on :
    (id : Bytes)
    → Decision
    → Option Channel
    → Approvals
    → Result GatewayError (Unit {0}) × Approvals
unfolding update
send_on id d (some waiting) s = (ok tt, record s { channels = update id (holding d) s.channels })
send_on id d _ s = (err not_found, s)

-- `decision_tx.send`: it fails when the receiver is gone. A channel that the map does not know has
-- no receiver.
unfoldable pub send :
    (id : Bytes) → Decision → Approvals → Result GatewayError (Unit {0}) × Approvals
unfolding lookup send_on
send id d s = send_on id d (lookup id s.channels) s

unfoldable pub close : (id : Bytes) → Option Channel → Approvals → Approvals
unfolding update
close id (some waiting) s = record s { channels = update id sender_dropped s.channels }
close id _ s = s

-- The sender is dropped without a decision: a waiting receiver is woken with an error.
unfoldable pub drop_sender : (id : Bytes) → Approvals → Approvals
unfolding lookup close
drop_sender id s = close id (lookup id s.channels) s

-- The rest of `decide` once the entry is out of the map: the `match` on the word, and the send.
unfoldable pub settle :
    (id : Bytes)
    → PendingApproval
    → Result GatewayError Decision
    → Approvals
    → Result GatewayError PendingApproval × Approvals
unfolding send drop_sender
settle id approval (err e) s = (err e, drop_sender id s)
settle id approval (ok d) s = ((send id d s).0 >>= λ unit. ok approval, (send id d s).1)

unfoldable pub decide_entry :
    (id : Bytes)
    → (body : Value) → Option PendingApproval
    → Approvals
    → Result GatewayError PendingApproval × Approvals
unfolding remove parse_decision settle
decide_entry id body none s = (err not_found, s)
decide_entry id body (some approval) s =
    settle id approval (parse_decision body) (record s { pending = remove id s.pending })

-- `decide`: the entry is removed first, whatever the body says.
unfoldable pub decide :
    (id : Bytes) → (body : Value) → Approvals → Result GatewayError PendingApproval × Approvals
unfolding lookup decide_entry
decide id body s = decide_entry id body (lookup id s.pending) s
