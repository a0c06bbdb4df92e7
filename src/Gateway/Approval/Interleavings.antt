-- ===== src/Gateway/Approval/Interleavings.antt =====
-- The approvals under requests, cancellations and decisions in any order: who wakes a requester.
use trackward.Prelude.{
  ◌≡◌, refl, sym, ap, ◌∙◌, ◌⊎◌, ◌≢◌, inl, inr, List, [], ◌∷◌, Bytes, bytes_eq, bytes_eq→eq, Bool,
  true, false, Option, none, some, Result, ok, err,
}
use trackward.ChainCore.CanonicalJson.Syntax.{Value}
use trackward.Verifier.Bundle.{unwrap_or}
use trackward.Gateway.Approval.{
  GatewayError, Decision, PendingApproval, Channel, waiting, holding, sender_dropped,
  receiver_dropped, Approvals, lookup, remove, update, register, cancel, received, awaited,
  parse_decision, send_on, send, close, drop_sender, settle, decide_entry, decide,
}
use trackward.Gateway.Approval.Decisions.{lookup-update, lookup-update_other}

-- What the handlers do to the shared map, one lock at a time.
pub data Move : Type 0 where
  registers : (id : Bytes) → PendingApproval → Move
  cancels : (id : Bytes) → Move
  decides : (id : Bytes) → (body : Value) → Move

pub data Step : Move → Approvals → Approvals → Type 0 where
  to_register :
      (id : Bytes) (approval : PendingApproval) (s : Approvals)
      → Step (registers id approval) s (register id approval s)
  to_cancel : (id : Bytes) (s : Approvals) → Step (cancels id) s (cancel id s)
  to_decide :
      (id : Bytes) (body : Value) (s : Approvals) → Step (decides id body) s (decide id body s).1

-- The stores that a history leads to, its latest move first.
pub data Reached : List Move → Approvals → Type 0 where
  start : Reached [] (record { pending = []; channels = [] })
  next :
      {ms : List Move} {m : Move} {s u : Approvals} → Reached ms s → Step m s u → Reached (m ∷ ms) u

-- The history has a decision on `id` whose body says `d`.
abbrev pub IsPosted : (id : Bytes) → Decision → Move → Type 0
IsPosted id d (decides other body) = (other ≡ id) × (parse_decision body ≡ ok d)
IsPosted id d _ = ⊥

abbrev pub WasPosted : (id : Bytes) → Decision → List Move → Type 0
WasPosted id d [] = ⊥
WasPosted id d (m ∷ ms) = IsPosted id d m ⊎ WasPosted id d ms

lookup-update-cases {ℓ} :
    {A : Type ℓ} (id other : Bytes) (a b : A) (kas : List (Bytes × A))
    → lookup id (update other a kas) ≡ some b
    → ((other ≡ id) × (a ≡ b)) ⊎ (lookup id kas ≡ some b)
lookup-update-cases id other a b kas h = by (bytes_eq other id) refl
  where
    by :
        (same : Bool)
        → bytes_eq other id ≡ same
        → ((other ≡ id) × (a ≡ b)) ⊎ (lookup id kas ≡ some b)
    by false e = inr (sym (lookup-update_other id other a kas e) ∙ h)
    by true e =
        let same = bytes_eq→eq other id e in
        inl (
          same,
          ap (unwrap_or a)
              (sym (lookup-update other a kas) ∙ ap (λ k. lookup k (update other a kas)) same ∙ h),
        )

Holds : (id : Bytes) → Decision → Approvals → Type 0
Holds id d s = lookup id s.channels ≡ some (holding d)

-- A channel that was set to something else holds nothing new.
kept :
    (id other : Bytes) (d : Decision) (c : Channel) (channels : List (Bytes × Channel))
    → c ≢ holding d
    → lookup id (update other c channels) ≡ some (holding d)
    → lookup id channels ≡ some (holding d)
kept id other d c channels differs h = by (lookup-update-cases id other c (holding d) channels h)
  where
    by :
        ((other ≡ id) × (c ≡ holding d)) ⊎ (lookup id channels ≡ some (holding d))
        → lookup id channels ≡ some (holding d)
    by (inl (same, e)) = absurd (differs e)
    by (inr h') = h'

send-Holds :
    (id other : Bytes) (d e : Decision) (s : Approvals)
    → Holds id d (send other e s).1
    → ((other ≡ id) × (e ≡ d)) ⊎ Holds id d s
unfolding send Holds
send-Holds id other d e s = on (lookup other s.channels)
  where
    on :
        (o : Option Channel)
        → Holds id d (send_on other e o s).1
        → ((other ≡ id) × (e ≡ d)) ⊎ Holds id d s
    on none h = inr h
    on (some (holding f)) h = inr h
    on (some sender_dropped) h = inr h
    on (some receiver_dropped) h = inr h
    on (some waiting) h = by (lookup-update-cases id other (holding e) (holding d) s.channels h)
      where
        held : Channel → Decision
        held (holding f) = f
        held _ = e

        by :
            ((other ≡ id) × (holding e ≡ holding d)) ⊎ Holds id d s
            → ((other ≡ id) × (e ≡ d)) ⊎ Holds id d s
        by (inl (same, p)) = inl (same, ap held p)
        by (inr h') = inr h'

drop_sender-Holds :
    (id other : Bytes) (d : Decision) (s : Approvals)
    → Holds id d (drop_sender other s)
    → Holds id d s
unfolding drop_sender Holds
drop_sender-Holds id other d s = on (lookup other s.channels)
  where
    on : (o : Option Channel) → Holds id d (close other o s) → Holds id d s
    on none h = h
    on (some (holding f)) h = h
    on (some sender_dropped) h = h
    on (some receiver_dropped) h = h
    on (some waiting) h = kept id other d sender_dropped s.channels (λ e. cc) h

decide-Holds :
    (id other : Bytes) (body : Value) (d : Decision) (s : Approvals)
    → Holds id d (decide other body s).1
    → ((other ≡ id) × (parse_decision body ≡ ok d)) ⊎ Holds id d s
unfolding decide settle Holds
decide-Holds id other body d s = on (lookup other s.pending)
  where
    removed : Approvals
    removed = record s { pending = remove other s.pending }

    settled :
        (approval : PendingApproval) (r : Result GatewayError Decision)
        → parse_decision body ≡ r
        → Holds id d (settle other approval r removed).1
        → ((other ≡ id) × (parse_decision body ≡ ok d)) ⊎ Holds id d s
    settled approval (err e) p h = inr (drop_sender-Holds id other d removed h)
    settled approval (ok e) p h = by (send-Holds id other d e removed h)
      where
        by :
            ((other ≡ id) × (e ≡ d)) ⊎ Holds id d removed
            → ((other ≡ id) × (parse_decision body ≡ ok d)) ⊎ Holds id d s
        by (inl (same, q)) = inl (same, p ∙ ap ok q)
        by (inr h') = inr h'

    on :
        (o : Option PendingApproval)
        → Holds id d (decide_entry other body o s).1
        → ((other ≡ id) × (parse_decision body ≡ ok d)) ⊎ Holds id d s
    on none h = inr h
    on (some approval) h = settled approval (parse_decision body) refl h

Step-Holds :
    (id : Bytes) (d : Decision) {m : Move} {s u : Approvals}
    → Step m s u
    → Holds id d u
    → IsPosted id d m ⊎ Holds id d s
unfolding Holds register cancel
Step-Holds id d (to_register other approval s) h =
    inr (kept id other d waiting s.channels (λ e. cc) h)
Step-Holds id d (to_cancel other s) h =
    inr (kept id other d receiver_dropped s.channels (λ e. cc) h)
Step-Holds id d (to_decide other body s) h = decide-Holds id other body d s h

Reached-Holds :
    (id : Bytes) (d : Decision) {ms : List Move} {s : Approvals}
    → Reached ms s
    → Holds id d s
    → WasPosted id d ms
unfolding Holds lookup
Reached-Holds id d start h = cc
Reached-Holds id d (next before step) h = elim (Step-Holds id d step h) [
  | inl posted ↦ inl posted
  | inr earlier ↦ inr (Reached-Holds id d before earlier)
]

-- In every order of requests, cancellations and decisions: a requester that is woken with a decision
-- gets one that was posted for its own approval, in a well-formed body.
pub awaited-WasPosted :
    (id : Bytes) (d : Decision) (ms : List Move) (s : Approvals)
    → Reached ms s
    → awaited id s ≡ some (ok d)
    → WasPosted id d ms
unfolding awaited Holds
awaited-WasPosted id d ms s reached woken =
    Reached-Holds id d reached (of_received (lookup id s.channels) woken)
  where
    of_received : (o : Option Channel) → received o ≡ some (ok d) → o ≡ some (holding d)
    of_received none h = cc
    of_received (some waiting) h = cc
    of_received (some (holding e)) h = cc
    of_received (some sender_dropped) h = cc
    of_received (some receiver_dropped) h = cc
