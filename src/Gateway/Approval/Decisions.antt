-- ===== src/Gateway/Approval/Decisions.antt =====
-- One decision per approval, and the requester gets that one.
use trackward.Prelude.{
  ◌≡◌, ◌≢◌, refl, sym, ap, ◌∙◌, ◌⊎◌, inl, inr, List, [], ◌∷◌, Bytes, bytes_eq, bytes_eq_refl,
  bytes_eq→eq, ascii, Bool-cases, Option-cases, true, false, Option, none, some, Result, ok, err,
  ◌>>=◌, arith,
}
use trackward.ChainCore.CanonicalJson.Syntax.{Value}
use trackward.Verifier.Bundle.{get, as_str, and_then}
use trackward.Gateway.Approval.{
  GatewayError, not_found, bad_request, internal, Decision, PendingApproval, Channel, waiting,
  holding, sender_dropped, receiver_dropped, Approvals, lookup, remove, update, awaited,
  parse_decision, send, drop_sender, send_on, close, received, settle, decide_entry, decide,
}

pub lookup-remove {ℓ} :
    {A : Type ℓ} (id : Bytes) (kas : List (Bytes × A)) → lookup id (remove id kas) ≡ none
unfolding lookup remove
lookup-remove id [] = refl
lookup-remove id ((k, a) ∷ kas) = ground (arith, lookup-remove id kas)

pub lookup-update {ℓ} :
    {A : Type ℓ} (id : Bytes) (a : A) (kas : List (Bytes × A))
    → lookup id (update id a kas) ≡ some a
unfolding lookup update
lookup-update id a kas = rw (bytes_eq_refl id) refl

lookup-remove_other {ℓ} :
    {A : Type ℓ} (id other : Bytes) (kas : List (Bytes × A))
    → bytes_eq other id ≡ false
    → lookup id (remove other kas) ≡ lookup id kas
unfolding lookup remove
lookup-remove_other id other [] ne = refl
lookup-remove_other id other ((k, a) ∷ kas) ne =
    ground (arith, lookup-remove_other id other kas, bytes_eq→eq k other, bytes_eq→eq k id)

pub lookup-update_other {ℓ} :
    {A : Type ℓ} (id other : Bytes) (a : A) (kas : List (Bytes × A))
    → bytes_eq other id ≡ false
    → lookup id (update other a kas) ≡ lookup id kas
unfolding lookup update
lookup-update_other id other a kas ne = rw ne (lookup-remove_other id other kas ne)

send-pending : (id : Bytes) (d : Decision) (s : Approvals) → (send id d s).1.pending ≡ s.pending
unfolding send
send-pending id d s = on (lookup id s.channels)
  where
    on : (o : Option Channel) → (send_on id d o s).1.pending ≡ s.pending
    on none = refl
    on (some waiting) = refl
    on (some (holding e)) = refl
    on (some sender_dropped) = refl
    on (some receiver_dropped) = refl

drop_sender-pending : (id : Bytes) (s : Approvals) → (drop_sender id s).pending ≡ s.pending
unfolding drop_sender
drop_sender-pending id s = on (lookup id s.channels)
  where
    on : (o : Option Channel) → (close id o s).pending ≡ s.pending
    on none = refl
    on (some waiting) = refl
    on (some (holding e)) = refl
    on (some sender_dropped) = refl
    on (some receiver_dropped) = refl

settle-pending :
    (id : Bytes) (approval : PendingApproval) (r : Result GatewayError Decision) (s : Approvals)
    → (settle id approval r s).1.pending ≡ s.pending
unfolding settle
settle-pending id approval (err e) s = drop_sender-pending id s
settle-pending id approval (ok d) s = send-pending id d s

-- No entry is left under the id.
decide-pending :
    (id : Bytes) (body : Value) (s : Approvals) → lookup id (decide id body s).1.pending ≡ none
unfolding decide
decide-pending id body s = entry (lookup id s.pending) refl
  where
    entry :
        (o : Option PendingApproval)
        → lookup id s.pending ≡ o
        → lookup id (decide_entry id body o s).1.pending ≡ none
    entry none gone = gone
    entry (some approval) found =
        ap (lookup id) (
          settle-pending id approval (parse_decision body)
            (record s { pending = remove id s.pending }))
        ∙ lookup-remove id s.pending

-- A second decision on an approval is not found, whatever the first one was and however it ended.
pub decide_once :
    (id : Bytes) (first second : Value) (s : Approvals)
    → (decide id second (decide id first s).1).0 ≡ err not_found
unfolding decide
decide_once id first second s =
    ap (λ o. (decide_entry id second o (decide id first s).1).0) (decide-pending id first s)

-- A text of the body.
abbrev pub text_at : (key : Bytes) → Value → Option Bytes
text_at key body = and_then (get key body) as_str

-- The two words of a decision, and everything else.
parse_decision-cases :
    (body : Value)
    → ((text_at (ascii "decision") body ≡ some (ascii "granted"))
        × (parse_decision body
            ≡ ok (record { granted = true; reason = text_at (ascii "reason") body })))
      ⊎ ((text_at (ascii "decision") body ≡ some (ascii "denied"))
          × (parse_decision body
              ≡ ok (record { granted = false; reason = text_at (ascii "reason") body })))
      ⊎ ((text_at (ascii "decision") body ≢ some (ascii "granted"))
          × (text_at (ascii "decision") body ≢ some (ascii "denied"))
          × (parse_decision body ≡ err bad_request))
unfolding parse_decision
parse_decision-cases body = elim (Option-cases (text_at (ascii "decision") body)) [
  | inl e ↦ inr (inr (λ h. cc (e, h), λ h. cc (e, h), rw (e, parse_decision) refl))
  | inr (word, e) ↦ elim (Bool-cases (bytes_eq word (ascii "granted"))) [
    | inl g ↦
        inl (e ∙ ap some (bytes_eq→eq word (ascii "granted") g), rw (e, parse_decision) (rw g refl))
    | inr g ↦ elim (Bool-cases (bytes_eq word (ascii "denied"))) [
      | inl d ↦ inr (
          inl (
            e ∙ ap some (bytes_eq→eq word (ascii "denied") d),
            rw (e, parse_decision) (rw (g, d) refl),
          ))
      | inr d ↦ inr (
          inr (
            other word e (ascii "granted") g,
            other word e (ascii "denied") d,
            rw (e, parse_decision) (rw (g, d) refl),
          ))
    ]
  ]
]
  where
    other :
        (word : Bytes)
        → text_at (ascii "decision") body ≡ some word
        → (w : Bytes) → bytes_eq word w ≡ false
        → text_at (ascii "decision") body ≢ some w
    other word e w f h =
        let same : word ≡ w = cc (e, h) in
        cc (sym f ∙ ap (λ v. bytes_eq v w) same ∙ bytes_eq_refl w)

module _ (id : Bytes) (s : Approvals) {approval : PendingApproval}
    (found : lookup id s.pending ≡ some approval)
    (open_channel : lookup id s.channels ≡ some waiting) where
  -- A pending approval is settled by what the body is read as.
  pub decide-settles :
      (body : Value)
      → ((d : Decision) × (parse_decision body ≡ ok d)
          × ((decide id body s).0 ≡ ok approval)
          × (awaited id (decide id body s).1 ≡ some (ok d)))
        ⊎ ((e : GatewayError) × (parse_decision body ≡ err e)
            × ((decide id body s).0 ≡ err e)
            × (awaited id (decide id body s).1 ≡ some (err internal)))
  unfolding decide settle send drop_sender awaited
  decide-settles body = by (parse_decision body) refl
    where
      removed : Approvals
      removed = record s { pending = remove id s.pending }

      run :
          (r : Result GatewayError Decision)
          → parse_decision body ≡ r
          → decide id body s ≡ settle id approval r removed
      run r p = ap (λ o. decide_entry id body o s) found ∙ ap (λ q. settle id approval q removed) p

      sent :
          (d : Decision)
          → settle id approval (ok d) removed
            ≡ (ok approval, record removed { channels = update id (holding d) s.channels })
      sent d =
          ap (λ o. ((send_on id d o removed).0 >>= λ unit. ok approval, (send_on id d o removed).1))
            open_channel

      closed :
          (e : GatewayError)
          → settle id approval (err e) removed
            ≡ (err e, record removed { channels = update id sender_dropped s.channels })
      closed e = ap (λ o. (err e, close id o removed)) open_channel

      by :
          (r : Result GatewayError Decision)
          → parse_decision body ≡ r
          → ((d : Decision) × (parse_decision body ≡ ok d)
              × ((decide id body s).0 ≡ ok approval)
              × (awaited id (decide id body s).1 ≡ some (ok d)))
            ⊎ ((e : GatewayError) × (parse_decision body ≡ err e)
                × ((decide id body s).0 ≡ err e)
                × (awaited id (decide id body s).1 ≡ some (err internal)))
      by (ok d) p =
          let whole = run (ok d) p ∙ sent d in
          inl (
            d,
            p,
            ap (λ r. r.0) whole,
            ap (λ r. awaited id r.1) whole ∙ ap received (lookup-update id (holding d) s.channels),
          )
      by (err e) p =
          let whole = run (err e) p ∙ closed e in
          inr (
            e,
            p,
            ap (λ r. r.0) whole,
            ap (λ r. awaited id r.1) whole
                ∙ ap received (lookup-update id sender_dropped s.channels),
          )

  -- A decision on a pending approval whose requester waits wakes it: with the grant or the denial that
  -- the body says and its reason, and then the decider gets the approval; or, when the body says neither
  -- word, with an internal error, and then the decider is told that its request is bad.
  pub decide_wakes :
      (body : Value)
      → ((text_at (ascii "decision") body ≡ some (ascii "granted"))
          × ((decide id body s).0 ≡ ok approval)
          × (awaited id (decide id body s).1
              ≡ some (ok (record { granted = true; reason = text_at (ascii "reason") body }))))
        ⊎ ((text_at (ascii "decision") body ≡ some (ascii "denied"))
            × ((decide id body s).0 ≡ ok approval)
            × (awaited id (decide id body s).1
                ≡ some (ok (record { granted = false; reason = text_at (ascii "reason") body }))))
        ⊎ ((text_at (ascii "decision") body ≢ some (ascii "granted"))
            × (text_at (ascii "decision") body ≢ some (ascii "denied"))
            × ((decide id body s).0 ≡ err bad_request)
            × (awaited id (decide id body s).1 ≡ some (err internal)))
  decide_wakes body = elim (parse_decision-cases body) [
    | inl (word, read) ↦ let (got, woken) = granted_or_denied _ read in inl (word, got, woken)
    | inr (inl (word, read)) ↦
        let (got, woken) = granted_or_denied _ read in inr (inl (word, got, woken))
    | inr (inr (g, d, read)) ↦ let (told, woken) = malformed _ read in inr (inr (g, d, told, woken))
  ]
    where
      granted_or_denied :
          (d : Decision)
          → parse_decision body ≡ ok d
          → ((decide id body s).0 ≡ ok approval) × (awaited id (decide id body s).1 ≡ some (ok d))
      granted_or_denied d read = elim (decide-settles body) [
        | inl (d', read', got, woken) ↦
            let same : d' ≡ d = cc (read, read') in (got, woken ∙ ap (λ e. some (ok e)) same)
        | inr (e, read', told, woken) ↦ cc (read, read')
      ]

      malformed :
          (e : GatewayError)
          → parse_decision body ≡ err e
          → ((decide id body s).0 ≡ err e) × (awaited id (decide id body s).1 ≡ some (err internal))
      malformed e read = elim (decide-settles body) [
        | inl (d, read', got, woken) ↦ cc (read, read')
        | inr (e', read', told, woken) ↦
            let same : e' ≡ e = cc (read, read') in (told ∙ ap (λ f. err f) same, woken)
      ]
