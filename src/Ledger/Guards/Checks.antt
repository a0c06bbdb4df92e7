-- ===== src/Ledger/Guards/Checks.antt =====
-- Who passes the guards of a request.
use trackward.Prelude.{
  ◌≤◌, ◌<◌, ◌≡◌, refl, sym, ap, ◌∙◌, subst, ◌≢◌, ◌⊎◌, inl, inr, ◌++◌, [], ◌∷◌, Bytes, ascii, Bool,
  true, false, ◌||◌, ltb, ◌==◌, length, All, Option, none, some, ok, err, ◌>>=◌, arith,
  if◌then◌else◌,
}
use trackward.Prelude.Text.{trim, strip_prefix}
use trackward.Prelude.Maps.{lookup}
use trackward.Verifier.Bundle.{and_then, ok_or}
use trackward.Ledger.Guards.{
  Headers, constant_time_eq, bearer, gate, matches, presented, require_bearer, invalid,
  actor_header, actor_of_header, actor_or_default, default_or, from_request_parts,
}
use trackward.Ledger.Guards.Equality.{constant_time_eq_iff}

strip_prefix-eq-some :
    (prefix text rest : Bytes) → strip_prefix prefix text ≡ some rest → text ≡ prefix ++ rest
unfolding strip_prefix
strip_prefix-eq-some [] text rest h = cc
strip_prefix-eq-some (p ∷ ps) [] rest h = cc
strip_prefix-eq-some (p ∷ ps) (b ∷ bs) rest h = grind (arith, strip_prefix-eq-some ps bs rest)

strip_prefix-append : (prefix rest : Bytes) → strip_prefix prefix (prefix ++ rest) ≡ some rest
unfolding strip_prefix
strip_prefix-append [] rest = refl
strip_prefix-append (p ∷ ps) rest = ground (arith, strip_prefix-append ps rest)

measured :
    (t actor : Bytes)
    → (if length t == 0 || ltb 256 (length t) then err invalid else ok t) ≡ ok actor
    → (actor ≡ t) × (1 ≤ length actor) × (length actor ≤ 256)
measured t actor h = by (length t == 0 || ltb 256 (length t)) refl h
  where
    by :
        (b : Bool)
        → (length t == 0 || ltb 256 (length t)) ≡ b
        → (if b then err invalid else ok t) ≡ ok actor
        → (actor ≡ t) × (1 ≤ length actor) × (length actor ≤ 256)
    by true e h = cc
    by false e h =
        let same : t ≡ actor = cc in
        let bounds : (1 ≤ length t) × (length t ≤ 256) = ground arith in
        let (long, short) = subst (λ a. (1 ≤ length a) × (length a ≤ 256)) same bounds in
        (sym same, long, short)

module _ (header_text : Bytes → Option Bytes) where
  -- With a token configured, a request reaches its handler exactly when its `authorization` header
  -- reads `Bearer`, a space and that token; else it gets a 401.
  pub require_bearer_iff {ℓ} :
      {A : Type ℓ} (expected : Bytes) (headers : Headers) (next : A)
      → All (λ b. b < 256) expected
      → ((text : Bytes)
          → and_then (lookup (ascii "authorization") headers) header_text ≡ some text
          → All (λ b. b < 256) text)
      → ((require_bearer header_text (some expected) headers next ≡ ok next)
          × (and_then (lookup (ascii "authorization") headers) header_text
              ≡ some (bearer ++ expected)))
        ⊎ ((require_bearer header_text (some expected) headers next ≡ err 401)
            × (and_then (lookup (ascii "authorization") headers) header_text
                ≢ some (bearer ++ expected)))
  unfolding require_bearer presented
  require_bearer_iff expected headers next he ht =
      on (and_then (lookup (ascii "authorization") headers) header_text) ht
    where
      on :
          (o : Option Bytes)
          → ((text : Bytes) → o ≡ some text → All (λ b. b < 256) text)
          → ((gate (matches expected (and_then o (strip_prefix bearer))) next ≡ ok next)
              × (o ≡ some (bearer ++ expected)))
            ⊎ ((gate (matches expected (and_then o (strip_prefix bearer))) next ≡ err 401)
                × (o ≢ some (bearer ++ expected)))
      on none h = inr (refl, λ e. cc)
      on (some text) h = by (strip_prefix bearer text) refl
        where
          own : {t : Bytes} → some text ≡ some t → text ≡ t
          own e = cc

          by :
              (o : Option Bytes)
              → strip_prefix bearer text ≡ o
              → ((gate (matches expected o) next ≡ ok next)
                  × (some text ≡ some (bearer ++ expected)))
                ⊎ ((gate (matches expected o) next ≡ err 401)
                    × (some text ≢ some (bearer ++ expected)))
          by none e = inr (
            refl,
            λ same.
                let stripped =
                  ap (strip_prefix bearer) (own same) ∙ strip_prefix-append bearer expected in
                cc,
          )
          by (some got) e = test (constant_time_eq got expected) refl
            where
              whole : text ≡ bearer ++ got
              whole = strip_prefix-eq-some bearer text got e

              got_bytes : All (λ b. b < 256) got
              got_bytes = (subst (All (λ b. b < 256)) whole (h text refl)).1.1.1.1.1.1.1

              test :
                  (b : Bool)
                  → constant_time_eq got expected ≡ b
                  → ((gate b next ≡ ok next) × (some text ≡ some (bearer ++ expected)))
                    ⊎ ((gate b next ≡ err 401) × (some text ≢ some (bearer ++ expected)))
              test true f = inl (
                refl,
                ap some (
                    whole
                    ∙ ap (◌++◌ bearer) ((constant_time_eq_iff got expected got_bytes he).0 f)),
              )
              test false f = inr (
                refl,
                λ same.
                    let stripped =
                      sym e
                      ∙ ap (strip_prefix bearer) (own same)
                      ∙ strip_prefix-append bearer expected in
                    let equal = (constant_time_eq_iff got expected got_bytes he).1 (cc) in cc,
              )

  -- The actor that a write is stamped with: the header's text without the white space around it, of 1
  -- to 256 bytes, or without the header the configured default.
  pub from_request_parts_bounds :
      (default : Option Bytes) (headers : Headers) (actor : Bytes)
      → from_request_parts header_text default headers ≡ ok actor
      → ((raw : Bytes) × (text : Bytes) × (lookup actor_header headers ≡ some raw)
          × (header_text raw ≡ some text)
          × (actor ≡ trim text)
          × (1 ≤ length actor)
          × (length actor ≤ 256))
        ⊎ ((lookup actor_header headers ≡ none) × (default ≡ some actor))
  unfolding from_request_parts actor_of_header
  from_request_parts_bounds default headers actor h = on (lookup actor_header headers) refl h
    where
      on :
          (o : Option Bytes)
          → lookup actor_header headers ≡ o
          → actor_or_default header_text default o ≡ ok actor
          → ((raw : Bytes) × (text : Bytes) × (lookup actor_header headers ≡ some raw)
              × (header_text raw ≡ some text)
              × (actor ≡ trim text)
              × (1 ≤ length actor)
              × (length actor ≤ 256))
            ⊎ ((lookup actor_header headers ≡ none) × (default ≡ some actor))
      on none e h = inr (e, of_default default h)
        where
          of_default : (d : Option Bytes) → default_or d ≡ ok actor → d ≡ some actor
          of_default none h = cc
          of_default (some a) h = cc
      on (some raw) e h = inl (by (header_text raw) refl h)
        where
          by :
              (o : Option Bytes)
              → header_text raw ≡ o
              → (ok_or invalid o >>= λ s.
                  if length (trim s) == 0 || ltb 256 (length (trim s))
                  then err invalid
                  else ok (trim s))
                ≡ ok actor
              → (raw : Bytes) × (text : Bytes) × (lookup actor_header headers ≡ some raw)
                × (header_text raw ≡ some text)
                × (actor ≡ trim text)
                × (1 ≤ length actor)
                × (length actor ≤ 256)
          by none f h = cc
          by (some text) f h =
              let (same, long, short) = measured (trim text) actor h in
              (raw, text, e, f, same, long, short)
