-- ===== src/Ledger/Records/Registration.antt =====
-- A version is registered once per content, and a run is bound once.
use trackward.Prelude.{
  ◌≡◌, refl, sym, ap, ◌∙◌, List, [], ◌∷◌, Bytes, bytes_eq, bytes_eq_refl, bytes_eq→eq, Bool, true,
  false, not, Option, none, some, Result, ok, err, ◌>>◌, guard, guard-eq-ok,
}
use trackward.ChainCore.Encode.{Timestamp}
use trackward.Verifier.Bundle.{ok_or}
use trackward.Ledger.Db.{Error, not_found, db_error, conflict}
use trackward.Ledger.Queries.{fetch_optional}
use trackward.Ledger.Records.Runs.{Run, RunVersionBinding, absent, is_free, is_run}
use trackward.Ledger.Records.Versions.{
  PromptVersion, CreatePromptVersion, has_prompt, prompt_row, existing_or, create_prompt_version,
}
use trackward.Ledger.Records.Bindings.{
  CreateRunVersionBinding, binds, binding_row, create_binding, get_binding,
}

module _ {ℓ} {A : Type ℓ} where
  fetch_optional-head :
      (p : A → Bool) (r : A) (rs : List A) → p r ≡ true → fetch_optional p (r ∷ rs) ≡ some r
  unfolding fetch_optional
  fetch_optional-head p r rs h = rw h refl

  fetch_optional-skip :
      (p : A → Bool) (r : A) (rs : List A)
      → p r ≡ false
      → fetch_optional p (r ∷ rs) ≡ fetch_optional p rs
  unfolding fetch_optional
  fetch_optional-skip p r rs h = rw h refl

-- Two requests to register the same content of a prompt.
abbrev pub SameContent : CreatePromptVersion → CreatePromptVersion → Type 0
SameContent a b =
    (a.workflow ≡ b.workflow) × (a.version ≡ b.version) × (a.content_hash ≡ b.content_hash)

abbrev found : CreatePromptVersion → List PromptVersion → Option PromptVersion
found input rows = fetch_optional (has_prompt input.workflow input.version input.content_hash) rows

found-same :
    (a b : CreatePromptVersion) (rows : List PromptVersion)
    → SameContent a b
    → found a rows ≡ found b rows
found-same a b rows (workflow, version, content_hash) =
    ap (λ w. fetch_optional (has_prompt w a.version a.content_hash) rows) workflow
    ∙ ap (λ v. fetch_optional (has_prompt b.workflow v a.content_hash) rows) version
    ∙ ap (λ h. fetch_optional (has_prompt b.workflow b.version h) rows) content_hash

found-created :
    (id actor_id : Bytes) (now : Timestamp) (input : CreatePromptVersion)
    (rows rows' : List PromptVersion) (row : PromptVersion)
    → create_prompt_version id actor_id now input rows ≡ ok (row, rows')
    → found input rows' ≡ some row
unfolding create_prompt_version
found-created id actor_id now input rows rows' row h = on (found input rows) refl h
  where
    fresh : PromptVersion
    fresh = prompt_row id actor_id now input

    taken : Bool
    taken = not (is_free (λ r. bytes_eq r.id id) rows)

    own : found input (fresh ∷ rows) ≡ some fresh
    own =
        fetch_optional-head (has_prompt input.workflow input.version input.content_hash) fresh rows
          (rw
            (
              bytes_eq_refl input.workflow,
              bytes_eq_refl input.version,
              bytes_eq_refl input.content_hash,
            )
            refl)

    on :
        (o : Option PromptVersion)
        → found input rows ≡ o
        → existing_or o fresh taken rows ≡ ok (row, rows')
        → found input rows' ≡ some row
    on (some old) e h = ap (found input) (sym (ap pair_rows h)) ∙ e ∙ ap some (ap pair_row h)
      where
        pair_row : Result Error (PromptVersion × List PromptVersion) → PromptVersion
        pair_row (ok (r, rs)) = r
        pair_row (err e) = old

        pair_rows : Result Error (PromptVersion × List PromptVersion) → List PromptVersion
        pair_rows (ok (r, rs)) = rs
        pair_rows (err e) = rows
    on none e h =
        let (free, made) = guard-eq-ok (not taken) db_error (ok (fresh, fresh ∷ rows)) h in
        ap (found input) (sym (ap pair_rows made)) ∙ own ∙ ap some (ap pair_row made)
      where
        pair_row : Result Error (PromptVersion × List PromptVersion) → PromptVersion
        pair_row (ok (r, rs)) = r
        pair_row (err e) = fresh

        pair_rows : Result Error (PromptVersion × List PromptVersion) → List PromptVersion
        pair_rows (ok (r, rs)) = rs
        pair_rows (err e) = rows

-- Registering the content of a prompt again gives the row of the first time and adds none, whoever
-- asks, with whatever commit and metadata: a gateway that restarts is bound to the same version.
pub create_prompt_version_again :
    (id actor_id : Bytes) (now : Timestamp) (input : CreatePromptVersion)
    (rows rows' : List PromptVersion) (row : PromptVersion)
    → create_prompt_version id actor_id now input rows ≡ ok (row, rows')
    → (id' actor_id' : Bytes) (now' : Timestamp) (again : CreatePromptVersion)
    → SameContent input again
    → create_prompt_version id' actor_id' now' again rows' ≡ ok (row, rows')
unfolding create_prompt_version
create_prompt_version_again id actor_id now input rows rows' row h id' actor_id' now' again same =
    ap
      (λ o.
        existing_or o (prompt_row id' actor_id' now' again)
          (not (is_free (λ r. bytes_eq r.id id') rows')) rows')
      (sym (found-same input again rows' same)
        ∙ found-created id actor_id now input rows rows' row h)

-- The table after a request: as it was, when the request failed.
abbrev pub rows_after {ℓ} : {A : Type ℓ} → List A → Result Error (A × List A) → List A
rows_after rows (ok (r, rs)) = rs
rows_after rows (err e) = rows

-- The rows after attempts to bind runs, one after the other, whatever became of each.
abbrev pub after_attempts :
    (runs : List Run)
    → List (Bytes × Bytes × CreateRunVersionBinding)
    → List RunVersionBinding
    → List RunVersionBinding
after_attempts runs [] rows = rows
after_attempts runs ((actor_id, run_id, input) ∷ attempts) rows =
    after_attempts runs attempts (rows_after rows (create_binding actor_id run_id input runs rows))

attempt-keeps :
    (run_id : Bytes) (b : RunVersionBinding) (runs : List Run) (rows : List RunVersionBinding)
    (actor_id other : Bytes) (input : CreateRunVersionBinding)
    → fetch_optional (binds run_id) rows ≡ some b
    → fetch_optional
        (binds run_id)
        (rows_after rows (create_binding actor_id other input runs rows))
      ≡ some b
unfolding create_binding
attempt-keeps run_id b runs rows actor_id other input h = on_run (not (is_free (is_run other) runs))
  where
    fresh : RunVersionBinding
    fresh = binding_row actor_id other input

    on_key :
        (same : Bool)
        → bytes_eq other run_id ≡ same
        → fetch_optional (binds run_id) (
            rows_after rows
              (guard (is_free (binds other) rows) conflict >> ok (fresh, fresh ∷ rows)))
          ≡ some b
    on_key true same =
        let key = bytes_eq→eq other run_id same in
        let taken : is_free (binds other) rows ≡ false =
          ap (λ k. is_free (binds k) rows) key ∙ ap absent h in
        rw taken h
    on_key false differs = on_free (is_free (binds other) rows)
      where
        on_free :
            (free : Bool)
            → fetch_optional
                (binds run_id)
                (rows_after rows (guard free conflict >> ok (fresh, fresh ∷ rows)))
              ≡ some b
        on_free false = h
        on_free true = fetch_optional-skip (binds run_id) fresh rows differs ∙ h

    on_run :
        (exists : Bool)
        → fetch_optional (binds run_id) (
            rows_after rows (
              guard exists not_found
              >> (guard (is_free (binds other) rows) conflict >> ok (fresh, fresh ∷ rows))))
          ≡ some b
    on_run false = h
    on_run true = on_key (bytes_eq other run_id) refl

attempts-keep :
    (run_id : Bytes) (b : RunVersionBinding) (runs : List Run)
    (attempts : List (Bytes × Bytes × CreateRunVersionBinding)) (rows : List RunVersionBinding)
    → fetch_optional (binds run_id) rows ≡ some b
    → fetch_optional (binds run_id) (after_attempts runs attempts rows) ≡ some b
attempts-keep run_id b runs [] rows h = h
attempts-keep run_id b runs ((actor_id, other, input) ∷ attempts) rows h =
    attempts-keep run_id b runs attempts _ (attempt-keeps run_id b runs rows actor_id other input h)

-- A run that was bound stays bound: after any attempts to bind this run or others, reading the
-- binding of the run gives the prompt, the policy and the evaluation of the first request, under the
-- actor of it, and a further attempt to bind the run is a conflict.
pub create_binding_once :
    (actor_id run_id : Bytes) (input : CreateRunVersionBinding) (runs : List Run)
    (rows rows' : List RunVersionBinding) (row : RunVersionBinding)
    (attempts : List (Bytes × Bytes × CreateRunVersionBinding)) (actor_id' : Bytes)
    (again : CreateRunVersionBinding)
    → create_binding actor_id run_id input runs rows ≡ ok (row, rows')
    → (get_binding run_id (after_attempts runs attempts rows')
        ≡ ok (record {
          run_id = run_id;
          prompt_version_id = input.prompt_version_id;
          policy_version_id = input.policy_version_id;
          eval_result_id = input.eval_result_id;
          actor_id = actor_id;
        }))
      × (create_binding actor_id' run_id again runs (after_attempts runs attempts rows')
          ≡ err conflict)
unfolding create_binding get_binding
create_binding_once actor_id run_id input runs rows rows' row attempts actor_id' again h =
    let (exists, h₁) = guard-eq-ok (not (is_free (is_run run_id) runs)) not_found _ h in
    let (free, made) = guard-eq-ok (is_free (binds run_id) rows) conflict _ h₁ in
    let bound = ap (fetch_optional (binds run_id)) (sym (ap (rows_after rows) made)) ∙ own in
    let kept = attempts-keep run_id fresh runs attempts rows' bound in
    let taken : is_free (binds run_id) (after_attempts runs attempts rows') ≡ false =
      ap absent kept in
    (
      ap (ok_or not_found) kept,
      ap (λ b. again_at b (is_free (binds run_id) (after_attempts runs attempts rows'))) exists
          ∙ ap (again_at true) taken,
    )
  where
    again_at : (exists free : Bool) → Result Error (RunVersionBinding × List RunVersionBinding)
    again_at exists free =
        let b = binding_row actor_id' run_id again in
        guard exists not_found
        >> (guard free conflict >> ok (b, b ∷ after_attempts runs attempts rows'))

    fresh : RunVersionBinding
    fresh = binding_row actor_id run_id input

    own : fetch_optional (binds run_id) (fresh ∷ rows) ≡ some fresh
    own = fetch_optional-head (binds run_id) fresh rows (bytes_eq_refl run_id)
