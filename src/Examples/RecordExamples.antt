-- ===== src/Examples/RecordExamples.antt =====
-- The results on the runs, versions and bindings at concrete rows.
use trackward.Prelude.{◌≡◌, refl, [], ◌∷◌, ascii, some, none, ok, err, pos}
use trackward.ChainCore.CanonicalJson.Syntax.{null}
use trackward.Ledger.Db.{conflict}
use trackward.Ledger.Records.Runs.{Run, ListQuery, list_runs, RunVersionBinding}
use trackward.Ledger.Records.Versions.{
  PromptVersion, CreatePromptVersion, prompt_row, create_prompt_version,
}
use trackward.Ledger.Records.Bindings.{
  CreateRunVersionBinding, binding_row, create_binding, get_binding,
}
use trackward.Ledger.Records.Pages.{IsPage, list_runs-IsPage}
use trackward.Ledger.Records.Registration.{create_prompt_version_again, create_binding_once}
use trackward.Examples.Fixtures.{run_a, run_b, row_id}

abbrev old_run : Run
old_run = record { id = run_a; agent = ascii "a"; started_at = 3; metadata = null; actor_id = [] }

abbrev new_run : Run
new_run = record { id = run_b; agent = ascii "a"; started_at = 5; metadata = null; actor_id = [] }

abbrev latest_one : ListQuery
latest_one = record { agent = some (ascii "a"); since = none; until = none; limit = some (pos 0) }

list_runs-IsPage_example : IsPage latest_one (old_run ∷ new_run ∷ []) (new_run ∷ [])
unfolding list_runs
list_runs-IsPage_example = list_runs-IsPage latest_one (old_run ∷ new_run ∷ [])

abbrev greeting : CreatePromptVersion
greeting = record {
  workflow = ascii "greet";
  version = ascii "1";
  git_sha = ascii "abc";
  content_hash = ascii "h";
  metadata = null;
}

abbrev greeting_later : CreatePromptVersion
greeting_later = record greeting { git_sha = ascii "def" }

abbrev first_row : PromptVersion
first_row = prompt_row (row_id 1) [] 1 greeting

create_prompt_version_again_example :
    create_prompt_version (row_id 2) [] 2 greeting_later (first_row ∷ [])
    ≡ ok (first_row, first_row ∷ [])
unfolding create_prompt_version
create_prompt_version_again_example =
    create_prompt_version_again (row_id 1) [] 1 greeting [] (first_row ∷ []) first_row refl
      (row_id 2) [] 2 greeting_later (refl, refl, refl)

abbrev versions : CreateRunVersionBinding
versions = record {
  prompt_version_id = some (row_id 1);
  policy_version_id = none;
  eval_result_id = none;
}

abbrev bound : RunVersionBinding
bound = binding_row [] run_a versions

create_binding_once_example :
    (get_binding run_a (bound ∷ []) ≡ ok bound)
    × (create_binding [] run_a
          (record versions { prompt_version_id = none })
          (old_run ∷ [])
          (bound ∷ [])
        ≡ err conflict)
unfolding create_binding
create_binding_once_example =
    create_binding_once [] run_a versions (old_run ∷ []) [] (bound ∷ []) bound
      ((ascii "b", run_a, record versions { policy_version_id = some (row_id 2) }) ∷ []) []
      (record versions { prompt_version_id = none }) refl
