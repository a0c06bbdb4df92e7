-- ===== src/Ledger/Records/Versions.antt =====
-- services/ledger/src/routes: prompt_versions.rs and policy_versions.rs.
use trackward.Prelude.{
  List, ◌∷◌, Bytes, bytes_eq, Bool, ◌&&◌, not, take, Option, none, some, Result, ok, ◌>>◌, guard,
}
use trackward.ChainCore.CanonicalJson.Syntax.{Value}
use trackward.ChainCore.Encode.{Timestamp}
use trackward.Verifier.Bundle.{ok_or}
use trackward.Ledger.Db.{Error, not_found, db_error}
use trackward.Ledger.Queries.{where_rows, fetch_optional, order_by, newest_first}
use trackward.Ledger.Records.Runs.{is_free, null_or}

pub record PromptVersion : Type 0 where
  pub id : Bytes
  pub workflow : Bytes
  pub version : Bytes
  pub git_sha : Bytes
  pub content_hash : Bytes
  pub metadata : Value
  pub actor_id : Bytes
  pub created_at : Timestamp

pub record CreatePromptVersion : Type 0 where
  pub workflow : Bytes
  pub version : Bytes
  pub git_sha : Bytes
  pub content_hash : Bytes
  pub metadata : Value

abbrev pub has_prompt : (workflow version content_hash : Bytes) → PromptVersion → Bool
has_prompt workflow version content_hash r =
    bytes_eq r.workflow workflow
    && bytes_eq r.version version
    && bytes_eq r.content_hash content_hash

abbrev pub prompt_row :
    (id actor_id : Bytes) (now : Timestamp) → CreatePromptVersion → PromptVersion
prompt_row id actor_id now input = record {
  id = id;
  workflow = input.workflow;
  version = input.version;
  git_sha = input.git_sha;
  content_hash = input.content_hash;
  metadata = input.metadata;
  actor_id = actor_id;
  created_at = now;
}

abbrev pub existing_or {ℓ} :
    {A : Type ℓ} → Option A → (fresh : A) → (taken : Bool) → List A → Result Error (A × List A)
existing_or (some row) fresh taken rows = ok (row, rows)
existing_or none fresh taken rows = guard (not taken) db_error >> ok (fresh, fresh ∷ rows)

-- `prompt_versions::create`: the content that is registered already gives its row.
unfoldable pub create_prompt_version :
    (id actor_id : Bytes) (now : Timestamp)
    → CreatePromptVersion
    → List PromptVersion
    → Result Error (PromptVersion × List PromptVersion)
unfolding fetch_optional bytes_eq
create_prompt_version id actor_id now input rows =
    existing_or (fetch_optional (has_prompt input.workflow input.version input.content_hash) rows)
      (prompt_row id actor_id now input) (not (is_free (λ r. bytes_eq r.id id) rows)) rows

pub record PolicyVersion : Type 0 where
  pub id : Bytes
  pub scope : Bytes
  pub version : Bytes
  pub git_sha : Bytes
  pub content_hash : Bytes
  pub metadata : Value
  pub actor_id : Bytes
  pub created_at : Timestamp

pub record CreatePolicyVersion : Type 0 where
  pub scope : Bytes
  pub version : Bytes
  pub git_sha : Bytes
  pub content_hash : Bytes
  pub metadata : Value

abbrev pub has_policy : (scope version content_hash : Bytes) → PolicyVersion → Bool
has_policy scope version content_hash r =
    bytes_eq r.scope scope && bytes_eq r.version version && bytes_eq r.content_hash content_hash

abbrev pub policy_row :
    (id actor_id : Bytes) (now : Timestamp) → CreatePolicyVersion → PolicyVersion
policy_row id actor_id now input = record {
  id = id;
  scope = input.scope;
  version = input.version;
  git_sha = input.git_sha;
  content_hash = input.content_hash;
  metadata = input.metadata;
  actor_id = actor_id;
  created_at = now;
}

-- `policy_versions::create`
unfoldable pub create_policy_version :
    (id actor_id : Bytes) (now : Timestamp)
    → CreatePolicyVersion
    → List PolicyVersion
    → Result Error (PolicyVersion × List PolicyVersion)
unfolding fetch_optional bytes_eq
create_policy_version id actor_id now input rows =
    existing_or (fetch_optional (has_policy input.scope input.version input.content_hash) rows)
      (policy_row id actor_id now input) (not (is_free (λ r. bytes_eq r.id id) rows)) rows

-- `prompt_versions::list`, with the filters of its query.
unfoldable pub list_prompt_versions :
    (workflow version content_hash : Option Bytes) → List PromptVersion → List PromptVersion
unfolding where_rows order_by bytes_eq
list_prompt_versions workflow version content_hash rows = take 100 (
    order_by (newest_first (λ r. r.created_at)) (
      where_rows
        (λ r.
          null_or (bytes_eq r.workflow) workflow
          && null_or (bytes_eq r.version) version
          && null_or (bytes_eq r.content_hash) content_hash)
        rows))

-- `policy_versions::list`
unfoldable pub list_policy_versions :
    (scope version content_hash : Option Bytes) → List PolicyVersion → List PolicyVersion
unfolding where_rows order_by bytes_eq
list_policy_versions scope version content_hash rows = take 100 (
    order_by (newest_first (λ r. r.created_at)) (
      where_rows
        (λ r.
          null_or (bytes_eq r.scope) scope
          && null_or (bytes_eq r.version) version
          && null_or (bytes_eq r.content_hash) content_hash)
        rows))

-- `prompt_versions::get`
unfoldable pub get_prompt_version : (id : Bytes) → List PromptVersion → Result Error PromptVersion
unfolding fetch_optional bytes_eq
get_prompt_version id rows = ok_or not_found (fetch_optional (λ r. bytes_eq r.id id) rows)

-- `policy_versions::get`
unfoldable pub get_policy_version : (id : Bytes) → List PolicyVersion → Result Error PolicyVersion
unfolding fetch_optional bytes_eq
get_policy_version id rows = ok_or not_found (fetch_optional (λ r. bytes_eq r.id id) rows)
