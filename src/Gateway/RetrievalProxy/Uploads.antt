-- ===== src/Gateway/RetrievalProxy/Uploads.antt =====
-- What the uploads of a retrieval leave on the trace.
use trackward.Prelude.{
  ◌≡◌, refl, ap, length, ℕ, suc, List, [], ◌∷◌, ◌++◌, Bytes, ascii, Option, some, Result, ok, err,
}
use trackward.ChainCore.CanonicalJson.Syntax.{Value, Items, nil, cons}
use trackward.ChainCore.CanonicalJson.{show_nat}
use trackward.Verifier.Bundle.{and_then, unwrap_or, as_str, items_length}
use trackward.Verifier.Bundle
use trackward.Gateway.Approval.{GatewayError, ledger_failed}
use trackward.Gateway.Http.{Request, Response, Trace, Network, pure, continue, ◌>>=◌}
use trackward.Gateway.LedgerClient.{Wire, ArtifactResponse, upload_artifact}
use trackward.Gateway.LedgerApi.{document_post}
use trackward.Gateway.ToolProxy.{AppState}
use trackward.Gateway.ToolProxy.Steps.{IsAcked, exchanged, method-cases}
use trackward.Gateway.RetrievalProxy.{doc_label, upload_docs}

module _ (w : Wire) (network : Network) (state : AppState) where
  -- A document is labelled with its `id`, or else with its place.
  abbrev label_of : (i : ℕ) → Value → Bytes
  label_of i doc =
      unwrap_or (ascii "doc-" ++ show_nat i) (and_then (Bundle.get (ascii "id") doc) as_str)

  abbrev upload_request : (run_id : Bytes) (i : ℕ) → Value → Request
  upload_request run_id i doc = document_post w state.ledger run_id (label_of i doc) (w.to_vec doc)

  abbrev read_artifact : Response → Option ArtifactResponse
  read_artifact response = and_then response.body w.read_artifact

  -- The documents are uploaded one by one, each as the text that `to_vec` prints, and the ids are
  -- those that the ledger gave them.
  abbrev pub AreUploaded : (run_id : Bytes) → ℕ → Items → List Bytes → Trace → Trace → Type 0
  AreUploaded run_id i nil [] t s = s ≡ t
  AreUploaded run_id i nil (id ∷ ids) t s = ⊥
  AreUploaded run_id i (cons doc docs) [] t s = ⊥
  AreUploaded run_id i (cons doc docs) (id ∷ ids) t s =
      IsAcked (exchanged network (upload_request run_id i doc) t)
      × ((a : ArtifactResponse) × (and_then (network t (upload_request run_id i doc)) read_artifact
            ≡ some a)
          × (a.id ≡ id))
      × AreUploaded run_id (suc i) docs ids (exchanged network (upload_request run_id i doc) t ∷ t)
          s

  pub upload_docs-cases {κ} :
      (P : Result GatewayError (List Bytes) × Trace → Type κ) (run_id : Bytes) (i : ℕ)
      (docs : Items) (t : Trace)
      → ((ids : List Bytes) (s : Trace) → AreUploaded run_id i docs ids t s → P (ok ids, s))
      → ((s : Trace) → P (err ledger_failed, s))
      → P (upload_docs w network state run_id i docs t)
  unfolding upload_docs upload_artifact doc_label
  upload_docs-cases P run_id i nil t good bad = good [] t refl
  upload_docs-cases P run_id i (cons doc docs) t good bad =
      method-cases network w state.ledger
        (λ x. P (
          continue x λ artifact.
            upload_docs w network state run_id (suc i) docs >>= λ ids. pure (artifact.id ∷ ids)))
        (upload_request run_id i doc) t read_artifact (λ refused. bad _)
        (λ a acked answered.
          upload_docs-cases (λ x. P (continue x λ ids. pure (a.id ∷ ids))) run_id (suc i) docs
            (exchanged network (upload_request run_id i doc) t ∷ t)
            (λ ids s uploaded. good (a.id ∷ ids) s (acked, (a, answered, refl), uploaded)) bad)

  -- As many ids as documents.
  pub AreUploaded-length :
      (run_id : Bytes) (i : ℕ) (docs : Items) (ids : List Bytes) (t s : Trace)
      → AreUploaded run_id i docs ids t s
      → items_length docs ≡ length ids
  unfolding items_length
  AreUploaded-length run_id i nil [] t s up = refl
  AreUploaded-length run_id i nil (id ∷ ids) t s up = absurd up
  AreUploaded-length run_id i (cons doc docs) [] t s up = absurd up
  AreUploaded-length run_id i (cons doc docs) (id ∷ ids) t s (acked, made, up) =
      ap suc (AreUploaded-length run_id (suc i) docs ids _ s up)
