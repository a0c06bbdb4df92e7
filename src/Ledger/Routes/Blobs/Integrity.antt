-- ===== src/Ledger/Routes/Blobs/Integrity.antt =====
-- What a download returns: the bytes that were uploaded, or an error.
use trackward.Prelude.{
  ◌≡◌, sym, ap, ◌∙◌, ◌⊎◌, inl, inr, [], Bool, Bytes, ascii, bytes_eq, bytes_eq→eq, Option, some,
  Result, ok, err, >>=-eq-ok, guard-eq-ok,
}
use trackward.ChainCore.Hashing.{Collision, preimages}
use trackward.External.{External, IsExternal}
use trackward.Ledger.Db.{Error, s3_error, hash_mismatch, Row}
use trackward.Ledger.Chain.{artifacts}
use trackward.Ledger.Routes.{Database}
use trackward.Ledger.Routes.Blobs.{BlobStore, get_blob, find_row, str_column, Download, download}

module _ (x : External) (parse_uuid : Bytes → Option Bytes) where
  -- Whatever the blob store holds, a download that succeeds returns the bytes whose digest the row
  -- has, or SHA-256 collides.
  pub download_intact :
      (laws : IsExternal x) (is_header_value : Bytes → Bool) (id : Bytes) (store : BlobStore)
      (db : Database) (artifact : Row) (original : Bytes) {d : Download}
      → find_row id (db.ledger.tables artifacts) ≡ some artifact
      → str_column (ascii "sha256") artifact.fields ≡ x.hex_encode (x.sha256 original)
      → download x parse_uuid is_header_value id store db ≡ ok d
      → (d.body ≡ original) ⊎ Collision x.sha256
  unfolding download
  download_intact laws is_header_value id store db artifact original {d} found recorded h =
      let h₁ = rw found at h in
      let (blob, hg, h₂) =
        >>=-eq-ok (get_blob store (str_column (ascii "sha256") artifact.fields)) _ h₁ in
      let (same, e) =
        guard-eq-ok
          (bytes_eq (x.hex_encode (x.sha256 blob)) (str_column (ascii "sha256") artifact.fields))
          (hash_mismatch (str_column (ascii "sha256") artifact.fields)
            (x.hex_encode (x.sha256 blob)))
          _ h₂ in
      let (_, e₁) =
        guard-eq-ok (is_header_value (str_column (ascii "media_type") artifact.fields)) s3_error _
          e in
      let (_, e₂) =
        guard-eq-ok (is_header_value (str_column (ascii "sha256") artifact.fields)) s3_error _ e₁ in
      let hexes = bytes_eq→eq _ _ same ∙ recorded in
      let digests =
        sym (laws.decode-encode (x.sha256 blob))
        ∙ ap x.hex_decode hexes
        ∙ laws.decode-encode (x.sha256 original) in
      let body : blob ≡ d.body = ap body_of e₂ in
      elim (preimages x.sha256 blob original (cc digests)) [
        | inl p ↦ inl (sym body ∙ p)
        | inr c ↦ inr c
      ]
    where
      body_of : Result Error Download → Bytes
      body_of (ok dl) = dl.body
      body_of (err e) = []
