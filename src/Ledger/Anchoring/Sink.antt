-- ===== src/Ledger/Anchoring/Sink.antt =====
-- services/ledger/src/anchors: where the signed documents go.
use trackward.Prelude.{
  List, [], ◌∷◌, ◌++◌, Bytes, ascii, bytes_eq, Option, none, some, Result, ok, err, if◌then◌else◌,
}
use trackward.Ledger.Db.{Error, s3_error}

-- An upload to S3 answers with its URI or fails; the memory sink keeps what it was given.
pub data AnchorSink : Type 0 where
  s3 : (Bytes → Bytes → Option Bytes) → AnchorSink
  memory : List (Bytes × Bytes) → AnchorSink
  noop : AnchorSink

-- `HashMap::insert`
unfoldable pub insert : Bytes → Bytes → List (Bytes × Bytes) → List (Bytes × Bytes)
insert key bytes [] = (key, bytes) ∷ []
insert key bytes ((k, v) ∷ kvs) =
    if bytes_eq k key then (key, bytes) ∷ kvs else (k, v) ∷ insert key bytes kvs

-- `MemorySink::get`
unfoldable pub get : Bytes → List (Bytes × Bytes) → Option Bytes
get key [] = none
get key ((k, v) ∷ kvs) = if bytes_eq k key then some v else get key kvs

-- `AnchorSink::put`: the URI, and the sink after it.
unfoldable pub put : AnchorSink → (key bytes : Bytes) → Result Error (Bytes × AnchorSink)
unfolding insert
put (s3 upload) key bytes = elim (upload key bytes) [
  | some uri ↦ ok (uri, s3 upload)
  | none ↦ err s3_error
]
put (memory kvs) key bytes = ok (ascii "memory://" ++ key, memory (insert key bytes kvs))
put noop key bytes = ok (ascii "noop://" ++ key, noop)
