-- ===== src/Ledger/Anchoring/Manifest.antt =====
-- `AnchorManifest` of services/ledger/src/anchoring.rs: the text that is signed.
use trackward.Prelude.{[], ◌∷◌, Bytes, ascii, concat, ℤ}
use trackward.ChainCore.Hashing.{Hash}
use trackward.ChainCore.Encode.{Timestamp}
use trackward.ChainCore.CanonicalJson.{show_int}
use trackward.External.{External}

pub record AnchorManifest : Type 0 where
  pub version : Bytes
  pub scope : Bytes
  pub anchored_from : Timestamp
  pub anchored_to : Timestamp
  pub leaf_count : ℤ
  pub root_hash : Hash
  pub anchored_at : Timestamp

-- `"name":` and `"text"`, as they stand in the format string.
abbrev pub key : Bytes → Bytes
key name = concat ((b'"' ∷ []) ∷ name ∷ (b'"' ∷ b':' ∷ []) ∷ [])

abbrev pub quoted : Bytes → Bytes
quoted text = concat ((b'"' ∷ []) ∷ text ∷ (b'"' ∷ []) ∷ [])

unfoldable pub canonical_json : External → AnchorManifest → Bytes
unfolding show_int
canonical_json x m = concat (
    (b'{' ∷ [])
    ∷ key (ascii "anchored_at")
    ∷ quoted (x.rfc3339 m.anchored_at)
    ∷ (b',' ∷ [])
    ∷ key (ascii "anchored_from")
    ∷ quoted (x.rfc3339 m.anchored_from)
    ∷ (b',' ∷ [])
    ∷ key (ascii "anchored_to")
    ∷ quoted (x.rfc3339 m.anchored_to)
    ∷ (b',' ∷ [])
    ∷ key (ascii "leaf_count")
    ∷ show_int m.leaf_count
    ∷ (b',' ∷ [])
    ∷ key (ascii "root_hash")
    ∷ quoted (x.hex_encode m.root_hash)
    ∷ (b',' ∷ [])
    ∷ key (ascii "scope")
    ∷ quoted m.scope
    ∷ (b',' ∷ [])
    ∷ key (ascii "version")
    ∷ quoted m.version
    ∷ (b'}' ∷ [])
    ∷ [])
