-- ===== src/Ledger/Anchoring/Canonical.antt =====
-- The format string of `AnchorManifest::canonical_json` against the canonical JSON writer.
use trackward.Prelude.{
  ℕ, ◌≤◌, ◌≡◌, ◌≢◌, refl, ap₂, [], ◌∷◌, ◌++◌, append_assoc, Bytes, ascii, lex_le, Bool, true, not,
  ◌&&◌, leb, ◌==◌, Option, none, some, ok, All, ℤ, pos, negsuc, arith,
}
use trackward.ChainCore.CanonicalJson.{escape, escape_all, write_string, to_canonical_string}
use trackward.ChainCore.CanonicalJson.Syntax.{Value, string, number, object, end, entry}
use trackward.External.{External}
use trackward.Ledger.Anchoring.Manifest.{AnchorManifest, canonical_json}

-- Text that a JSON string holds as it is: no quote, no backslash, no control character.
abbrev pub IsPlain : Bytes → Type 0
IsPlain = All (λ c. (0x20 ≤ c) × (c ≢ b'"') × (c ≢ b'\\'))

abbrev pub is_plain : Bytes → Bool
is_plain [] = true
is_plain (c ∷ s) = leb 0x20 c && not (c == b'"') && not (c == b'\\') && is_plain s

-- A given text is checked by evaluation.
pub is_plain-IsPlain : (s : Bytes) → is_plain s ≡ true → IsPlain s
is_plain-IsPlain [] h = tt
is_plain-IsPlain (c ∷ s) h =
    ((ground arith, (λ e. ground arith), λ e. ground arith), is_plain-IsPlain s (ground arith))

escape-IsPlain : (c : ℕ) → 0x20 ≤ c → c ≢ b'"' → c ≢ b'\\' → escape c ≡ c ∷ []
unfolding escape
escape-IsPlain c h q b = ground arith

pub escape_all-IsPlain : (s : Bytes) → IsPlain s → escape_all s ≡ s
unfolding escape_all
escape_all-IsPlain [] p = refl
escape_all-IsPlain (c ∷ s) p =
    ap₂ ◌++◌ (escape-IsPlain c p.0.0 p.0.1 p.0.2) (escape_all-IsPlain s p.1)

abbrev pub unsigned : ℤ → Option ℕ
unsigned (pos n) = some n
unsigned (negsuc n) = none

-- The manifest as a JSON value, its keys in the order in which serde_json's map keeps them.
unfoldable pub manifest_value : External → AnchorManifest → Value
manifest_value x m = object (
    entry (ascii "anchored_at") (string (x.rfc3339 m.anchored_at)) (
      entry (ascii "anchored_from") (string (x.rfc3339 m.anchored_from)) (
        entry (ascii "anchored_to") (string (x.rfc3339 m.anchored_to)) (
          entry (ascii "leaf_count")
            (number (record { as_i64 = some m.leaf_count; as_u64 = unsigned m.leaf_count }))
            (entry (ascii "root_hash") (string (x.hex_encode m.root_hash)) (
              entry (ascii "scope") (string m.scope)
                (entry (ascii "version") (string m.version) end)))))))

-- The text that is signed is the canonical JSON of the manifest, as long as its strings need no escapes.
pub canonical_json-to_canonical_string :
    (x : External) (m : AnchorManifest)
    → IsPlain m.version
    → IsPlain m.scope
    → ((t : ℕ) → IsPlain (x.rfc3339 t))
    → IsPlain (x.hex_encode m.root_hash)
    → to_canonical_string (manifest_value x m) ≡ ok (canonical_json x m)
unfolding to_canonical_string manifest_value canonical_json write_string lex_le
canonical_json-to_canonical_string x m version scope times root = simp (
  escape_all-IsPlain m.version version,
  escape_all-IsPlain m.scope scope,
  escape_all-IsPlain (x.rfc3339 m.anchored_at) (times m.anchored_at),
  escape_all-IsPlain (x.rfc3339 m.anchored_from) (times m.anchored_from),
  escape_all-IsPlain (x.rfc3339 m.anchored_to) (times m.anchored_to),
  escape_all-IsPlain (x.hex_encode m.root_hash) root,
  append_assoc,
)
