-- ===== src/Gateway/Registry.antt =====
-- services/gateway/src/registry.rs: the content hash of a version's directory, and the binding that
-- is resolved at start-up. What the file system holds is a parameter.
pub mod Content
pub mod Resolve
use trackward.Prelude.{
  ℕ, List, [], ◌∷◌, ◌++◌, Bytes, ascii, bytes_eq, lex_le, Bool, true, false, ◌&&◌, ◌||◌, not,
  Option, none, some, Result, ok, err, ◌>>=◌, ◌>>◌, if◌then◌else◌,
}
use trackward.Verifier.Bundle.{unwrap_or, ok_or}
use trackward.External.{External}
use trackward.Gateway.Approval.{GatewayError, internal}

-- A path below a directory, by its components.
abbrev pub RelPath : Type 0
RelPath = List Bytes

-- What a path leads to: a file, with its bytes when it can be read, or a directory, with its entries
-- when it can be listed, in the order in which they are listed.
mutual
  pub data Node : Type 0 where
    file : Option Bytes → Node
    directory : Entries → Node
    unlisted : Node

  pub data Entries : Type 0 where
    none_left : Entries
    -- an entry that cannot be read
    broken : Entries
    child : (name : Bytes) → Node → Entries → Entries

-- A file that was found, with its bytes when it can be read.
abbrev pub Found : Type 0
Found = RelPath × Option Bytes

-- `collect_files`: the files below, in the order of the listings.
unfoldable mutual
  pub collect_node : (at : RelPath) → Node → List Found → Result GatewayError (List Found)
  collect_node at (file bytes) out = ok (out ++ (at, bytes) ∷ [])
  collect_node at (directory es) out = collect_entries at es out
  collect_node at unlisted out = err internal

  pub collect_entries : (at : RelPath) → Entries → List Found → Result GatewayError (List Found)
  collect_entries at none_left out = ok out
  collect_entries at broken out = err internal
  collect_entries at (child name node es) out =
      collect_node (at ++ name ∷ []) node out >>= collect_entries at es

-- The order of paths: component by component.
unfoldable pub path_le : RelPath → RelPath → Bool
unfolding lex_le bytes_eq
path_le [] q = true
path_le (a ∷ p) [] = false
path_le (a ∷ p) (b ∷ q) = let rest = path_le p q in if bytes_eq a b then rest else lex_le a b

unfoldable pub insert_file : Found → List Found → List Found
unfolding path_le
insert_file f [] = f ∷ []
insert_file f (g ∷ gs) = if path_le f.0 g.0 then f ∷ g ∷ gs else g ∷ insert_file f gs

unfoldable pub sort_files : List Found → List Found
unfolding insert_file
sort_files [] = []
sort_files (f ∷ fs) = insert_file f (sort_files fs)

-- `Path::to_string_lossy` of a relative path.
abbrev pub path_text : (utf8_lossy : Bytes → Bytes) → RelPath → Bytes
path_text utf8_lossy p = utf8_lossy (joined p)
  where
    joined : RelPath → Bytes
    joined [] = []
    joined (a ∷ []) = a
    joined (a ∷ b ∷ p) = a ++ 47 ∷ joined (b ∷ p)

module _ (x : External) (utf8_lossy : Bytes → Bytes) where
  -- What one file adds to the digested text: its path, a newline, the hex digest of its bytes, and a
  -- newline.
  abbrev pub file_line : (path bytes : Bytes) → Bytes
  file_line path bytes = path ++ 10 ∷ (x.hex_encode (x.sha256 bytes) ++ 10 ∷ [])

  -- The loop of `hash_directory`: the first file that cannot be read ends it.
  unfoldable pub digest_text : List Found → Result GatewayError Bytes
  digest_text [] = ok []
  digest_text ((path, bytes) ∷ fs) = do
    content ← ok_or internal bytes
    rest ← digest_text fs
    ok (file_line (path_text utf8_lossy path) content ++ rest)

  unfoldable pub hash_directory : Node → Result GatewayError Bytes
  unfolding collect_node sort_files digest_text
  hash_directory dir = do
    files ← collect_node [] dir []
    text ← digest_text (sort_files files)
    ok (x.hex_encode (x.sha256 text))
