-- ===== src/Gateway/Registry/Content.antt =====
-- What the content hash of a directory says of the files in it.
use trackward.Prelude.{◌≢◌, List, Bytes, All, Option}
use trackward.External.{External}
use trackward.Gateway.Registry.{Found, path_text}

-- No newline.
abbrev pub IsPlain : Bytes → Type 0
IsPlain = All (λ b. b ≢ 10)

module _ (utf8_lossy : Bytes → Bytes) where
  -- The path and the bytes of a file, as they are hashed.
  abbrev pub content : Found → Bytes × Option Bytes
  content f = (path_text utf8_lossy f.0, f.1)

  abbrev pub HasPlainPath : Found → Type 0
  HasPlainPath f = IsPlain (path_text utf8_lossy f.0)
