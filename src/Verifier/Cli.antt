-- ===== src/Verifier/Cli.antt =====
-- tools/verifier/src/main.rs: the command line. A run is its exit code; what it prints is left out.
-- `read_to_string` is a parameter.
pub mod Leaves
use trackward.Prelude.{
  ℕ, zero, suc, List, [], ◌∷◌, Bytes, ascii, bytes_eq, Bool, true, false, ◌||◌, not, ◌==◌, length,
  Option, none, some, Result, ok, err, if◌then◌else◌,
}
use trackward.Prelude.Text.{trim, split_on, strip_prefix}
use trackward.ChainCore.Hashing.{Hash}
use trackward.External.{External}
use trackward.Verifier.Bundle.{and_then, VerifyError, verify_bundle}
use trackward.Verifier.Anchor.{verify_anchor}

-- `str::lines`: a line ends with a newline, or a carriage return and a newline; the last piece is a
-- line of its own when it is not empty.
unfoldable pub strip_cr : Bytes → Bytes
strip_cr [] = []
strip_cr (b ∷ []) = if b == 13 then [] else b ∷ []
strip_cr (b ∷ c ∷ bs) = b ∷ strip_cr (c ∷ bs)

unfoldable pub lines_from : (piece : Bytes) → List Bytes → List Bytes
unfolding strip_cr
lines_from [] [] = []
lines_from (b ∷ bs) [] = (b ∷ bs) ∷ []
lines_from piece (next ∷ pieces) = strip_cr piece ∷ lines_from next pieces

abbrev pub lines_of : List Bytes → List Bytes
lines_of [] = []
lines_of (piece ∷ pieces) = lines_from piece pieces

unfoldable pub lines : Bytes → List Bytes
unfolding split_on lines_from
lines text = lines_of (split_on 10 text [])

-- A decoded line, before the leaves after it.
abbrev pub push : Option Bytes → Option (List Hash) → Option (List Hash)
push none rest = none
push (some bytes) rest =
    if length bytes == 32 then and_then rest (λ leaves. some (bytes ∷ leaves)) else none

module _ (x : External) where
  -- A trimmed line: an empty one is skipped.
  abbrev pub parse_line : Bytes → Option (List Hash) → Option (List Hash)
  parse_line [] rest = rest
  parse_line (b ∷ bs) rest = push (x.hex_decode (b ∷ bs)) rest

  -- The loop over the lines of the leaves' file: a line that is no digest ends it.
  unfoldable pub parse_leaves : List Bytes → Option (List Hash)
  unfolding trim
  parse_leaves [] = some []
  parse_leaves (l ∷ ls) = parse_line (trim l) (parse_leaves ls)

  abbrev pub exit_code {ℓ} : {A : Type ℓ} → Result VerifyError A → ℕ
  exit_code (ok v) = 0
  exit_code (err e) = 1

  module _ (read_to_string : Bytes → Option Bytes) where
    abbrev pub bundle_exit : Option Bytes → ℕ
    bundle_exit none = 2
    bundle_exit (some json) = exit_code (verify_bundle x json)

    unfoldable pub verify_bundle_cli : (path : Bytes) → ℕ
    unfolding verify_bundle
    verify_bundle_cli path = bundle_exit (read_to_string path)

    abbrev pub leaves_exit : (anchor_json : Bytes) → Option (List Hash) → ℕ
    leaves_exit anchor_json none = 2
    leaves_exit anchor_json (some leaves) = exit_code (verify_anchor x anchor_json leaves)

    abbrev pub files_exit : (anchor_json leaves_txt : Option Bytes) → ℕ
    files_exit (some anchor_json) (some leaves_txt) =
        leaves_exit anchor_json (parse_leaves (lines leaves_txt))
    files_exit _ _ = 2

    -- After `--anchor`: two paths.
    unfoldable pub verify_anchor_cli : (args : List Bytes) → ℕ
    unfolding verify_anchor parse_leaves lines
    verify_anchor_cli (anchor_path ∷ leaves_path ∷ more) =
        files_exit (read_to_string anchor_path) (read_to_string leaves_path)
    verify_anchor_cli _ = 2

    abbrev pub is_option : Bytes → Bool
    is_option arg = elim (strip_prefix (ascii "--") arg) [ none ↦ false | some rest ↦ true ]

    -- `main`, on the arguments after the program's name.
    unfoldable pub main : (args : List Bytes) → ℕ
    unfolding verify_anchor_cli verify_bundle_cli strip_prefix bytes_eq
    main [] = 2
    main (arg ∷ args) =
        if bytes_eq arg (ascii "--anchor")
        then verify_anchor_cli args
        else if bytes_eq arg (ascii "--help") || bytes_eq arg (ascii "-h")
        then 0
        else if is_option arg
        then 2
        else verify_bundle_cli arg
