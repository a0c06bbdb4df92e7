-- ===== src/Verifier/Cli/Leaves.antt =====
-- The leaves' file round-trips, and the command's exit code is the verdict.
use trackward.Prelude.{
  ℕ, zero, suc, ◌≤◌, ◌≡◌, ◌≢◌, refl, sym, ap, subst, ◌∙◌, append-nil, List, [], ◌∷◌, ◌++◌, Bytes,
  ascii, bytes_eq, ◌==◌, ==_iff, false, length, All, Bool-cases, inl, inr, Option, some, ◌⊎◌,
  Result, ok, err, arith,
}
use trackward.Prelude.Text.{
  trim, split_on, strip_with, reverse_bytes, space_width, space_width_back,
}
use trackward.ChainCore.Hashing.{Hash, IsHash}
use trackward.External.{External, IsExternal}
use trackward.Verifier.Bundle.{VerifyError}
use trackward.Verifier.Anchor.{VerifiedAnchor, verify_anchor}
use trackward.Verifier.Cli.{
  strip_cr, lines_from, lines_of, lines, push, parse_line, parse_leaves, exit_code, files_exit,
  leaves_exit, main,
}

-- A printed ASCII character that is no space.
abbrev pub IsMark : ℕ → Type 0
IsMark b = (33 ≤ b) × (b ≤ 126)

reverse_bytes-append :
    (xs ys zs : Bytes) → reverse_bytes (reverse_bytes xs ys) zs ≡ reverse_bytes ys (xs ++ zs)
unfolding reverse_bytes
reverse_bytes-append [] ys zs = refl
reverse_bytes-append (x ∷ xs) ys zs = reverse_bytes-append xs (x ∷ ys) zs

All-reverse_bytes {κ} :
    (P : ℕ → Type κ) (xs ys : Bytes) → All P xs → All P ys → All P (reverse_bytes xs ys)
unfolding reverse_bytes
All-reverse_bytes P [] ys hx hy = hy
All-reverse_bytes P (x ∷ xs) ys hx hy = All-reverse_bytes P xs (x ∷ ys) hx.1 (hx.0, hy)

space_width-zero : (text : Bytes) → All IsMark text → space_width text ≡ 0
unfolding space_width
space_width-zero [] h = refl
space_width-zero (a ∷ []) h = ground arith
space_width-zero (a ∷ b ∷ []) h = ground arith
space_width-zero (a ∷ b ∷ c ∷ bs) h = ground arith

space_width_back-zero : (text : Bytes) → All IsMark text → space_width_back text ≡ 0
unfolding space_width_back
space_width_back-zero [] h = refl
space_width_back-zero (b ∷ []) h = ground arith
space_width_back-zero (b ∷ a ∷ []) h = ground arith
space_width_back-zero (b ∷ a ∷ c ∷ cs) h = ground arith

strip_with-zero :
    (width : Bytes → ℕ) (fuel : ℕ) (text : Bytes)
    → width text ≡ 0
    → strip_with width fuel text ≡ text
unfolding strip_with
strip_with-zero width zero text h = refl
strip_with-zero width (suc fuel) text h = rw h refl

trim-marks : (text : Bytes) → All IsMark text → trim text ≡ text
unfolding trim
trim-marks text h =
    ap back (strip_with-zero space_width (length text) text (space_width-zero text h))
    ∙ ap (λ t. reverse_bytes t [])
        (strip_with-zero space_width_back (length text) (reverse_bytes text [])
          (space_width_back-zero (reverse_bytes text []) (All-reverse_bytes IsMark text [] h tt)))
    ∙ reverse_bytes-append text [] []
    ∙ append-nil text
  where
    back : Bytes → Bytes
    back start =
        reverse_bytes (strip_with space_width_back (length start) (reverse_bytes start [])) []

-- A line of marks ends at the first newline.
split_on-line :
    (line rest piece : Bytes)
    → All IsMark line
    → split_on 10 (line ++ 10 ∷ rest) piece ≡ reverse_bytes piece line ∷ split_on 10 rest []
unfolding split_on
split_on-line [] rest piece h = refl
split_on-line (b ∷ line) rest piece h =
    let other : (b == 10) ≡ false = ground arith in
    rw (other, split_on) (split_on-line line rest (b ∷ piece) h.1)

strip_cr-marks : (line : Bytes) → All IsMark line → strip_cr line ≡ line
unfolding strip_cr
strip_cr-marks [] h = refl
strip_cr-marks (b ∷ []) h = ground arith
strip_cr-marks (b ∷ c ∷ bs) h = ap (◌∷◌ b) (strip_cr-marks (c ∷ bs) h.1)

split_on-cons :
    (separator : ℕ) (text piece : Bytes)
    → (first : Bytes) × (more : List Bytes) × (split_on separator text piece ≡ first ∷ more)
unfolding split_on
split_on-cons separator [] piece = (reverse_bytes piece [], [], refl)
split_on-cons separator (b ∷ bs) piece = elim (Bool-cases (b == separator)) [
  | inl e ↦ rw (e, split_on) (reverse_bytes piece [], split_on separator bs [], refl)
  | inr e ↦ rw (e, split_on) (split_on-cons separator bs (b ∷ piece))
]

-- The lines of a text whose first line is of marks.
lines-line : (line rest : Bytes) → All IsMark line → lines (line ++ 10 ∷ rest) ≡ line ∷ lines rest
unfolding lines reverse_bytes
lines-line line rest h =
    let (first, more, here) = split_on-cons 10 rest [] in
    ap lines_of (split_on-line line rest [] h)
    ∙ ap (lines_from line) here
    ∙ step first more
    ∙ ap (λ pieces. line ∷ lines_of pieces) (sym here)
  where
    step :
        (first : Bytes) (more : List Bytes)
        → lines_from line (first ∷ more) ≡ line ∷ lines_from first more
    step first more = ap (λ l. l ∷ lines_from first more) (strip_cr-marks line h)

module _ (x : External) (lawful : IsExternal x) where
  -- A leaves' file: the hex text of each row hash on a line of its own.
  abbrev pub leaves_text : List Hash → Bytes
  leaves_text [] = []
  leaves_text (h ∷ hs) = x.hex_encode h ++ 10 ∷ leaves_text hs

  -- Hex text is not empty and has no spaces.
  abbrev pub HasHexLine : Hash → Type 0
  HasHexLine h = IsHash h × All IsMark (x.hex_encode h) × (x.hex_encode h ≢ [])

  parse_line-hex :
      (h : Hash) (rest : List Hash)
      → IsHash h
      → x.hex_encode h ≢ []
      → parse_line x (x.hex_encode h) (some rest) ≡ some (h ∷ rest)
  parse_line-hex h rest long filled = on (x.hex_encode h) refl
    where
      on : (text : Bytes) → x.hex_encode h ≡ text → parse_line x text (some rest) ≡ some (h ∷ rest)
      on [] e = absurd (filled e)
      on (b ∷ bs) e =
          let decoded : x.hex_decode (b ∷ bs) ≡ some h =
            ap x.hex_decode (sym e) ∙ lawful.decode-encode h in
          ap (λ o. push o (some rest)) decoded ∙ rw ((==_iff (length h) 32).1 long) refl

  -- The file of leaves is read back.
  pub parse_leaves-leaves_text :
      (hs : List Hash) → All HasHexLine hs → parse_leaves x (lines (leaves_text hs)) ≡ some hs
  unfolding parse_leaves lines
  parse_leaves-leaves_text [] h = refl
  parse_leaves-leaves_text (h ∷ hs) ((long, marks, filled), more) =
      ap (parse_leaves x) (lines-line (x.hex_encode h) (leaves_text hs) marks)
      ∙ ap (λ t. parse_line x t (parse_leaves x (lines (leaves_text hs))))
          (trim-marks (x.hex_encode h) marks)
      ∙ ap (parse_line x (x.hex_encode h)) (parse_leaves-leaves_text hs more)
      ∙ parse_line-hex h hs long filled

  -- How a run ends: an answer with the code 0, or an error with the code 1.
  abbrev HasExited {ℓ} : {A : Type ℓ} → (code : ℕ) → Result VerifyError A → Type ℓ
  HasExited {A = A} code r =
      ((v : A) × (r ≡ ok v) × (code ≡ 0)) ⊎ ((e : VerifyError) × (r ≡ err e) × (code ≡ 1))

  exit_code-HasExited {ℓ} : {A : Type ℓ} (r : Result VerifyError A) → HasExited (exit_code x r) r
  exit_code-HasExited (ok v) = inl (v, refl, refl)
  exit_code-HasExited (err e) = inr (e, refl, refl)

  -- The command on an anchor document and a file of leaves, one hex text on a line, exits with the
  -- verdict of `verify_anchor` on those leaves: 0 when it accepts and 1 when it does not.
  pub main-verify_anchor :
      (read_to_string : Bytes → Option Bytes) (anchor_path leaves_path anchor_json : Bytes)
      (hs : List Hash)
      → All HasHexLine hs
      → read_to_string anchor_path ≡ some anchor_json
      → read_to_string leaves_path ≡ some (leaves_text hs)
      → ((report : VerifiedAnchor) × (verify_anchor x anchor_json hs ≡ ok report)
          × (main x read_to_string (ascii "--anchor" ∷ anchor_path ∷ leaves_path ∷ []) ≡ 0))
        ⊎ ((e : VerifyError) × (verify_anchor x anchor_json hs ≡ err e)
            × (main x read_to_string (ascii "--anchor" ∷ anchor_path ∷ leaves_path ∷ []) ≡ 1))
  unfolding main bytes_eq
  main-verify_anchor read_to_string anchor_path leaves_path anchor_json hs h anchor leaves =
      subst (λ code. HasExited code (verify_anchor x anchor_json hs))
        (sym (
          ap (λ o. files_exit x read_to_string o (read_to_string leaves_path)) anchor
          ∙ ap (files_exit x read_to_string (some anchor_json)) leaves
          ∙ ap (leaves_exit x read_to_string anchor_json) (parse_leaves-leaves_text hs h)))
        (exit_code-HasExited (verify_anchor x anchor_json hs))
