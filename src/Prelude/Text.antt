-- ===== src/Prelude/Text.antt =====
-- `str::trim`, `str::split` and `str::strip_prefix` on UTF-8 text.
use Prim.Native.Nat.{ℕ, zero, suc}
use mathlib.Core.Bool.{Bool, true, false, ◌&&◌, ◌||◌}
use mathlib.Core.Option.{Option, none, some}
use mathlib.Core.List.{List, [], ◌∷◌}
use trackward.Prelude.Tests.{◌==◌, leb, if◌then◌else◌}
use trackward.Prelude.Lists.{length, drop}
use trackward.Prelude.ByteStrings.{Bytes}

-- The characters with the Unicode property White_Space, by their encodings of one, two and three
-- bytes.
unfoldable pub is_space_1 : ℕ → Bool
is_space_1 a = leb 9 a && leb a 13 || a == 32

unfoldable pub is_space_2 : ℕ → ℕ → Bool
is_space_2 a b = a == 194 && (b == 133 || b == 160)

unfoldable pub is_space_3 : ℕ → ℕ → ℕ → Bool
is_space_3 a b c =
    a == 225 && b == 154 && c == 128
    || a == 226 && b == 128 && (leb 128 c && leb c 138 || c == 168 || c == 169 || c == 175)
    || a == 226 && b == 129 && c == 159
    || a == 227 && b == 128 && c == 128

abbrev test_3 : ℕ → ℕ → Bytes → Bool
test_3 a b [] = false
test_3 a b (c ∷ cs) = is_space_3 a b c

-- How many bytes of white space a text starts with, at the first character.
unfoldable pub space_width : Bytes → ℕ
unfolding is_space_1 is_space_2 is_space_3
space_width [] = 0
space_width (a ∷ []) = if is_space_1 a then 1 else 0
space_width (a ∷ b ∷ bs) =
    if is_space_1 a then 1 else if is_space_2 a b then 2 else if test_3 a b bs then 3 else 0

-- The same at the last character of the text that is given backwards.
unfoldable pub space_width_back : Bytes → ℕ
unfolding is_space_1 is_space_2 is_space_3
space_width_back [] = 0
space_width_back (a ∷ []) = if is_space_1 a then 1 else 0
space_width_back (b ∷ a ∷ cs) =
    if is_space_1 b then 1 else if is_space_2 a b then 2 else if test_3_back cs a b then 3 else 0
  where
    test_3_back : Bytes → ℕ → ℕ → Bool
    test_3_back [] b c = false
    test_3_back (a ∷ rest) b c = is_space_3 a b c

-- Drop the white space at the front. The text's length is fuel enough: each round drops a byte.
unfoldable pub strip_with : (width : Bytes → ℕ) → (fuel : ℕ) → Bytes → Bytes
strip_with width zero text = text
strip_with width (suc fuel) text =
    let rest = strip_with width fuel (drop (width text) text) in
    if width text == 0 then text else rest

unfoldable pub reverse_bytes : Bytes → Bytes → Bytes
reverse_bytes [] back = back
reverse_bytes (b ∷ bs) back = reverse_bytes bs (b ∷ back)

unfoldable pub trim : Bytes → Bytes
unfolding strip_with space_width space_width_back reverse_bytes
trim text =
    let start = strip_with space_width (length text) text in
    reverse_bytes (strip_with space_width_back (length start) (reverse_bytes start [])) []

-- `split(',')` and the like: one piece more than there are separators.
unfoldable pub split_on : (separator : ℕ) → Bytes → (piece : Bytes) → List Bytes
unfolding reverse_bytes
split_on separator [] piece = reverse_bytes piece [] ∷ []
split_on separator (b ∷ bs) piece = elim (b == separator) [
  | true ↦ reverse_bytes piece [] ∷ split_on separator bs []
  | false ↦ split_on separator bs (b ∷ piece)
]

-- `split_once`: at the first separator.
unfoldable pub split_once : (separator : ℕ) → Bytes → (before : Bytes) → Option (Bytes × Bytes)
unfolding reverse_bytes
split_once separator [] before = none
split_once separator (b ∷ bs) before =
    let rest = split_once separator bs (b ∷ before) in
    if b == separator then some (reverse_bytes before [], bs) else rest

unfoldable pub strip_prefix : (prefix text : Bytes) → Option Bytes
strip_prefix [] text = some text
strip_prefix (p ∷ ps) [] = none
strip_prefix (p ∷ ps) (b ∷ bs) = let rest = strip_prefix ps bs in if p == b then rest else none
