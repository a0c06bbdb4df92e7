-- ===== src/Prelude/Lex.antt =====
-- The order of Rust's `str`: byte by byte.

use mathlib.Core.Path.{◌≡◌, refl}
use mathlib.Core.Bool.{Bool, true, false, ◌&&◌, ◌||◌}
use mathlib.Core.List.{[], ◌∷◌}
use native.Mathlib.Omega.{arith}
use trackward.Prelude.Tests.{ltb, ◌==◌}
use trackward.Prelude.ByteStrings.{Bytes}

-- `a.cmp(b) != Greater`
unfoldable pub lex_le : Bytes → Bytes → Bool
lex_le [] bs = true
lex_le (a ∷ as') [] = false
lex_le (a ∷ as') (b ∷ bs) = ltb a b || (a == b && lex_le as' bs)

pub lex_le_total : (a b : Bytes) → lex_le a b ≡ false → lex_le b a ≡ true
unfolding lex_le
lex_le_total [] bs h = cc
lex_le_total (a ∷ as') [] h = refl
lex_le_total (a ∷ as') (b ∷ bs) h = ground (arith, lex_le_total as' bs)

pub lex_le_trans : (a b c : Bytes) → lex_le a b ≡ true → lex_le b c ≡ true → lex_le a c ≡ true
unfolding lex_le
lex_le_trans [] b c h k = refl
lex_le_trans (a ∷ as') [] c h k = cc
lex_le_trans (a ∷ as') (b ∷ bs) [] h k = cc
lex_le_trans (a ∷ as') (b ∷ bs) (c ∷ cs) h k = ground (arith, lex_le_trans as' bs cs)

pub lex_le_antisymm : (a b : Bytes) → lex_le a b ≡ true → lex_le b a ≡ true → a ≡ b
unfolding lex_le
lex_le_antisymm [] [] h k = refl
lex_le_antisymm [] (b ∷ bs) h k = cc
lex_le_antisymm (a ∷ as') [] h k = cc
lex_le_antisymm (a ∷ as') (b ∷ bs) h k = ground (arith, lex_le_antisymm as' bs)

pub lex_le_refl : (a : Bytes) → lex_le a a ≡ true
unfolding lex_le
lex_le_refl [] = refl
lex_le_refl (a ∷ as') = ground (arith, lex_le_refl as')
