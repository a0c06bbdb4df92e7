-- ===== src/Ledger/Guards/Equality.antt =====
-- `constant_time_eq` is equality of bytes.
use Prim.Native.Nat.{bit_or, bit_xor}
use trackward.Prelude.{
  ℕ, zero, suc, ◌<◌, ◌≡◌, refl, ap, ap₂, ◌∙◌, ◌↔◌, ◌⊎◌, inl, inr, [], ◌∷◌, Bytes, Bool, true, false,
  ◌&&◌, ◌==◌, ltb, length, All, arith, if◌then◌else◌,
}
use trackward.Prelude.{==_iff, subst}
use trackward.Ledger.Guards.{diff_of, constant_time_eq}

-- A test that passes at every number under a bound, by evaluation.
passes_under : (test : ℕ → Bool) → ℕ → Bool
passes_under test zero = true
passes_under test (suc bound) = if test bound then passes_under test bound else false

eq_or_less : (b bound : ℕ) → b < suc bound → (b ≡ bound) ⊎ (b < bound)
eq_or_less b bound h = omega arith

test_of_passes :
    (test : ℕ → Bool) (bound : ℕ)
    → passes_under test bound ≡ true
    → (b : ℕ) → b < bound
    → test b ≡ true
unfolding passes_under
test_of_passes test zero h b small = absurd (omega arith)
test_of_passes test (suc bound) h b small = elim (eq_or_less b bound (omega arith)) [
  | inl e ↦ ap test e ∙ both.0
  | inr less ↦ test_of_passes test bound both.1 b less
]
  where
    both : (test bound ≡ true) × (passes_under test bound ≡ true)
    both = split (test bound) (passes_under test bound) h
      where
        split : (c d : Bool) → (if c then d else false) ≡ true → (c ≡ true) × (d ≡ true)
        split true d e = (refl, e)
        split false d e = cc

abbrev all_pairs : (ℕ → ℕ → Bool) → Bool
all_pairs p = passes_under (λ x. passes_under (p x) 256) 256

all_pairs_sound :
    (p : ℕ → ℕ → Bool) → all_pairs p ≡ true → (x y : ℕ) → x < 256 → y < 256 → p x y ≡ true
all_pairs_sound p h x y hx hy =
    test_of_passes (p x) 256 (test_of_passes (λ x. passes_under (p x) 256) 256 h x hx) y hy

abbrev xor_test : ℕ → ℕ → Bool
xor_test x y = ltb (bit_xor x y) 256 && (if bit_xor x y == 0 then x == y else true)

xor_table : all_pairs xor_test ≡ true
unfolding passes_under
xor_table = refl

abbrev or_test : ℕ → ℕ → Bool
or_test x y = ltb (bit_or x y) 256 && (if bit_or x y == 0 then x == 0 && y == 0 else true)

or_table : all_pairs or_test ≡ true
unfolding passes_under
or_table = refl

bit_xor_self : passes_under (λ x. bit_xor x x == 0) 256 ≡ true
unfolding passes_under
bit_xor_self = refl

xor-IsByte : (x y : ℕ) → x < 256 → y < 256 → bit_xor x y < 256
xor-IsByte x y hx hy = ground (arith, all_pairs_sound xor_test xor_table x y hx hy)

xor-zero : (x y : ℕ) → x < 256 → y < 256 → bit_xor x y ≡ 0 → x ≡ y
xor-zero x y hx hy e = ground (arith, all_pairs_sound xor_test xor_table x y hx hy)

or-IsByte : (x y : ℕ) → x < 256 → y < 256 → bit_or x y < 256
or-IsByte x y hx hy = ground (arith, all_pairs_sound or_test or_table x y hx hy)

or-zero : (x y : ℕ) → x < 256 → y < 256 → bit_or x y ≡ 0 → (x ≡ 0) × (y ≡ 0)
or-zero x y hx hy e = ground (arith, all_pairs_sound or_test or_table x y hx hy)

xor_self : (x : ℕ) → x < 256 → bit_or 0 (bit_xor x x) ≡ 0
xor_self x hx =
    ap (bit_or 0)
      ((==_iff (bit_xor x x) 0).0 (test_of_passes (λ x. bit_xor x x == 0) 256 bit_xor_self x hx))

diff_of_self : (xs : Bytes) → All (λ b. b < 256) xs → diff_of 0 xs xs ≡ 0
unfolding diff_of
diff_of_self [] bytes = refl
diff_of_self (x ∷ xs) bytes =
    ap (λ d. diff_of d xs xs) (xor_self x bytes.0) ∙ diff_of_self xs bytes.1

diff_of-zero :
    (d : ℕ) (xs ys : Bytes)
    → d < 256
    → All (λ b. b < 256) xs
    → All (λ b. b < 256) ys
    → length xs ≡ length ys
    → diff_of d xs ys ≡ 0
    → (d ≡ 0) × (xs ≡ ys)
unfolding diff_of
diff_of-zero d [] [] small hx hy same h = (h, refl)
diff_of-zero d [] (y ∷ ys) small hx hy same h = absurd (omega arith)
diff_of-zero d (x ∷ xs) [] small hx hy same h = absurd (omega arith)
diff_of-zero d (x ∷ xs) (y ∷ ys) small hx hy same h =
    let differ = xor-IsByte x y hx.0 hy.0 in
    let (none_yet, rest) =
      diff_of-zero (bit_or d (bit_xor x y)) xs ys (or-IsByte d (bit_xor x y) small differ) hx.1 hy.1
        (omega arith) h in
    let (d_zero, x_zero) = or-zero d (bit_xor x y) small differ none_yet in
    (d_zero, ap₂ ◌∷◌ (xor-zero x y hx.0 hy.0 x_zero) rest)

-- The comparison without an early exit tells exactly whether two byte strings are equal.
pub constant_time_eq_iff :
    (xs ys : Bytes)
    → All (λ b. b < 256) xs
    → All (λ b. b < 256) ys
    → (constant_time_eq xs ys ≡ true) ↔ (xs ≡ ys)
unfolding constant_time_eq
constant_time_eq_iff xs ys hx hy = (to, from)
  where
    to : (if length xs == length ys then diff_of 0 xs ys == 0 else false) ≡ true → xs ≡ ys
    to h = by (length xs == length ys) refl h
      where
        by :
            (same : Bool)
            → (length xs == length ys) ≡ same
            → (if same then diff_of 0 xs ys == 0 else false) ≡ true
            → xs ≡ ys
        by false e h = ground arith
        by true e h =
            (diff_of-zero 0 xs ys (omega arith) hx hy ((==_iff (length xs) (length ys)).0 e)
              ((==_iff (diff_of 0 xs ys) 0).0 h)).1

    from : xs ≡ ys → constant_time_eq xs ys ≡ true
    from e = subst (λ zs. constant_time_eq xs zs ≡ true) e (ground (arith, diff_of_self xs hx))
