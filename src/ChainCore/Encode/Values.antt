-- ===== src/ChainCore/Encode/Values.antt =====
-- The encoding of one value can be read in one way only.
use mathlib.Core.List.{head-eq_of_cons-eq, tail-eq_of_cons-eq}
use trackward.Prelude.{
  ℕ, ◌^◌, ◌<◌, ◌≡◌, sym, ap, ◌∙◌, [], ◌∷◌, ◌++◌, append_assoc, Bytes, Result, ok, >>=-eq-ok,
  guard-eq-ok, Bool, leb, leb→le, if◌then◌else◌, IsI64, i64_bits, i64_bits_injective, i64_bits-lt,
  to_be_bytes, length-to_be_bytes, to_be_bytes_injective, append_injective, length, arith,
}
use trackward.ChainCore.CanonicalJson.{to_canonical_string}
use trackward.ChainCore.CanonicalJson.Syntax.{Panic, value_too_long}
use trackward.ChainCore.Encode.{
  CanonicalField, CanonicalValue, uuid, i64, str, json, timestamp, bytes, null, bool, Rfc3339,
  u32_max, write_u32_prefixed, encode_value,
}

-- Two encodings by what they were computed to.
wires :
    {a b p q : Bytes} (r s : Bytes)
    → ◌≡◌ {A = Result Panic Bytes} (ok p) (ok a)
    → ◌≡◌ {A = Result Panic Bytes} (ok q) (ok b)
    → a ++ r ≡ b ++ s
    → p ++ r ≡ q ++ s
wires {a} {b} {p} {q} r s ha hb e =
    let pa : p ≡ a = cc ha in let qb : q ≡ b = cc hb in rw (pa, qb) e

bool_bytes : (b c : Bool) → ◌≡◌ {A = ℕ} (if b then 1 else 0) (if c then 1 else 0) → b ≡ c
bool_bytes b c e = ground arith

-- What the types `Uuid` and `i64` grant of a value.
abbrev pub IsTyped : CanonicalValue → Type 0
IsTyped (uuid u) = length u ≡ 16
IsTyped (i64 n) = IsI64 n
IsTyped (str s) = Unit
IsTyped (json v) = Unit
IsTyped (timestamp t) = Unit
IsTyped (bytes b) = Unit
IsTyped null = Unit
IsTyped (bool b) = Unit

-- A field whose name's length fits the 16 bits that it is written in.
pub record IsField (f : CanonicalField) : Type 0 where
  pub short_name : length f.name < 2 ^ 16
  pub typed : IsTyped f.value

-- A byte string behind its length is read back with what follows it.
pub length_prefix :
    (w : ℕ) (x y r s : Bytes)
    → length x < 256 ^ w
    → length y < 256 ^ w
    → to_be_bytes w (length x) ++ (x ++ r) ≡ to_be_bytes w (length y) ++ (y ++ s)
    → (x ≡ y) × (r ≡ s)
length_prefix w x y r s hx hy e =
    let (lens, rest) =
      append_injective (to_be_bytes w (length x)) (to_be_bytes w (length y)) (x ++ r) (y ++ s)
        (length-to_be_bytes w (length x) ∙ sym (length-to_be_bytes w (length y))) e in
    append_injective x y r s (to_be_bytes_injective w _ _ hx hy lens) rest

-- A payload with its length before it is read back with what follows it.
write_u32_prefixed-prefix :
    (x y : Bytes) {a b : Bytes} (r s : Bytes)
    → write_u32_prefixed x ≡ ok a
    → write_u32_prefixed y ≡ ok b
    → a ++ r ≡ b ++ s
    → (x ≡ y) × (r ≡ s)
unfolding write_u32_prefixed
write_u32_prefixed-prefix x y {a} {b} r s ha hb e =
    let (hx, ea) = guard-eq-ok (leb (length x) u32_max) value_too_long _ ha in
    let (hy, eb) = guard-eq-ok (leb (length y) u32_max) value_too_long _ hb in
    let pa : to_be_bytes 4 (length x) ++ x ≡ a = cc ea in
    let pb : to_be_bytes 4 (length y) ++ y ≡ b = cc eb in
    length_prefix 4 x y r s (omega (arith, leb→le _ _ hx)) (omega (arith, leb→le _ _ hy)) (
      sym (append_assoc (to_be_bytes 4 (length x)) x r)
      ∙ ap (λ p. p ++ r) pa
      ∙ e
      ∙ ap (λ p. p ++ s) (sym pb)
      ∙ append_assoc (to_be_bytes 4 (length y)) y s)

module _ (rfc3339 : Rfc3339) where
  -- Two columns of one type with one content: equal values, JSON of one canonical text, or times of
  -- one printed form.
  abbrev pub SameValue : CanonicalValue → CanonicalValue → Type 0
  SameValue (uuid u) (uuid u') = u ≡ u'
  SameValue (i64 n) (i64 n') = n ≡ n'
  SameValue (str s) (str s') = s ≡ s'
  SameValue (json v) (json v') = to_canonical_string v ≡ to_canonical_string v'
  SameValue (timestamp t) (timestamp t') = rfc3339 t ≡ rfc3339 t'
  SameValue (bytes b) (bytes b') = b ≡ b'
  SameValue null null = Unit
  SameValue (bool b) (bool b') = b ≡ b'
  SameValue _ _ = ⊥

  abbrev pub tag : CanonicalValue → ℕ
  tag (uuid u) = 1
  tag (i64 n) = 2
  tag (str s) = 3
  tag (json v) = 4
  tag (timestamp t) = 5
  tag (bytes b) = 6
  tag null = 7
  tag (bool b) = 8

  encode_value-tag :
      (v : CanonicalValue) {a : Bytes}
      → encode_value rfc3339 v ≡ ok a
      → (payload : Bytes) × (a ≡ tag v ∷ payload)
  unfolding encode_value
  encode_value-tag (uuid u) h = (u, cc)
  encode_value-tag (i64 n) h = (to_be_bytes 8 (i64_bits n), cc)
  encode_value-tag (str s) h = let (p, _, q) = >>=-eq-ok (write_u32_prefixed s) _ h in (p, cc q)
  encode_value-tag (json v) h =
      let (c, _, k) = >>=-eq-ok (to_canonical_string v) _ h in
      let (p, _, q) = >>=-eq-ok (write_u32_prefixed c) _ k in (p, cc q)
  encode_value-tag (timestamp t) h =
      let (p, _, q) = >>=-eq-ok (write_u32_prefixed (rfc3339 t)) _ h in (p, cc q)
  encode_value-tag (bytes b) h = let (p, _, q) = >>=-eq-ok (write_u32_prefixed b) _ h in (p, cc q)
  encode_value-tag null h = ([], cc)
  encode_value-tag (bool b) h = ((if b then 1 else 0) ∷ [], cc)

  -- Behind one tag the payload is read back with what follows it.
  payload_prefix :
      (v w : CanonicalValue) {a b : Bytes} (r s : Bytes)
      → IsTyped v
      → IsTyped w
      → tag v ≡ tag w
      → encode_value rfc3339 v ≡ ok a
      → encode_value rfc3339 w ≡ ok b
      → a ++ r ≡ b ++ s
      → SameValue v w × (r ≡ s)
  unfolding encode_value
  payload_prefix (uuid u) (uuid u') {a} {b} r s tu tv t ha hb e =
      append_injective u u' r s (tu ∙ sym tv) (tail-eq_of_cons-eq (wires r s ha hb e))
  payload_prefix (i64 n) (i64 n') r s tu tv t ha hb e =
      let (bits, rest) =
        append_injective (to_be_bytes 8 (i64_bits n)) (to_be_bytes 8 (i64_bits n')) r s
          (length-to_be_bytes 8 (i64_bits n) ∙ sym (length-to_be_bytes 8 (i64_bits n')))
          (tail-eq_of_cons-eq (wires r s ha hb e)) in
      let same =
        to_be_bytes_injective 8 _ _ (omega (arith, i64_bits-lt n)) (omega (arith, i64_bits-lt n'))
          bits in
      (i64_bits_injective n n' tu tv same, rest)
  payload_prefix (str x) (str x') r s tu tv t ha hb e =
      let (p, hp, ep) = >>=-eq-ok (write_u32_prefixed x) _ ha in
      let (q, hq, eq) = >>=-eq-ok (write_u32_prefixed x') _ hb in
      write_u32_prefixed-prefix x x' r s hp hq (tail-eq_of_cons-eq (wires r s ep eq e))
  payload_prefix (json v) (json w) r s tu tv t ha hb e =
      let (x, hx, kx) = >>=-eq-ok (to_canonical_string v) _ ha in
      let (y, hy, ky) = >>=-eq-ok (to_canonical_string w) _ hb in
      let (p, hp, ep) = >>=-eq-ok (write_u32_prefixed x) _ kx in
      let (q, hq, eq) = >>=-eq-ok (write_u32_prefixed y) _ ky in
      let (same, rest) =
        write_u32_prefixed-prefix x y r s hp hq (tail-eq_of_cons-eq (wires r s ep eq e)) in
      (hx ∙ ap ok same ∙ sym hy, rest)
  payload_prefix (timestamp m) (timestamp n) r s tu tv t ha hb e =
      let (p, hp, ep) = >>=-eq-ok (write_u32_prefixed (rfc3339 m)) _ ha in
      let (q, hq, eq) = >>=-eq-ok (write_u32_prefixed (rfc3339 n)) _ hb in
      write_u32_prefixed-prefix _ _ r s hp hq (tail-eq_of_cons-eq (wires r s ep eq e))
  payload_prefix (bytes x) (bytes x') r s tu tv t ha hb e =
      let (p, hp, ep) = >>=-eq-ok (write_u32_prefixed x) _ ha in
      let (q, hq, eq) = >>=-eq-ok (write_u32_prefixed x') _ hb in
      write_u32_prefixed-prefix x x' r s hp hq (tail-eq_of_cons-eq (wires r s ep eq e))
  payload_prefix null null r s tu tv t ha hb e = (tt, tail-eq_of_cons-eq (wires r s ha hb e))
  payload_prefix (bool b) (bool b') r s tu tv t ha hb e =
      let rest = tail-eq_of_cons-eq (wires r s ha hb e) in
      (bool_bytes b b' (head-eq_of_cons-eq rest), tail-eq_of_cons-eq rest)
  payload_prefix _ _ r s tu tv t ha hb e = absurd (omega arith)

  -- The encoding of a value ends where the value ends.
  pub encode_value-prefix :
      (v w : CanonicalValue) {a b : Bytes} (r s : Bytes)
      → IsTyped v
      → IsTyped w
      → encode_value rfc3339 v ≡ ok a
      → encode_value rfc3339 w ≡ ok b
      → a ++ r ≡ b ++ s
      → SameValue v w × (r ≡ s)
  encode_value-prefix v w r s tv tw ha hb e =
      let (p, ea) = encode_value-tag v ha in
      let (q, eb) = encode_value-tag w hb in
      let tags : tag v ∷ (p ++ r) ≡ tag w ∷ (q ++ s) = rw (ea, eb) at e in
      payload_prefix v w r s tv tw (head-eq_of_cons-eq tags) ha hb e
