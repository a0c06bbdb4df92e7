-- ===== src/ChainCore/Encode/Binding.antt =====
-- What the bytes of a row say about the row: they can be read in one way only.
use trackward.Prelude.{
  suc, ◌%◌, ◌^◌, ◌<◌, ◌≡◌, refl, sym, ap, ◌∙◌, List, [], ◌∷◌, ◌++◌, append_assoc, Bytes, Result, ok,
  >>=-eq-ok, guard-eq-ok, leb, leb→le, to_be_bytes, length-to_be_bytes, to_be_bytes_injective,
  append_injective, length, All, arith, Bool-cases, inl, inr, lex_le,
}
use trackward.ChainCore.CanonicalJson.Syntax.{
  Panic, table_not_ascii, table_too_long, too_many_fields, duplicate_field, field_not_ascii,
}
use trackward.ChainCore.Encode.{
  CanonicalField, Rfc3339, row_domain, u16_max, is_ascii, sort_by_name, names_differ,
  insert_by_name, encode_value, encode_field, encode_fields, canonical_row_bytes,
}
use trackward.ChainCore.Encode.Values.{IsField, length_prefix, SameValue, encode_value-prefix}

module _ (rfc3339 : Rfc3339) where
  abbrev pub SameField : CanonicalField → CanonicalField → Type 0
  SameField f g = (f.name ≡ g.name) × SameValue rfc3339 f.value g.value

  encode_field-eq-ok :
      (f : CanonicalField) {a : Bytes}
      → IsField f
      → encode_field rfc3339 f ≡ ok a
      → (v : Bytes) × (encode_value rfc3339 f.value ≡ ok v)
        × (a ≡ to_be_bytes 2 (length f.name) ++ (f.name ++ v))
  unfolding encode_field
  encode_field-eq-ok f {a} wf h =
      let (_, k) = guard-eq-ok (is_ascii f.name) field_not_ascii _ h in
      let (v, hv, ev) = >>=-eq-ok (encode_value rfc3339 f.value) _ k in
      let low : length f.name % 2 ^ 16 ≡ length f.name = omega (arith, wf.short_name) in
      (v, hv, rw low at (sym (wire_of ev)))
    where
      wire_of : {p : Bytes} → ◌≡◌ {A = Result Panic Bytes} (ok p) (ok a) → p ≡ a
      wire_of e = cc e

  encode_field-prefix :
      (f g : CanonicalField) {a b : Bytes} (r s : Bytes)
      → IsField f
      → IsField g
      → encode_field rfc3339 f ≡ ok a
      → encode_field rfc3339 g ≡ ok b
      → a ++ r ≡ b ++ s
      → SameField f g × (r ≡ s)
  encode_field-prefix f g r s wf wg ha hb e =
      let (v, hv, ea) = encode_field-eq-ok f wf ha in
      let (w, hw, eb) = encode_field-eq-ok g wg hb in
      let (names, rest) =
        length_prefix 2 f.name g.name (v ++ r) (w ++ s) wf.short_name wg.short_name
          (simp append_assoc at (rw (ea, eb) at e)) in
      let (values, end) =
        encode_value-prefix rfc3339 f.value g.value r s wf.typed wg.typed hv hw rest in
      ((names, values), end)

  abbrev pub SameFields : List CanonicalField → List CanonicalField → Type 0
  SameFields [] [] = Unit
  SameFields (f ∷ fs) (g ∷ gs) = SameField f g × SameFields fs gs
  SameFields _ _ = ⊥

  encode_fields_injective :
      (fs gs : List CanonicalField) {a b : Bytes}
      → length fs ≡ length gs
      → All IsField fs
      → All IsField gs
      → encode_fields rfc3339 fs ≡ ok a
      → encode_fields rfc3339 gs ≡ ok b
      → a ≡ b
      → SameFields fs gs
  unfolding encode_fields
  encode_fields_injective [] [] n wf wg ha hb e = tt
  encode_fields_injective [] (g ∷ gs) n wf wg ha hb e = absurd (omega arith)
  encode_fields_injective (f ∷ fs) [] n wf wg ha hb e = absurd (omega arith)
  encode_fields_injective (f ∷ fs) (g ∷ gs) {a} {b} n wf wg ha hb e =
      let (x, hx, kx) = >>=-eq-ok (encode_field rfc3339 f) _ ha in
      let (y, hy, ky) = >>=-eq-ok (encode_field rfc3339 g) _ hb in
      let (r, hr, er) = >>=-eq-ok (encode_fields rfc3339 fs) _ kx in
      let (s, hs, es) = >>=-eq-ok (encode_fields rfc3339 gs) _ ky in
      let joined : x ++ r ≡ y ++ s = cc (er, es) in
      let (first, rest) = encode_field-prefix f g r s wf.0 wg.0 hx hy joined in
      (first, encode_fields_injective fs gs (omega arith) wf.1 wg.1 hr hs rest)

All-insert_by_name :
    (f : CanonicalField) (fs : List CanonicalField)
    → IsField f
    → All IsField fs
    → All IsField (insert_by_name f fs)
unfolding insert_by_name
All-insert_by_name f [] wf wfs = (wf, tt)
All-insert_by_name f (g ∷ gs) wf wfs = elim (Bool-cases (lex_le f.name g.name)) [
  | inl le ↦ rw le (wf, wfs)
  | inr gt ↦ rw gt (wfs.0, All-insert_by_name f gs wf wfs.1)
]

All-sort_by_name : (fs : List CanonicalField) → All IsField fs → All IsField (sort_by_name fs)
unfolding sort_by_name
All-sort_by_name [] wfs = tt
All-sort_by_name (f ∷ fs) wfs = All-insert_by_name f _ wfs.0 (All-sort_by_name fs wfs.1)

length-insert_by_name :
    (f : CanonicalField) (fs : List CanonicalField) → length (insert_by_name f fs) ≡ suc (length fs)
unfolding insert_by_name
length-insert_by_name f [] = refl
length-insert_by_name f (g ∷ gs) = ground (arith, length-insert_by_name f gs)

length-sort_by_name : (fs : List CanonicalField) → length (sort_by_name fs) ≡ length fs
unfolding sort_by_name
length-sort_by_name [] = refl
length-sort_by_name (f ∷ fs) =
    length-insert_by_name f (sort_by_name fs) ∙ ap suc (length-sort_by_name fs)

module _ (rfc3339 : Rfc3339) where
  -- The parts of a row that was encoded.
  row_parts :
      (table : Bytes) (fs : List CanonicalField) {a : Bytes}
      → canonical_row_bytes rfc3339 table fs ≡ ok a
      → (rows : Bytes) × (length table < 2 ^ 16)
        × (length fs < 2 ^ 16)
        × (encode_fields rfc3339 (sort_by_name fs) ≡ ok rows)
        × (row_domain
              ++ (to_be_bytes 2 (length table)
                  ++ (table ++ (to_be_bytes 2 (length (sort_by_name fs)) ++ rows)))
            ≡ a)
  unfolding canonical_row_bytes
  row_parts table fs {a} h =
      let (_, h₁) = guard-eq-ok (is_ascii table) table_not_ascii _ h in
      let (short, h₂) = guard-eq-ok (leb (length table) u16_max) table_too_long _ h₁ in
      let (few, h₃) = guard-eq-ok (leb (length fs) u16_max) too_many_fields _ h₂ in
      let (_, h₄) = guard-eq-ok (names_differ (sort_by_name fs)) duplicate_field _ h₃ in
      let (rows, hr, er) = >>=-eq-ok (encode_fields rfc3339 (sort_by_name fs)) _ h₄ in
      (rows, omega (arith, leb→le _ _ short), omega (arith, leb→le _ _ few), hr, cc er)

  -- Two rows with one encoding are of one table and have the same columns with the same content, as long
  -- as no name of a column has more than 65535 bytes and values fit their types (a UUID 16 bytes, an
  -- i64 its range).
  pub canonical_row_bytes_injective :
      (table table' : Bytes) (fs gs : List CanonicalField) {a : Bytes}
      → All IsField fs
      → All IsField gs
      → canonical_row_bytes rfc3339 table fs ≡ ok a
      → canonical_row_bytes rfc3339 table' gs ≡ ok a
      → (table ≡ table') × SameFields rfc3339 (sort_by_name fs) (sort_by_name gs)
  canonical_row_bytes_injective table table' fs gs wf wg ha hb =
      let (r, tr, nr, hr, er) = row_parts table fs ha in
      let (s, ts, ns, hs, es) = row_parts table' gs hb in
      let (_, body) = append_injective row_domain row_domain _ _ refl (er ∙ sym es) in
      let (tables, rest) = length_prefix 2 table table' _ _ tr ts body in
      let (counts, fields) =
        append_injective (to_be_bytes 2 (length (sort_by_name fs)))
          (to_be_bytes 2 (length (sort_by_name gs))) r s
          (length-to_be_bytes 2 (length (sort_by_name fs))
            ∙ sym (length-to_be_bytes 2 (length (sort_by_name gs))))
          rest in
      let same =
        to_be_bytes_injective 2 (length (sort_by_name fs)) (length (sort_by_name gs))
          (omega (arith, length-sort_by_name fs)) (omega (arith, length-sort_by_name gs)) counts in
      (
        tables,
        encode_fields_injective rfc3339 (sort_by_name fs) (sort_by_name gs) same
            (All-sort_by_name fs wf) (All-sort_by_name gs wg) hr hs fields,
      )
