-- ===== src/ChainCore/Encode/Order.antt =====
-- The order in which a caller lists the fields of a row does not change its bytes.
use mathlib.Core.Logic.{∥∥₁_elim}
use mathlib.Core.List.{Perm, Permᴰ}
use trackward.Prelude.{
  suc, ◌≡◌, ◌≢◌, refl, sym, ap, ◌∙◌, ◌⊎◌, inl, inr, List, [], ◌∷◌, Bytes, Result, false, Bool-cases,
  lex_le, lex_le_total, lex_le_trans, lex_le_antisymm, lex_le_refl, bytes_eq_iff, bytes_eq_refl,
  Bytes_discrete, length, arith,
}
use trackward.ChainCore.CanonicalJson.Syntax.{Panic}
use trackward.ChainCore.Encode.{
  CanonicalField, Rfc3339, insert_by_name, sort_by_name, names_differ, canonical_row_bytes,
}

abbrev Repeats : List CanonicalField → Type 0
Repeats fs = names_differ fs ≡ false

insert_swap :
    (f g : CanonicalField) (fs : List CanonicalField)
    → f.name ≢ g.name
    → insert_by_name f (insert_by_name g fs) ≡ insert_by_name g (insert_by_name f fs)
unfolding insert_by_name
insert_swap f g [] ne = ground (arith, lex_le_total f.name g.name, lex_le_antisymm f.name g.name)
insert_swap f g (h ∷ hs) ne = ground (
  arith,
  insert_swap f g hs ne,
  lex_le_total f.name g.name,
  lex_le_antisymm f.name g.name,
  lex_le_total f.name h.name,
  lex_le_total g.name h.name,
  lex_le_trans f.name g.name h.name,
  lex_le_trans g.name f.name h.name,
)

Repeats-insert :
    (f : CanonicalField) (fs : List CanonicalField) → Repeats fs → Repeats (insert_by_name f fs)
unfolding insert_by_name names_differ
Repeats-insert f [] r = ground arith
Repeats-insert f (g ∷ []) r = ground arith
Repeats-insert f (g ∷ h ∷ hs) r =
    ground (arith, Repeats-insert f (h ∷ hs), bytes_eq_iff g.name h.name)

Repeats-cons : (f : CanonicalField) (fs : List CanonicalField) → Repeats fs → Repeats (f ∷ fs)
unfolding names_differ
Repeats-cons f [] r = cc
Repeats-cons f (g ∷ gs) r = ground arith

Repeats-insert_twice :
    (f g : CanonicalField) (fs : List CanonicalField)
    → f.name ≡ g.name
    → Repeats (insert_by_name f (insert_by_name g fs))
unfolding insert_by_name names_differ
Repeats-insert_twice f g [] e = ground (arith, lex_le_refl g.name, bytes_eq_refl g.name)
Repeats-insert_twice f g (h ∷ hs) e = elim (Bool-cases (lex_le g.name h.name)) [
  | inl le ↦ rw (le, e, lex_le_refl g.name, bytes_eq_refl g.name)
  | inr gt ↦ rw (gt, e, gt) (Repeats-cons h _ (Repeats-insert_twice f g hs e))
]

-- Two lists sort alike, or a name occurs twice in each.
abbrev Alike : List CanonicalField → List CanonicalField → Type 0
Alike fs gs = (fs ≡ gs) ⊎ (Repeats fs × Repeats gs)

Alike-insert :
    (f : CanonicalField) (fs gs : List CanonicalField)
    → Alike fs gs
    → Alike (insert_by_name f fs) (insert_by_name f gs)
Alike-insert f fs gs (inl e) = inl (ap (insert_by_name f) e)
Alike-insert f fs gs (inr (r, s)) = inr (Repeats-insert f fs r, Repeats-insert f gs s)

Alike-trans : (fs gs hs : List CanonicalField) → Alike fs gs → Alike gs hs → Alike fs hs
Alike-trans fs gs hs (inl e) b = rw e b
Alike-trans fs gs hs (inr (r, s)) (inl e) = inr (r, rw e at s)
Alike-trans fs gs hs (inr (r, s)) (inr (r', s')) = inr (r, s')

Alike-swap :
    (f g : CanonicalField) (fs : List CanonicalField)
    → Alike (insert_by_name f (insert_by_name g fs)) (insert_by_name g (insert_by_name f fs))
Alike-swap f g fs = elim (Bytes_discrete f.name g.name) [
  | yes e ↦ inr (Repeats-insert_twice f g fs e, Repeats-insert_twice g f fs (sym e))
  | no ne ↦ inl (insert_swap f g fs ne)
]

sort-Alike : {fs gs : List CanonicalField} → Permᴰ fs gs → Alike (sort_by_name fs) (sort_by_name gs)
unfolding sort_by_name
sort-Alike Permᴰ.nil = inl refl
sort-Alike (Permᴰ.cons {b = g} e p) = rw e (Alike-insert g _ _ (sort-Alike p))
sort-Alike (Permᴰ.swap {a' = g} {b' = f} {l = fs} e d) =
    rw (e, d) (Alike-swap f g (sort_by_name fs))
sort-Alike (Permᴰ.trans p q) = Alike-trans _ _ _ (sort-Alike p) (sort-Alike q)

length-perm : {fs gs : List CanonicalField} → Permᴰ fs gs → length fs ≡ length gs
length-perm Permᴰ.nil = refl
length-perm (Permᴰ.cons e p) = ap suc (length-perm p)
length-perm (Permᴰ.swap e d) = refl
length-perm (Permᴰ.trans p q) = length-perm p ∙ length-perm q

Result-set : IsSet (Result Panic Bytes)
Result-set = hlevel

rows-Alike :
    (rfc3339 : Rfc3339) (table : Bytes) (fs gs : List CanonicalField)
    → length fs ≡ length gs
    → Alike (sort_by_name fs) (sort_by_name gs)
    → canonical_row_bytes rfc3339 table fs ≡ canonical_row_bytes rfc3339 table gs
unfolding canonical_row_bytes
rows-Alike rfc3339 table fs gs e (inl s) = simp (e, s)
rows-Alike rfc3339 table fs gs e (inr (r, s)) = simp (e, r, s)

-- The bytes of a row, or the panic, are the same for every order of its fields.
pub canonical_row_bytes-perm :
    (rfc3339 : Rfc3339) (table : Bytes) {fs gs : List CanonicalField}
    → Perm fs gs
    → canonical_row_bytes rfc3339 table fs ≡ canonical_row_bytes rfc3339 table gs
canonical_row_bytes-perm rfc3339 table {fs} {gs} p =
    ∥∥₁_elim p (Result-set _ _) λ d. rows-Alike rfc3339 table fs gs (length-perm d) (sort-Alike d)
