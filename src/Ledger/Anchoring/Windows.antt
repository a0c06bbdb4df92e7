-- ===== src/Ledger/Anchoring/Windows.antt =====
-- Consecutive windows share the rows between them: none is anchored twice, none is left out.
use trackward.Prelude.{
  ◌<◌, ◌≤◌, ◌≡◌, refl, ap, ◌∙◌, ◌⊎◌, inl, inr, [], ◌∷◌, ◌++◌, Bytes, true, false, Bool-cases,
  Option, ok, ◌>>=◌, All, arith,
}
use trackward.ChainCore.Encode.{Timestamp}
use trackward.Ledger.Db.{Row, Table}
use trackward.Ledger.Anchoring.{
  AnchorScope, Ledger, run_filter, in_window, select_window, row_le, insert_row, sort_rows,
  all_rows, to_leaves, collect_leaves,
}

module _ (mid : Timestamp) where
  -- A row at or before `mid` goes into the earlier part, one after `mid` into the later part.
  insert_row-early :
      (r : Row) (xs ys : Table)
      → r.created_at ≤ mid
      → All (λ s. mid < s.created_at) ys
      → insert_row r (xs ++ ys) ≡ insert_row r xs ++ ys
  unfolding insert_row
  insert_row-early r [] [] h late = refl
  insert_row-early r [] (y ∷ ys) h late = ground arith
  insert_row-early r (x ∷ xs) ys h late = ground (arith, insert_row-early r xs ys)

  insert_row-late :
      (r : Row) (xs ys : Table)
      → mid < r.created_at
      → All (λ s. s.created_at ≤ mid) xs
      → insert_row r (xs ++ ys) ≡ xs ++ insert_row r ys
  unfolding insert_row
  insert_row-late r [] ys h early = refl
  insert_row-late r (x ∷ xs) ys h early = ground (arith, insert_row-late r xs ys)

  All-insert_row {ℓ} :
      (P : Row → Type ℓ) (r : Row) (rs : Table) → P r → All P rs → All P (insert_row r rs)
  unfolding insert_row
  All-insert_row P r [] p ps = (p, tt)
  All-insert_row P r (s ∷ rs) p ps = elim (Bool-cases (row_le r s)) [
    | inl e ↦ rw e (p, ps)
    | inr e ↦ rw e (ps.0, All-insert_row P r rs p ps.1)
  ]

window_bounds :
    (scope : Option Bytes) (from until : Timestamp) (r : Row)
    → in_window scope from until r ≡ true
    → (from < r.created_at) × (r.created_at ≤ until)
unfolding in_window
window_bounds scope from until r h = ground arith

-- A row of the whole window lies in one of its two parts, and a row outside it in neither.
window_cases :
    (scope : Option Bytes) (from mid until : Timestamp) (r : Row)
    → from ≤ mid
    → mid ≤ until
    → ((in_window scope from until r ≡ true)
        × (in_window scope from mid r ≡ true)
        × (in_window scope mid until r ≡ false))
      ⊎ ((in_window scope from until r ≡ true)
          × (in_window scope from mid r ≡ false)
          × (in_window scope mid until r ≡ true))
      ⊎ ((in_window scope from until r ≡ false)
          × (in_window scope from mid r ≡ false)
          × (in_window scope mid until r ≡ false))
unfolding in_window
window_cases scope from mid until r a b = ground arith

module _ (scope : Option Bytes) (from mid until : Timestamp) (a : from ≤ mid)
    (b : mid ≤ until) where
  abbrev early : Table → Table
  early rs = sort_rows (select_window scope from mid rs)

  abbrev late : Table → Table
  late rs = sort_rows (select_window scope mid until rs)

  early-All : (rs : Table) → All (λ s. s.created_at ≤ mid) (early rs)
  unfolding select_window sort_rows
  early-All [] = tt
  early-All (r ∷ rs) = elim (Bool-cases (in_window scope from mid r)) [
    | inl e ↦
        rw e (All-insert_row mid _ r (early rs) (window_bounds scope from mid r e).1 (early-All rs))
    | inr e ↦ rw e (early-All rs)
  ]

  late-All : (rs : Table) → All (λ s. mid < s.created_at) (late rs)
  unfolding select_window sort_rows
  late-All [] = tt
  late-All (r ∷ rs) = elim (Bool-cases (in_window scope mid until r)) [
    | inl e ↦
        rw e (All-insert_row mid _ r (late rs) (window_bounds scope mid until r e).0 (late-All rs))
    | inr e ↦ rw e (late-All rs)
  ]

  sorted_split : (rs : Table) → sort_rows (select_window scope from until rs) ≡ early rs ++ late rs
  unfolding select_window sort_rows
  sorted_split [] = refl
  sorted_split (r ∷ rs) = elim (window_cases scope from mid until r a b) [
    | inl (whole, first, second) ↦
        let place =
          insert_row-early mid r (early rs) (late rs) (window_bounds scope from mid r first).1
            (late-All rs) in
        rw (whole, first, second) (ap (insert_row r) (sorted_split rs) ∙ place)
    | inr (inl (whole, first, second)) ↦
        let place =
          insert_row-late mid r (early rs) (late rs) (window_bounds scope mid until r second).0
            (early-All rs) in
        rw (whole, first, second) (ap (insert_row r) (sorted_split rs) ∙ place)
    | inr (inr (whole, first, second)) ↦ rw (whole, first, second) (sorted_split rs)
  ]

to_leaves-append :
    (rs ss : Table)
    → to_leaves (rs ++ ss) ≡ (to_leaves rs >>= λ hs. to_leaves ss >>= λ ks. ok (hs ++ ks))
unfolding to_leaves
to_leaves-append [] ss = ground arith
to_leaves-append (r ∷ rs) ss = ground (arith, to_leaves-append rs ss)

-- The leaves of a window are those of its two parts, one after the other: consecutive ticks anchor
-- each row between them once, and in the order of one tick over both.
pub collect_leaves_split :
    (db : Ledger) (scope : AnchorScope) (from mid until : Timestamp)
    → from ≤ mid
    → mid ≤ until
    → collect_leaves db scope from until ≡ (
        collect_leaves db scope from mid >>= λ hs.
        collect_leaves db scope mid until >>= λ ks. ok (hs ++ ks))
unfolding collect_leaves
collect_leaves_split db scope from mid until a b =
    ap to_leaves (sorted_split (run_filter scope) from mid until a b (all_rows db))
    ∙ to_leaves-append (sort_rows (select_window (run_filter scope) from mid (all_rows db)))
        (sort_rows (select_window (run_filter scope) mid until (all_rows db)))
