-- ===== src/Ledger/Queries.antt =====
-- The queries of services/ledger/src/routes as functions of a table: WHERE, ORDER BY and LIMIT.
-- Rows that the order does not tell apart come out in the order of the table.
use mathlib.Core.List.{Perm, perm_middle}
use mathlib.Core.List.Perm
use trackward.Prelude.{
  ℕ, zero, suc, ◌≤◌, ◌≡◌, refl, ap, List, [], ◌∷◌, ◌++◌, Bool, true, not, leb, ◌⊎◌, length, take,
  drop, All, Bool-cases, Option, none, some, inl, inr, if◌then◌else◌, arith,
}

module _ {ℓ} {A : Type ℓ} where
  unfoldable pub where_rows : (A → Bool) → List A → List A
  where_rows p [] = []
  where_rows p (r ∷ rs) = let rest = where_rows p rs in if p r then r ∷ rest else rest

  -- The first row with the property (`fetch_optional` by a key).
  unfoldable pub fetch_optional : (A → Bool) → List A → Option A
  fetch_optional p [] = none
  fetch_optional p (r ∷ rs) = let rest = fetch_optional p rs in if p r then some r else rest

  unfoldable pub insert_ordered : (A → A → Bool) → A → List A → List A
  insert_ordered le r [] = r ∷ []
  insert_ordered le r (s ∷ ss) =
      let rest = insert_ordered le r ss in if le r s then r ∷ s ∷ ss else s ∷ rest

  unfoldable pub order_by : (A → A → Bool) → List A → List A
  unfolding insert_ordered
  order_by le [] = []
  order_by le (r ∷ rs) = insert_ordered le r (order_by le rs)

  -- ORDER BY a time, DESC or ASC.
  abbrev pub newest_first : (A → ℕ) → A → A → Bool
  newest_first time r s = leb (time s) (time r)

  abbrev pub oldest_first : (A → ℕ) → A → A → Bool
  oldest_first time r s = leb (time r) (time s)

  -- No row comes after a later one.
  abbrev pub IsNewestFirst : (A → ℕ) → List A → Type 0
  IsNewestFirst time [] = Unit {0}
  IsNewestFirst time (r ∷ rs) = All (λ s. time s ≤ time r) rs × IsNewestFirst time rs

  insert_ordered-Perm :
      (le : A → A → Bool) (r : A) (rs : List A) → Perm (insert_ordered le r rs) (r ∷ rs)
  unfolding insert_ordered
  insert_ordered-Perm le r [] = Perm.refl (r ∷ [])
  insert_ordered-Perm le r (s ∷ ss) = elim (Bool-cases (le r s)) [
    | inl e ↦ rw e (Perm.refl (r ∷ s ∷ ss))
    | inr e ↦ rw e (Perm.trans (Perm.cons s (insert_ordered-Perm le r ss)) (Perm.swap r s ss))
  ]

  pub order_by-Perm : (le : A → A → Bool) (rs : List A) → Perm (order_by le rs) rs
  unfolding order_by
  order_by-Perm le [] = Perm.refl []
  order_by-Perm le (r ∷ rs) =
      Perm.trans (insert_ordered-Perm le r (order_by le rs)) (Perm.cons r (order_by-Perm le rs))

  All-insert_ordered {κ} :
      (P : A → Type κ) (le : A → A → Bool) (r : A) (rs : List A)
      → P r
      → All P rs
      → All P (insert_ordered le r rs)
  unfolding insert_ordered
  All-insert_ordered P le r [] p ps = (p, tt)
  All-insert_ordered P le r (s ∷ rs) p ps = elim (Bool-cases (le r s)) [
    | inl e ↦ rw e (p, ps)
    | inr e ↦ rw e (ps.0, All-insert_ordered P le r rs p ps.1)
  ]

  All-earlier :
      (time : A → ℕ) (r s : A) (rs : List A)
      → time s ≤ time r
      → All (λ u. time u ≤ time s) rs
      → All (λ u. time u ≤ time r) rs
  All-earlier time r s [] h all = tt
  All-earlier time r s (u ∷ rs) h all = (omega (arith, all.0), All-earlier time r s rs h all.1)

  insert_ordered-IsNewestFirst :
      (time : A → ℕ) (r : A) (rs : List A)
      → IsNewestFirst time rs
      → IsNewestFirst time (insert_ordered (newest_first time) r rs)
  unfolding insert_ordered
  insert_ordered-IsNewestFirst time r [] sorted = (tt, tt)
  insert_ordered-IsNewestFirst time r (s ∷ ss) sorted = elim (Bool-cases (leb (time s) (time r))) [
    | inl e ↦
        let before : time s ≤ time r = ground arith in
        rw e (((before, All-earlier time r s ss before sorted.0), sorted))
    | inr e ↦
        let after : time r ≤ time s = ground arith in
        rw e (
          All-insert_ordered (λ u. time u ≤ time s) (newest_first time) r ss after sorted.0,
          insert_ordered-IsNewestFirst time r ss sorted.1,
        )
  ]

  pub order_by-IsNewestFirst :
      (time : A → ℕ) (rs : List A) → IsNewestFirst time (order_by (newest_first time) rs)
  unfolding order_by
  order_by-IsNewestFirst time [] = tt
  order_by-IsNewestFirst time (r ∷ rs) =
      insert_ordered-IsNewestFirst time r (order_by (newest_first time) rs)
        (order_by-IsNewestFirst time rs)

  pub All-order_by {κ} :
      (P : A → Type κ) (le : A → A → Bool) (rs : List A) → All P rs → All P (order_by le rs)
  unfolding order_by
  All-order_by P le [] ps = tt
  All-order_by P le (r ∷ rs) (p, ps) =
      All-insert_ordered P le r (order_by le rs) p (All-order_by P le rs ps)

  -- The rows with the property and those without it are the rows.
  pub where_rows-split :
      (p : A → Bool) (rs : List A) → Perm (where_rows p rs ++ where_rows (λ r. not (p r)) rs) rs
  unfolding where_rows
  where_rows-split p [] = Perm.refl []
  where_rows-split p (r ∷ rs) = elim (Bool-cases (p r)) [
    | inl e ↦ rw e (Perm.cons r (where_rows-split p rs))
    | inr e ↦ rw e (
        Perm.trans (perm_middle (where_rows p rs) (where_rows (λ s. not (p s)) rs))
          (Perm.cons r (where_rows-split p rs)))
  ]

  pub All-where_rows {κ} :
      (P : A → Type κ) (p : A → Bool) (rs : List A)
      → ((r : A) → p r ≡ true → P r)
      → All P (where_rows p rs)
  unfolding where_rows
  All-where_rows P p [] h = tt
  All-where_rows P p (r ∷ rs) h = elim (Bool-cases (p r)) [
    | inl e ↦ rw e (h r e, All-where_rows P p rs h)
    | inr e ↦ rw e (All-where_rows P p rs h)
  ]

  pub length-take_or_all :
      (n : ℕ) (rs : List A)
      → (length (take n rs) ≡ n) ⊎ ((drop n rs ≡ []) × (length (take n rs) ≤ n))
  length-take_or_all zero rs = inl refl
  length-take_or_all (suc n) [] = inr (refl, omega arith)
  length-take_or_all (suc n) (r ∷ rs) = elim (length-take_or_all n rs) [
    | inl e ↦ inl (ap suc e)
    | inr (e, h) ↦ inr (e, omega arith)
  ]

  pub length-take : (n : ℕ) (rs : List A) → length (take n rs) ≤ n
  length-take zero rs = omega arith
  length-take (suc n) [] = omega arith
  length-take (suc n) (r ∷ rs) = omega (arith, length-take n rs)

  pub take-drop : (n : ℕ) (rs : List A) → take n rs ++ drop n rs ≡ rs
  take-drop zero rs = refl
  take-drop (suc n) [] = refl
  take-drop (suc n) (r ∷ rs) = ap (◌∷◌ r) (take-drop n rs)
