-- ===== src/Ledger/Chain/Linear.antt =====
-- A run's rows in one table form one linear chain, as long as transactions commit in the order in
-- which they started; a row that commits late makes the chain fork.
use mathlib.Core.Option
use trackward.Prelude.{
  ◌≡◌, refl, sym, ap, subst, ◌∙◌, ◌⊎◌, inl, inr, List, [], ◌∷◌, Bytes, Option, none, some, Result,
  ok, err, >>=-eq-ok, true, false, Bool-cases, Option-cases, All, lex_le_total, bytes_eq_iff, arith,
}
use trackward.ChainCore.Hashing.{Hash, Sha256}
use trackward.ChainCore.Chain.{compute_row_hash}
use trackward.ChainCore.CanonicalJson.Syntax.{Panic}
use trackward.ChainCore.Encode.{CanonicalField, Rfc3339, Timestamp, canonical_row_bytes}
use trackward.Ledger.Db.{Error, Row, Table, of_run, newer, chain_of, latest}
use trackward.Ledger.Chain.{
  ChainTable, table_name, ChainLink, prev_array, or_panic, compute_chain, chained_row,
  insert_chained,
}
use trackward.Ledger.Chain.Spec.{head_hash, or_genesis, IsOrdered, IsLink, IsSound}

newer_asymm : (a b : Row) → newer a b ≡ true → newer b a ≡ false
unfolding newer
newer_asymm a b h = ground (arith, lex_le_total a.id b.id)

latest_cases :
    (r : Row) (rs : Table)
    → (latest (r ∷ rs) ≡ some r)
      ⊎ ((s : Row) × (latest rs ≡ some s) × (newer s r ≡ true) × (latest (r ∷ rs) ≡ some s))
unfolding latest
latest_cases r rs = elim (Option-cases (latest rs)) [
  | inl e ↦ inl (rw (e, latest))
  | inr (s, e) ↦ elim (Bool-cases (newer s r)) [
    | inl up ↦ inr (s, e, up, rw (e, up, latest))
    | inr down ↦ inl (rw (e, down, latest))
  ]
]

latest-All {ℓ} :
    (P : Row → Type ℓ) (rows : Table) (s : Row) → All P rows → latest rows ≡ some s → P s
latest-All P [] s all h = unfold latest in cc h
latest-All P (r ∷ rs) s all h = elim (latest_cases r rs) [
  | inl e ↦ let same : r ≡ s = cc (e, h) in subst P same all.0
  | inr (t, e, _, f) ↦ let same : t ≡ s = cc (f, h) in subst P same (latest-All P rs t all.1 e)
]

-- Under the order of commits the newest row by time is the last one committed.
latest-head : (r : Row) (rs : Table) → All (λ s. newer r s ≡ true) rs → latest (r ∷ rs) ≡ some r
latest-head r rs all = elim (latest_cases r rs) [
  | inl e ↦ e
  | inr (s, e, up, _) ↦
      let older = latest-All (λ s. newer r s ≡ true) rs s all e in cc (up, newer_asymm r s older)
]

latest-head_hash :
    (rows : Table)
    → IsOrdered rows
    → Option.map (λ (r : Row). r.row_hash) (latest rows) ≡ head_hash rows
latest-head_hash [] o = unfold latest in refl
latest-head_hash (r ∷ rs) o = ap (Option.map (λ (r : Row). r.row_hash)) (latest-head r rs o.0)

chain_of-cons :
    (run : Bytes) (r : Row) (rs : Table)
    → (chain_of run (r ∷ rs) ≡ chain_of run rs)
      ⊎ ((of_run run r ≡ true) × (chain_of run (r ∷ rs) ≡ r ∷ chain_of run rs))
unfolding chain_of
chain_of-cons run r rs = ground arith

pub of_run-some :
    (run run' : Bytes) (r : Row) → r.run_id ≡ some run' → of_run run r ≡ true → run' ≡ run
unfolding of_run
of_run-some run run' r e h = ground (arith, bytes_eq_iff run' run)

latest-late :
    (run : Bytes) (late : Row) (rows : Table) (top : Row)
    → latest (chain_of run rows) ≡ some top
    → newer top late ≡ true
    → latest (chain_of run (late ∷ rows)) ≡ some top
unfolding latest
latest-late run late rows top ht up = elim (chain_of-cons run late rows) [
  | inl same ↦ rw same ht
  | inr (mine, grown) ↦ rw grown (rw (ht, up, latest))
]

pub prev_array-or_genesis :
    (prev : Option Bytes) {arr : Hash} → prev_array prev ≡ ok arr → arr ≡ or_genesis prev
unfolding prev_array
prev_array-or_genesis none h = cc h
prev_array-or_genesis (some bytes) h = ground arith

pub or_panic-ok {ℓ} : {A : Type ℓ} (m : Result Panic A) {a : A} → or_panic m ≡ ok a → m ≡ ok a
or_panic-ok (ok b) h = cc h
or_panic-ok (err p) h = cc h

module _ (sha256 : Sha256) (rfc3339 : Rfc3339) (table : ChainTable) where
  -- What `compute_chain` returns: the hash of the newest row by time, and the hash over it.
  pub compute_chain-eq-ok :
      (rows : Table) (run : Bytes) (fields : List CanonicalField) {link : ChainLink}
      → compute_chain sha256 rfc3339 rows table run fields ≡ ok link
      → (link.prev_hash ≡ Option.map (λ (r : Row). r.row_hash) (latest (chain_of run rows)))
        × (b : Bytes) × (canonical_row_bytes rfc3339 (table_name table) fields ≡ ok b)
        × (link.row_hash ≡ compute_row_hash sha256 (or_genesis link.prev_hash) b)
  unfolding compute_chain
  compute_chain-eq-ok rows run fields {link} h =
      let prev = Option.map (λ (r : Row). r.row_hash) (latest (chain_of run rows)) in
      let (arr, hp, k) = >>=-eq-ok (prev_array prev) _ h in
      let (b, hb, e) =
        >>=-eq-ok (or_panic (canonical_row_bytes rfc3339 (table_name table) fields)) _ k in
      let made : record { prev_hash = prev; row_hash = compute_row_hash sha256 arr b } ≡ link =
        cc e in
      let genesis = prev_array-or_genesis prev hp in
      let below = ap or_genesis (ap (λ (l : ChainLink). l.prev_hash) made) in
      (
        ap (λ (l : ChainLink). l.prev_hash) (sym made),
        b,
        or_panic-ok _ hb,
        ap (λ (l : ChainLink). l.row_hash) (sym made)
            ∙ ap (λ p. compute_row_hash sha256 p b) (genesis ∙ below),
      )

  insert_chained-eq-ok :
      (run id : Bytes) (now : Timestamp) (fields : List CanonicalField) (rows : Table) {row : Row}
      {rows' : Table}
      → insert_chained sha256 rfc3339 table run id now fields rows ≡ ok (row, rows')
      → (link : ChainLink) × (compute_chain sha256 rfc3339 rows table run fields ≡ ok link)
        × (row ≡ chained_row run id now fields link)
        × (rows' ≡ row ∷ rows)
  unfolding insert_chained
  insert_chained-eq-ok run id now fields rows {row} {rows'} h =
      let (link, hl, e) = >>=-eq-ok (compute_chain sha256 rfc3339 rows table run fields) _ h in
      let made = pair_of e in (link, hl, sym made.0, sym made.1 ∙ ap (λ r. r ∷ rows) made.0)
    where
      pair_of :
          {r : Row} {rs : Table}
          → ◌≡◌ {A = Result Error (Row × Table)} (ok (r, rs)) (ok (row, rows'))
          → (r ≡ row) × (rs ≡ rows')
      pair_of e = (cc e, cc e)

  -- A row that commits after all rows of its run, in the order of their transactions' starts, extends
  -- the run's chain; the chains of the other runs stay as they are.
  pub insert_chained-IsSound :
      (run id : Bytes) (now : Timestamp) (fields : List CanonicalField) (rows : Table) {row : Row}
      {rows' : Table}
      → IsSound sha256 rfc3339 table rows
      → All (λ s. newer row s ≡ true) (chain_of run rows)
      → insert_chained sha256 rfc3339 table run id now fields rows ≡ ok (row, rows')
      → IsSound sha256 rfc3339 table rows'
  insert_chained-IsSound run id now fields rows {row} {rows'} sound last h run' =
      let (link, hl, er, es) = insert_chained-eq-ok run id now fields rows h in
      let (ep, b, hb, eh) = compute_chain-eq-ok rows run fields hl in
      elim (chain_of-cons run' row rows) [
        | inl same ↦ rw (es, same) (sound run')
        | inr (mine, grown) ↦
            let own : run ≡ run' = of_run-some run' run row (ap (λ (r : Row). r.run_id) er) mine in
            let prev = ap (λ (r : Row). r.prev_hash) er in
            let step : IsLink sha256 rfc3339 table (chain_of run rows) row = record {
              follows = prev ∙ ep ∙ latest-head_hash (chain_of run rows) (sound run).1;
              row_bytes = b;
              encoded =
                  ap (λ (r : Row). canonical_row_bytes rfc3339 (table_name table) r.fields) er ∙ hb;
              hashed =
                  ap (λ (r : Row). r.row_hash) er
                  ∙ eh
                  ∙ ap (λ p. compute_row_hash sha256 (or_genesis p) b) (sym prev);
            } in
            rw (es, grown, ← own) ((step, (sound run).0), (last, (sound run).1))
      ]

  -- A row `late` whose transaction started before that of the newest row `top` of its run does not
  -- become the tail: the next row links to `top` as `late` does, and the chain forks.
  pub insert_chained_late_forks :
      (run id id' : Bytes) (now now' : Timestamp) (fields fields' : List CanonicalField)
      (rows rows' : Table) {top late next : Row} {rows'' : Table}
      → latest (chain_of run rows) ≡ some top
      → insert_chained sha256 rfc3339 table run id now fields rows ≡ ok (late, rows')
      → newer top late ≡ true
      → insert_chained sha256 rfc3339 table run id' now' fields' rows' ≡ ok (next, rows'')
      → (late.prev_hash ≡ some top.row_hash) × (next.prev_hash ≡ some top.row_hash)
  insert_chained_late_forks run id id' now now' fields fields' rows rows' {top} {late} ht h up h' =
      let (link, hl, er, es) = insert_chained-eq-ok run id now fields rows h in
      let (link', hl', er', es') = insert_chained-eq-ok run id' now' fields' rows' h' in
      let (ep, _, _, _) = compute_chain-eq-ok rows run fields hl in
      let (ep', _, _, _) = compute_chain-eq-ok rows' run fields' hl' in
      let tail : latest (chain_of run rows') ≡ some top =
        rw es (latest-late run late rows top ht up) in
      (
        ap (λ (r : Row). r.prev_hash) er ∙ ep ∙ ap (Option.map (λ (r : Row). r.row_hash)) ht,
        ap (λ (r : Row). r.prev_hash) er' ∙ ep' ∙ ap (Option.map (λ (r : Row). r.row_hash)) tail,
      )
