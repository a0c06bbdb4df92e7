-- ===== src/Ledger/Anchoring/Ticks.antt =====
-- What a tick leaves behind: where the next window starts, and which rows no later tick sees.
use trackward.Prelude.{
  ◌<◌, ◌≡◌, sym, ap, ◌∙◌, ◌⊎◌, inl, inr, List, ◌∷◌, Bytes, bytes_eq_refl, length, true, Bool-cases,
  ltb, leb, ltb→lt, Option, none, some, Result, ok, err, >>=-eq-ok, Result-cases, arith,
}
use trackward.ChainCore.Hashing.{Hash}
use trackward.ChainCore.Merkle.{compute_root}
use trackward.ChainCore.Encode.{Timestamp}
use trackward.External.{External}
use trackward.Ledger.Db.{Error}
use trackward.Ledger.Anchoring.Sink.{AnchorSink, put}
use trackward.Ledger.Anchoring.Manifest.{canonical_json}
use trackward.Ledger.Anchoring.{
  AnchorScope, Anchor, Ledger, SigningService, run_filter, in_scope, window_start, collect_leaves,
  anchor_row, root_or_panic, decoded, manifest_of, anchor_doc, object_key, mint, anchor_tick,
  global, run,
}

-- A minted anchor covers `(from, until]` and is the only change of the ledger.
pub record IsMinted (scope : AnchorScope) (until : Timestamp) (db : Ledger) (row : Anchor)
    (db' : Ledger) : Type 0 where
  pub starts : row.anchored_from ≡ window_start (run_filter scope) db.anchors
  pub ends : row.anchored_to ≡ until
  pub scoped : row.run_id ≡ run_filter scope
  pub grown : db'.anchors ≡ row ∷ db.anchors
  pub kept : db'.tables ≡ db.tables
  pub advances : window_start (run_filter scope) db.anchors < until

in_scope_self :
    (scope : AnchorScope) (a : Anchor)
    → a.run_id ≡ run_filter scope
    → in_scope (run_filter scope) a ≡ true
unfolding in_scope run_filter
in_scope_self global a e = rw e
in_scope_self (run id) a e = rw (e, bytes_eq_refl id)

-- The window of a scope starts where its latest anchor ended.
window_start-cons :
    (scope : AnchorScope) (a : Anchor) (anchors : List Anchor)
    → a.run_id ≡ run_filter scope
    → window_start (run_filter scope) anchors < a.anchored_to
    → window_start (run_filter scope) (a ∷ anchors) ≡ a.anchored_to
unfolding window_start
window_start-cons scope a anchors e h = ground (arith, in_scope_self scope a)

IsMinted-window :
    (scope : AnchorScope) (until : Timestamp) (db : Ledger) (row : Anchor) (db' : Ledger)
    → IsMinted scope until db row db'
    → IsMinted scope until db row db' × (window_start (run_filter scope) db'.anchors ≡ until)
IsMinted-window scope until db row db' m =
    let next =
      window_start-cons scope row db.anchors m.scoped (omega (arith, m.ends, m.advances)) in
    (m, ap (window_start (run_filter scope)) m.grown ∙ next ∙ m.ends)

module _ (x : External) (signing : SigningService) where
  -- The parts of a successful mint.
  pub mint-eq-ok :
      (sink : AnchorSink) (scope : AnchorScope) (from until now : Timestamp) (id : Bytes)
      (leaves : List Hash) (db : Ledger) {row : Anchor} {db' : Ledger} {sink' : AnchorSink}
      → mint x signing sink scope from until now id leaves db ≡ ok (row, db', sink')
      → (root : Hash) × (signature target : Bytes) × (compute_root x.sha256 leaves ≡ some root)
        × (put sink (object_key x scope id) (
              x.to_vec (
                anchor_doc x signing
                  (canonical_json x (manifest_of x scope from until now leaves root))))
            ≡ ok (target, sink'))
        × (row ≡ anchor_row signing scope from until now id leaves root signature target)
        × (db' ≡ record db { anchors = row ∷ db.anchors })
  unfolding mint
  mint-eq-ok sink scope from until now id leaves db {row} {db'} {sink'} h =
      let (root, hr, h₁) = >>=-eq-ok (root_or_panic (compute_root x.sha256 leaves)) _ h in
      let manifest_json = canonical_json x (manifest_of x scope from until now leaves root) in
      let (signature, _, h₂) =
        >>=-eq-ok (decoded (x.hex_decode (x.hex_encode (x.sign signing.secret manifest_json)))) _
          h₁ in
      let (shipped, hp, h₃) =
        >>=-eq-ok (put sink (object_key x scope id) (x.to_vec (anchor_doc x signing manifest_json)))
          _ h₂ in
      let made = triple_of h₃ in
      (
        root,
        signature,
        shipped.0,
        root_of _ hr,
        hp ∙ ap ok (pair_path shipped sink' made.2),
        sym made.0,
        sym made.1 ∙ ap (λ r. record db { anchors = r ∷ db.anchors }) made.0,
      )
    where
      triple_of :
          {r : Anchor} {d : Ledger} {s : AnchorSink}
          → ◌≡◌ {A = Result Error (Anchor × Ledger × AnchorSink)}
              (ok (r, d, s))
              (ok (row, db', sink'))
          → (r ≡ row) × (d ≡ db') × (s ≡ sink')
      triple_of e = (cc e, cc e, cc e)

      root_of : (o : Option Hash) {root : Hash} → root_or_panic o ≡ ok root → o ≡ some root
      root_of none e = cc e
      root_of (some root') e = ap some (cc e)

      pair_path : (p : Bytes × AnchorSink) (s : AnchorSink) → p.1 ≡ s → p ≡ (p.0, s)
      pair_path p s e = λ i. (p.0, e i)

  -- The three outcomes of a tick.
  pub anchor_tick_cases :
      (sink : AnchorSink) (scope : AnchorScope) (until now : Timestamp) (id : Bytes) (db : Ledger)
      → (anchor_tick x signing sink scope until now id db ≡ ok (none, db, sink))
        ⊎ ((leaves : List Hash) × (row : Anchor) × (db' : Ledger) × (sink' : AnchorSink)
            × (window_start (run_filter scope) db.anchors < until)
            × (collect_leaves db scope (window_start (run_filter scope) db.anchors) until
                ≡ ok leaves)
            × (0 < length leaves)
            × (mint x signing sink scope
                  (window_start (run_filter scope) db.anchors)
                  until
                  now
                  id
                  leaves
                  db
                ≡ ok (row, db', sink'))
            × (anchor_tick x signing sink scope until now id db ≡ ok (some row, db', sink')))
        ⊎ ((e : Error) × (anchor_tick x signing sink scope until now id db ≡ err e))
  unfolding anchor_tick
  anchor_tick_cases sink scope until now id db =
      let from = window_start (run_filter scope) db.anchors in
      elim (Bool-cases (leb until from)) [
        | inl past ↦ inl (rw past)
        | inr due ↦ elim (Result-cases (collect_leaves db scope from until)) [
          | inr (e, hc) ↦ inr (inr (e, rw (due, hc)))
          | inl (leaves, hc) ↦ elim (Bool-cases (ltb 0 (length leaves))) [
            | inr none_left ↦ inl (rw (due, hc, none_left))
            | inl some_left ↦
                elim (Result-cases (mint x signing sink scope from until now id leaves db)) [
                  | inr (e, hm) ↦ inr (inr (e, rw (due, hc, some_left, hm)))
                  | inl (r, hm) ↦ inr (
                      inl (
                        leaves,
                        r.0,
                        r.1,
                        r.2,
                        ground arith,
                        hc,
                        ltb→lt _ _ some_left,
                        hm,
                        rw (due, hc, some_left, hm),
                      ))
                ]
          ]
        ]
      ]

  tick-IsMinted :
      (sink : AnchorSink) (scope : AnchorScope) (until now : Timestamp) (id : Bytes) (db : Ledger)
      (leaves : List Hash) {row : Anchor} {db' : Ledger} {sink' : AnchorSink}
      → window_start (run_filter scope) db.anchors < until
      → mint x signing sink scope
          (window_start (run_filter scope) db.anchors)
          until
          now
          id
          leaves
          db
        ≡ ok (row, db', sink')
      → IsMinted scope until db row db'
  tick-IsMinted sink scope until now id db leaves {row} {db'} due hm =
      let (root, signature, target, _, _, er, ed) =
        mint-eq-ok sink scope (window_start (run_filter scope) db.anchors) until now id leaves db
          hm in
      record {
        starts = ap (λ (a : Anchor). a.anchored_from) er;
        ends = ap (λ (a : Anchor). a.anchored_to) er;
        scoped = ap (λ (a : Anchor). a.run_id) er;
        grown = ap (λ (d : Ledger). d.anchors) ed;
        kept = ap (λ (d : Ledger). d.tables) ed;
        advances = due;
      }

  -- A tick that mints covers the window from the end of the scope's latest anchor to `until`, writes
  -- that anchor and nothing else to the ledger, and the next window starts at `until`.
  pub anchor_tick_mints :
      (sink : AnchorSink) (scope : AnchorScope) (until now : Timestamp) (id : Bytes) (db : Ledger)
      {row : Anchor} {db' : Ledger} {sink' : AnchorSink}
      → anchor_tick x signing sink scope until now id db ≡ ok (some row, db', sink')
      → IsMinted scope until db row db' × (window_start (run_filter scope) db'.anchors ≡ until)
  anchor_tick_mints sink scope until now id db {row} {db'} {sink'} h =
      elim (anchor_tick_cases sink scope until now id db) [
        | inl idle ↦ cc (idle, h)
        | inr (inr (e, failed)) ↦ cc (failed, h)
        | inr (inl (leaves, r, d, s, due, hc, n, hm, ht)) ↦
            IsMinted-window scope until db row db' (
              tick-IsMinted sink scope until now id db leaves {sink' = sink'} due (hm ∙ cc (ht, h)))
      ]

  -- A tick that mints nothing changes nothing.
  pub anchor_tick_idle :
      (sink : AnchorSink) (scope : AnchorScope) (until now : Timestamp) (id : Bytes) (db : Ledger)
      {db' : Ledger} {sink' : AnchorSink}
      → anchor_tick x signing sink scope until now id db ≡ ok (none, db', sink')
      → (db' ≡ db) × (sink' ≡ sink)
  anchor_tick_idle sink scope until now id db {db'} {sink'} h =
      elim (anchor_tick_cases sink scope until now id db) [
        | inl idle ↦ (cc (idle, h), cc (idle, h))
        | inr (inr (e, failed)) ↦ cc (failed, h)
        | inr (inl (leaves, r, d, s, due, hc, n, hm, ht)) ↦ cc (ht, h)
      ]
