-- ===== src/Examples/AnchoringExamples.antt =====
-- The results on services/ledger/src/anchoring.rs at a ledger with two events.
use trackward.Prelude.{
  ℕ, ◌≤◌, ◌<◌, ◌≡◌, refl, ◌⊎◌, inl, inr, List, [], ◌∷◌, ◌++◌, Bytes, true, false, ascii, bytes_eq,
  lex_le, to_be_bytes, to_i64, i64_bits, none, some, ok, err, ◌>>=◌, pos, arith,
}
use trackward.ChainCore.Encode.{Timestamp}
use trackward.ChainCore.CanonicalJson.{to_canonical_string}
use trackward.Ledger.Db.{newer}
use trackward.Ledger.Chain.{events, insert_chained}
use trackward.Ledger.Anchoring.Sink.{noop}
use trackward.Ledger.Anchoring.Manifest.{AnchorManifest, canonical_json}
use trackward.Ledger.Anchoring.Canonical.{
  IsPlain, manifest_value, canonical_json-to_canonical_string,
}
use trackward.Ledger.Anchoring.{
  Anchor, Ledger, SigningService, run, global, run_filter, window_start, collect_leaves,
  anchor_tick, commit,
}
use trackward.Ledger.Anchoring.Windows.{collect_leaves_split}
use trackward.Ledger.Anchoring.{global}
use trackward.Ledger.Anchoring.Loop.{State, Turn, starts, ends, turns, IsSeamless, turns-IsSeamless}
use trackward.Ledger.Anchoring.Ticks.{IsMinted, anchor_tick_mints}
use trackward.Ledger.Anchoring.Late.{late_commit_unanchored}
use trackward.Examples.Fixtures.{run_a, no_json, row_id}
use trackward.Examples.LedgerExamples.{two_rows, inserted_row}

abbrev pub recorded : Ledger
recorded = record { tables = λ table. elim table [ events ↦ two_rows | _ ↦ [] ]; anchors = [] }

abbrev pub toy_signing : SigningService
toy_signing = record {
  secret = ascii "secret";
  key_id = ascii "key-1";
  public_key_hex = no_json.public_key (ascii "secret");
}

collect_leaves_split_example : collect_leaves recorded global 0 250 ≡ (
    collect_leaves recorded global 0 150 >>= λ hs.
    collect_leaves recorded global 150 250 >>= λ ks. ok (hs ++ ks))
collect_leaves_split_example =
    collect_leaves_split recorded global 0 150 250 (omega arith) (omega arith)

abbrev ticked_ledger : Timestamp → Ledger
ticked_ledger until =
    elim (anchor_tick no_json toy_signing noop (run run_a) until 900 (row_id 7) recorded) [
      | ok (anchor, db, sink) ↦ db
      | err e ↦ recorded
    ]

abbrev pub spare_anchor : Anchor
spare_anchor = record {
  id = [];
  run_id = none;
  anchored_from = 0;
  anchored_to = 0;
  leaf_count = 0;
  root_hash = [];
  signature = [];
  key_id = [];
  public_key_hex = [];
  anchor_target = [];
  anchored_at = 0;
}

abbrev ticked_row : Timestamp → Anchor
ticked_row until =
    elim (anchor_tick no_json toy_signing noop (run run_a) until 900 (row_id 7) recorded) [
      | ok (some anchor, db, sink) ↦ anchor
      | _ ↦ spare_anchor
    ]

anchor_tick_mints_example :
    IsMinted (run run_a) 250 recorded (ticked_row 250) (ticked_ledger 250)
    × (window_start (run_filter (run run_a)) (ticked_ledger 250).anchors ≡ 250)
unfolding anchor_tick insert_chained newer lex_le bytes_eq to_be_bytes i64_bits
anchor_tick_mints_example =
    anchor_tick_mints no_json toy_signing noop (run run_a) 250 900 (row_id 7) recorded
      {row = ticked_row 250} {db' = ticked_ledger 250} {sink' = noop} refl

-- Before the first event there is nothing to anchor.

late_commit_unanchored_example :
    collect_leaves
      (commit events (inserted_row 3 180 two_rows) (ticked_ledger 190))
      (run run_a)
      (window_start (run_filter (run run_a)) (ticked_ledger 190).anchors)
      400
    ≡ collect_leaves
        (ticked_ledger 190)
        (run run_a)
        (window_start (run_filter (run run_a)) (ticked_ledger 190).anchors)
        400
unfolding anchor_tick insert_chained newer lex_le bytes_eq to_be_bytes i64_bits
late_commit_unanchored_example =
    late_commit_unanchored no_json toy_signing noop (run run_a) 190 900 400 (row_id 7) recorded
      {row = ticked_row 190} {db' = ticked_ledger 190} {sink' = noop} events
      (inserted_row 3 180 two_rows) refl (omega arith)

abbrev sample_manifest : AnchorManifest
sample_manifest = record {
  version = ascii "v";
  scope = ascii "g";
  anchored_from = 0;
  anchored_to = 250;
  leaf_count = pos 2;
  root_hash = ascii "a";
  anchored_at = 900;
}

IsPlain-cons : (c : ℕ) (s : Bytes) → 35 ≤ c → (c < 92) ⊎ (92 < c) → IsPlain s → IsPlain (c ∷ s)
IsPlain-cons c s low (inl h) p = ((omega arith, (λ e. omega arith), (λ e. omega arith)), p)
IsPlain-cons c s low (inr h) p = ((omega arith, (λ e. omega arith), (λ e. omega arith)), p)

pub tick_text-IsPlain : (t : ℕ) → IsPlain (no_json.rfc3339 t)
tick_text-IsPlain t = IsPlain-cons _ [] (omega arith) (inl (omega arith)) tt

-- The strings of the manifest are one letter each.
canonical_json-to_canonical_string_example :
    to_canonical_string (manifest_value no_json sample_manifest)
    ≡ ok (canonical_json no_json sample_manifest)
canonical_json-to_canonical_string_example =
    canonical_json-to_canonical_string no_json sample_manifest
      (IsPlain-cons 118 [] (omega arith) (inr (omega arith)) tt)
      (IsPlain-cons 103 [] (omega arith) (inr (omega arith)) tt) tick_text-IsPlain
      (IsPlain-cons 97 [] (omega arith) (inr (omega arith)) tt)

abbrev no_anchors : State
no_anchors = record { ledger = record recorded { anchors = [] }; sink = noop; under_way = [] }

-- Two ticks, the first of which fails to insert.
abbrev two_ticks : List Turn
two_ticks =
    starts global 50 900 (row_id 7)
    ∷ ends false 0
    ∷ starts global 250 900 (row_id 8)
    ∷ ends true 0
    ∷ []

turns-IsSeamless_example :
    IsSeamless no_json toy_signing (turns no_json toy_signing two_ticks no_anchors).ledger.anchors
turns-IsSeamless_example =
    turns-IsSeamless no_json toy_signing two_ticks no_anchors refl
      (refl, (refl, (refl, (refl, tt)))) tt

-- Two ticks under way at once mint windows that overlap.
abbrev two_overlapping : List Turn
two_overlapping =
    starts global 240 900 (row_id 7)
    ∷ starts global 250 900 (row_id 8)
    ∷ ends true 1
    ∷ ends true 0
    ∷ []

two_overlapping-not-IsSeamless :
    ¬ IsSeamless no_json toy_signing
      (turns no_json toy_signing two_overlapping no_anchors).ledger.anchors
unfolding turns anchor_tick insert_chained newer lex_le bytes_eq to_be_bytes i64_bits to_i64
    trackward.ChainCore.Merkle.leaf_hash trackward.ChainCore.Merkle.node_hash
two_overlapping-not-IsSeamless s = omega (arith, s.0)
