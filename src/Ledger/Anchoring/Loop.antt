-- ===== src/Ledger/Anchoring/Loop.antt =====
-- services/ledger/src/anchoring.rs: `spawn_global_loop` and the triggers, as ticks that are under way at
-- once. A tick reads the ledger and uploads its document; later its INSERT succeeds or fails. Nothing
-- holds the others back in between: the pool gives no lock, and replicas and POST /anchors share it.
use trackward.Prelude.{
  ℕ, zero, suc, ◌<◌, ◌≡◌, refl, sym, ap, ◌∙◌, subst, List, [], ◌∷◌, Bytes, Bool, true, false,
  Option, none, some, Result, ok, err, arith,
}
use trackward.ChainCore.Encode.{Timestamp}
use trackward.External.{External}
use trackward.Ledger.Db.{Error, Table}
use trackward.Ledger.Chain.{ChainTable}
use trackward.Ledger.Anchoring.Sink.{AnchorSink}
use trackward.Ledger.Anchoring.{
  Anchor, AnchorScope, global, Ledger, SigningService, window_start, anchor_tick,
}
use trackward.Ledger.Anchoring.Ticks.{IsMinted, anchor_tick_mints}

-- What happens next: writes commit to the tables, a tick of the loop or of a trigger reads and uploads,
-- or the INSERT of the n-th latest tick under way succeeds or fails.
pub data Turn : Type 0 where
  writes : (ChainTable → Table) → Turn
  starts : AnchorScope → (until now : Timestamp) → (id : Bytes) → Turn
  ends : (inserted : Bool) → ℕ → Turn

-- The ticks under way, the latest first: the row that each is to insert, if it has one.
pub record State : Type 0 where
  pub ledger : Ledger
  pub sink : AnchorSink
  pub under_way : List (Option Anchor)

abbrev pub pick : ℕ → List (Option Anchor) → Option Anchor × List (Option Anchor)
pick n [] = (none, [])
pick zero (o ∷ os) = (o, os)
pick (suc n) (o ∷ os) = let (p, rest) = pick n os in (p, o ∷ rest)

-- A tick that fails before its upload, or has no leaves, is to insert nothing.
abbrev pub begun : State → Result Error (Option Anchor × Ledger × AnchorSink) → State
begun s (ok (anchor, db, sink)) = record s { sink = sink; under_way = anchor ∷ s.under_way }
begun s (err e) = record s { under_way = none ∷ s.under_way }

-- The INSERT: without it the uploaded document stays where it is.
abbrev pub inserted_row : Bool → Option Anchor → Ledger → Ledger
inserted_row true (some row) db = record db { anchors = row ∷ db.anchors }
inserted_row _ _ db = db

unfoldable pub ended : (inserted : Bool) → ℕ → State → State
ended inserted n s =
    let (o, rest) = pick n s.under_way in
    record s { ledger = inserted_row inserted o s.ledger; under_way = rest }

module _ (x : External) (signing : SigningService) where
  unfoldable pub started : AnchorScope → (until now : Timestamp) → (id : Bytes) → State → State
  unfolding anchor_tick
  started scope until now id s = begun s (anchor_tick x signing s.sink scope until now id s.ledger)

  -- The body of `spawn_global_loop`, when nothing comes between: a tick at the present moment, over
  -- everything, whose error is logged.
  unfoldable pub global_tick : (inserted : Bool) → (now : Timestamp) → (id : Bytes) → State → State
  unfolding started ended
  global_tick inserted now id s = ended inserted 0 (started global now now id s)

  unfoldable pub turn : Turn → State → State
  unfolding started ended
  turn (writes tables) s = record s { ledger = record s.ledger { tables = tables } }
  turn (starts scope until now id) s = started scope until now id s
  turn (ends inserted n) s = ended inserted n s

  -- Turns one after the other.
  unfoldable pub turns : List Turn → State → State
  unfolding turn
  turns [] s = s
  turns (u ∷ us) s = turns us (turn u s)

  -- Every anchor's window begins where the windows of its scope that were anchored before it end, and is
  -- not empty: within a scope no moment is left out and none is anchored twice.
  abbrev pub IsSeamless : List Anchor → Type 0
  IsSeamless [] = Unit {0}
  IsSeamless (a ∷ older) =
      (a.anchored_from ≡ window_start a.run_id older)
      × (a.anchored_from < a.anchored_to)
      × IsSeamless older

  -- No tick starts while another is under way; `busy` says whether one is at first.
  abbrev pub IsSerial : (busy : Bool) → List Turn → Type 0
  IsSerial busy [] = Unit {0}
  IsSerial busy (writes tables ∷ us) = IsSerial busy us
  IsSerial busy (starts scope until now id ∷ us) = (busy ≡ false) × IsSerial true us
  IsSerial busy (ends inserted n ∷ us) = (n ≡ 0) × IsSerial false us

  -- A row that may still be inserted without a seam.
  abbrev Fits : Option Anchor → List Anchor → Type 0
  Fits none anchors = Unit {0}
  Fits (some a) anchors =
      (a.anchored_from ≡ window_start a.run_id anchors) × (a.anchored_from < a.anchored_to)

  abbrev IsWaiting : (busy : Bool) → State → Type 0
  IsWaiting false s = s.under_way ≡ []
  IsWaiting true s = (o : Option Anchor) × (s.under_way ≡ o ∷ []) × Fits o s.ledger.anchors

  started-IsWaiting :
      (scope : AnchorScope) (until now : Timestamp) (id : Bytes) (s : State)
      → s.under_way ≡ []
      → ((started scope until now id s).ledger ≡ s.ledger)
        × IsWaiting true (started scope until now id s)
  unfolding started
  started-IsWaiting scope until now id s free =
      on (anchor_tick x signing s.sink scope until now id s.ledger) refl
    where
      on :
          (r : Result Error (Option Anchor × Ledger × AnchorSink))
          → anchor_tick x signing s.sink scope until now id s.ledger ≡ r
          → ((begun s r).ledger ≡ s.ledger) × IsWaiting true (begun s r)
      on (err e) h = (refl, (none, ap (◌∷◌ none) free, tt))
      on (ok (none, db, sink)) h = (refl, (none, ap (◌∷◌ none) free, tt))
      on (ok (some row, db, sink)) h =
          let minted : IsMinted scope until s.ledger row db =
            (anchor_tick_mints x signing s.sink scope until now id s.ledger h).0 in
          (
            refl,
            (
              some row,
              ap (◌∷◌ (some row)) free,
              (
                minted.starts ∙ ap (λ o. window_start o s.ledger.anchors) (sym minted.scoped),
                omega (arith, minted.starts, minted.ends, minted.advances),
              ),
            ),
          )

  inserted_row-IsSeamless :
      (inserted : Bool) (o : Option Anchor) (db : Ledger)
      → Fits o db.anchors
      → IsSeamless db.anchors
      → IsSeamless (inserted_row inserted o db).anchors
  inserted_row-IsSeamless true none db fits seamless = seamless
  inserted_row-IsSeamless true (some row) db fits seamless = (fits.0, fits.1, seamless)
  inserted_row-IsSeamless false none db fits seamless = seamless
  inserted_row-IsSeamless false (some row) db fits seamless = seamless

  ended-IsSeamless :
      (busy inserted : Bool) (s : State)
      → IsWaiting busy s
      → IsSeamless s.ledger.anchors
      → IsSeamless (ended inserted 0 s).ledger.anchors × IsWaiting false (ended inserted 0 s)
  unfolding ended
  ended-IsSeamless false inserted s free seamless =
      subst
        (λ os.
          IsSeamless (inserted_row inserted (pick 0 os).0 s.ledger).anchors × ((pick 0 os).1 ≡ []))
        (sym free) (inserted_row-IsSeamless inserted none s.ledger tt seamless, refl)
  ended-IsSeamless true inserted s (o, one, fits) seamless =
      subst
        (λ os.
          IsSeamless (inserted_row inserted (pick 0 os).0 s.ledger).anchors × ((pick 0 os).1 ≡ []))
        (sym one) (inserted_row-IsSeamless inserted o s.ledger fits seamless, refl)

  turns-IsSeamless' :
      (us : List Turn) (busy : Bool) (s : State)
      → IsSerial busy us
      → IsWaiting busy s
      → IsSeamless s.ledger.anchors
      → IsSeamless (turns us s).ledger.anchors
  unfolding turns turn
  turns-IsSeamless' [] busy s serial waiting seamless = seamless
  turns-IsSeamless' (writes tables ∷ us) true s serial waiting seamless =
      turns-IsSeamless' us true (record s { ledger = record s.ledger { tables = tables } }) serial
        waiting seamless
  turns-IsSeamless' (writes tables ∷ us) false s serial waiting seamless =
      turns-IsSeamless' us false (record s { ledger = record s.ledger { tables = tables } }) serial
        waiting seamless
  turns-IsSeamless' (starts scope until now id ∷ us) true s serial waiting seamless = cc (serial.0)
  turns-IsSeamless' (starts scope until now id ∷ us) false s serial waiting seamless =
      let (same, waits) = started-IsWaiting scope until now id s waiting in
      turns-IsSeamless' us true (started scope until now id s) serial.1 waits
        (subst (λ (d : Ledger). IsSeamless d.anchors) (sym same) seamless)
  turns-IsSeamless' (ends inserted n ∷ us) busy s serial waiting seamless =
      let (next, free) = ended-IsSeamless busy inserted s waiting seamless in
      subst (λ k. IsSeamless (turns us (ended inserted k s)).ledger.anchors) (sym serial.0)
        (turns-IsSeamless' us false (ended inserted 0 s) serial.1 free next)

  -- As long as no tick starts while another is under way, and none is at first, the anchors of every
  -- scope stay seamless over any run of writes, ticks of the loop and triggers, with ticks that mint
  -- nothing, fail, or fail to insert: each window begins where the windows before it end, and is not
  -- empty.
  pub turns-IsSeamless :
      (us : List Turn) (s : State)
      → s.under_way ≡ []
      → IsSerial false us
      → IsSeamless s.ledger.anchors
      → IsSeamless (turns us s).ledger.anchors
  turns-IsSeamless us s free serial seamless = turns-IsSeamless' us false s serial free seamless
