-- ===== src/Ledger/Records/Pages.antt =====
-- What a page of `runs::list` is.
use mathlib.Core.List.{Perm}
use mathlib.Core.List.Perm
use trackward.Prelude.{
  ℕ, ◌≤◌, ◌<◌, ◌≡◌, refl, sym, ap, subst, ◌∙◌, List, [], ◌++◌, All, Bytes, bytes_eq, bytes_eq_refl,
  bytes_eq→eq, Bool, true, false, not, ◌&&◌, ltb, leb, ltb→lt, lt→ltb, leb→le, le→leb, tests,
  Bool-cases, length, take, drop, Option, none, some, ◌⊎◌, inl, inr, ℤ, pos, negsuc, arith,
}
use trackward.ChainCore.Encode.{Timestamp}
use trackward.Ledger.Queries.{
  where_rows, order_by, newest_first, IsNewestFirst, order_by-Perm, order_by-IsNewestFirst,
  where_rows-split, All-where_rows, All-order_by, length-take_or_all, take-drop,
}
use trackward.Ledger.Records.Runs.{Run, ListQuery, null_or, clamp_limit, is_listed, list_runs}

and_true : (a b : Bool) → (a && b) ≡ true → (a ≡ true) × (b ≡ true)
and_true true b h = (refl, h)
and_true false b h = cc h

and_both : {a b : Bool} → a ≡ true → b ≡ true → (a && b) ≡ true
and_both {b = b} h k = ap (λ c. c && b) h ∙ k

-- What the query asks for: this agent, started from the one time on and before the other. A part that
-- is left out asks for nothing.
pub record Matches (q : ListQuery) (r : Run) : Type 0 where
  pub by_agent : (q.agent ≡ none) ⊎ (q.agent ≡ some r.agent)
  pub from_since : (q.since ≡ none) ⊎ ((t : Timestamp) × (q.since ≡ some t) × (t ≤ r.started_at))
  pub before_until : (q.until ≡ none) ⊎ ((t : Timestamp) × (q.until ≡ some t) × (r.started_at < t))

-- The size that the query asks for: 100 rows when it has no limit, else its limit, between 1 and 1000.
abbrev pub IsPageSize : Option ℤ → ℕ → Type 0
IsPageSize none size = size ≡ 100
IsPageSize (some (negsuc n)) size = size ≡ 1
IsPageSize (some (pos n)) size =
    ((1 ≤ n) × (n ≤ 1000) × (size ≡ n)) ⊎ ((n ≡ 0) × (size ≡ 1)) ⊎ ((1000 < n) × (size ≡ 1000))

clamp_limit-IsPageSize : (limit : Option ℤ) → IsPageSize limit (clamp_limit limit)
unfolding clamp_limit
clamp_limit-IsPageSize none = refl
clamp_limit-IsPageSize (some (negsuc n)) = refl
clamp_limit-IsPageSize (some (pos n)) = elim (Bool-cases (ltb n 1)) [
  | inl e ↦ rw e (inr (inl (omega (tests, e), refl)))
  | inr e ↦ elim (Bool-cases (ltb 1000 n)) [
    | inl f ↦ rw (e, f) (inr (inr (omega (tests, f), refl)))
    | inr f ↦ rw (e, f) (inl (ground arith, ground arith, refl))
  ]
]

-- The runs of the table: the page, those behind it, and those that do not match. The page has the
-- newest of the matching runs, and is as long as its size unless no run is behind it.
pub record IsPage (q : ListQuery) (runs page : List Run) : Type 0 where
  pub rest : List Run
  pub others : List Run
  pub all : Perm ((page ++ rest) ++ others) runs
  pub matching : All (Matches q) (page ++ rest)
  pub excluded : All (λ r. ¬ Matches q r) others
  pub newest : IsNewestFirst (λ r. r.started_at) (page ++ rest)
  pub size : ℕ
  pub sized : IsPageSize q.limit size
  pub filled : (length page ≡ size) ⊎ ((rest ≡ []) × (length page ≤ size))

is_listed-Matches : (q : ListQuery) (r : Run) → is_listed q r ≡ true → Matches q r
unfolding is_listed
is_listed-Matches q r h =
    let (both, until) =
      and_true (null_or (bytes_eq r.agent) q.agent && null_or (λ t. leb t r.started_at) q.since)
        (null_or (ltb r.started_at) q.until) h in
    let (agent, since) =
      and_true (null_or (bytes_eq r.agent) q.agent) (null_or (λ t. leb t r.started_at) q.since)
        both in
    record {
      by_agent = on_agent q.agent agent;
      from_since = on_since q.since since;
      before_until = on_until q.until until;
    }
  where
    on_agent :
        (o : Option Bytes) → null_or (bytes_eq r.agent) o ≡ true → (o ≡ none) ⊎ (o ≡ some r.agent)
    on_agent none e = inl refl
    on_agent (some a) e = inr (ap some (sym (bytes_eq→eq r.agent a e)))

    on_since :
        (o : Option Timestamp)
        → null_or (λ t. leb t r.started_at) o ≡ true
        → (o ≡ none) ⊎ ((t : Timestamp) × (o ≡ some t) × (t ≤ r.started_at))
    on_since none e = inl refl
    on_since (some t) e = inr (t, refl, leb→le t r.started_at e)

    on_until :
        (o : Option Timestamp)
        → null_or (ltb r.started_at) o ≡ true
        → (o ≡ none) ⊎ ((t : Timestamp) × (o ≡ some t) × (r.started_at < t))
    on_until none e = inl refl
    on_until (some t) e = inr (t, refl, ltb→lt r.started_at t e)

Matches-is_listed : (q : ListQuery) (r : Run) → Matches q r → is_listed q r ≡ true
unfolding is_listed
Matches-is_listed q r m =
    and_both (and_both (on_agent q.agent m.by_agent) (on_since q.since m.from_since))
      (on_until q.until m.before_until)
  where
    on_agent :
        (o : Option Bytes) → (o ≡ none) ⊎ (o ≡ some r.agent) → null_or (bytes_eq r.agent) o ≡ true
    on_agent o (inl e) = ap (null_or (bytes_eq r.agent)) e
    on_agent o (inr e) = ap (null_or (bytes_eq r.agent)) e ∙ bytes_eq_refl r.agent

    on_since :
        (o : Option Timestamp)
        → (o ≡ none) ⊎ ((t : Timestamp) × (o ≡ some t) × (t ≤ r.started_at))
        → null_or (λ t. leb t r.started_at) o ≡ true
    on_since o (inl e) = ap (null_or (λ t. leb t r.started_at)) e
    on_since o (inr (t, e, le)) =
        ap (null_or (λ t. leb t r.started_at)) e ∙ le→leb t r.started_at le

    on_until :
        (o : Option Timestamp)
        → (o ≡ none) ⊎ ((t : Timestamp) × (o ≡ some t) × (r.started_at < t))
        → null_or (ltb r.started_at) o ≡ true
    on_until o (inl e) = ap (null_or (ltb r.started_at)) e
    on_until o (inr (t, e, lt)) = ap (null_or (ltb r.started_at)) e ∙ lt→ltb r.started_at t lt

-- Whatever the query asks for, the list of runs is a page: the newest of the runs that match the agent
-- and the times of the query, as many as its limit says, between 1 and 1000, or all of them.
pub list_runs-IsPage : (q : ListQuery) (runs : List Run) → IsPage q runs (list_runs q runs)
unfolding list_runs
list_runs-IsPage q runs = record {
  rest = drop size sorted;
  others = others;
  all =
      subst (λ rs. Perm (rs ++ others) runs) whole
        (Perm.trans (Perm.append_right others (order_by-Perm _ matched)) (where_rows-split p runs));
  matching =
      subst (All (Matches q)) whole
        (All-order_by (Matches q) _ matched (All-where_rows (Matches q) p runs listed));
  excluded = All-where_rows (λ r. ¬ Matches q r) (λ r. not (p r)) runs unlisted;
  newest =
      subst (IsNewestFirst (λ r. r.started_at)) whole
        (order_by-IsNewestFirst (λ r. r.started_at) matched);
  size = size;
  sized = clamp_limit-IsPageSize q.limit;
  filled = length-take_or_all size sorted;
}
  where
    p : Run → Bool
    p = is_listed q

    size : ℕ
    size = clamp_limit q.limit

    matched : List Run
    matched = where_rows p runs

    others : List Run
    others = where_rows (λ r. not (p r)) runs

    sorted : List Run
    sorted = order_by (newest_first (λ r. r.started_at)) matched

    whole : sorted ≡ take size sorted ++ drop size sorted
    whole = sym (take-drop size sorted)

    listed : (r : Run) → p r ≡ true → Matches q r
    listed r e = is_listed-Matches q r e

    unlisted : (r : Run) → not (p r) ≡ true → ¬ Matches q r
    unlisted r e m = cc (e, Matches-is_listed q r m)
