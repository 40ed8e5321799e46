-- ===== src/Worker/Fits.antt =====
-- The BIGINT columns of the rollup tables: how large what the worker writes can get.
use analytics_pipeline.Prelude.{
  ℕ, ◌*◌, ◌^◌, ◌≤◌, ◌<◌, List, [], ◌∷◌, some, get, All, filter, filter-All, length,
  length-filter-le, sum, if_pos, if_neg, ◌≡◌, sym, ◌∙◌, arith,
}
use analytics_pipeline.Settings.{Settings}
use analytics_pipeline.Records.{
  RawEvent, RollupKey, RollupKey_discrete, RollupRow, RollupGranularity,
}
use analytics_pipeline.Database.{Database, empty_database, rollup_of}
use analytics_pipeline.Ingest.Store.{max_integer}
use analytics_pipeline.Rollup.Buckets.{rollup_key}
use analytics_pipeline.Rollup.Summary.{summarise, minimum, maximum}
use analytics_pipeline.Rollup.Aggregate.Laws.{amounts_at}
use analytics_pipeline.Worker.Totals.{total}
use analytics_pipeline.Worker.Exact.{marked, empty-IsExact}
use analytics_pipeline.Worker.Replay.{Reach, Reach-IsExact}

-- Each column is at most what `n` amounts of an INTEGER column come to.
pub record IsBounded (n : ℕ) (row : RollupRow) : Type 0 where
  pub count_le : row.count ≤ n
  pub sum_le : row.amount_sum_cents ≤ n * max_integer
  pub min_le : row.amount_min_cents ≤ row.amount_max_cents
  pub max_le : row.amount_max_cents ≤ max_integer

amounts_at-All :
    (g : RollupGranularity) (k : RollupKey) (es : List RawEvent)
    → All (λ e. e.amount_cents ≤ max_integer) es
    → All (λ n. n ≤ max_integer) (amounts_at g k es) × (length (amounts_at g k es) ≤ length es)
unfolding amounts_at
amounts_at-All g k [] h = (tt, omega arith)
amounts_at-All g k (e ∷ es) h = elim (RollupKey_discrete (rollup_key g e) k) [
  | yes p ↦
      let rest = amounts_at-All g k es h.1 in rw (if_pos _ p) ((h.0, rest.0), omega (arith, rest.1))
  | no p ↦ let rest = amounts_at-All g k es h.1 in rw (if_neg _ p) (rest.0, omega (arith, rest.1))
]

sum-le : (xs : List ℕ) → All (λ n. n ≤ max_integer) xs → sum xs ≤ length xs * max_integer
sum-le [] h = omega arith
sum-le (x ∷ xs) h = omega (arith, h.0, sum-le xs h.1)

extremes_le :
    (x : ℕ) (xs : List ℕ)
    → x ≤ max_integer
    → All (λ n. n ≤ max_integer) xs
    → (minimum x xs ≤ x) × (x ≤ maximum x xs) × (maximum x xs ≤ max_integer)
extremes_le x [] h a = (omega arith, omega arith, h)
extremes_le x (y ∷ ys) h a =
    let rest = extremes_le y ys a.0 a.1 in (omega arith, omega arith, omega (arith, h, rest.2))

summarise-IsBounded :
    (n : ℕ) (xs : List ℕ) (row : RollupRow)
    → All (λ n. n ≤ max_integer) xs
    → length xs ≤ n
    → summarise xs ≡ some row
    → IsBounded n row
unfolding summarise
summarise-IsBounded n [] row a l h = absurd (cc h)
summarise-IsBounded n (x ∷ xs) row a l h =
    let (least, greatest, bounded) = extremes_le x xs a.0 a.1 in
    record {
      count_le = ground (arith, h, l);
      sum_le = ground (arith, h, l, sum-le (x ∷ xs) a);
      min_le = ground (arith, h, least, greatest);
      max_le = ground (arith, h, bounded);
    }

-- From a new installation on, whatever batches, crashes, offset resets and new events there were: if
-- each amount fits an INTEGER column, the columns of every row of every rollup table are bounded by the
-- number of events, and with at most 2 ^ 32 events they fit BIGINT.
pub Reach-IsBounded :
    (s : Settings) (merchants : List ℕ) (g : RollupGranularity) (k : RollupKey) (row : RollupRow)
    {db : Database}
    → Reach s (empty_database merchants) db
    → All (λ e. e.amount_cents ≤ max_integer) db.raw_events
    → length db.raw_events ≤ 2 ^ 32
    → get RollupKey_discrete k (rollup_of g db) ≡ some row
    → IsBounded (length db.raw_events) row × (row.count < 2 ^ 63) × (row.amount_sum_cents < 2 ^ 63)
unfolding total
Reach-IsBounded s merchants g k row {db} r fits few there =
    let stored = filter (marked db.processed_rollup_events s.worker_id) db.raw_events in
    let exact = (Reach-IsExact s (empty-IsExact s.worker_id merchants) r).exact g k in
    let amounts = amounts_at-All g k stored (filter-All _ _ db.raw_events fits) in
    let bounded =
      summarise-IsBounded (length db.raw_events) (amounts_at g k stored) row amounts.0
        (omega (
          arith,
          amounts.1,
          length-filter-le (marked db.processed_rollup_events s.worker_id) db.raw_events,
        ))
        (sym exact ∙ there) in
    (bounded, omega (arith, bounded.count_le, few), omega (arith, bounded.sum_le, few))
