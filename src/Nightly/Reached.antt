-- ===== src/Nightly/Reached.antt =====
-- Days and hours agree whatever the worker has done.
use analytics_pipeline.Prelude.{
  ℕ, String, List, [], ◌∷◌, get, update, HasDistinctKeys, update-HasDistinctKeys, IsDistinct,
  ℕ_discrete, ◌≡◌, refl, sym, ap, ◌∙◌,
}
use analytics_pipeline.Settings.{Settings}
use analytics_pipeline.Records.{RawEvent, RollupKey, RollupKey_discrete, day, hour}
use analytics_pipeline.Rollup.Accum.{row_of}
use analytics_pipeline.Rollup.Aggregate.{AggMap, aggregate_batch, agg_of}
use analytics_pipeline.Rollup.Table.{RollupTable, on_conflict, upsert_rows}
use analytics_pipeline.Database.{Database, empty_database, rollup_of}
use analytics_pipeline.Worker.Batch.{ids, process_batch, fetch, committed}
use analytics_pipeline.Worker.Totals.{total}
use analytics_pipeline.Worker.Commit.{fresh}
use analytics_pipeline.Worker.Exact.{IsExact, rollup_of-after, get-rollup_of-after}
use analytics_pipeline.Worker.Replay.{
  Step, Reach, here, next, batch, crash, seek, store, after_fetched, Reach-IsExact,
}
use analytics_pipeline.Worker.Idempotent.{committed-batch}
use analytics_pipeline.Nightly.DaySum.{day_sum}
use analytics_pipeline.Nightly.Kept.{agg_sum-aggregate_batch, day_sum-upsert_rows}

-- Every row of rollup_day is the hours of its day, added up, and no key stands twice.
pub record IsSummed (db : Database) : Type 0 where
  pub distinct : HasDistinctKeys RollupKey_discrete (rollup_of day db)
  pub sums :
      (k : RollupKey) → day_sum k (rollup_of hour db) ≡ get RollupKey_discrete k (rollup_of day db)

upsert_rows-HasDistinctKeys :
    (agg : AggMap) (t : RollupTable)
    → HasDistinctKeys RollupKey_discrete t
    → HasDistinctKeys RollupKey_discrete (upsert_rows agg t)
unfolding upsert_rows
upsert_rows-HasDistinctKeys [] t h = h
upsert_rows-HasDistinctKeys ((j, acc) ∷ agg) t h =
    upsert_rows-HasDistinctKeys agg (update RollupKey_discrete j (on_conflict (row_of acc)) t)
      (update-HasDistinctKeys RollupKey_discrete j (on_conflict (row_of acc)) t h)

after_fetched-IsSummed :
    (c : String) (db : Database) (events : List RawEvent)
    → IsSummed db
    → IsSummed (after_fetched c db events)
unfolding after_fetched
after_fetched-IsSummed c db [] h = h
after_fetched-IsSummed c db (e ∷ es) h =
    let new = fresh db c (e ∷ es) in
    record {
      distinct = rw (rollup_of-after day c db e es) (
          upsert_rows-HasDistinctKeys (agg_of day (aggregate_batch new)) (rollup_of day db)
            h.distinct);
      sums = λ k.
          ap (day_sum k) (rollup_of-after hour c db e es)
          ∙ day_sum-upsert_rows k (agg_of hour (aggregate_batch new)) (rollup_of hour db)
          ∙ rw (agg_sum-aggregate_batch k new, h.sums k)
              (unfold total in sym (get-rollup_of-after day k c db e es));
    }

batch-IsSummed :
    (s : Settings) (db : Database)
    → IsDistinct ℕ_discrete (ids db.raw_events)
    → IsSummed db
    → IsSummed (committed db (process_batch s db))
batch-IsSummed s db d h =
    rw (committed-batch s db d) (after_fetched-IsSummed s.worker_id db (fetch s db) h)

Step-IsSummed :
    {s : Settings} {db db' : Database}
    → IsDistinct ℕ_discrete (ids db.raw_events)
    → Step s db db'
    → IsSummed db
    → IsSummed db'
unfolding rollup_of
Step-IsSummed {s} d (batch db) h = batch-IsSummed s db d h
Step-IsSummed d (crash db) h = h
Step-IsSummed d (seek db offsets) h = record { distinct = h.distinct; sums = h.sums }
Step-IsSummed d (store db e raw new p) h = record { distinct = h.distinct; sums = h.sums }

-- Whatever batches, crashes, offset resets and new events there were, every row of rollup_day is the
-- rows of rollup_hour of its day, added up, if it was so at the start and the tables were exact.
pub Reach-IsSummed :
    (s : Settings) {start db : Database}
    → IsExact s.worker_id start
    → IsSummed start
    → Reach s start db
    → IsSummed db
Reach-IsSummed s e h here = h
Reach-IsSummed s e h (next r st) =
    Step-IsSummed (Reach-IsExact s e r).distinct st (Reach-IsSummed s e h r)

pub empty-IsSummed : (merchants : List ℕ) → IsSummed (empty_database merchants)
unfolding rollup_of day_sum get
empty-IsSummed merchants = record { distinct = tt; sums = λ k. refl }
