-- ===== src/Rollup/Single.antt =====
-- `upsert_all_granularities` of app/repositories/rollup_repository.py, the path of a single event,
-- beside the batch path of the worker.
use analytics_pipeline.Prelude.{
  ℕ, String, List, [], ◌∷◌, none, get, get-update, ite, ◌≡◌, refl, arith, sym, ap, ◌∙◌,
}
use analytics_pipeline.Result.{ok}
use analytics_pipeline.Moment.{Datetime}
use analytics_pipeline.Records.{
  RawEvent, RollupKey, RollupKey_discrete, RollupRow, RollupGranularity, minute, hour, day,
}
use analytics_pipeline.Rollup.Buckets.{
  bucket_ts, minute_bucket, hour_bucket, day_bucket, bucket_of, rollup_key,
}
use analytics_pipeline.Rollup.Summary.{summarise, combine, combine-none, combine_assoc}
use analytics_pipeline.Rollup.Aggregate.{aggregate_batch, agg_of}
use analytics_pipeline.Rollup.Aggregate.Laws.{
  amounts_at, summarise-amounts_at, row_at-aggregate_batch, aggregate_batch-HasDistinctKeys,
}
use analytics_pipeline.Rollup.Table.{
  RollupTable, on_conflict, upsert_rollup, upsert_rows, batch_upsert,
}
use analytics_pipeline.Rollup.Table.Laws.{on_conflict-combine, get-upsert_rows, batch_upsert-ok}
use analytics_pipeline.Database.{Database, rollup_of}

-- `upsert_all_granularities`
unfoldable pub upsert_all_granularities :
    ℕ → String → Datetime → Datetime → Datetime → ℕ → Database → Database
upsert_all_granularities merchant event_type bucket_minute bucket_hour bucket_day amount db =
    let key : Datetime → RollupKey =
      λ bucket. record { merchant_id = merchant; bucket = bucket; event_type = event_type } in
    record db {
      rollup_minute = upsert_rollup (key bucket_minute) 1 amount db.rollup_minute;
      rollup_hour = upsert_rollup (key bucket_hour) 1 amount db.rollup_hour;
      rollup_day = upsert_rollup (key bucket_day) 1 amount db.rollup_day;
    }

-- events one at a time, each with its buckets
unfoldable pub upsert_each : List RawEvent → Database → Database
upsert_each [] db = db
upsert_each (e ∷ es) db =
    let ts = bucket_ts e in
    upsert_each es (
      upsert_all_granularities e.merchant_id e.event_type (minute_bucket ts) (hour_bucket ts)
        (day_bucket ts) e.amount_cents db)

upsert_all_granularities-rollup_of :
    (g : RollupGranularity) (e : RawEvent) (db : Database)
    → rollup_of g (
        upsert_all_granularities e.merchant_id e.event_type
          (minute_bucket (bucket_ts e))
          (hour_bucket (bucket_ts e))
          (day_bucket (bucket_ts e))
          e.amount_cents
          db)
      ≡ upsert_rollup (rollup_key g e) 1 e.amount_cents (rollup_of g db)
unfolding upsert_all_granularities rollup_of rollup_key bucket_of
upsert_all_granularities-rollup_of minute e db = refl
upsert_all_granularities-rollup_of hour e db = refl
upsert_all_granularities-rollup_of day e db = refl

get-upsert_rollup :
    (key k : RollupKey) (amount : ℕ) (t : RollupTable)
    → get RollupKey_discrete k (upsert_rollup key 1 amount t)
      ≡ combine
          (get RollupKey_discrete k t)
          (ite (RollupKey_discrete key k) (summarise (amount ∷ [])) none)
unfolding upsert_rollup summarise
get-upsert_rollup key k amount t =
    let row : RollupRow = record {
      count = 1;
      amount_sum_cents = amount;
      amount_min_cents = amount;
      amount_max_cents = amount;
    } in
    let written = get-update RollupKey_discrete key k (on_conflict row) t in
    elim (RollupKey_discrete key k) [
      | yes p ↦ ground (arith, written, on_conflict-combine row (get RollupKey_discrete key t))
      | no p ↦ ground (arith, written, combine-none (get RollupKey_discrete k t))
    ]

get-upsert_each :
    (g : RollupGranularity) (k : RollupKey) (es : List RawEvent) (db : Database)
    → get RollupKey_discrete k (rollup_of g (upsert_each es db))
      ≡ combine (get RollupKey_discrete k (rollup_of g db)) (summarise (amounts_at g k es))
unfolding upsert_each
get-upsert_each g k [] db =
    unfold amounts_at summarise in sym (combine-none (get RollupKey_discrete k (rollup_of g db)))
get-upsert_each g k (e ∷ es) db =
    let key = rollup_key g e in
    get-upsert_each g k es _
    ∙ rw
        (
          upsert_all_granularities-rollup_of g e db,
          get-upsert_rollup key k e.amount_cents (rollup_of g db),
          combine_assoc,
        )
        (ap (combine (get RollupKey_discrete k (rollup_of g db))) (summarise-amounts_at g k e es))

-- A batch, aggregated in memory and added in one statement for each table, leaves the same rows as
-- its events one at a time.
pub batch_upsert-upsert_each :
    (g : RollupGranularity) (k : RollupKey) (es : List RawEvent) (db : Database)
    → (t : RollupTable) × (batch_upsert (agg_of g (aggregate_batch es)) (rollup_of g db) ≡ ok t)
      × (get RollupKey_discrete k t ≡ get RollupKey_discrete k (rollup_of g (upsert_each es db)))
batch_upsert-upsert_each g k es db =
    let agg = agg_of g (aggregate_batch es) in
    let distinct = aggregate_batch-HasDistinctKeys g es in
    (
      upsert_rows agg (rollup_of g db),
      batch_upsert-ok agg (rollup_of g db) distinct,
      get-upsert_rows k agg (rollup_of g db) distinct
          ∙ (rw (row_at-aggregate_batch g k es) refl)
          ∙ sym (get-upsert_each g k es db),
    )
