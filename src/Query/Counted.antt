-- ===== src/Query/Counted.antt =====
-- From POST /events to GET /metrics: what `get_merchant_metrics` answers, beside the events that the
-- worker has counted.
use analytics_pipeline.Prelude.{
  ℕ, String, Bool, List, [], ◌∷◌, some, filter, map, length, sum, ◌&&◌, ◌==◌, ◌≡◌, refl, ◌∙◌, arith,
}
use analytics_pipeline.Result.{ok}
use analytics_pipeline.Settings.{Settings}
use analytics_pipeline.Moment.{Datetime, at_most}
use analytics_pipeline.Records.{RawEvent, RollupKey, RollupGranularity}
use analytics_pipeline.Rollup.Buckets.{rollup_key}
use analytics_pipeline.Database.{Database, empty_database, rollup_of}
use analytics_pipeline.Query.Group.{Row, count_of, volume_of}
use analytics_pipeline.Query.Rollups.{selects}
use analytics_pipeline.Query.Metrics.{MetricsResponse, answering, model_dump, get_merchant_metrics}
use analytics_pipeline.Query.Totals.{get_merchant_metrics-answer}
use analytics_pipeline.Worker.Exact.{marked}
use analytics_pipeline.Worker.Replay.{Reach}
use analytics_pipeline.Worker.Weigh.{weight, counted_weight}
use analytics_pipeline.Worker.Measure.{number, amount, column, part_of, share, held_by}
use analytics_pipeline.Worker.Measured.{Reach-IsMeasured}

-- the WHERE clause, on the key alone
unfoldable pub in_range : ℕ → Datetime → Datetime → RollupKey → Bool
in_range merchant start end k =
    k.merchant_id == merchant && (at_most start k.bucket && at_most k.bucket end)

-- the events that the consumer has counted for the merchant in the buckets of the range
unfoldable pub counted_in :
    RollupGranularity → ℕ → Datetime → Datetime → String → Database → List RawEvent
counted_in g merchant start end c db =
    filter (λ e. in_range merchant start end (rollup_key g e))
      (filter (marked db.processed_rollup_events c) db.raw_events)

module _ (merchant : ℕ) (start end : Datetime) where
  count_of-held_by :
      (t : List Row)
      → count_of (filter (selects merchant start end) t)
        ≡ held_by number (in_range merchant start end) t
  unfolding filter selects in_range held_by column
  count_of-held_by [] = refl
  count_of-held_by ((k, row) ∷ t) = ground (arith, count_of-held_by t)

  volume_of-held_by :
      (t : List Row)
      → volume_of (filter (selects merchant start end) t)
        ≡ held_by amount (in_range merchant start end) t
  unfolding filter selects in_range held_by column
  volume_of-held_by [] = refl
  volume_of-held_by ((k, row) ∷ t) = ground (arith, volume_of-held_by t)

module _ (q : RollupKey → Bool) (g : RollupGranularity) where
  weight-length :
      (es : List RawEvent)
      → weight (share number q g) es ≡ length (filter (λ e. q (rollup_key g e)) es)
  unfolding weight share part_of filter
  weight-length [] = refl
  weight-length (e ∷ es) = ground (arith, weight-length es)

  weight-sum :
      (es : List RawEvent)
      → weight (share amount q g) es
        ≡ sum (map (λ (e : RawEvent). e.amount_cents) (filter (λ e. q (rollup_key g e)) es))
  unfolding weight share part_of filter
  weight-sum [] = refl
  weight-sum (e ∷ es) = ground (arith, weight-sum es)

-- From a new installation on, whatever batches, crashes, offset resets and new events there were:
-- with nothing in the cache, and a Redis that answers, the metrics of a merchant total the number and
-- the amounts of exactly the stored events with a marker that are the merchant's and whose bucket, in
-- the granularity of the answer, is in the range.
pub Reach-get_merchant_metrics :
    (s : Settings) (merchants : List ℕ) (merchant : ℕ) (start end : Datetime) {db : Database}
    → Reach s (empty_database merchants) db
    → (response : MetricsResponse) × (ttl : ℕ) × (get_merchant_metrics s answering merchant start
          end db
        ≡ ok (response, some (model_dump response, ttl)))
      × (response.total_count
          ≡ length (counted_in response.granularity merchant start end s.worker_id db))
      × (response.total_volume_cents
          ≡ sum (
              map
                (λ (e : RawEvent). e.amount_cents)
                (counted_in response.granularity merchant start end s.worker_id db)))
unfolding counted_in counted_weight
Reach-get_merchant_metrics s merchants merchant start end {db} r =
    let stored = filter (marked db.processed_rollup_events s.worker_id) db.raw_events in
    let q = in_range merchant start end in
    let (response, ttl, answers, count, volume) =
      get_merchant_metrics-answer s merchant start end db in
    let g = response.granularity in
    (
      response,
      ttl,
      answers,
      count
          ∙ count_of-held_by merchant start end (rollup_of g db)
          ∙ Reach-IsMeasured number q g s merchants r
          ∙ weight-length q g stored,
      volume
          ∙ volume_of-held_by merchant start end (rollup_of g db)
          ∙ Reach-IsMeasured amount q g s merchants r
          ∙ weight-sum q g stored,
    )
