-- ===== src/Tests/Batch.antt =====
-- POST /events/batch at concrete inputs.
use analytics_pipeline.Prelude.{[], ◌∷◌, ◌+◌, ◌≡◌, refl}
use analytics_pipeline.Result.{ok, err, redis_unavailable}
use analytics_pipeline.Records.{EventIngest}
use analytics_pipeline.Ingest.Respond.{
  record_rows, finish_batch, ingest_batch_inserted, ingest_batch_known, ingest_batch,
}
use analytics_pipeline.Ingest.Route.{
  http_exception, raised, batch_error, finish_post_batch, post_batch,
}
use analytics_pipeline.Tests.Ingest.{ingest_program, order, noon, empty, no_counts}

batch_program : Unit {0}
unfolding ingest_program record_rows finish_batch ingest_batch_inserted ingest_batch_known
    ingest_batch batch_error finish_post_batch post_batch
batch_program = tt

abbrev stranger : EventIngest
stranger = record order { merchant_id = 99; idempotency_key = "order-99" }

-- one unknown merchant refuses the batch
unknown_merchant :
    post_batch (ok tt) (λ i. 10 + i) noon noon (order ∷ stranger ∷ []) empty no_counts
    ≡ (no_counts, empty, http_exception 404)
unfolding batch_program
unknown_merchant = refl

-- Redis is down behind the insertion: the tables are rolled back
without_redis :
    ((post_batch (err redis_unavailable) (λ i. 10 + i) noon noon (order ∷ []) empty no_counts).1
      ≡ empty)
    × ((post_batch (err redis_unavailable) (λ i. 10 + i) noon noon (order ∷ []) empty no_counts).2
        ≡ raised redis_unavailable)
unfolding batch_program
without_redis = (refl, refl)
