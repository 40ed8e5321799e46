-- ===== src/Ingest/Route.antt =====
-- POST /events/batch of app/api/routes/events.py, in the session of `get_db` of app/db/engine.py.
use analytics_pipeline.Prelude.{ℕ, List}
use analytics_pipeline.Result.{Result, Error, ok, err, merchant_not_found}
use analytics_pipeline.Moment.{Datetime}
use analytics_pipeline.Records.{EventIngest}
use analytics_pipeline.Database.{Database}
use analytics_pipeline.Ingest.Service.{Counters}
use analytics_pipeline.Ingest.Respond.{BatchIngestResponse, ingest_batch}

pub data BatchReply : Type 0 where
  batch_reply : ℕ → BatchIngestResponse → BatchReply
  http_exception : ℕ → BatchReply
  raised : Error → BatchReply

-- the route's `except` clause
unfoldable pub batch_error : Error → BatchReply
batch_error (merchant_not_found id) = http_exception 404
batch_error e = raised e

-- the session commits what the route returned with, and rolls back on whatever it raised
unfoldable pub finish_post_batch :
    Database → Result (Database × BatchIngestResponse) → Database × BatchReply
finish_post_batch before (ok (db, response)) = (db, batch_reply 202 response)
finish_post_batch before (err e) = (before, batch_error e)

unfoldable pub post_batch :
    Result (Unit {0})
    → (ℕ → ℕ)
    → Datetime
    → Datetime
    → List EventIngest
    → Database
    → Counters
    → Counters × Database × BatchReply
post_batch redis uuid4 at now events db counters =
    let (counters', result) = ingest_batch redis uuid4 at now events db counters in
    let (db', answer) = finish_post_batch db result in (counters', db', answer)
