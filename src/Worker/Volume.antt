-- ===== src/Worker/Volume.antt =====
-- The leaderboard beside the markers: `_update_leaderboard` runs after the commit, so what it adds is
-- counted already.
use mathlib.Core.List.{Perm}
use analytics_pipeline.Prelude.{
  ℕ, String, ◌+◌, List, [], ◌∷◌, ◌++◌, filter, IsDistinct, ℕ_discrete, ◌≡◌, refl, arith,
}
use analytics_pipeline.Records.{RawEvent}
use analytics_pipeline.Database.{Database}
use analytics_pipeline.Board.Increments.{Period, volume}
use analytics_pipeline.Worker.Batch.{ids}
use analytics_pipeline.Worker.Commit.{fresh}
use analytics_pipeline.Worker.Exact.{marked}
use analytics_pipeline.Worker.Replay.{after_fetched}
use analytics_pipeline.Worker.Weigh.{weight, counted_weight, after_fetched-counted_weight}

-- the confirmed volume of the events that the consumer has counted
unfoldable pub counted : String → Period → ℕ → Database → ℕ
counted c p m db = volume p m (filter (marked db.processed_rollup_events c) db.raw_events)

module _ (period : Period) (m : ℕ) where
  -- one event's part
  part : RawEvent → ℕ
  part e = volume period m (e ∷ [])

  volume-weight : (es : List RawEvent) → volume period m es ≡ weight part es
  unfolding volume part weight
  volume-weight [] = refl
  volume-weight (e ∷ es) = ground (arith, volume-weight es)

  counted-counted_weight :
      (c : String) (db : Database) → counted c period m db ≡ counted_weight part c db
  unfolding counted counted_weight
  counted-counted_weight c db =
      volume-weight (filter (marked db.processed_rollup_events c) db.raw_events)

  -- a batch counts its events without a marker
  pub after_fetched-counted :
      (c : String) (db : Database) (events others : List RawEvent)
      → IsDistinct ℕ_discrete (ids db.raw_events)
      → Perm db.raw_events (events ++ others)
      → counted c period m (after_fetched c db events)
        ≡ counted c period m db + volume period m (fresh db c events)
  after_fetched-counted c db events others distinct table = ground (
    arith,
    counted-counted_weight c (after_fetched c db events),
    counted-counted_weight c db,
    volume-weight (fresh db c events),
    after_fetched-counted_weight part c db events others distinct table,
  )
