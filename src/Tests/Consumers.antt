-- ===== src/Tests/Consumers.antt =====
-- Two consumers at a concrete input.
use analytics_pipeline.Prelude.{
  String, [], ◌∷◌, get, contains, filter, IsDistinct, ℕ_discrete, ◌≡◌, ◌≢◌, refl, arith, true,
  false, ite, ap, String_discrete,
}
use analytics_pipeline.Result.{ok}
use analytics_pipeline.Records.{RollupKey_discrete, day}
use analytics_pipeline.Rollup.Buckets.{rollup_key}
use analytics_pipeline.Rollup.Summary.{combine}
use analytics_pipeline.Database.{Database, rollup_of}
use analytics_pipeline.Worker.Markers.Laws.{unmarked}
use analytics_pipeline.Worker.Batch.{Batch, ids, process_events}
use analytics_pipeline.Worker.Totals.{total}
use analytics_pipeline.Worker.Commit.{fresh}
use analytics_pipeline.Worker.Consumers.{process_events-twice}
use analytics_pipeline.Tests.Data.{first, second, stored}

abbrev start : Database
start = stored (first ∷ second ∷ [])

two-IsDistinct : IsDistinct ℕ_discrete (ids (first ∷ second ∷ []))
unfolding contains ℕ_discrete
two-IsDistinct = (refl, (refl, tt))

apart : ◌≢◌ {A = String} "worker-1" "worker-2"
unfolding String_discrete
apart e =
    let same : true ≡ false = ap (λ s. ite (String_discrete s "worker-1") true false) e in
    ground arith

new_to_first : fresh start "worker-1" (first ∷ second ∷ []) ≡ first ∷ second ∷ []
unfolding fresh filter unmarked contains
new_to_first = refl

new_to_second : fresh start "worker-2" (first ∷ second ∷ []) ≡ first ∷ second ∷ []
unfolding fresh filter unmarked contains
new_to_second = refl

process_events-twice_example :
    (one two : Database) × (by_first by_second : Batch) × (process_events "worker-1" start first
        (second ∷ [])
      ≡ ok (one, by_first))
    × (process_events "worker-2" one first (second ∷ []) ≡ ok (two, by_second))
    × (get RollupKey_discrete (rollup_key day first) (rollup_of day two)
        ≡ combine
            (combine
              (get RollupKey_discrete (rollup_key day first) (rollup_of day start))
              (total day (rollup_key day first) (first ∷ second ∷ [])))
            (total day (rollup_key day first) (first ∷ second ∷ [])))
process_events-twice_example =
    process_events-twice "worker-1" "worker-2" start first (second ∷ []) day (rollup_key day first)
      apart two-IsDistinct new_to_first new_to_second
