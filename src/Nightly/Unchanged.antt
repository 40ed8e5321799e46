-- ===== src/Nightly/Unchanged.antt =====
-- The compaction finds nothing to correct.
use analytics_pipeline.Prelude.{
  ℕ, Bool, true, false, List, [], ◌∷◌, none, get, All, filter, if◌then◌else◌, ◌≡◌, refl, sym, ap,
  ◌∙◌, arith,
}
use analytics_pipeline.Moment.{Datetime, HasClockTime, at_most, micros}
use analytics_pipeline.Records.{RollupKey, RollupKey_discrete, RollupRow}
use analytics_pipeline.Rollup.Buckets.{day_bucket}
use analytics_pipeline.Rollup.Summary.{combine}
use analytics_pipeline.Database.{Database, rollup_of}
use analytics_pipeline.Query.Group.{Row}
use analytics_pipeline.Nightly.Compaction.{midnight, in_day, day_key, compact_day}
use analytics_pipeline.Nightly.DaySum.{of_day, day_sum, instead, get-compacted}
use analytics_pipeline.Nightly.Reached.{IsSummed}

-- a moment is in a day exactly if its day starts there
pub in_day-day_bucket :
    (y m d : ℕ) (b : Datetime)
    → HasClockTime b
    → in_day (midnight y m d) (day_bucket b) ≡ in_day (midnight y m d) b
unfolding in_day midnight day_bucket at_most micros
in_day-day_bucket y m d b h = ground (arith, h.hour_lt, h.minute_lt, h.second_lt, h.microsecond_lt)

-- the hours have times of day
abbrev pub AreHours : List Row → Type 0
AreHours = All (λ r. HasClockTime r.0.bucket)

day_sum-if :
    (k j : RollupKey) (row : RollupRow) (rows : List Row) (b : Bool)
    → day_sum k (if b then (j, row) ∷ rows else rows)
      ≡ (if b then combine (of_day k j row) (day_sum k rows) else day_sum k rows)
unfolding day_sum
day_sum-if k j row rows true = refl
day_sum-if k j row rows false = refl

-- the merged rows of a key, of those in the day
day_sum-filter :
    (y m d : ℕ) (k : RollupKey) (rows : List Row)
    → AreHours rows
    → day_sum k (filter (λ r. in_day (midnight y m d) r.0.bucket) rows)
      ≡ (if in_day (midnight y m d) k.bucket then day_sum k rows else none)
unfolding filter day_sum of_day combine
day_sum-filter y m d k [] h = ground arith
day_sum-filter y m d k ((j, row) ∷ rows) h =
    let start = midnight y m d in
    let kept = filter (λ (r : Row). in_day start r.0.bucket) rows in
    let rest = day_sum-filter y m d k rows h.1 in
    let moved : day_key j ≡ k → in_day start k.bucket ≡ in_day start j.bucket = λ p.
      ap (λ q. in_day start q.bucket) (sym p)
      ∙ (unfold day_key in in_day-day_bucket y m d j.bucket h.0) in
    day_sum-if k j row kept (in_day start j.bucket) ∙ ground (arith, rest, moved)

-- After a run of the worker, the compaction of a date leaves every row of rollup_day as it is.
pub compact_day-get :
    (y m d : ℕ) (db : Database) (k : RollupKey)
    → IsSummed db
    → AreHours db.rollup_hour
    → get RollupKey_discrete k (compact_day (midnight y m d) db).rollup_day
      ≡ get RollupKey_discrete k db.rollup_day
unfolding compact_day rollup_of
compact_day-get y m d db k h hours =
    let start = midnight y m d in
    get-compacted k (filter (λ (r : Row). in_day start r.0.bucket) db.rollup_hour) db.rollup_day
    ∙ unfold instead in ground (arith, day_sum-filter y m d k db.rollup_hour hours, h.sums k)
