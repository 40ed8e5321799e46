-- ===== src/Nightly/Report.antt =====
-- The discrepancy report of the compaction is empty.
use analytics_pipeline.Prelude.{
  ℕ, ◌+◌, String, true, List, [], ◌∷◌, Option, none, some, get, HasDistinctKeys, All, All-map,
  if◌then◌else◌, ite, take, sort_by, ℕ_discrete, String_discrete, ◌≡◌, refl, sym, ap, ◌∙◌, arith,
}
use analytics_pipeline.Moment.{Datetime, HasClockTime, at_most}
use analytics_pipeline.Records.{RollupKey, RollupKey_discrete, RollupRow}
use analytics_pipeline.Rollup.Buckets.{day_bucket}
use analytics_pipeline.Rollup.Summary.{combine}
use analytics_pipeline.Rollup.Table.{RollupTable}
use analytics_pipeline.Database.{Database, rollup_of}
use analytics_pipeline.Query.Group.{Row}
use analytics_pipeline.Settings.{Settings}
use analytics_pipeline.Worker.Exact.{IsExact}
use analytics_pipeline.Worker.Replay.{Reach}
use analytics_pipeline.Nightly.Compaction.{
  midnight, in_day, day_key, compact_day, hour_count_of, delta, differing, by_delta, discrepancies,
  compact_day_rollup,
}
use analytics_pipeline.Nightly.DaySum.{of_day, day_sum, overwrite_rows-HasDistinctKeys}
use analytics_pipeline.Nightly.Reached.{IsSummed, Reach-IsSummed}
use analytics_pipeline.Nightly.Unchanged.{in_day-day_bucket, AreHours, compact_day-get}

-- each row is found under its own key
IsFound : RollupTable → Row → Type 0
IsFound table r = get RollupKey_discrete r.0 table ≡ some r.1

table-IsFound : (t : RollupTable) → HasDistinctKeys RollupKey_discrete t → All (IsFound t) t
unfolding IsFound get
table-IsFound [] h = tt
table-IsFound ((j, row) ∷ t) h =
    (ground arith, All-map t (λ r f. ground (arith, h.0, f)) (table-IsFound t h.1))

-- the count of a row that may be absent
count_or_zero : Option RollupRow → ℕ
count_or_zero none = 0
count_or_zero (some row) = row.count

combine-count :
    (a b : Option RollupRow) → count_or_zero (combine a b) ≡ count_or_zero a + count_or_zero b
unfolding combine count_or_zero
combine-count a b = ground arith

-- A moment between the midnight and the next one is of that date, as it is for calendar dates.
abbrev pub AreDated : Datetime → List Row → Type 0
AreDated start = All (λ r. in_day start r.0.bucket ≡ true → day_bucket r.0.bucket ≡ start)

module _ (y m d : ℕ) (merchant : ℕ) (event_type : String) where
  key : RollupKey
  key = record { merchant_id = merchant; bucket = midnight y m d; event_type = event_type }

  -- the midnight is in its day
  in_day_self : in_day (midnight y m d) (midnight y m d) ≡ true
  unfolding in_day at_most
  in_day_self = ground arith

  of_day-count :
      (j : RollupKey) (row : RollupRow)
      → HasClockTime j.bucket
      → (in_day (midnight y m d) j.bucket ≡ true → day_bucket j.bucket ≡ midnight y m d)
      → count_or_zero (of_day key j row)
        ≡ ite
            (ℕ_discrete j.merchant_id merchant)
            (ite
              (String_discrete j.event_type event_type)
              (if in_day (midnight y m d) j.bucket then row.count else 0)
              0)
            0
  unfolding of_day day_key key count_or_zero
  of_day-count j row h dated =
      let back : day_bucket j.bucket ≡ midnight y m d → in_day (midnight y m d) j.bucket ≡ true =
        λ p.
          sym (in_day-day_bucket y m d j.bucket h) ∙ ap (in_day (midnight y m d)) p ∙ in_day_self in
      ground (arith, dated, back)

  -- the hours of the report are the hours that make up the day
  hour_count_of-day_sum :
      (rows : List Row)
      → AreHours rows
      → AreDated (midnight y m d) rows
      → hour_count_of (midnight y m d) merchant event_type rows ≡ count_or_zero (day_sum key rows)
  unfolding hour_count_of day_sum
  hour_count_of-day_sum [] h k = unfold count_or_zero in refl
  hour_count_of-day_sum ((j, row) ∷ rows) h k = ground (
    arith,
    of_day-count j row h.0 k.0,
    combine-count (of_day key j row) (day_sum key rows),
    hour_count_of-day_sum rows h.1 k.1,
  )

differing_none :
    (y m d : ℕ) (hours days : RollupTable) (rows : List Row)
    → ((k : RollupKey) → day_sum k hours ≡ get RollupKey_discrete k days)
    → AreHours hours
    → AreDated (midnight y m d) hours
    → All (IsFound days) rows
    → differing (midnight y m d) hours rows ≡ []
unfolding differing IsFound delta count_or_zero key
differing_none y m d hours days [] sums h k found = refl
differing_none y m d hours days ((j, row) ∷ rows) sums h k found =
    let same : j.bucket ≡ midnight y m d
        → hour_count_of (midnight y m d) j.merchant_id j.event_type hours ≡ row.count =
      λ p.
        hour_count_of-day_sum y m d j.merchant_id j.event_type hours h k
        ∙ ap (λ b. count_or_zero (day_sum (record j { bucket = b }) hours)) (sym p)
        ∙ ap count_or_zero (sums j ∙ found.0) in
    ground (arith, differing_none y m d hours days rows sums h k found.1, same)

-- tables whose days are their hours have no discrepancy
discrepancies_none :
    (y m d : ℕ) (db : Database)
    → IsSummed db
    → AreHours db.rollup_hour
    → AreDated (midnight y m d) db.rollup_hour
    → discrepancies (midnight y m d) db ≡ []
unfolding discrepancies rollup_of sort_by
discrepancies_none y m d db h hours dated =
    ap (λ ds. take 10 (sort_by by_delta ds))
      (differing_none y m d db.rollup_hour db.rollup_day db.rollup_day h.sums hours dated
        (table-IsFound db.rollup_day h.distinct))

compact_day-IsSummed :
    (y m d : ℕ) (db : Database)
    → IsSummed db
    → AreHours db.rollup_hour
    → IsSummed (compact_day (midnight y m d) db)
unfolding rollup_of compact_day
compact_day-IsSummed y m d db h hours = record {
  distinct = overwrite_rows-HasDistinctKeys _ db.rollup_day h.distinct;
  sums = λ k. h.sums k ∙ sym (unfold compact_day in compact_day-get y m d db k h hours);
}

-- Whatever the worker has done since the tables were new or exact, the compaction of a date leaves
-- every row of rollup_day as it is, and reports no discrepancy. The buckets of rollup_hour have
-- times of day, and those between the midnight and the next one are of that date.
pub Reach-compact_day_rollup :
    (s : Settings) {start db : Database} (y m d : ℕ) (k : RollupKey)
    → IsExact s.worker_id start
    → IsSummed start
    → Reach s start db
    → AreHours db.rollup_hour
    → AreDated (midnight y m d) db.rollup_hour
    → (get RollupKey_discrete k (compact_day_rollup (midnight y m d) db).0.rollup_day
        ≡ get RollupKey_discrete k db.rollup_day)
      × ((compact_day_rollup (midnight y m d) db).1 ≡ [])
unfolding compact_day_rollup
Reach-compact_day_rollup s {db = db} y m d k e h r hours dated =
    let summed = Reach-IsSummed s e h r in
    (
      compact_day-get y m d db k summed hours,
      discrepancies_none y m d (compact_day (midnight y m d) db)
          (compact_day-IsSummed y m d db summed hours) (unfold compact_day in hours)
          (unfold compact_day in dated),
    )
