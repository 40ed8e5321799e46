-- ===== src/Query/Rollups.antt =====
-- The SELECTs of app/repositories/rollup_repository.py for one merchant.
use analytics_pipeline.Prelude.{
  ℕ, String, leb, ◌+◌, ◌*◌, List, [], ◌∷◌, Option, none, some, Bool, filter, ◌&&◌, ltb,
  if◌then◌else◌, ite, ◌==◌, sort_by, map, String_discrete,
}
use analytics_pipeline.Moment.{Datetime, Datetime_discrete, at_most, micros}
use analytics_pipeline.Rollup.Buckets.{hour_bucket, day_bucket}
use analytics_pipeline.Rollup.Table.{RollupTable}
use analytics_pipeline.Database.{Database}
use analytics_pipeline.Query.Group.{Sums, Row, group_sums}

-- a row of the answer
pub record Point : Type 0 where
  pub bucket : Datetime
  pub volume_cents : ℕ
  pub count : ℕ

-- WHERE merchant_id = :merchant_id AND bucket BETWEEN :start AND :end
unfoldable pub selects : ℕ → Datetime → Datetime → Row → Bool
selects merchant start end (k, row) =
    k.merchant_id == merchant && (at_most start k.bucket && at_most k.bucket end)

unfoldable pub by_bucket : Datetime × Sums → Datetime × Sums → Bool
by_bucket (a, s) (b, t) = at_most a b

unfoldable pub point : Datetime × Sums → Point
point (bucket, s) = record { bucket = bucket; volume_cents = s.volume_cents; count = s.count }

-- GROUP BY the truncated bucket, ORDER BY it
unfoldable pub query_buckets : (Datetime → Datetime) → (Row → Bool) → RollupTable → List Point
query_buckets trunc where_clause table = map point (
    sort_by by_bucket
      (group_sums Datetime_discrete (λ k. trunc k.bucket) (filter where_clause table)))

unfoldable pub query_minute : ℕ → Datetime → Datetime → Database → List Point
query_minute merchant start end db =
    query_buckets (λ b. b) (selects merchant start end) db.rollup_minute

unfoldable pub query_hour : ℕ → Datetime → Datetime → Database → List Point
query_hour merchant start end db =
    query_buckets hour_bucket (selects merchant start end) db.rollup_hour

unfoldable pub query_day : ℕ → Datetime → Datetime → Database → List Point
query_day merchant start end db =
    query_buckets day_bucket (selects merchant start end) db.rollup_day

-- bucket >= now - window, in microseconds
unfoldable pub not_before : ℕ → ℕ → ℕ → Bool
not_before now window bucket = leb now (bucket + window)

-- WHERE merchant_id = :merchant_id AND bucket >= NOW() - :window minutes
unfoldable pub in_window : ℕ → ℕ → Datetime → Row → Bool
in_window merchant window_minutes now (k, row) =
    k.merchant_id == merchant
    && not_before (micros now) (window_minutes * 60000000) (micros k.bucket)

unfoldable pub query_sparkline : ℕ → ℕ → Datetime → Database → List Point
query_sparkline merchant window_minutes now db =
    query_buckets (λ b. b) (in_window merchant window_minutes now) db.rollup_minute

-- SUM(CASE WHEN event_type = ... THEN count ELSE 0 END)
unfoldable pub count_type : String → List Row → ℕ
count_type event_type [] = 0
count_type event_type ((k, row) ∷ rows) =
    ite (String_discrete k.event_type event_type) row.count 0 + count_type event_type rows

-- The quotient of `query_success_rate` before it is rounded to four places: numerator and
-- denominator, if there is a denominator.
unfoldable pub query_success_rate : ℕ → Datetime → Datetime → Database → Option (ℕ × ℕ)
query_success_rate merchant start end db =
    let rows = filter (selects merchant start end) db.rollup_hour in
    let confirmed = count_type "PAYMENT_CONFIRMED" rows in
    let failed = count_type "PAYMENT_FAILED" rows in
    let total = confirmed + failed in if ltb 0 total then some (confirmed, total) else none
