-- ===== src/Query/Totals.antt =====
-- The totals of `get_merchant_metrics` of app/services/query_service.py.
use analytics_pipeline.Prelude.{
  ℕ, Bool, ◌+◌, List, [], ◌∷◌, some, Dict, update, map, filter, sort_by, insert_by, ◌≡◌, refl,
  arith,
}
use analytics_pipeline.Result.{ok}
use analytics_pipeline.Settings.{Settings}
use analytics_pipeline.Moment.{Datetime, Datetime_discrete}
use analytics_pipeline.Records.{RollupGranularity, RollupKey, RollupRow, minute, hour, day}
use analytics_pipeline.Rollup.Table.{RollupTable}
use analytics_pipeline.Database.{Database, rollup_of}
use analytics_pipeline.Query.Group.{Sums, Row, group_sums, group_from, add_row, count_of, volume_of}
use analytics_pipeline.Query.Granularity.{select_granularity}
use analytics_pipeline.Query.Rollups.{
  point, by_bucket, selects, query_buckets, query_minute, query_hour, query_day,
}
use analytics_pipeline.Query.Metrics.{
  MetricsResponse, answering, total_volume, total_count, query, model_dump, if_cached,
  query_rollups, respond, get_merchant_metrics,
}

-- the sums over the groups
groups_count : Dict Datetime Sums → ℕ
groups_count [] = 0
groups_count ((b, s) ∷ groups) = s.count + groups_count groups

groups_volume : Dict Datetime Sums → ℕ
groups_volume [] = 0
groups_volume ((b, s) ∷ groups) = s.volume_cents + groups_volume groups

update-groups :
    (b : Datetime) (k : RollupKey) (groups : Dict Datetime Sums) (row : RollupRow)
    → (groups_count (update Datetime_discrete b (add_row row) groups)
        ≡ groups_count groups + row.count)
      × (groups_volume (update Datetime_discrete b (add_row row) groups)
          ≡ groups_volume groups + row.amount_sum_cents)
unfolding groups_count groups_volume update add_row
update-groups b k [] row = (omega arith, omega arith)
update-groups b k ((c, s) ∷ groups) row =
    let rest = update-groups b k groups row in (ground (arith, rest.0), ground (arith, rest.1))

group_from-groups :
    (key : RollupKey → Datetime) (rows : List Row) (groups : Dict Datetime Sums)
    → (groups_count (group_from Datetime_discrete key groups rows)
        ≡ groups_count groups + count_of rows)
      × (groups_volume (group_from Datetime_discrete key groups rows)
          ≡ groups_volume groups + volume_of rows)
unfolding group_from
group_from-groups key [] groups = (omega arith, omega arith)
group_from-groups key ((k, row) ∷ rows) groups =
    let first = update-groups (key k) k groups row in
    let rest = group_from-groups key rows (update Datetime_discrete (key k) (add_row row) groups) in
    (ground (arith, first.0, rest.0), ground (arith, first.1, rest.1))

insert_by-points :
    (g : Datetime × Sums) (groups : Dict Datetime Sums)
    → (total_count (map point (insert_by by_bucket g groups))
        ≡ (g.1).count + total_count (map point groups))
      × (total_volume (map point (insert_by by_bucket g groups))
          ≡ (g.1).volume_cents + total_volume (map point groups))
unfolding insert_by point
insert_by-points g [] = (refl, refl)
insert_by-points g (h ∷ groups) =
    let rest = insert_by-points g groups in (ground (arith, rest.0), ground (arith, rest.1))

sort_by-points :
    (groups : Dict Datetime Sums)
    → (total_count (map point (sort_by by_bucket groups)) ≡ groups_count groups)
      × (total_volume (map point (sort_by by_bucket groups)) ≡ groups_volume groups)
unfolding sort_by groups_count groups_volume
sort_by-points [] = (refl, refl)
sort_by-points (g ∷ groups) =
    let rest = sort_by-points groups in
    let inserted = insert_by-points g (sort_by by_bucket groups) in
    (ground (arith, rest.0, inserted.0), ground (arith, rest.1, inserted.1))

query_buckets-totals :
    (trunc : Datetime → Datetime) (where_clause : Row → Bool) (table : RollupTable)
    → (total_count (query_buckets trunc where_clause table) ≡ count_of (filter where_clause table))
      × (total_volume (query_buckets trunc where_clause table)
          ≡ volume_of (filter where_clause table))
unfolding query_buckets group_sums groups_count groups_volume
query_buckets-totals trunc where_clause table =
    let rows = filter where_clause table in
    let grouped = group_from-groups (λ k. trunc k.bucket) rows [] in
    let sorted = sort_by-points (group_sums Datetime_discrete (λ k. trunc k.bucket) rows) in
    (ground (arith, grouped.0, sorted.0), ground (arith, grouped.1, sorted.1))

query-totals :
    (g : RollupGranularity) (merchant : ℕ) (start end : Datetime) (db : Database)
    → (total_count (query g merchant start end db)
        ≡ count_of (filter (selects merchant start end) (rollup_of g db)))
      × (total_volume (query g merchant start end db)
          ≡ volume_of (filter (selects merchant start end) (rollup_of g db)))
unfolding query query_minute query_hour query_day rollup_of
query-totals minute merchant start end db = query_buckets-totals _ _ db.rollup_minute
query-totals hour merchant start end db = query_buckets-totals _ _ db.rollup_hour
query-totals day merchant start end db = query_buckets-totals _ _ db.rollup_day

-- the answer with nothing in the cache, and with a Redis that answers
pub get_merchant_metrics-answer :
    (settings : Settings) (merchant : ℕ) (start end : Datetime) (db : Database)
    → (response : MetricsResponse) × (ttl : ℕ) × (get_merchant_metrics settings answering merchant
          start end db
        ≡ ok (response, some (model_dump response, ttl)))
      × (response.total_count
          ≡ count_of (filter (selects merchant start end) (rollup_of response.granularity db)))
      × (response.total_volume_cents
          ≡ volume_of (filter (selects merchant start end) (rollup_of response.granularity db)))
unfolding get_merchant_metrics respond query_rollups if_cached
get_merchant_metrics-answer settings merchant start end db =
    let totals = query-totals (select_granularity settings start end).0 merchant start end db in
    (_, _, refl, totals.0, totals.1)
