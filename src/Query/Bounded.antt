-- ===== src/Query/Bounded.antt =====
-- How many points an answer of GET /metrics has.
use analytics_pipeline.Prelude.{
  ℕ, suc, String, ◌-◌, ◌/◌, ◌≤◌, ◌<◌, true, false, List, [], ◌∷◌, Option, none, some, Dict, get,
  HasDistinctKeys, contains, IsDistinct, All, All-map, All-both, All-filter, filter-All, filter,
  map, length, length-IsDistinct-below, sort_by, insert_by, if_pos, if_neg, ℕ_discrete, ◌≡◌, refl,
  sym, subst, ◌∙◌, arith,
}
use analytics_pipeline.Result.{ok}
use analytics_pipeline.Settings.{Settings}
use analytics_pipeline.Moment.{Datetime, Datetime_discrete, micros}
use analytics_pipeline.Moment.Calendar.{IsMoment}
use analytics_pipeline.Records.{RollupGranularity, minute, hour, day}
use analytics_pipeline.Rollup.Buckets.{bucket_ts, bucket_of, width}
use analytics_pipeline.Rollup.Aligned.{IsAligned, place, place_inj, place-le}
use analytics_pipeline.Rollup.Table.{RollupTable}
use analytics_pipeline.Database.{Database, rollup_of}
use analytics_pipeline.Query.Group.{Sums, group_sums, group_sums-HasDistinctKeys}
use analytics_pipeline.Query.Rollups.{
  point, by_bucket, selects, query_buckets, query_minute, query_hour, query_day,
}
use analytics_pipeline.Query.Granularity.{
  select_granularity, range_error, select_granularity-points,
}
use analytics_pipeline.Query.Metrics.{
  MetricsResponse, answering, model_dump, if_cached, respond, query_rollups, query,
  get_merchant_metrics,
}
use analytics_pipeline.Worker.Exact.{IsExact}
use analytics_pipeline.Query.Aligned.{InRange, rollup_of-IsAligned, selects-range, group_from-All}

length-insert_by :
    (s : Datetime × Sums) (groups : Dict Datetime Sums)
    → length (insert_by by_bucket s groups) ≡ suc (length groups)
unfolding insert_by
length-insert_by s [] = refl
length-insert_by s (t ∷ groups) = ground (arith, length-insert_by s groups)

length-map-point : (groups : Dict Datetime Sums) → length (map point groups) ≡ length groups
length-map-point [] = refl
length-map-point (s ∷ groups) = ground (arith, length-map-point groups)

length-points :
    (groups : Dict Datetime Sums) → length (map point (sort_by by_bucket groups)) ≡ length groups
unfolding sort_by
length-points [] = refl
length-points (s ∷ groups) = ground (
  arith,
  length-points groups,
  length-map-point (insert_by by_bucket s (sort_by by_bucket groups)),
  length-map-point (sort_by by_bucket groups),
  length-insert_by s (sort_by by_bucket groups),
)

-- distinct buckets have distinct places
module _ (g : RollupGranularity) (start end : Datetime) where
  places : Dict Datetime Sums → List ℕ
  places groups = map (λ s. place g start s.0) groups

  places_apart :
      (b : Datetime) (groups : Dict Datetime Sums)
      → InRange g start end b
      → All (λ s. InRange g start end s.0) groups
      → get Datetime_discrete b groups ≡ none
      → contains ℕ_discrete (place g start b) (places groups) ≡ false
  unfolding contains get places
  places_apart b [] hb h absent = refl
  places_apart b ((c, s) ∷ groups) hb h absent = elim (Datetime_discrete c b) [
    | yes p ↦
        let e : ◌≡◌ {A = Option Sums} (some s) none =
          sym (if_pos (Datetime_discrete c b) p _ _) ∙ absent in
        absurd (cc e)
    | no p ↦
        if_neg (ℕ_discrete (place g start c) (place g start b))
          (λ q. p (place_inj g start c b h.0.0 hb.0 h.0.1 hb.1 q)) true _
        ∙ places_apart b groups hb h.1 (sym (if_neg (Datetime_discrete c b) p _ _) ∙ absent)
  ]

  places-IsDistinct :
      (groups : Dict Datetime Sums)
      → HasDistinctKeys Datetime_discrete groups
      → All (λ s. InRange g start end s.0) groups
      → IsDistinct ℕ_discrete (places groups)
  unfolding places
  places-IsDistinct [] d h = tt
  places-IsDistinct ((b, s) ∷ groups) d h =
      (places_apart b groups h.0 h.1 d.0, places-IsDistinct groups d.1 h.1)

  places-below :
      (groups : Dict Datetime Sums)
      → All (λ s. InRange g start end s.0) groups
      → All (λ n. n < suc ((micros end - micros start) / width g)) (places groups)
  unfolding places
  places-below [] h = tt
  places-below ((b, s) ∷ groups) h =
      (omega (arith, place-le g start end b h.0.2), places-below groups h.1)

  length-places : (groups : Dict Datetime Sums) → length (places groups) ≡ length groups
  unfolding places
  length-places [] = refl
  length-places (s ∷ groups) = ground (arith, length-places groups)

  -- distinct buckets of a range are at most its width and one
  length-groups :
      (groups : Dict Datetime Sums)
      → HasDistinctKeys Datetime_discrete groups
      → All (λ s. InRange g start end s.0) groups
      → length groups ≤ suc ((micros end - micros start) / width g)
  length-groups groups d h =
      let bound = suc ((micros end - micros start) / width g) in
      omega (
        arith,
        length-places groups,
        length-IsDistinct-below bound (places groups) (places-IsDistinct groups d h)
            (places-below groups h),
      )

  -- the points of a query whose key leaves the buckets alone
  length-query_buckets :
      (merchant : ℕ) (table : RollupTable) (trunc : Datetime → Datetime)
      → ((b : Datetime) → IsAligned g b → trunc b ≡ b)
      → All (λ r. IsAligned g r.0.bucket) table
      → length (query_buckets trunc (selects merchant start end) table)
        ≤ suc ((micros end - micros start) / width g)
  unfolding query_buckets group_sums
  length-query_buckets merchant table trunc own aligned =
      let where_clause = selects merchant start end in
      let rows = filter where_clause table in
      let in_range =
        All-map rows
          (λ r h.
            subst (InRange g start end) (sym (own r.0.bucket h.0))
              (selects-range g merchant start end r h.0 h.1))
          (All-both _ _ rows (filter-All _ where_clause table aligned)
            (All-filter where_clause table)) in
      let groups = group_sums Datetime_discrete (λ k. trunc k.bucket) rows in
      omega (
        arith,
        length-points groups,
        length-groups groups
            (group_sums-HasDistinctKeys Datetime_discrete (λ k. trunc k.bucket) rows)
            (group_from-All (InRange g start end) (λ k. trunc k.bucket) rows [] in_range tt),
      )

length-query :
    (g : RollupGranularity) (c : String) (merchant : ℕ) (start end : Datetime) (db : Database)
    → IsExact c db
    → All (λ e. IsMoment (bucket_ts e)) db.raw_events
    → length (query g merchant start end db) ≤ suc ((micros end - micros start) / width g)
unfolding query query_minute query_hour query_day
length-query minute c merchant start end db exact valid =
    length-query_buckets minute start end merchant db.rollup_minute (λ b. b) (λ b h. refl)
      (unfold rollup_of in rollup_of-IsAligned minute c db exact valid)
length-query hour c merchant start end db exact valid =
    length-query_buckets hour start end merchant db.rollup_hour _ (λ b h. unfold bucket_of in h.own)
      (unfold rollup_of in rollup_of-IsAligned hour c db exact valid)
length-query day c merchant start end db exact valid =
    length-query_buckets day start end merchant db.rollup_day _ (λ b h. unfold bucket_of in h.own)
      (unfold rollup_of in rollup_of-IsAligned day c db exact valid)

-- With exact tables, events at moments that exist, nothing in the cache, and a Redis that answers,
-- the answer for a range that the route accepts has at most 721 points, however many rows and events
-- there are.
pub get_merchant_metrics-le :
    (s : Settings) (c : String) (merchant : ℕ) (start end : Datetime) (db : Database)
    → IsExact c db
    → All (λ e. IsMoment (bucket_ts e)) db.raw_events
    → range_error start end ≡ false
    → (response : MetricsResponse) × (ttl : ℕ) × (get_merchant_metrics s answering merchant start
          end db
        ≡ ok (response, some (model_dump response, ttl)))
      × (length response.points ≤ 721)
unfolding get_merchant_metrics respond query_rollups if_cached
get_merchant_metrics-le s c merchant start end db exact valid accepted =
    let g = (select_granularity s start end).0 in
    (
      _,
      _,
      refl,
      omega (
        arith,
        length-query g c merchant start end db exact valid,
        select_granularity-points s start end accepted,
      ),
    )
