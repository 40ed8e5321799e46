-- ===== src/Query/Metrics.antt =====
-- `get_merchant_metrics` of app/services/query_service.py. What Redis answers is an argument; the
-- latencies that the response carries are left out.
use analytics_pipeline.Prelude.{
  String, String_discrete, contains, true, false, if◌then◌else◌, ℕ, Bool, ◌+◌, List, [], ◌∷◌,
  Option, none, some,
}
use analytics_pipeline.Result.{Result, ok, err, type_error, ◌>>=◌}
use analytics_pipeline.Settings.{Settings}
use analytics_pipeline.Moment.{Datetime}
use analytics_pipeline.Records.{RollupGranularity, minute, hour, day}
use analytics_pipeline.Database.{Database}
use analytics_pipeline.Query.Granularity.{select_granularity}
use analytics_pipeline.Query.Rollups.{
  Point, query_minute, query_hour, query_day, query_success_rate,
}

pub record MetricsResponse : Type 0 where
  pub merchant_id : ℕ
  pub start : Datetime
  pub end : Datetime
  pub granularity : RollupGranularity
  pub total_volume_cents : ℕ
  pub total_count : ℕ
  pub success_rate : Option (ℕ × ℕ)
  pub points : List Point
  pub cache_hit : Bool

abbrev pub total_volume : List Point → ℕ
total_volume [] = 0
total_volume (d ∷ ds) = d.volume_cents + total_volume ds

abbrev pub total_count : List Point → ℕ
total_count [] = 0
total_count (d ∷ ds) = d.count + total_count ds

-- the rows of the granularity's query
unfoldable pub query : RollupGranularity → ℕ → Datetime → Datetime → Database → List Point
query minute merchant start end db = query_minute merchant start end db
query hour merchant start end db = query_hour merchant start end db
query day merchant start end db = query_day merchant start end db

-- a dict of the query cache: its keys, and the response that its values make up
pub record CachedMetrics : Type 0 where
  pub keys : List String
  pub content : MetricsResponse

-- `response.model_dump(mode="json")`
unfoldable pub model_dump : MetricsResponse → CachedMetrics
model_dump response = record {
  keys =
      "merchant_id" ∷ "start" ∷ "end" ∷ "granularity" ∷ "total_volume_cents" ∷ "total_count"
      ∷ "success_rate" ∷ "data" ∷ "cache_hit" ∷ "query_latency_ms" ∷ [];
  content = response;
}

-- how Redis answers in one call: to metric_cache_get, to record_cache_hit or record_cache_miss, and
-- to metric_cache_set
pub record MetricsCache : Type 0 where
  pub lookup : Result (Option CachedMetrics)
  pub counted : Result (Unit {0})
  pub stored : Result (Unit {0})

-- a Redis that has nothing under the key, and answers to the rest
abbrev pub answering : MetricsCache
answering = record { lookup = ok none; counted = ok tt; stored = ok tt }

-- `if cached`: an empty dict is as good as none
unfoldable pub if_cached : Option CachedMetrics → Option CachedMetrics
if_cached none = none
if_cached (some cached) = elim cached.keys [ [] ↦ none | key ∷ keys ↦ some cached ]

-- MetricsResponse(**cached, cache_hit=True, query_latency_ms=...)
unfoldable pub rebuild : CachedMetrics → Result MetricsResponse
rebuild cached =
    if contains String_discrete "cache_hit" cached.keys
    then err type_error
    else if contains String_discrete "query_latency_ms" cached.keys
    then err type_error
    else ok (record cached.content { cache_hit = true })

-- the response of a call that finds nothing, and the dict that it leaves in the cache, with the
-- seconds for which it stays
unfoldable pub query_rollups :
    Settings
    → MetricsCache
    → ℕ
    → Datetime
    → Datetime
    → Database
    → Result (MetricsResponse × Option (CachedMetrics × ℕ))
query_rollups settings redis merchant start end db =
    let (granularity, ttl) = select_granularity settings start end in
    let points = query granularity merchant start end db in
    let response : MetricsResponse = record {
      merchant_id = merchant;
      start = start;
      end = end;
      granularity = granularity;
      total_volume_cents = total_volume points;
      total_count = total_count points;
      success_rate = query_success_rate merchant start end db;
      points = points;
      cache_hit = false;
    } in
    redis.counted
    >>= (λ counted. redis.stored >>= (λ stored. ok (response, some (model_dump response, ttl))))

-- `get_merchant_metrics` from `if cached` on
unfoldable pub respond :
    Settings
    → MetricsCache
    → ℕ
    → Datetime
    → Datetime
    → Database
    → Option CachedMetrics
    → Result (MetricsResponse × Option (CachedMetrics × ℕ))
respond settings redis merchant start end db none =
    query_rollups settings redis merchant start end db
respond settings redis merchant start end db (some cached) =
    redis.counted >>= (λ counted. rebuild cached >>= (λ response. ok (response, none)))

-- `get_merchant_metrics`, with what it leaves in the cache
unfoldable pub get_merchant_metrics :
    Settings
    → MetricsCache
    → ℕ
    → Datetime
    → Datetime
    → Database
    → Result (MetricsResponse × Option (CachedMetrics × ℕ))
get_merchant_metrics settings redis merchant start end db =
    redis.lookup >>= (λ found. respond settings redis merchant start end db (if_cached found))
