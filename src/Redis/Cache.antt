-- ===== src/Redis/Cache.antt =====
-- The query cache and the counters of app/repositories/redis_repository.py. The codec is the standard
-- library's `json`; a value that `json.loads` refuses counts as nothing.
use analytics_pipeline.Prelude.{
  ℕ, String, Option, none, some, ite, String_discrete, ◌≡◌, ◌≢◌, ap, ◌∙◌, arith,
}
use analytics_pipeline.Moment.{Datetime}
use analytics_pipeline.Redis.Strings.{Strings}
use analytics_pipeline.Redis.Keys.{metric_cache_key, sparkline_cache_key, heartbeat_key}

-- `dumps` and `loads`
pub record Codec (A : Type 0) : Type 0 where
  pub dumps : A → String
  pub loads : String → Option A
  -- what was written is read back
  pub loads-dumps : (a : A) → loads (dumps a) ≡ some a

module _ {A State : Type 0} (strings : Strings State) (json : Codec A) where
  unfoldable pub decoded : Option String → Option A
  decoded none = none
  decoded (some raw) = json.loads raw

  unfoldable pub cache_get : String → State → Option A
  cache_get key s = decoded (strings.get key s)

  unfoldable pub cache_set : String → A → ℕ → State → State
  cache_set key value ttl = strings.set key (json.dumps value) ttl

  unfoldable pub metric_cache_get :
      (ℕ → String) → (Datetime → String) → ℕ → Datetime → Datetime → String → State → Option A
  metric_cache_get str isoformat merchant start end granularity =
      cache_get (metric_cache_key str isoformat merchant start end granularity)

  unfoldable pub metric_cache_set :
      (ℕ → String) → (Datetime → String) → ℕ → Datetime → Datetime → String → A → ℕ → State → State
  metric_cache_set str isoformat merchant start end granularity value ttl =
      cache_set (metric_cache_key str isoformat merchant start end granularity) value ttl

  unfoldable pub sparkline_cache_get : (ℕ → String) → ℕ → ℕ → State → Option A
  sparkline_cache_get str merchant window =
      cache_get (sparkline_cache_key str strings.decimal merchant window)

  unfoldable pub sparkline_cache_set : (ℕ → String) → ℕ → ℕ → A → ℕ → State → State
  sparkline_cache_set str merchant window value ttl =
      cache_set (sparkline_cache_key str strings.decimal merchant window) value ttl

  -- an entry is read back under its key, and no other key sees it
  pub cache_get-cache_set :
      (key other : String) (value : A) (ttl : ℕ) (s : State)
      → cache_get other (cache_set key value ttl s)
        ≡ ite (String_discrete key other) (some value) (cache_get other s)
  unfolding cache_get cache_set decoded
  cache_get-cache_set key other value ttl s =
      ground (arith, strings.get-set key other (json.dumps value) ttl s, json.loads-dumps value)

  -- what a value is read back from
  pub cache_get-get :
      (key : String) (s t : State)
      → strings.get key s ≡ strings.get key t
      → cache_get key s ≡ cache_get key t
  unfolding cache_get
  cache_get-get key s t h = ap decoded h

module _ {State : Type 0} (strings : Strings State) where
  -- INCR key; EXPIRE key seconds
  unfoldable pub count_for : String → ℕ → ℕ → State → State
  count_for key n seconds s = strings.expire key seconds (strings.incrby key n s)

  unfoldable pub record_cache_hit : State → State
  record_cache_hit = count_for "metrics:cache_hits" 1 3600

  unfoldable pub record_cache_miss : State → State
  record_cache_miss = count_for "metrics:cache_misses" 1 3600

  unfoldable pub record_ingestion : ℕ → State → State
  record_ingestion count = count_for "metrics:ingestion_rate" count 2

  unfoldable pub increment_metric : String → ℕ → State → State
  increment_metric key amount = strings.incrby key amount

  unfoldable pub incr_leaderboard_rebuild_count : State → State
  incr_leaderboard_rebuild_count = strings.incrby "metrics:leaderboard_rebuilds" 1

  -- int(value) if value else 0
  unfoldable pub int_or_zero : Option String → Option ℕ
  int_or_zero none = some 0
  int_or_zero (some value) = ite (String_discrete value "") (some 0) (strings.int value)

  unfoldable pub get_ingestion_rate : State → Option ℕ
  get_ingestion_rate s = int_or_zero (strings.get "metrics:ingestion_rate" s)

  -- hits and misses; `none` is the ValueError of `int`
  unfoldable pub get_cache_stats : State → Option ℕ × Option ℕ
  get_cache_stats s = (
    int_or_zero (strings.get "metrics:cache_hits" s),
    int_or_zero (strings.get "metrics:cache_misses" s),
  )

  unfoldable pub get_worker_heartbeat : String → State → Option String
  get_worker_heartbeat worker_id s = strings.get (heartbeat_key worker_id) s

  -- another key sees nothing of a count
  pub get-count_for :
      (key other : String) (n seconds : ℕ) (s : State)
      → key ≢ other
      → strings.get other (count_for key n seconds s) ≡ strings.get other s
  unfolding count_for
  get-count_for key other n seconds s apart =
      strings.get-expire key other seconds (strings.incrby key n s)
      ∙ strings.incrby-other key other n s apart
