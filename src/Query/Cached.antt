-- ===== src/Query/Cached.antt =====
-- `get_sparkline` of app/services/query_service.py over the cache of
-- app/repositories/redis_repository.py.
use analytics_pipeline.Prelude.{
  ℕ, String, Bool, true, false, List, [], ◌∷◌, Option, none, some, String_discrete, if_pos, ◌≡◌,
  refl, ◌∙◌,
}
use analytics_pipeline.Settings.{Settings}
use analytics_pipeline.Moment.{Datetime}
use analytics_pipeline.Database.{Database}
use analytics_pipeline.Query.Rollups.{Point}
use analytics_pipeline.Query.Sparkline.{
  SparklineResponse, cached_points, sparkline_from, get_sparkline,
}
use analytics_pipeline.Redis.Strings.{Strings}
use analytics_pipeline.Redis.Keys.{sparkline_cache_key-cache_hits, sparkline_cache_key-cache_misses}
use analytics_pipeline.Redis.Cache.{
  Codec, cache_get-cache_set, cache_get-get, sparkline_cache_get, sparkline_cache_set,
  record_cache_hit, record_cache_miss, get-count_for,
}

module _ {State : Type 0} (strings : Strings State) (json : Codec (List Point)) (str : ℕ → String)
    (settings : Settings) where
  -- record_cache_hit or record_cache_miss
  unfoldable pub record_lookup : Bool → State → State
  record_lookup true s = record_cache_hit strings s
  record_lookup false s = record_cache_miss strings s

  -- what goes into the cache
  unfoldable pub store_points : ℕ → ℕ → Option (List Point × ℕ) → State → State
  store_points merchant window none s = s
  store_points merchant window (some (points, ttl)) s =
      sparkline_cache_set strings json str merchant window points ttl s

  unfoldable pub serve_sparkline : ℕ → ℕ → Datetime → Database → State → SparklineResponse × State
  serve_sparkline merchant window now db s =
      let cached = sparkline_cache_get strings json str merchant window s in
      let (response, entry) = get_sparkline settings cached merchant window now db in
      (response, store_points merchant window entry (record_lookup response.cache_hit s))

  module _ (merchant window : ℕ) where
    -- a count leaves the entry alone
    lookup-record_lookup :
        (b : Bool) (s : State)
        → sparkline_cache_get strings json str merchant window (record_lookup b s)
          ≡ sparkline_cache_get strings json str merchant window s
    unfolding sparkline_cache_get record_lookup record_cache_hit record_cache_miss
    lookup-record_lookup true s = cache_get-get strings json _ _ _ (
        get-count_for strings "metrics:cache_hits" _ 1 3600 s
          (sparkline_cache_key-cache_hits str strings.decimal merchant window))
    lookup-record_lookup false s = cache_get-get strings json _ _ _ (
        get-count_for strings "metrics:cache_misses" _ 1 3600 s
          (sparkline_cache_key-cache_misses str strings.decimal merchant window))

    lookup-set :
        (points : List Point) (ttl : ℕ) (s : State)
        → sparkline_cache_get strings json str merchant window
            (sparkline_cache_set strings json str merchant window points ttl s)
          ≡ some points
    unfolding sparkline_cache_get sparkline_cache_set
    lookup-set points ttl s =
        cache_get-cache_set strings json _ _ points ttl s
        ∙ if_pos (String_discrete _ _) refl (some points) _

    -- the entry after a call
    entry_after :
        (cached : Option (List Point)) (now : Datetime) (db : Database) (s : State)
        → sparkline_cache_get strings json str merchant window s ≡ cached
        → sparkline_cache_get strings json str merchant window
            (serve_sparkline merchant window now db s).1
          ≡ some (serve_sparkline merchant window now db s).0.points
    unfolding serve_sparkline store_points get_sparkline cached_points sparkline_from
    entry_after none now db s h = rw h (lookup-set _ _ _)
    entry_after (some []) now db s h = rw h (lookup-set _ _ _)
    entry_after (some (p ∷ ps)) now db s h = rw h (lookup-record_lookup true s ∙ h)

    hit :
        (points : List Point) (p : Point) (ps : List Point) (now : Datetime) (db : Database)
        (s : State)
        → sparkline_cache_get strings json str merchant window s ≡ some points
        → points ≡ p ∷ ps
        → (serve_sparkline merchant window now db s).0 ≡ record {
          merchant_id = merchant;
          window_minutes = window;
          points = points;
          cache_hit = true;
        }
    unfolding serve_sparkline get_sparkline cached_points sparkline_from
    hit points p ps now db s h e = rw (h, e) refl

    -- Two calls in a row, with no other write to the entry and before it expires: if the first answers
    -- with any point, the second answers with the same points, from the cache, whatever became of the
    -- tables and of the time.
    pub serve_sparkline-again :
        (now later : Datetime) (db changed : Database) (s : State) (p : Point) (ps : List Point)
        → (serve_sparkline merchant window now db s).0.points ≡ p ∷ ps
        → (serve_sparkline merchant window later changed
            (serve_sparkline merchant window now db s).1).0
          ≡ record {
            merchant_id = merchant;
            window_minutes = window;
            points = (serve_sparkline merchant window now db s).0.points;
            cache_hit = true;
          }
    serve_sparkline-again now later db changed s p ps h =
        hit _ p ps later changed _ (entry_after _ now db s refl) h
