-- ===== src/Query/Sparkline.antt =====
-- `get_sparkline` of app/services/query_service.py. What Redis has under the cache key is an
-- argument; an empty list there counts as nothing.
use analytics_pipeline.Prelude.{
  ℕ, List, [], ◌∷◌, Bool, true, false, Option, none, some, ◌≡◌, refl, sym,
}
use analytics_pipeline.Settings.{Settings}
use analytics_pipeline.Moment.{Datetime}
use analytics_pipeline.Database.{Database}
use analytics_pipeline.Query.Rollups.{Point, query_sparkline}

pub record SparklineResponse : Type 0 where
  pub merchant_id : ℕ
  pub window_minutes : ℕ
  pub points : List Point
  pub cache_hit : Bool

-- the cached points, if the value is true in a test
unfoldable pub cached_points : Option (List Point) → Option (List Point)
cached_points none = none
cached_points (some []) = none
cached_points (some (p ∷ ps)) = some (p ∷ ps)

-- The response, and what goes into the cache with its seconds.
unfoldable pub sparkline_from :
    Settings
    → Option (List Point)
    → ℕ
    → ℕ
    → Datetime
    → Database
    → SparklineResponse × Option (List Point × ℕ)
sparkline_from settings (some cached) merchant window now db = (
  record { merchant_id = merchant; window_minutes = window; points = cached; cache_hit = true },
  none,
)
sparkline_from settings none merchant window now db =
    let fresh = query_sparkline merchant window now db in
    (
      record { merchant_id = merchant; window_minutes = window; points = fresh; cache_hit = false },
      some (fresh, settings.cache_ttl_live),
    )

unfoldable pub get_sparkline :
    Settings
    → Option (List Point)
    → ℕ
    → ℕ
    → Datetime
    → Database
    → SparklineResponse × Option (List Point × ℕ)
get_sparkline settings cached merchant window now db =
    sparkline_from settings (cached_points cached) merchant window now db

-- the points that a query would give, from the cache or not
sparkline_from-points :
    (settings : Settings) (merchant window : ℕ) (now : Datetime) (db : Database) (ps : List Point)
    → ps ≡ query_sparkline merchant window now db
    → (sparkline_from settings (cached_points (some ps)) merchant window now db).0.points ≡ ps
unfolding cached_points sparkline_from
sparkline_from-points settings merchant window now db [] e = sym e
sparkline_from-points settings merchant window now db (p ∷ ps) e = refl

-- A call that finds in the cache the points of an earlier call, for the same arguments and tables, has
-- the points of that call.
pub get_sparkline-cached :
    (settings : Settings) (cached : Option (List Point)) (merchant window : ℕ) (now : Datetime)
    (db : Database)
    → (get_sparkline settings
        (some (get_sparkline settings cached merchant window now db).0.points)
        merchant
        window
        now
        db).0.points
      ≡ (get_sparkline settings cached merchant window now db).0.points
unfolding get_sparkline cached_points sparkline_from
get_sparkline-cached settings none merchant window now db =
    sparkline_from-points settings merchant window now db _ refl
get_sparkline-cached settings (some []) merchant window now db =
    sparkline_from-points settings merchant window now db _ refl
get_sparkline-cached settings (some (p ∷ ps)) merchant window now db = refl
