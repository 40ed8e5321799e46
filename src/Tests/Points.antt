-- ===== src/Tests/Points.antt =====
-- A codec of the points of a sparkline, and the sparkline through the cache at concrete inputs.
use analytics_pipeline.Prelude.{ℕ, List, [], ◌∷◌, some, true, ◌≡◌, refl, ap, ◌∙◌}
use analytics_pipeline.Settings.{default_settings}
use analytics_pipeline.Database.{Database}
use analytics_pipeline.Query.Rollups.{Point, query_sparkline, in_window, not_before}
use analytics_pipeline.Query.Sparkline.{get_sparkline, cached_points, sparkline_from}
use analytics_pipeline.Query.Cached.{
  serve_sparkline, record_lookup, store_points, serve_sparkline-again,
}
use analytics_pipeline.Redis.Cache.{Codec, sparkline_cache_get, cache_get, decoded}
use analytics_pipeline.Tests.Json.{print, read, read-print}
use analytics_pipeline.Tests.Query.{query_program, clock, db}
use analytics_pipeline.Tests.Board.{none_yet}
use analytics_pipeline.Tests.Redis.{Store, texts}
use analytics_pipeline.Tests.Unary.{strokes}

flat : List Point → List ℕ
flat [] = []
flat (p ∷ ps) =
    let b = p.bucket in
    b.year
    ∷ b.month
    ∷ b.day
    ∷ b.hour
    ∷ b.minute
    ∷ b.second
    ∷ b.microsecond
    ∷ p.volume_cents
    ∷ p.count
    ∷ flat ps

points_of : List ℕ → List Point
points_of (year ∷ month ∷ day ∷ hour ∷ minute ∷ second ∷ microsecond ∷ volume ∷ n ∷ rest) =
    record {
      bucket = record {
        year = year;
        month = month;
        day = day;
        hour = hour;
        minute = minute;
        second = second;
        microsecond = microsecond;
      };
      volume_cents = volume;
      count = n;
    }
    ∷ points_of rest
points_of _ = []

points_of-flat : (ps : List Point) → points_of (flat ps) ≡ ps
unfolding points_of flat
points_of-flat [] = refl
points_of-flat (p ∷ ps) = ap (◌∷◌ p) (points_of-flat ps)

abbrev json : Codec (List Point)
json = record {
  dumps = λ ps. print (flat ps);
  loads = λ s. some (points_of (read 0 s));
  loads-dumps = λ ps. ap some (ap points_of (read-print (flat ps)) ∙ points_of-flat ps);
}

abbrev start : Store
start = record { sets = none_yet; texts = [] }

sparkline_program : Unit {0}
unfolding query_program serve_sparkline record_lookup store_points get_sparkline cached_points
    sparkline_from query_sparkline in_window not_before sparkline_cache_get cache_get decoded
sparkline_program = tt

abbrev minutes : Database
minutes = record db { rollup_minute = db.rollup_hour }

serve_sparkline-again_example :
    (serve_sparkline texts json strokes default_settings 7 60
      (clock 10)
      db
      (serve_sparkline texts json strokes default_settings 7 60 (clock 9) minutes start).1).0
    ≡ record {
      merchant_id = 7;
      window_minutes = 60;
      points =
          (serve_sparkline texts json strokes default_settings 7 60
            (clock 9)
            minutes
            start).0.points;
      cache_hit = true;
    }
unfolding sparkline_program
serve_sparkline-again_example =
    serve_sparkline-again texts json strokes default_settings 7 60 (clock 9) (clock 10) minutes db
      start (record { bucket = clock 8; volume_cents = 20; count = 1 })
      (record { bucket = clock 9; volume_cents = 350; count = 4 } ∷ []) refl
