-- ===== src/Settings.antt =====
-- app/core/config.py: the settings that the modelled code reads.
pub mod Url
use analytics_pipeline.Prelude.{ℕ, String}

pub record Settings : Type 0 where
  pub worker_id : String
  pub worker_batch_size : ℕ
  pub worker_poll_interval_ms : ℕ
  pub worker_lag_threshold_s : ℕ
  pub worker_late_event_threshold_s : ℕ
  pub cache_ttl_live : ℕ
  pub cache_ttl_historical : ℕ
  pub cache_ttl_archive : ℕ
  pub leaderboard_top_n : ℕ
  pub leaderboard_rebuild_ttl : ℕ

abbrev pub default_settings : Settings
default_settings = record {
  worker_id = "rollup-worker-1";
  worker_batch_size = 1000;
  worker_poll_interval_ms = 100;
  worker_lag_threshold_s = 30;
  worker_late_event_threshold_s = 60;
  cache_ttl_live = 5;
  cache_ttl_historical = 60;
  cache_ttl_archive = 300;
  leaderboard_top_n = 10;
  leaderboard_rebuild_ttl = 3600;
}
