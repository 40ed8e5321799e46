-- ===== src/Database.antt =====
-- The PostgreSQL tables that the program writes (app/models/orm.py). A table is the list of its rows
-- in the order in which the database would read them, or a map if code finds its rows by the
-- primary key alone.
use analytics_pipeline.Prelude.{ℕ, String, List, [], Dict}
use analytics_pipeline.Records.{RawEvent, ConsumerOffset, RollupGranularity, minute, hour, day}
use analytics_pipeline.Rollup.Table.{RollupTable}

pub record Database : Type 0 where
  pub merchants : List ℕ
  pub raw_events : List RawEvent
  -- idempotency_key and event_id
  pub event_idempotency : Dict String ℕ
  -- the pairs (consumer_id, event_id)
  pub processed_rollup_events : List (String × ℕ)
  pub rollup_minute : RollupTable
  pub rollup_hour : RollupTable
  pub rollup_day : RollupTable
  pub consumer_offsets : Dict String ConsumerOffset

abbrev pub empty_database : List ℕ → Database
empty_database ids = record {
  merchants = ids;
  raw_events = [];
  event_idempotency = [];
  processed_rollup_events = [];
  rollup_minute = [];
  rollup_hour = [];
  rollup_day = [];
  consumer_offsets = [];
}

-- the rollup table of a granularity
unfoldable pub rollup_of : RollupGranularity → Database → RollupTable
rollup_of minute db = db.rollup_minute
rollup_of hour db = db.rollup_hour
rollup_of day db = db.rollup_day
