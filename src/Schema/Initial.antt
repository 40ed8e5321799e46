-- ===== src/Schema/Initial.antt =====
-- migrations/versions/0001_initial_schema.py.
use analytics_pipeline.Prelude.{String, List, [], ◌∷◌, true, false, none, some}
use analytics_pipeline.Result.{Result, ◌>>=◌}
use analytics_pipeline.Schema.Defs.{
  ColumnType, Column, Table, Index, Schema, uuid, text, integer, bigint, timestamptz, jsonb, char,
  Statement, table, index, create_all, drop_table, drop_table_if_exists,
}

-- a column that is NOT NULL, and one that is not
abbrev pub required : String → ColumnType → Column
required name type = record { name = name; type = type; nullable = false }

abbrev pub optional : String → ColumnType → Column
optional name type = record { name = name; type = type; nullable = true }

abbrev pub index_on : String → String → List String → Statement
index_on name table_name columns =
    index (record { name = name; table = table_name; columns = columns; unique = false })

abbrev pub merchants : Table
merchants = record {
  name = "merchants";
  columns = required "id" uuid ∷ required "name" text ∷ required "created_at" timestamptz ∷ [];
  primary_key = "id" ∷ [];
  unique = [];
  partition_of = none;
}

abbrev pub raw_events : Table
raw_events = record {
  name = "raw_events";
  columns =
      required "id" uuid
      ∷ required "event_type" text
      ∷ required "merchant_id" uuid
      ∷ required "amount_cents" integer
      ∷ required "currency" (char 3)
      ∷ required "idempotency_key" text
      ∷ required "occurred_at" timestamptz
      ∷ optional "client_timestamp" timestamptz
      ∷ optional "metadata" jsonb
      ∷ required "created_at" timestamptz
      ∷ [];
  primary_key = "id" ∷ "occurred_at" ∷ [];
  unique = [];
  partition_of = none;
}

-- the index that 0002 drops
abbrev pub uq_raw_events_idempotency_key : Index
uq_raw_events_idempotency_key = record {
  name = "uq_raw_events_idempotency_key";
  table = "raw_events";
  columns = "idempotency_key" ∷ "occurred_at" ∷ [];
  unique = true;
}

-- PARTITION OF raw_events DEFAULT
abbrev pub raw_events_default : Table
raw_events_default = record raw_events {
  name = "raw_events_default";
  partition_of = some "raw_events";
}

-- rollup_minute, rollup_hour and rollup_day
abbrev pub rollup_table : String → Table
rollup_table name = record {
  name = name;
  columns =
      required "merchant_id" uuid
      ∷ required "bucket" timestamptz
      ∷ required "event_type" text
      ∷ required "count" bigint
      ∷ required "amount_sum_cents" bigint
      ∷ optional "amount_min_cents" integer
      ∷ optional "amount_max_cents" integer
      ∷ required "updated_at" timestamptz
      ∷ [];
  primary_key = "merchant_id" ∷ "bucket" ∷ "event_type" ∷ [];
  unique = [];
  partition_of = none;
}

abbrev pub consumer_offsets : Table
consumer_offsets = record {
  name = "consumer_offsets";
  columns =
      required "consumer_id" text
      ∷ optional "last_event_id" uuid
      ∷ optional "last_event_at" timestamptz
      ∷ required "updated_at" timestamptz
      ∷ [];
  primary_key = "consumer_id" ∷ [];
  unique = [];
  partition_of = none;
}

abbrev pub leaderboard_snapshots : Table
leaderboard_snapshots = record {
  name = "leaderboard_snapshots";
  columns =
      required "id" uuid
      ∷ required "period" text
      ∷ required "period_start" timestamptz
      ∷ required "merchant_id" uuid
      ∷ required "rank" integer
      ∷ required "amount_sum_cents" bigint
      ∷ required "created_at" timestamptz
      ∷ [];
  primary_key = "id" ∷ [];
  unique = ("period" ∷ "period_start" ∷ "merchant_id" ∷ []) ∷ [];
  partition_of = none;
}

-- upgrade(), statement by statement
abbrev pub statements : List Statement
statements =
    table merchants
    ∷ table raw_events
    ∷ index uq_raw_events_idempotency_key
    ∷ index_on "ix_raw_events_merchant_occurred" "raw_events" ("merchant_id" ∷ "occurred_at" ∷ [])
    ∷ index_on "ix_raw_events_occurred_at" "raw_events" ("occurred_at" ∷ [])
    ∷ index_on "ix_raw_events_created_at" "raw_events" ("created_at" ∷ [])
    ∷ table raw_events_default
    ∷ table (rollup_table "rollup_minute")
    ∷ index_on "ix_rollup_minute_bucket" "rollup_minute" ("bucket" ∷ [])
    ∷ index_on "ix_rollup_minute_merchant_bucket" "rollup_minute" ("merchant_id" ∷ "bucket" ∷ [])
    ∷ table (rollup_table "rollup_hour")
    ∷ index_on "ix_rollup_hour_bucket" "rollup_hour" ("bucket" ∷ [])
    ∷ index_on "ix_rollup_hour_merchant_bucket" "rollup_hour" ("merchant_id" ∷ "bucket" ∷ [])
    ∷ table (rollup_table "rollup_day")
    ∷ index_on "ix_rollup_day_bucket" "rollup_day" ("bucket" ∷ [])
    ∷ index_on "ix_rollup_day_merchant_bucket" "rollup_day" ("merchant_id" ∷ "bucket" ∷ [])
    ∷ table consumer_offsets
    ∷ table leaderboard_snapshots
    ∷ index_on "ix_leaderboard_snapshots_period" "leaderboard_snapshots"
        ("period" ∷ "period_start" ∷ [])
    ∷ []

unfoldable pub upgrade : Schema → Result Schema
upgrade = create_all statements

unfoldable pub downgrade : Schema → Result Schema
downgrade s =
    drop_table "leaderboard_snapshots" s
    >>= drop_table "consumer_offsets"
    >>= drop_table "rollup_day"
    >>= drop_table "rollup_hour"
    >>= drop_table "rollup_minute"
    >>= drop_table_if_exists "raw_events"
    >>= drop_table "merchants"
