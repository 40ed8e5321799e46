-- ===== src/Schema/Models.antt =====
-- The metadata of app/models/orm.py, and the targets of the ON CONFLICT clauses of the statements.
use analytics_pipeline.Prelude.{String, List, [], ◌∷◌, none}
use analytics_pipeline.Schema.Defs.{
  Column, Table, uuid, text, integer, bigint, timestamptz, jsonb, varchar,
}
use analytics_pipeline.Schema.Initial.{required, optional}

abbrev model : String → List Column → List String → List (List String) → Table
model name columns primary_key unique = record {
  name = name;
  columns = columns;
  primary_key = primary_key;
  unique = unique;
  partition_of = none;
}

-- RawEvent; `metadata_` is the column `metadata`
abbrev pub raw_event : Table
raw_event =
    model "raw_events"
      (required "id" uuid
        ∷ required "event_type" text
        ∷ required "merchant_id" uuid
        ∷ required "amount_cents" integer
        ∷ required "currency" (varchar 3)
        ∷ required "idempotency_key" text
        ∷ required "occurred_at" timestamptz
        ∷ optional "client_timestamp" timestamptz
        ∷ optional "metadata" jsonb
        ∷ required "created_at" timestamptz
        ∷ [])
      ("id" ∷ []) (("idempotency_key" ∷ []) ∷ [])

-- RollupMinute, RollupHour and RollupDay
abbrev pub rollup_model : String → Table
rollup_model name =
    model name
      (required "merchant_id" uuid
        ∷ required "bucket" timestamptz
        ∷ required "event_type" text
        ∷ required "count" bigint
        ∷ required "amount_sum_cents" bigint
        ∷ optional "amount_min_cents" integer
        ∷ optional "amount_max_cents" integer
        ∷ required "updated_at" timestamptz
        ∷ [])
      ("merchant_id" ∷ "bucket" ∷ "event_type" ∷ []) []

-- ConsumerOffset
abbrev pub consumer_offset : Table
consumer_offset =
    model "consumer_offsets"
      (required "consumer_id" text
        ∷ optional "last_event_id" uuid
        ∷ optional "last_event_at" timestamptz
        ∷ required "updated_at" timestamptz
        ∷ [])
      ("consumer_id" ∷ []) []

-- LeaderboardSnapshot
abbrev pub leaderboard_snapshot : Table
leaderboard_snapshot =
    model "leaderboard_snapshots"
      (required "id" uuid
        ∷ required "period" text
        ∷ required "period_start" timestamptz
        ∷ required "merchant_id" uuid
        ∷ required "rank" integer
        ∷ required "amount_sum_cents" bigint
        ∷ required "created_at" timestamptz
        ∷ [])
      ("id" ∷ []) (("period" ∷ "period_start" ∷ "merchant_id" ∷ []) ∷ [])

-- EventIdempotency
abbrev pub event_idempotency_model : Table
event_idempotency_model =
    model "event_idempotency"
      (required "idempotency_key" text
        ∷ required "event_id" uuid
        ∷ required "created_at" timestamptz
        ∷ [])
      ("idempotency_key" ∷ []) []

-- Merchant
abbrev pub merchant : Table
merchant =
    model "merchants"
      (required "id" uuid ∷ required "name" text ∷ required "created_at" timestamptz ∷ [])
      ("id" ∷ []) []

-- Base.metadata
abbrev pub models : List Table
models =
    raw_event
    ∷ rollup_model "rollup_minute"
    ∷ rollup_model "rollup_hour"
    ∷ rollup_model "rollup_day"
    ∷ consumer_offset
    ∷ leaderboard_snapshot
    ∷ event_idempotency_model
    ∷ merchant
    ∷ []

-- the targets of `insert_event` and `insert_batch`
abbrev pub event_targets : List (String × List String)
event_targets = ("event_idempotency", "idempotency_key" ∷ []) ∷ []

-- the targets of `_upsert_rollup`, `_batch_upsert` and `upsert_consumer_offset`
abbrev pub rollup_targets : List (String × List String)
rollup_targets =
    ("rollup_minute", "merchant_id" ∷ "bucket" ∷ "event_type" ∷ [])
    ∷ ("rollup_hour", "merchant_id" ∷ "bucket" ∷ "event_type" ∷ [])
    ∷ ("rollup_day", "merchant_id" ∷ "bucket" ∷ "event_type" ∷ [])
    ∷ ("consumer_offsets", "consumer_id" ∷ [])
    ∷ []

-- the target of `_insert_processed_markers`
abbrev pub marker_targets : List (String × List String)
marker_targets = ("processed_rollup_events", "consumer_id" ∷ "event_id" ∷ []) ∷ []

-- the targets of `compact_day_rollup` and `snapshot_leaderboard`
abbrev pub compaction_targets : List (String × List String)
compaction_targets =
    ("rollup_day", "merchant_id" ∷ "bucket" ∷ "event_type" ∷ [])
    ∷ ("leaderboard_snapshots", "period" ∷ "period_start" ∷ "merchant_id" ∷ [])
    ∷ []
