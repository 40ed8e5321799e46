-- ===== src/Schema/Revisions.antt =====
-- migrations/versions/0002_idempotency_table.py and 0003_processed_rollup_events.py, and the chain of
-- the three.
use analytics_pipeline.Prelude.{List, [], ◌∷◌, none}
use analytics_pipeline.Result.{Result, ◌>>=◌}
use analytics_pipeline.Schema.Defs.{
  Table, Schema, uuid, text, timestamptz, Statement, table, create_index, create_all, drop_table,
  drop_index, drop_index_if_exists,
}
use analytics_pipeline.Schema.Initial
use analytics_pipeline.Schema.Initial.{required, index_on, uq_raw_events_idempotency_key}

abbrev pub event_idempotency : Table
event_idempotency = record {
  name = "event_idempotency";
  columns =
      required "idempotency_key" text
      ∷ required "event_id" uuid
      ∷ required "created_at" timestamptz
      ∷ [];
  primary_key = "idempotency_key" ∷ [];
  unique = [];
  partition_of = none;
}

-- upgrade() of 0002, behind its first statement
abbrev pub idempotency_statements : List Statement
idempotency_statements =
    table event_idempotency
    ∷ index_on "ix_event_idempotency_event_id" "event_idempotency" ("event_id" ∷ [])
    ∷ []

unfoldable pub upgrade_idempotency : Schema → Result Schema
upgrade_idempotency s =
    drop_index_if_exists "uq_raw_events_idempotency_key" s >>= create_all idempotency_statements

unfoldable pub downgrade_idempotency : Schema → Result Schema
downgrade_idempotency s =
    drop_index "ix_event_idempotency_event_id" s
    >>= drop_table "event_idempotency"
    >>= create_index uq_raw_events_idempotency_key

abbrev pub processed_rollup_events : Table
processed_rollup_events = record {
  name = "processed_rollup_events";
  columns =
      required "consumer_id" text
      ∷ required "event_id" uuid
      ∷ required "processed_at" timestamptz
      ∷ [];
  primary_key = "consumer_id" ∷ "event_id" ∷ [];
  unique = [];
  partition_of = none;
}

-- upgrade() of 0003
abbrev pub processed_statements : List Statement
processed_statements =
    table processed_rollup_events
    ∷ index_on "ix_processed_rollup_events_consumer_processed_at" "processed_rollup_events"
        ("consumer_id" ∷ "processed_at" ∷ [])
    ∷ []

unfoldable pub upgrade_processed : Schema → Result Schema
upgrade_processed = create_all processed_statements

unfoldable pub downgrade_processed : Schema → Result Schema
downgrade_processed s =
    drop_index "ix_processed_rollup_events_consumer_processed_at" s
    >>= drop_table "processed_rollup_events"

-- from an empty history to the head, each revision after its `down_revision`, and back
unfoldable pub upgrade_to_head : Schema → Result Schema
upgrade_to_head s = Initial.upgrade s >>= upgrade_idempotency >>= upgrade_processed

unfoldable pub downgrade_to_base : Schema → Result Schema
downgrade_to_base s = downgrade_processed s >>= downgrade_idempotency >>= Initial.downgrade
