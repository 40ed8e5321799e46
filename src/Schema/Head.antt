-- ===== src/Schema/Head.antt =====
-- The migrations to the head and back, on a schema that uses none of their names.
use analytics_pipeline.Prelude.{
  String, List, [], ◌∷◌, ◌++◌, All, All-append_inv, contains, map, true, false, filter, not,
  String_discrete, ◌≡◌, refl,
}
use analytics_pipeline.Result.{Result, ok, ◌>>=◌}
use analytics_pipeline.Schema.Defs.{
  Index, Schema, Statement, named, has_table, has_index, is_part_of, goes_with, create_table,
  create_index, create_all, create, remove_table, drop_table, drop_table_if_exists, remove_index,
  drop_index, drop_index_if_exists,
}
use analytics_pipeline.Schema.Initial
use analytics_pipeline.Schema.Initial.{statements, uq_raw_events_idempotency_key}
use analytics_pipeline.Schema.Revisions.{
  idempotency_statements, processed_statements, upgrade_idempotency, downgrade_idempotency,
  upgrade_processed, downgrade_processed, upgrade_to_head,
}
use analytics_pipeline.Schema.Unused.{
  IsUnused, name_of, added, are_creatable, create_all-added, has_table-unused, has_index-unused,
  IsUnused-contains, filter-goes_with, filter-index_table, filter-index_name,
}

abbrev pub all_statements : List Statement
all_statements = statements ++ idempotency_statements ++ processed_statements

-- No table and no index has a name that a migration gives, or belongs to a table of such a name.
abbrev pub IsClear : Schema → Type 0
IsClear s = All (λ c. IsUnused s (name_of c)) all_statements

abbrev nothing : Schema
nothing = record { tables = []; indexes = [] }

program : Unit {0}
unfolding named has_table has_index is_part_of goes_with create_table create_index create create_all
    remove_table drop_table drop_table_if_exists remove_index drop_index drop_index_if_exists
    String_discrete filter Initial.upgrade Initial.downgrade name_of added are_creatable
    upgrade_idempotency downgrade_idempotency upgrade_processed downgrade_processed
program = tt

-- after 0001
initial : Schema → Schema
initial = added statements

-- after 0002: without the index that it drops
middle : Schema → Schema
unfolding initial remove_index
middle s = added idempotency_statements (record {
  tables = (added statements nothing).tables ++ s.tables;
  indexes =
      (remove_index "uq_raw_events_idempotency_key" (added statements nothing)).indexes
      ++ s.indexes;
})

-- after the downgrade of 0002: the index is the latest
restored : Schema → Schema
unfolding initial remove_index
restored s = record {
  tables = (added statements nothing).tables ++ s.tables;
  indexes =
      uq_raw_events_idempotency_key
        ∷ (remove_index "uq_raw_events_idempotency_key" (added statements nothing)).indexes
      ++ s.indexes;
}

-- the tables of 0001 that have no partitions, the first ones to go
unfoldable pub drop_plain : Schema → Result Schema
drop_plain s =
    drop_table "leaderboard_snapshots" s
    >>= drop_table "consumer_offsets"
    >>= drop_table "rollup_day"
    >>= drop_table "rollup_hour"
    >>= drop_table "rollup_minute"

-- behind them
unfoldable pub partitioned : Schema → Schema
partitioned s = record {
  tables = Initial.raw_events_default ∷ Initial.raw_events ∷ Initial.merchants ∷ s.tables;
  indexes =
      uq_raw_events_idempotency_key
      ∷ record {
        name = "ix_raw_events_created_at";
        table = "raw_events";
        columns = "created_at" ∷ [];
        unique = false;
      }
      ∷ record {
        name = "ix_raw_events_occurred_at";
        table = "raw_events";
        columns = "occurred_at" ∷ [];
        unique = false;
      }
      ∷ record {
        name = "ix_raw_events_merchant_occurred";
        table = "raw_events";
        columns = "merchant_id" ∷ "occurred_at" ∷ [];
        unique = false;
      }
      ∷ s.indexes;
}

-- after 0003
unfoldable pub head : Schema → Schema
unfolding middle
head s = added processed_statements (middle s)

module _ (s : Schema) (clear : IsClear s) where
  unused :
      (name : String)
      → contains String_discrete name (map name_of all_statements) ≡ true
      → IsUnused s name
  unused name = IsUnused-contains s all_statements name clear

  parts :
      All (λ c. IsUnused s (name_of c)) statements
      × All (λ c. IsUnused s (name_of c)) idempotency_statements
      × All (λ c. IsUnused s (name_of c)) processed_statements
  parts =
      let first =
        All-append_inv (λ c. IsUnused s (name_of c)) (statements ++ idempotency_statements)
          processed_statements clear in
      let older =
        All-append_inv (λ c. IsUnused s (name_of c)) statements idempotency_statements first.0 in
      (older.0, older.1, first.1)

  upgrade-initial : Initial.upgrade s ≡ ok (initial s)
  unfolding program initial
  upgrade-initial = create_all-added statements [] [] s refl parts.0

  upgrade-middle : upgrade_idempotency (initial s) ≡ ok (middle s)
  unfolding program initial middle contains
  upgrade-middle =
      rw
        (filter-index_name "uq_raw_events_idempotency_key" s.indexes
          (unused "uq_raw_events_idempotency_key" refl).no_index)
        (create_all-added idempotency_statements (added statements nothing).tables
          (remove_index "uq_raw_events_idempotency_key" (added statements nothing)).indexes s refl
          parts.1)

  upgrade-head : upgrade_processed (middle s) ≡ ok (head s)
  unfolding program initial middle head
  upgrade-head =
      create_all-added processed_statements (middle nothing).tables (middle nothing).indexes s refl
        parts.2

  -- a table of 0001 that is dropped takes nothing else of the schema with it
  other_tables :
      (name : String)
      → contains String_discrete name (map name_of all_statements) ≡ true
      → filter (λ t. not (goes_with name t)) s.tables ≡ s.tables
  other_tables name h = filter-goes_with name s.tables (unused name h).no_table

  other_indexes :
      (name : String)
      → contains String_discrete name (map name_of all_statements) ≡ true
      → filter (λ (i : Index). not (named i.table name)) s.indexes ≡ s.indexes
  other_indexes name h = filter-index_table name s.indexes (unused name h).no_index

  drop_plain-restored : drop_plain (restored s) ≡ ok (partitioned s)
  unfolding program drop_plain restored partitioned contains
  drop_plain-restored = rw (
    other_tables "leaderboard_snapshots" refl,
    other_indexes "leaderboard_snapshots" refl,
    other_tables "consumer_offsets" refl,
    other_indexes "consumer_offsets" refl,
    other_tables "rollup_day" refl,
    other_indexes "rollup_day" refl,
    other_tables "rollup_hour" refl,
    other_indexes "rollup_hour" refl,
    other_tables "rollup_minute" refl,
    other_indexes "rollup_minute" refl,
  )

  pub drop_rest-partitioned :
      (drop_table_if_exists "raw_events" (partitioned s) >>= drop_table "merchants") ≡ ok s
  unfolding program partitioned contains
  drop_rest-partitioned = rw (
    other_tables "raw_events" refl,
    other_indexes "raw_events" refl,
    other_tables "merchants" refl,
    other_indexes "merchants" refl,
  )

  downgrade-middle : downgrade_idempotency (middle s) ≡ ok (restored s)
  unfolding program middle restored contains
  downgrade-middle = rw (
    filter-index_name "ix_event_idempotency_event_id" s.indexes
        (unused "ix_event_idempotency_event_id" refl).no_index,
    other_tables "event_idempotency" refl,
    other_indexes "event_idempotency" refl,
    has_table-unused "uq_raw_events_idempotency_key" s.tables
        (unused "uq_raw_events_idempotency_key" refl).no_table,
    has_index-unused "uq_raw_events_idempotency_key" s.indexes
        (unused "uq_raw_events_idempotency_key" refl).no_index,
  )

  downgrade-head : downgrade_processed (head s) ≡ ok (middle s)
  unfolding program head middle contains
  downgrade-head = rw (
    filter-index_name "ix_processed_rollup_events_consumer_processed_at" s.indexes
        (unused "ix_processed_rollup_events_consumer_processed_at" refl).no_index,
    other_tables "processed_rollup_events" refl,
    other_indexes "processed_rollup_events" refl,
  )

  pub upgrade_to_head-ok : upgrade_to_head s ≡ ok (head s)
  unfolding upgrade_to_head
  upgrade_to_head-ok = rw (upgrade-initial, upgrade-middle, upgrade-head)

  -- without partitions of raw_events, up to the last two tables
  pub drop_plain-head :
      (downgrade_processed (head s) >>= downgrade_idempotency >>= drop_plain) ≡ ok (partitioned s)
  drop_plain-head = rw (downgrade-head, downgrade-middle, drop_plain-restored)
