-- ===== src/Tests/Schema.antt =====
-- The migrations at a concrete schema.
use analytics_pipeline.Prelude.{
  [], ◌∷◌, ◌++◌, All, contains, filter, true, none, some, String_discrete, ◌≡◌, refl, arith,
}
use analytics_pipeline.Result.{ok, err, duplicate_relation, undefined_relation, ◌>>=◌}
use analytics_pipeline.Schema.Defs.{
  Table, Schema, text, named, has_table, has_index, is_part_of, goes_with, create_table,
  create_index, create, create_all, drop_table, drop_index, remove_index, drop_index_if_exists,
}
use analytics_pipeline.Schema.Initial
use analytics_pipeline.Schema.Initial.{required, raw_events}
use analytics_pipeline.Schema.Revisions.{
  upgrade_idempotency, upgrade_processed, upgrade_to_head, downgrade_to_base, downgrade_processed,
}
use analytics_pipeline.Schema.Unused.{name_of, mentions_table, mentions_index}
use analytics_pipeline.Schema.Head.{IsClear}
use analytics_pipeline.Schema.Partitioned.{with_partitions, downgrade_to_base-upgrade_to_head}
use analytics_pipeline.Schema.Models.{
  models, event_targets, rollup_targets, marker_targets, compaction_targets,
}
use analytics_pipeline.Schema.Stored.{stores, has_key, upgrade_to_head-stores}

schema_program : Unit {0}
unfolding filter named has_table has_index is_part_of goes_with create_table create_index create
    create_all drop_table drop_index remove_index drop_index_if_exists String_discrete contains
    name_of mentions_table mentions_index Initial.upgrade upgrade_idempotency upgrade_processed
    upgrade_to_head downgrade_processed downgrade_to_base
schema_program = tt

-- with Alembic's own table
abbrev fresh : Schema
fresh = record {
  tables =
      record {
        name = "alembic_version";
        columns = required "version_num" text ∷ [];
        primary_key = "version_num" ∷ [];
        unique = [];
        partition_of = none;
      }
      ∷ [];
  indexes = [];
}

abbrev partition : Table
partition = record raw_events { name = "raw_events_2026_05_12"; partition_of = some "raw_events" }

-- a second run fails at its first statement
twice : (upgrade_to_head fresh >>= upgrade_to_head) ≡ err duplicate_relation
unfolding schema_program
twice = refl

-- and there is no way back from nothing
nothing_to_drop : downgrade_to_base fresh ≡ err undefined_relation
unfolding schema_program
nothing_to_drop = refl

fresh-IsClear : IsClear fresh
unfolding schema_program
fresh-IsClear = ground arith

downgrade_to_base-upgrade_to_head_example :
    (s' : Schema) × (upgrade_to_head fresh ≡ ok s')
    × (downgrade_to_base (with_partitions (partition ∷ []) s') ≡ ok fresh)
unfolding schema_program
downgrade_to_base-upgrade_to_head_example =
    downgrade_to_base-upgrade_to_head fresh (partition ∷ []) fresh-IsClear ((refl, refl), tt)

upgrade_to_head-stores_example :
    (s' : Schema) × (upgrade_to_head fresh ≡ ok s')
    × All (λ m. stores s'.tables m ≡ true) models
    × All
        (λ t. has_key s'.tables t ≡ true)
        (event_targets ++ rollup_targets ++ marker_targets ++ compaction_targets)
upgrade_to_head-stores_example = upgrade_to_head-stores fresh fresh-IsClear
