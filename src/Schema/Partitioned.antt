-- ===== src/Schema/Partitioned.antt =====
-- The migrations to the head and back, with partitions of raw_events created in between.
use analytics_pipeline.Prelude.{
  String, true, false, List, [], ◌∷◌, ◌++◌, All, contains, map, filter, filter-append, not, some,
  if_pos, if_neg, String_discrete, ◌≡◌, ◌≢◌, refl, sym, subst, ap, ◌∙◌, arith,
}
use analytics_pipeline.Result.{Result, ok, err, ◌>>=◌}
use analytics_pipeline.Schema.Defs.{
  Table, Index, Schema, named, has_table, is_part_of, goes_with, create_index, remove_table,
  drop_table, drop_table_if_exists, remove_index, drop_index,
}
use analytics_pipeline.Schema.Revisions.{
  upgrade_to_head, downgrade_to_base, downgrade_processed, downgrade_idempotency,
}
use analytics_pipeline.Schema.Initial
use analytics_pipeline.Schema.Initial.{uq_raw_events_idempotency_key}
use analytics_pipeline.Schema.Unused.{name_of, has_table-append}
use analytics_pipeline.Schema.Head.{
  all_statements, IsClear, drop_plain, partitioned, drop_plain-head, drop_rest-partitioned, head,
  upgrade_to_head-ok,
}

-- Partitions of raw_events under names of their own, as scripts/create_partitions.py makes them.
abbrev pub IsPartition : Table → Type 0
IsPartition t =
    (t.partition_of ≡ some "raw_events")
    × (contains String_discrete t.name (map name_of all_statements) ≡ false)

unfoldable pub with_partitions : List Table → Schema → Schema
with_partitions ps s = record s { tables = ps ++ s.tables }

named_refl : (a : String) → named a a ≡ true
unfolding named
named_refl a = if_pos (String_discrete a a) refl true false

named_other : (a b : String) → a ≢ b → named a b ≡ false
unfolding named
named_other a b h = if_neg (String_discrete a b) h true false

module _ (name : String)
    (known : contains String_discrete name (map name_of all_statements) ≡ true) where
  -- no partition has the name
  apart : (t : Table) → IsPartition t → named t.name name ≡ false
  apart t h = elim (String_discrete t.name name) [
    | yes p ↦ absurd (
        let e : true ≡ false =
          sym known
          ∙ subst (λ n. contains String_discrete n (map name_of all_statements) ≡ false) p h.1 in
        cc)
    | no p ↦ named_other t.name name p
  ]

  has_table-partitions : (ps : List Table) → All IsPartition ps → has_table name ps ≡ false
  unfolding has_table
  has_table-partitions [] h = refl
  has_table-partitions (t ∷ ps) h = rw (apart t h.0) (has_table-partitions ps h.1)

  kept : named "raw_events" name ≡ false → (t : Table) → IsPartition t → goes_with name t ≡ false
  unfolding goes_with is_part_of
  kept other t h = ground (arith, apart t h, h.0, other)

  filter-partitions :
      named "raw_events" name ≡ false
      → (ps : List Table) → All IsPartition ps
      → filter (λ t. not (goes_with name t)) ps ≡ ps
  unfolding filter
  filter-partitions other [] h = refl
  filter-partitions other (t ∷ ps) h =
      rw (kept other t h.0) (ap (◌∷◌ t) (filter-partitions other ps h.1))

-- DROP TABLE raw_events takes the partitions with it.
filter-raw_events :
    (ps : List Table) → All IsPartition ps → filter (λ t. not (goes_with "raw_events" t)) ps ≡ []
unfolding filter goes_with is_part_of
filter-raw_events [] h = refl
filter-raw_events (t ∷ ps) h =
    ground (arith, h.0.0, named_refl "raw_events", filter-raw_events ps h.1)

module _ (ps : List Table) (h : All IsPartition ps) where
  -- A step does the same beside the partitions.
  abbrev Commutes : (Schema → Result Schema) → Type 0
  Commutes f = (s : Schema) → f (with_partitions ps s) ≡ (f s >>= λ r. ok (with_partitions ps r))

  both-Commutes :
      (f g : Schema → Result Schema) → Commutes f → Commutes g → Commutes (λ s. f s >>= g)
  both-Commutes f g cf cg s = rw (cf s) (through (f s))
    where
      through :
          (r : Result Schema)
          → ((r >>= λ t. ok (with_partitions ps t)) >>= g)
            ≡ ((r >>= g) >>= λ t. ok (with_partitions ps t))
      through (ok t) = cg t
      through (err e) = refl

  drop_table-Commutes :
      (name : String)
      → contains String_discrete name (map name_of all_statements) ≡ true
      → named "raw_events" name ≡ false
      → Commutes (drop_table name)
  unfolding drop_table remove_table with_partitions
  drop_table-Commutes name known other s = ground (
    arith,
    has_table-append name ps s.tables,
    has_table-partitions name known ps h,
    filter-append (λ t. not (goes_with name t)) ps s.tables,
    filter-partitions name known other ps h,
  )

  drop_index-Commutes : (name : String) → Commutes (drop_index name)
  unfolding drop_index remove_index with_partitions
  drop_index-Commutes name s = ground arith

  create_index-Commutes :
      (i : Index)
      → contains String_discrete i.name (map name_of all_statements) ≡ true
      → contains String_discrete i.table (map name_of all_statements) ≡ true
      → Commutes (create_index i)
  unfolding create_index with_partitions
  create_index-Commutes i known table s = ground (
    arith,
    has_table-append i.name ps s.tables,
    has_table-partitions i.name known ps h,
    has_table-append i.table ps s.tables,
    has_table-partitions i.table table ps h,
  )

  downgrade_processed-Commutes : Commutes downgrade_processed
  unfolding downgrade_processed contains named String_discrete name_of
  downgrade_processed-Commutes =
      both-Commutes (drop_index _) (drop_table _) (drop_index-Commutes _)
        (drop_table-Commutes "processed_rollup_events" refl refl)

  downgrade_idempotency-Commutes : Commutes downgrade_idempotency
  unfolding downgrade_idempotency contains named String_discrete name_of
  downgrade_idempotency-Commutes =
      both-Commutes _ (create_index _)
        (both-Commutes (drop_index _) (drop_table _) (drop_index-Commutes _)
          (drop_table-Commutes "event_idempotency" refl refl))
        (create_index-Commutes uq_raw_events_idempotency_key refl refl)

  drop_plain-Commutes : Commutes drop_plain
  unfolding drop_plain contains named String_discrete name_of
  drop_plain-Commutes =
      both-Commutes _ (drop_table _)
        (both-Commutes _ (drop_table _)
          (both-Commutes _ (drop_table _)
            (both-Commutes (drop_table _) (drop_table _)
              (drop_table-Commutes "leaderboard_snapshots" refl refl)
              (drop_table-Commutes "consumer_offsets" refl refl))
            (drop_table-Commutes "rollup_day" refl refl))
          (drop_table-Commutes "rollup_hour" refl refl))
        (drop_table-Commutes "rollup_minute" refl refl)

  drop_raw_events :
      (s : Schema)
      → has_table "raw_events" s.tables ≡ true
      → drop_table_if_exists "raw_events" (with_partitions ps s)
        ≡ drop_table_if_exists "raw_events" s
  unfolding drop_table_if_exists remove_table with_partitions
  drop_raw_events s there = ground (
    arith,
    there,
    has_table-append "raw_events" ps s.tables,
    filter-append (λ t. not (goes_with "raw_events" t)) ps s.tables,
    filter-raw_events ps h,
  )

  -- all that goes before raw_events, beside the partitions
  drop_plain-with_partitions :
      (s : Schema)
      → IsClear s
      → (downgrade_processed (with_partitions ps (head s)) >>= downgrade_idempotency >>= drop_plain)
        ≡ ok (with_partitions ps (partitioned s))
  drop_plain-with_partitions s clear =
      both-Commutes (λ s. downgrade_processed s >>= downgrade_idempotency) drop_plain
        (both-Commutes downgrade_processed downgrade_idempotency downgrade_processed-Commutes
          downgrade_idempotency-Commutes)
        drop_plain-Commutes (head s)
      ∙ rw (drop_plain-head s clear) refl

  downgrade-drop_plain :
      (r : Result Schema)
      → (r >>= Initial.downgrade)
        ≡ (r >>= drop_plain >>= drop_table_if_exists "raw_events" >>= drop_table "merchants")
  unfolding Initial.downgrade drop_plain
  downgrade-drop_plain (ok s) = refl
  downgrade-drop_plain (err e) = refl

  partitioned-has_table : (s : Schema) → has_table "raw_events" (partitioned s).tables ≡ true
  unfolding partitioned has_table named String_discrete
  partitioned-has_table s = refl

  downgrade_to_base-with_partitions :
      (s : Schema) → IsClear s → downgrade_to_base (with_partitions ps (head s)) ≡ ok s
  unfolding downgrade_to_base
  downgrade_to_base-with_partitions s clear =
      downgrade-drop_plain
        (downgrade_processed (with_partitions ps (head s)) >>= downgrade_idempotency)
      ∙ rw (
        drop_plain-with_partitions s clear,
        drop_raw_events (partitioned s) (partitioned-has_table s),
        drop_rest-partitioned s clear,
      )

-- On a schema with none of their names the migrations succeed, and the way back from the head leaves
-- the schema as it was, whatever partitions of raw_events were created in between.
pub downgrade_to_base-upgrade_to_head :
    (s : Schema) (ps : List Table)
    → IsClear s
    → All IsPartition ps
    → (s' : Schema) × (upgrade_to_head s ≡ ok s')
      × (downgrade_to_base (with_partitions ps s') ≡ ok s)
downgrade_to_base-upgrade_to_head s ps clear h =
    (head s, upgrade_to_head-ok s clear, downgrade_to_base-with_partitions ps h s clear)
