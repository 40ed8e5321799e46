-- ===== src/Schema/Stored.antt =====
-- The models and the ON CONFLICT clauses against the schema of the migrations.
use analytics_pipeline.Prelude.{
  String, Bool, true, false, List, [], ◌∷◌, ◌++◌, All, ◌&&◌, ◌||◌, ◌==◌, if◌then◌else◌,
  String_discrete, ◌≡◌, refl,
}
use analytics_pipeline.Result.{ok}
use analytics_pipeline.Schema.Defs.{
  ColumnType, Column, Table, Schema, uuid, text, integer, bigint, timestamptz, jsonb, char, varchar,
  named,
}
use analytics_pipeline.Schema.Revisions.{upgrade_to_head}
use analytics_pipeline.Schema.Unused.{added}
use analytics_pipeline.Schema.Head.{IsClear, head, upgrade_to_head-ok}
use analytics_pipeline.Schema.Models.{
  models, event_targets, rollup_targets, marker_targets, compaction_targets,
}

-- A column takes the values of a model's column: the type is the same, or the model's is a VARCHAR
-- and the column's a CHAR of that length.
unfoldable takes : ColumnType → ColumnType → Bool
takes uuid uuid = true
takes text text = true
takes integer integer = true
takes bigint bigint = true
takes timestamptz timestamptz = true
takes jsonb jsonb = true
takes (char m) (char n) = m == n
takes (varchar m) (varchar n) = m == n
takes (char m) (varchar n) = m == n
takes _ _ = false

unfoldable same : Bool → Bool → Bool
same true b = b
same false true = false
same false false = true

-- one of the columns has the name, takes the values, and is NOT NULL if the model's is
unfoldable has_column : Column → List Column → Bool
has_column c [] = false
has_column c (d ∷ ds) =
    (named d.name c.name && (takes d.type c.type && same d.nullable c.nullable)) || has_column c ds

unfoldable has_columns : List Column → List Column → Bool
has_columns [] ds = true
has_columns (c ∷ cs) ds = has_column c ds && has_columns cs ds

unfoldable same_names : List String → List String → Bool
same_names [] [] = true
same_names [] (b ∷ bs) = false
same_names (a ∷ xs) [] = false
same_names (a ∷ xs) (b ∷ bs) = named a b && same_names xs bs

-- The first table of the name has a column for each of the model's.
unfoldable pub stores : List Table → Table → Bool
unfolding has_columns has_column same takes
stores [] m = false
stores (t ∷ ts) m =
    let rest = stores ts m in if named t.name m.name then has_columns m.columns t.columns else rest

unfoldable has_names : List String → List (List String) → Bool
has_names columns [] = false
has_names columns (k ∷ ks) = same_names k columns || has_names columns ks

-- The first table of the name has a key of exactly the columns: what ON CONFLICT (columns) asks for.
unfoldable pub has_key : List Table → String × List String → Bool
unfolding has_names same_names
has_key [] (name, columns) = false
has_key (t ∷ ts) (name, columns) =
    let rest = has_key ts (name, columns) in
    if named t.name name then has_names columns (t.primary_key ∷ t.unique) else rest

-- On a schema with none of their names the migrations succeed; then each column of each model has a
-- column of its table that takes its values and is NOT NULL if it is, and the target of each ON
-- CONFLICT clause is a key of its table.
pub upgrade_to_head-stores :
    (s : Schema)
    → IsClear s
    → (s' : Schema) × (upgrade_to_head s ≡ ok s')
      × All (λ m. stores s'.tables m ≡ true) models
      × All
          (λ t. has_key s'.tables t ≡ true)
          (event_targets ++ rollup_targets ++ marker_targets ++ compaction_targets)
unfolding named String_discrete added head stores has_key
upgrade_to_head-stores s clear = (
  head s,
  upgrade_to_head-ok s clear,
  (refl, (refl, (refl, (refl, (refl, (refl, (refl, (refl, tt)))))))),
  (refl, (refl, (refl, (refl, (refl, (refl, (refl, (refl, tt)))))))),
)
