-- ===== src/Schema/Defs.antt =====
-- Tables and indexes, and the statements of DDL that the migrations run, with what PostgreSQL refuses.
-- The indexes that it builds behind keys are left out, and so are defaults and comments.
use analytics_pipeline.Prelude.{
  ℕ, String, Bool, true, false, not, List, [], ◌∷◌, Option, none, some, filter, ite, ◌||◌,
  if◌then◌else◌, String_discrete,
}
use analytics_pipeline.Result.{Result, ok, err, ◌>>=◌, duplicate_relation, undefined_relation}

pub data ColumnType : Type 0 where
  uuid text integer bigint timestamptz jsonb : ColumnType
  char varchar : ℕ → ColumnType

pub record Column : Type 0 where
  pub name : String
  pub type : ColumnType
  pub nullable : Bool

pub record Table : Type 0 where
  pub name : String
  pub columns : List Column
  pub primary_key : List String
  -- UNIQUE constraints
  pub unique : List (List String)
  -- the table that this one is a partition of
  pub partition_of : Option String

pub record Index : Type 0 where
  pub name : String
  pub table : String
  pub columns : List String
  pub unique : Bool

-- the latest first
pub record Schema : Type 0 where
  pub tables : List Table
  pub indexes : List Index

-- Sameness of texts, as a test.
unfoldable pub named : String → String → Bool
unfolding String_discrete
named a b = ite (String_discrete a b) true false

unfoldable pub has_table : String → List Table → Bool
has_table name [] = false
has_table name (t ∷ ts) = named t.name name || has_table name ts

unfoldable pub has_index : String → List Index → Bool
has_index name [] = false
has_index name (i ∷ is) = named i.name name || has_index name is

unfoldable pub is_part_of : String → Option String → Bool
is_part_of name none = false
is_part_of name (some parent) = named parent name

-- the table, and its partitions
unfoldable pub goes_with : String → Table → Bool
goes_with name t = named t.name name || is_part_of name t.partition_of

-- Tables and indexes share their names.
unfoldable pub create_table : Table → Schema → Result Schema
create_table t s =
    if has_table t.name s.tables || has_index t.name s.indexes
    then err duplicate_relation
    else ok (record s { tables = t ∷ s.tables })

unfoldable pub create_index : Index → Schema → Result Schema
create_index i s =
    if has_table i.name s.tables || has_index i.name s.indexes
    then err duplicate_relation
    else if has_table i.table s.tables
    then ok (record s { indexes = i ∷ s.indexes })
    else err undefined_relation

pub data Statement : Type 0 where
  table : Table → Statement
  index : Index → Statement

unfoldable pub create : Statement → Schema → Result Schema
create (table t) = create_table t
create (index i) = create_index i

-- one statement after the other; the first that fails ends the migration
unfoldable pub create_all : List Statement → Schema → Result Schema
create_all [] s = ok s
create_all (c ∷ cs) s = create c s >>= create_all cs

-- with its partitions and its indexes
unfoldable pub remove_table : String → Schema → Schema
remove_table name s = record {
  tables = filter (λ t. not (goes_with name t)) s.tables;
  indexes = filter (λ i. not (named i.table name)) s.indexes;
}

unfoldable pub drop_table : String → Schema → Result Schema
drop_table name s =
    if has_table name s.tables then ok (remove_table name s) else err undefined_relation

-- IF EXISTS
unfoldable pub drop_table_if_exists : String → Schema → Result Schema
drop_table_if_exists name s = ok (if has_table name s.tables then remove_table name s else s)

unfoldable pub remove_index : String → Schema → Schema
remove_index name s = record s { indexes = filter (λ i. not (named i.name name)) s.indexes }

unfoldable pub drop_index : String → Schema → Result Schema
drop_index name s =
    if has_index name s.indexes then ok (remove_index name s) else err undefined_relation

unfoldable pub drop_index_if_exists : String → Schema → Result Schema
drop_index_if_exists name s = ok (remove_index name s)
