-- ===== src/Schema/Unused.antt =====
-- Names that a schema does not have: what is created under them, and that dropping them changes nothing.
use analytics_pipeline.Prelude.{
  String, Bool, true, false, not, List, [], ◌∷◌, ◌++◌, All, contains, filter, ◌||◌, ◌&&◌, ◌≡◌, refl,
  String_discrete, map, subst, sym, if_neg, ◌∙◌, arith,
}
use analytics_pipeline.Result.{ok}
use analytics_pipeline.Schema.Defs.{
  Table, Index, Schema, Statement, table, index, named, has_table, has_index, goes_with,
  create_table, create_index, create, create_all,
}

-- Nothing in the schema has the name, or belongs to a table of that name.
unfoldable pub mentions_table : String → List Table → Bool
mentions_table name [] = false
mentions_table name (t ∷ ts) = goes_with name t || mentions_table name ts

unfoldable pub mentions_index : String → List Index → Bool
mentions_index name [] = false
mentions_index name (i ∷ is) = named i.name name || named i.table name || mentions_index name is

pub record IsUnused (s : Schema) (name : String) : Type 0 where
  pub no_table : mentions_table name s.tables ≡ false
  pub no_index : mentions_index name s.indexes ≡ false

pub has_table-unused :
    (name : String) (ts : List Table) → mentions_table name ts ≡ false → has_table name ts ≡ false
unfolding mentions_table has_table goes_with
has_table-unused name [] h = refl
has_table-unused name (t ∷ ts) h = ground (arith, h, has_table-unused name ts)

pub has_index-unused :
    (name : String) (is : List Index) → mentions_index name is ≡ false → has_index name is ≡ false
unfolding mentions_index has_index
has_index-unused name [] h = refl
has_index-unused name (i ∷ is) h = ground (arith, h, has_index-unused name is)

pub filter-goes_with :
    (name : String) (ts : List Table)
    → mentions_table name ts ≡ false
    → filter (λ t. not (goes_with name t)) ts ≡ ts
unfolding mentions_table filter
filter-goes_with name [] h = refl
filter-goes_with name (t ∷ ts) h = ground (arith, h, filter-goes_with name ts)

pub filter-index_table :
    (name : String) (is : List Index)
    → mentions_index name is ≡ false
    → filter (λ (i : Index). not (named i.table name)) is ≡ is
unfolding mentions_index filter
filter-index_table name [] h = refl
filter-index_table name (i ∷ is) h = ground (arith, h, filter-index_table name is)

pub filter-index_name :
    (name : String) (is : List Index)
    → mentions_index name is ≡ false
    → filter (λ (i : Index). not (named i.name name)) is ≡ is
unfolding mentions_index filter
filter-index_name name [] h = refl
filter-index_name name (i ∷ is) h = ground (arith, h, filter-index_name name is)

unfoldable pub name_of : Statement → String
name_of (table t) = t.name
name_of (index i) = i.name

-- the schema with what the statements create
unfoldable pub added : List Statement → Schema → Schema
added [] s = s
added (table t ∷ cs) s = added cs (record s { tables = t ∷ s.tables })
added (index i ∷ cs) s = added cs (record s { indexes = i ∷ s.indexes })

-- The name is not one that the statements before have created; an index is of a table that they
-- have, or that the schema has.
unfoldable pub are_creatable : List Table → List Index → List Statement → Bool
are_creatable ts is [] = true
are_creatable ts is (table t ∷ cs) =
    not (has_table t.name ts || has_index t.name is) && are_creatable (t ∷ ts) is cs
are_creatable ts is (index i ∷ cs) =
    (not (has_table i.name ts || has_index i.name is) && has_table i.table ts)
    && are_creatable ts (i ∷ is) cs

pub has_table-append :
    (name : String) (ts us : List Table)
    → has_table name (ts ++ us) ≡ has_table name ts || has_table name us
unfolding has_table
has_table-append name [] us = refl
has_table-append name (t ∷ ts) us = ground (arith, has_table-append name ts us)

has_index-append :
    (name : String) (is js : List Index)
    → has_index name (is ++ js) ≡ has_index name is || has_index name js
unfolding has_index
has_index-append name [] js = refl
has_index-append name (i ∷ is) js = ground (arith, has_index-append name is js)

-- Statements whose names are unused all succeed.
pub create_all-added :
    (cs : List Statement) (ts : List Table) (is : List Index) (s : Schema)
    → are_creatable ts is cs ≡ true
    → All (λ c. IsUnused s (name_of c)) cs
    → create_all cs (record { tables = ts ++ s.tables; indexes = is ++ s.indexes })
      ≡ ok (added cs (record { tables = ts ++ s.tables; indexes = is ++ s.indexes }))
unfolding create_all create create_table create_index name_of added are_creatable
create_all-added [] ts is s h unused = refl
create_all-added (table t ∷ cs) ts is s h unused =
    let rest = create_all-added cs (t ∷ ts) is s (ground (arith, h)) unused.1 in
    ground (
      arith,
      h,
      rest,
      has_table-append t.name ts s.tables,
      has_index-append t.name is s.indexes,
      has_table-unused t.name s.tables unused.0.no_table,
      has_index-unused t.name s.indexes unused.0.no_index,
    )
create_all-added (index i ∷ cs) ts is s h unused =
    let rest = create_all-added cs ts (i ∷ is) s (ground (arith, h)) unused.1 in
    ground (
      arith,
      h,
      rest,
      has_table-append i.name ts s.tables,
      has_index-append i.name is s.indexes,
      has_table-append i.table ts s.tables,
      has_table-unused i.name s.tables unused.0.no_table,
      has_index-unused i.name s.indexes unused.0.no_index,
    )

-- a name among those that are unused
pub IsUnused-contains :
    (s : Schema) (cs : List Statement) (name : String)
    → All (λ c. IsUnused s (name_of c)) cs
    → contains String_discrete name (map name_of cs) ≡ true
    → IsUnused s name
unfolding contains
IsUnused-contains s [] name unused h = absurd (cc (h))
IsUnused-contains s (c ∷ cs) name unused h = elim (String_discrete (name_of c) name) [
  | yes p ↦ subst (IsUnused s) p unused.0
  | no p ↦
      IsUnused-contains s cs name unused.1
        (sym (if_neg _ p true (contains String_discrete name (map name_of cs))) ∙ h)
]
