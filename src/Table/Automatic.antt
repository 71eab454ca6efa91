-- ===== src/Table/Automatic.antt =====
-- src/sql/executor.rs: the indexes that the constraints of a table ask for, and a table that was
-- stored without constraints, indexes or row IDs.
use rusty_db.Prelude.{
  map, ℕ, zero, suc, Bool, true, false, ◌||◌, ◌&&◌, not, Option, none, some, List, [], ◌∷◌, ◌++◌,
  ◌==◌, any, max, length, if◌then◌else◌, saturating_add,
}
use rusty_db.Prelude.Keyed.{put}
use rusty_db.Table.Keys.{keyed_by_text}
use rusty_db.Sql.Types.{Text}
use rusty_db.Sql.Operators.{ascii_lower, text_eq}
use rusty_db.Sql.Statement.{ColumnDef, TableConstraint, primary_key, unique, check, foreign_key}
use rusty_db.Table.Schema.{IndexDef, TableSchema}
use rusty_db.Table.Bloom.{IndexRuntime}
use rusty_db.Table.Store.{Table, rebuild_index}

-- `columns.join("_")`
unfoldable pub join_names : List Text → Text
join_names [] = []
join_names (name ∷ []) = name
join_names (name ∷ names) = name ++ (b'_' ∷ join_names names)

abbrev pub name_or : Option Text → Text → Text
name_or none t = t
name_or (some name) t = name

-- `{table}_{columns}_{suffix}`, the suffix of two letters
abbrev pub generated_name : Text → Text → ℕ → ℕ → Text
generated_name table columns a b = table ++ (b'_' ∷ (columns ++ (b'_' ∷ a ∷ b ∷ [])))

unfoldable pub automatic_index : Text → TableConstraint → List IndexDef
unfolding join_names
automatic_index table (primary_key name columns) =
    record {
      name = name_or name (table ++ (b'_' ∷ b'p' ∷ b'k' ∷ []));
      columns = columns;
      unique = true;
      automatic = true;
    }
    ∷ []
automatic_index table (unique name columns) =
    record {
      name = name_or name (generated_name table (join_names columns) b'u' b'k');
      columns = columns;
      unique = true;
      automatic = true;
    }
    ∷ []
automatic_index table (foreign_key fk) =
    record {
      name = name_or fk.name (generated_name table (join_names fk.columns) b'f' b'k');
      columns = fk.columns;
      unique = false;
      automatic = true;
    }
    ∷ []
automatic_index table (check _ _) = []

unfoldable pub constraint_indexes : Text → List TableConstraint → List IndexDef
unfolding automatic_index
constraint_indexes table [] = []
constraint_indexes table (constraint ∷ constraints) =
    automatic_index table constraint ++ constraint_indexes table constraints

abbrev pub is_only : Text → List Text → Bool
is_only name (column ∷ []) = text_eq column name
is_only name _ = false

-- An index of one column for each key column that has none.
unfoldable pub column_index_for : Text → ColumnDef → List IndexDef → List IndexDef
unfolding text_eq
column_index_for table column indexes =
    if (column.primary_key || column.unique)
      && not (any (λ (index : IndexDef). is_only column.name index.columns) indexes)
    then record {
      name =
          if column.primary_key
          then generated_name table column.name b'p' b'k'
          else generated_name table column.name b'u' b'k';
      columns = column.name ∷ [];
      unique = true;
      automatic = true;
    }
      ∷ []
    else []

unfoldable pub add_column_indexes : Text → List ColumnDef → List IndexDef → List IndexDef
unfolding column_index_for
add_column_indexes table [] indexes = indexes
add_column_indexes table (column ∷ columns) indexes =
    add_column_indexes table columns (indexes ++ column_index_for table column indexes)

unfoldable pub automatic_indexes : TableSchema → List IndexDef
unfolding constraint_indexes add_column_indexes
automatic_indexes schema =
    add_column_indexes schema.name schema.columns
      (constraint_indexes schema.name schema.constraints)

-- The constraints that the marks of the columns stand for.
unfoldable pub column_constraints : List ColumnDef → List TableConstraint
column_constraints [] = []
column_constraints (column ∷ columns) =
    let rest = column_constraints columns in
    if column.primary_key
    then primary_key none (column.name ∷ []) ∷ rest
    else if column.unique
    then unique none (column.name ∷ []) ∷ rest
    else rest

-- `(1..=n)`, from `i` on
unfoldable pub ids_from : ℕ → ℕ → List ℕ
ids_from i zero = []
ids_from i (suc n) = i ∷ ids_from (suc i) n

unfoldable pub largest : List ℕ → ℕ
largest [] = 0
largest (id ∷ ids) = max id (largest ids)

abbrev pub or_if_empty : {A : Type 0} → List A → List A → List A
or_if_empty [] fresh = fresh
or_if_empty (a ∷ old) fresh = a ∷ old

unfoldable pub migrate_schema : TableSchema → TableSchema
unfolding column_constraints automatic_indexes
migrate_schema schema =
    let constrained = record schema {
      constraints = or_if_empty schema.constraints (column_constraints schema.columns);
    } in
    record constrained { indexes = or_if_empty schema.indexes (automatic_indexes constrained) }

unfoldable pub migrate_ids : Table → List ℕ
unfolding ids_from
migrate_ids t = if length t.row_ids == length t.rows then t.row_ids else ids_from 1 (length t.rows)

unfoldable pub migrate_legacy_rows : IndexRuntime → Table → Table
unfolding migrate_schema migrate_ids largest rebuild_index
migrate_legacy_rows ir t = rebuild_index ir (record t {
  schema = migrate_schema t.schema;
  row_ids = migrate_ids t;
  next_row_id = saturating_add (largest (migrate_ids t)) 1;
})

-- `Catalog::from_tables`: a map from the names in lower case.
unfoldable pub from_tables : IndexRuntime → List (Text × Table) → List (Text × Table)
unfolding migrate_legacy_rows put
from_tables ir [] = []
from_tables ir ((name, t) ∷ tables) =
    put (map ascii_lower name) (migrate_legacy_rows ir t) (from_tables ir tables)
