-- ===== src/Table/Ddl.antt =====
-- src/sql/executor.rs: CREATE and DROP of tables and of indexes.
use rusty_db.Prelude.{
  ℕ, zero, suc, ◌+◌, Bool, true, false, ◌||◌, not, none, some, List, [], ◌∷◌, ◌++◌, ◌==◌, ltb, any,
  length, if◌then◌else◌, get_elem?, ok, err, ◌>>=◌,
}
use rusty_db.Prelude.Keyed.{contains, find, put, remove}
use rusty_db.Sql.Types.{Text}
use rusty_db.Sql.Operators.{eq_ignore_ascii_case, text_eq}
use rusty_db.Sql.Statement.{ColumnDef, TableConstraint, primary_key, unique, check, foreign_key}
use rusty_db.Table.Schema.{
  Executed, missing_table, table_exists, duplicate_column, constrained_column, second_primary_key,
  referenced_by, index_exists, no_index_columns, unknown_column, missing_index, index_required,
  IndexDef, TableSchema, new_schema, column_index, position, require, some_or,
}
use rusty_db.Table.Keys.{keyed_by_text}
use rusty_db.Table.Bloom.{IndexRuntime}
use rusty_db.Table.Store.{Table, new_table, rebuild_index}
use rusty_db.Table.Automatic.{automatic_indexes}
use rusty_db.Table.Validate.{Tables, validate_unique_indexes}
use rusty_db.Table.Insert.{to_ascii_lowercase}

-- A statement gives its answer and the tables, which it leaves alone where it fails.
abbrev pub Changed : Type 0
Changed = Executed Tables

-- The names in lower case, when no two columns have the same.
unfoldable pub distinct_columns : List Text → List ColumnDef → Executed (List Text)
distinct_columns seen [] = ok seen
distinct_columns seen (column ∷ columns) = do
  _ ← require (not (contains (to_ascii_lowercase column.name) seen)) (duplicate_column column.name)
  distinct_columns (to_ascii_lowercase column.name ∷ seen) columns

-- The first column of this name becomes part of the primary key.
unfoldable pub mark_key : Bool → Text → List ColumnDef → List ColumnDef
unfolding eq_ignore_ascii_case
mark_key single name [] = []
mark_key single name (column ∷ columns) =
    let rest = mark_key single name columns in
    if eq_ignore_ascii_case column.name name
    then record column { nullable = false; unique = single; primary_key = single } ∷ columns
    else column ∷ rest

unfoldable pub mark_keys : Bool → List Text → List ColumnDef → List ColumnDef
unfolding mark_key
mark_keys single [] columns = columns
mark_keys single (name ∷ names) columns = mark_keys single names (mark_key single name columns)

unfoldable pub known_columns : List Text → List Text → Executed (Unit {0})
known_columns seen [] = ok tt
known_columns seen (name ∷ names) = do
  _ ← require (contains (to_ascii_lowercase name) seen) (constrained_column name)
  known_columns seen names

-- The columns and the number of primary keys, after each constraint.
unfoldable pub apply_constraint :
    List Text → TableConstraint → List ColumnDef × ℕ → Executed (List ColumnDef × ℕ)
unfolding mark_keys known_columns
apply_constraint seen (primary_key _ names) (columns, keys) = do
  _ ← known_columns seen names
  ok (mark_keys (length names == 1) names columns, keys + 1)
apply_constraint seen (unique _ names) state = do _ ← known_columns seen names; ok state
apply_constraint seen (foreign_key fk) state = do _ ← known_columns seen fk.columns; ok state
apply_constraint seen (check _ _) state = ok state

unfoldable pub apply_constraints :
    List Text → List TableConstraint → List ColumnDef × ℕ → Executed (List ColumnDef × ℕ)
unfolding apply_constraint
apply_constraints seen [] state = ok state
apply_constraints seen (constraint ∷ constraints) state = do
  next ← apply_constraint seen constraint state
  apply_constraints seen constraints next

-- A constraint of a table that refers to the table `name`.
abbrev pub refers_to : Text → TableConstraint → Bool
refers_to name (foreign_key fk) = eq_ignore_ascii_case fk.foreign_table name
refers_to name _ = false

unfoldable pub unreferenced : Text → Tables → Executed (Unit {0})
unfolding text_eq eq_ignore_ascii_case
unreferenced name [] = ok tt
unreferenced name ((other, t) ∷ tables) = do
  _ ←
      require (text_eq other name || not (any (refers_to name) t.schema.constraints))
        (referenced_by name other)
  unreferenced name tables

unfoldable pub index_columns_known : TableSchema → List Text → Executed (Unit {0})
unfolding column_index
index_columns_known schema [] = ok tt
index_columns_known schema (name ∷ names) = do
  _ ← some_or (unknown_column name) (column_index schema name)
  index_columns_known schema names

abbrev pub has_index : Text → TableSchema → Bool
has_index name schema =
    any (λ (index : IndexDef). eq_ignore_ascii_case index.name name) schema.indexes

abbrev pub is_nil : List Text → Bool
is_nil [] = true
is_nil (_ ∷ _) = false

unfoldable pub remove_at : ℕ → List IndexDef → List IndexDef
remove_at i [] = []
remove_at zero (index ∷ indexes) = indexes
remove_at (suc i) (index ∷ indexes) = index ∷ remove_at i indexes

module _ (ir : IndexRuntime) where
  unfoldable pub create_table : Text → List ColumnDef → List TableConstraint → Tables → Changed
  unfolding distinct_columns apply_constraints automatic_indexes new_table put
  create_table name columns constraints tables = do
    seen ← distinct_columns [] columns
    (marked, keys) ← apply_constraints seen constraints (columns, 0)
    _ ← require (not (ltb 1 keys)) second_primary_key
    let schema = record (new_schema name marked) { constraints = constraints }
    ok (put name (new_table ir (record schema { indexes = automatic_indexes schema })) tables)

  unfoldable pub execute_create_table :
      Text → List ColumnDef → List TableConstraint → Bool → Tables → Changed
  unfolding create_table find
  execute_create_table table_name columns constraints if_not_exists tables =
      let name = to_ascii_lowercase table_name in
      elim (find name tables) [
        | some _ ↦ if if_not_exists then ok tables else err (table_exists name)
        | none ↦ create_table name columns constraints tables
      ]

  unfoldable pub execute_drop_table : Text → Bool → Tables → Changed
  unfolding find unreferenced remove
  execute_drop_table table_name if_exists tables =
      let name = to_ascii_lowercase table_name in
      elim (find name tables) [
        | none ↦ if if_exists then ok tables else err (missing_table name)
        | some _ ↦ unreferenced name tables >>= (λ _. ok (remove name tables))
      ]

  unfoldable pub create_index : Text → Text → List Text → Bool → Table → Tables → Changed
  unfolding index_columns_known rebuild_index validate_unique_indexes put
  create_index table_name name columns is_unique t tables = do
    _ ← require (not (is_nil columns)) no_index_columns
    _ ← index_columns_known t.schema columns
    let index : IndexDef = record {
      name = to_ascii_lowercase name;
      columns = columns;
      unique = is_unique;
      automatic = false;
    }
    let changed =
        rebuild_index ir
          (record t { schema = record t.schema { indexes = t.schema.indexes ++ index ∷ [] } })
    _ ← validate_unique_indexes changed
    ok (put table_name changed tables)

  unfoldable pub execute_create_index : Text → Text → List Text → Bool → Bool → Tables → Changed
  unfolding find create_index
  execute_create_index name table columns is_unique if_not_exists tables = do
    let table_name = to_ascii_lowercase table
    t ← some_or (missing_table table_name) (find table_name tables)
    if has_index name t.schema
        then (if if_not_exists then ok tables else err (index_exists name))
        else create_index table_name name columns is_unique t tables

  unfoldable pub drop_index : Text → Text → ℕ → Table → Tables → Changed
  unfolding remove_at rebuild_index put
  drop_index table_name name i t tables = do
    index ← some_or (missing_index name) (get_elem? t.schema.indexes i)
    _ ← require (not index.automatic) (index_required name)
    ok (
        put table_name
          (rebuild_index ir
            (record t { schema = record t.schema { indexes = remove_at i t.schema.indexes } }))
          tables)

  unfoldable pub execute_drop_index : Text → Text → Bool → Tables → Changed
  unfolding find position drop_index
  execute_drop_index name table if_exists tables = do
    let table_name = to_ascii_lowercase table
    t ← some_or (missing_table table_name) (find table_name tables)
    elim (position (λ (index : IndexDef). eq_ignore_ascii_case index.name name) t.schema.indexes) [
      | none ↦ if if_exists then ok tables else err (missing_index name)
      | some i ↦ drop_index table_name name i t tables
    ]
