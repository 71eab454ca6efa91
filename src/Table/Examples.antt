-- ===== src/Table/Examples.antt =====
-- The theorems on tables at concrete inputs.
use rusty_db.Sql.Eval.{eval_expr}
use rusty_db.Prelude.{
  ◌≢◌, ◌++◌, ok_injective, subst, ℕ, Bool, true, false, none, some, List, [], ◌∷◌, ◌+◌, ◌≤◌, length,
  ok, err, u64_max, ◌≡◌, refl, arith,
}
use rusty_db.Prelude.Int.{ℤ, pos}
use rusty_db.Prelude.Keyed.{contains, find, AllValues}
use rusty_db.Sql.Number.{float_partial_cmp, Runtime}
use rusty_db.Sql.Types.{
  is_compatible_with, truth_value, Text, Value, DataType, SqlTruth, ComparisonOp, compare_sql,
}
use rusty_db.Sql.Expr.{
  Expr, Exprs, Query, BinaryOp, binary, column, literal, no_exprs, cons_expr, some_expr,
}
use rusty_db.Sql.Operators.{
  resolve_column, BoundColumn, text_eq, eq_ignore_ascii_case, eq_ignore_ascii_case, Relation,
  Evaluated, query_error,
}
use rusty_db.Sql.Statement.{ColumnDef, values}
use rusty_db.Table.Schema.{Executed, column_index, TableSchema, IndexDef}
use rusty_db.Table.Keys.{
  same_key, has_null_part, keyed_by_number, keyed_by_text, keyed_by_parts, KeyPart,
}
use rusty_db.Table.Bloom.{new_filter, IndexRuntime}
use rusty_db.Table.Store.{Row, Table, rebuild_index, build_index, unique_conflict_positions}
use rusty_db.Table.Indexed.{some_injective, IsIndexed}
use rusty_db.Table.Indexed.Rebuild.{rebuild_index-IsIndexed}
use rusty_db.Table.Declared.{rebuild_index-IsDeclared}
use rusty_db.Table.Conflicts.{unique_conflict_positions-shares_unique_key}
use rusty_db.Table.Scan.{
  collect_index_predicates, candidate_row_ids, is_candidate, relation_from_table, select_rows,
}
use rusty_db.Table.Scan.Predicates.{value_of}
use rusty_db.Table.Scan.Complete.{relation_from_table-select_rows}
use rusty_db.Table.Validate.{Tables}
use rusty_db.Table.Insert.{source_values, execute_insert}
use rusty_db.Table.Change.{execute_update, execute_delete}
use rusty_db.Table.Sound.{IsSound, IsStored, execute_insert-IsSound}
use rusty_db.Table.Sound.Change.{execute_update-IsSound, execute_delete-IsSound}
use rusty_db.Table.Faults.{integer_misses_float, joined_selection_misses, is_number}

abbrev toy : Runtime
toy = record {
  float_add = λ a b. a + b;
  float_sub = λ a b. a;
  float_mul = λ a b. a;
  float_div = λ a b. a;
  float_of_int = λ n. 7;
  int_of_float = λ x. pos x;
  to_lowercase = λ t. t;
}

abbrev small : IndexRuntime
small = record {
  raw_bit_count = λ n rate. 64;
  raw_hash_count = λ bits n. 1;
  clamp_rate = λ rate. rate;
  debug_bytes = λ key. length key ∷ [];
  display = λ v. [];
}

abbrev no_queries : Tables → Query → Evaluated Relation
no_queries tables q = err (query_error [])

abbrev int : ℕ → Value
int n = Value.integer (pos n)

abbrev named : Text → DataType → ColumnDef
named name kind = record {
  name = name;
  data_type = kind;
  nullable = true;
  primary_key = false;
  unique = false;
  default = none;
  checks = [];
}

abbrev by_a : Bool → IndexDef
by_a is_unique = record {
  name = b'i' ∷ [];
  columns = (b'a' ∷ []) ∷ [];
  unique = is_unique;
  automatic = false;
}

-- The columns `a` and `b`, with a unique index on `a`.
abbrev pairs : TableSchema
pairs = record {
  name = b't' ∷ [];
  columns = named (b'a' ∷ []) DataType.integer ∷ named (b'b' ∷ []) DataType.integer ∷ [];
  constraints = [];
  indexes = by_a true ∷ [];
}

abbrev bare : TableSchema → List Row → List ℕ → Table
bare schema rows ids = record {
  schema = schema;
  rows = rows;
  row_ids = ids;
  next_row_id = 9;
  primary_key_index = [];
  indexes = [];
  bloom_false_positive_rate = 0;
}

abbrev first_row : Row
first_row = int 1 ∷ int 10 ∷ []

abbrev second_row : Row
second_row = int 2 ∷ int 20 ∷ []

abbrev raw : Table
raw = bare pairs (first_row ∷ second_row ∷ []) (3 ∷ 5 ∷ [])

two_rows : Table
two_rows = rebuild_index small raw

two_rows-IsIndexed : IsIndexed small two_rows
unfolding two_rows
two_rows-IsIndexed =
    rebuild_index-IsIndexed small raw refl (((omega arith, tt), (tt, tt)))
      ((omega arith, (omega arith, tt)))

two_rows-IsStored : IsStored small two_rows
unfolding two_rows
two_rows-IsStored = (two_rows-IsIndexed, rebuild_index-IsDeclared small raw (tt, tt))

unique_conflict_positions-shares_unique_key_example :
    contains 1 (unique_conflict_positions small (int 2 ∷ int 99 ∷ []) two_rows) ≡ true
unfolding two_rows rebuild_index eq_ignore_ascii_case has_null_part same_key
unique_conflict_positions-shares_unique_key_example =
    unique_conflict_positions-shares_unique_key small two_rows (int 2 ∷ int 99 ∷ []) second_row 1
      two_rows-IsIndexed refl

-- `a = 2`
abbrev a_is_two : Expr
a_is_two = binary (column none (b'a' ∷ [])) (BinaryOp.compare ComparisonOp.equal) (literal (int 2))

abbrev on_two : Row → Evaluated Value
on_two row = value_of toy (no_queries []) (b't' ∷ []) pairs row a_is_two

relation_from_table-select_rows_example :
    select_rows on_two (relation_from_table small two_rows (b't' ∷ []) (some a_is_two)).rows
    ≡ ok (second_row ∷ [])
unfolding two_rows rebuild_index eq_ignore_ascii_case collect_index_predicates select_rows eval_expr
    truth_value
relation_from_table-select_rows_example =
    relation_from_table-select_rows small toy (no_queries []) (b't' ∷ []) two_rows a_is_two
      (second_row ∷ []) two_rows-IsIndexed
      ((
        ((KeyPart.integer (pos 1) ∷ [], refl), tt),
        (((KeyPart.integer (pos 2) ∷ [], refl), tt), tt),
      ))
      (((refl, tt), ((refl, tt), tt))) refl

abbrev tables : Tables
tables = (b't' ∷ [], two_rows) ∷ []

abbrev new_values : Exprs
new_values = cons_expr (literal (int 4)) (cons_expr (literal (int 40)) no_exprs)

inserted : Tables
inserted =
    (execute_insert toy no_queries small (b'T' ∷ []) none (values (new_values ∷ [])) [] tables).1

room :
    (t : Table) (rows : List Exprs)
    → find (b't' ∷ []) tables ≡ some t
    → ◌≡◌ {A = Executed (List Exprs)} (ok (new_values ∷ [])) (ok rows)
    → t.next_row_id + length rows ≤ u64_max
unfolding two_rows find text_eq rebuild_index
room t rows found given =
    subst (λ (v : Table). v.next_row_id + length rows ≤ u64_max) (some_injective found)
      (subst (λ (r : List Exprs). 9 + length r ≤ u64_max) (ok_injective _ _ _ refl given)
        (omega arith))

execute_insert-IsSound_example : AllValues (IsSound small) inserted
unfolding inserted source_values execute_insert two_rows rebuild_index new_filter is_compatible_with
execute_insert-IsSound_example =
    execute_insert-IsSound small toy no_queries (b'T' ∷ []) none (values (new_values ∷ [])) []
      tables inserted 1 (two_rows-IsStored, tt) room refl

updated : Tables
updated =
    (execute_update toy no_queries small (b't' ∷ []) ((b'b' ∷ [], literal (int 7)) ∷ [])
      (some_expr a_is_two) tables).1

execute_update-IsSound_example : AllValues (IsSound small) updated
unfolding updated execute_update two_rows new_filter same_key truth_value is_compatible_with
execute_update-IsSound_example =
    execute_update-IsSound small toy no_queries (b't' ∷ []) ((b'b' ∷ [], literal (int 7)) ∷ [])
      (some_expr a_is_two) tables updated 1 (two_rows-IsStored, tt) refl

deleted : Tables
deleted = (execute_delete toy no_queries small (b't' ∷ []) (some_expr a_is_two) tables).1

execute_delete-IsSound_example : AllValues (IsSound small) deleted
unfolding deleted execute_delete two_rows new_filter same_key truth_value is_compatible_with
execute_delete-IsSound_example =
    execute_delete-IsSound small toy no_queries (b't' ∷ []) (some_expr a_is_two) tables deleted 1
      (two_rows-IsStored, tt) refl

-- A column of floats with an index, and a row with the float that 7 becomes.
abbrev floats : TableSchema
floats = record {
  name = b't' ∷ [];
  columns = named (b'a' ∷ []) DataType.float ∷ [];
  constraints = [];
  indexes = by_a false ∷ [];
}

abbrev sevens : Table
sevens = bare floats ((Value.float 7 ∷ []) ∷ []) (4 ∷ [])

one_float : Table
one_float = rebuild_index small sevens

integer_misses_float_example :
    (compare_sql toy (Value.float 7) (int 3) ComparisonOp.equal ≡ SqlTruth.true)
    × (is_candidate
          (candidate_row_ids small
            (some (
              binary
                (column none (b'a' ∷ []))
                (BinaryOp.compare ComparisonOp.equal)
                (literal (int 3))))
            one_float).0
          (some 4)
        ≡ false)
unfolding one_float rebuild_index column_index eq_ignore_ascii_case float_partial_cmp
integer_misses_float_example =
    integer_misses_float small toy one_float (b'i' ∷ []) (b'a' ∷ []) none
      (build_index small sevens (by_a false)) (pos 3) 0 4 0 7 (Value.float 7 ∷ [])
      (rebuild_index-IsIndexed small sevens refl (tt, tt) (omega arith, tt)) refl refl refl refl
      refl refl refl

abbrev two_of_u : Value
two_of_u = int 2

abbrev joined_columns : List BoundColumn
joined_columns =
    record { table = b't' ∷ []; name = b'a' ∷ [] }
    ∷ record { table = b't' ∷ []; name = b'b' ∷ [] }
    ∷ record { table = b'u' ∷ []; name = b'a' ∷ [] }
    ∷ []

pos_differs : ◌≢◌ {A = ℤ} (pos 2) (pos 1)
pos_differs h = absurd cc

-- `u.a = 2` on the join of the table with another that has a column of the same name.
joined_selection_misses_example :
    (eval_expr toy
        (no_queries [])
        joined_columns
        (first_row ++ two_of_u ∷ [])
        none
        (is_number (b'u' ∷ []) (b'a' ∷ []) (pos 2))
      ≡ ok (Value.boolean true))
    × (is_candidate
          (candidate_row_ids small (some (is_number (b'u' ∷ []) (b'a' ∷ []) (pos 2))) two_rows).0
          (some 3)
        ≡ false)
unfolding two_rows rebuild_index eq_ignore_ascii_case resolve_column
joined_selection_misses_example =
    joined_selection_misses small toy (no_queries []) two_rows (b'i' ∷ []) (b'a' ∷ []) (b'u' ∷ [])
      (build_index small raw (by_a true)) (pos 1) (pos 2) 0 3 0 2 first_row (two_of_u ∷ [])
      joined_columns two_rows-IsIndexed refl refl refl refl refl refl pos_differs refl refl
