-- ===== src/Table/Faults.antt =====
-- src/sql/executor.rs: where a lookup in an index differs from the comparison it serves: it does not
-- convert numbers, and it looks at the name of a column without the table before it.
use rusty_db.Prelude.{
  none, ◌++◌, ok, List, inr, inl, Bool-cases, arith, ◌≢◌, ◌-◌, ◌+◌, if_both, subst, map, ℕ, ◌^◌,
  true, false, Option, some, [], ◌∷◌, get_elem?, if◌then◌else◌, ◌≡◌, refl, ap, ◌∙◌,
}
use rusty_db.Prelude.Int.{ℤ}
use rusty_db.Prelude.Keyed.{same-eq, same, AllValues, contains}
use Prim.Native.Nat.{Ordering}
use rusty_db.Sql.Number.{compare_ℤ, Runtime, float_partial_cmp, sign_bit}
use rusty_db.Sql.Types.{
  truth_value, compare_sql, compare_result, partial_cmp, Text, Value, SqlTruth, ComparisonOp,
}
use rusty_db.Sql.Expr.{Query, Expr, BinaryOp, binary, column, literal}
use rusty_db.Sql.Eval.{eval_expr}
use rusty_db.Sql.Operators.{
  eval_binary, resolve_column, Evaluated, BoundColumn, Relation, ascii_lower, eq_ignore_ascii_case,
}
use rusty_db.Table.Keys.{
  KeyPart, IndexKey, from_value, text_eq_refl, keyed_by_number, keyed_by_parts, same_key,
}
use rusty_db.Table.Bloom.{IndexRuntime, might_contain}
use rusty_db.Table.Index.{BtreeIndex, ids_at, holds}
use rusty_db.Table.Schema.{column_index}
use rusty_db.Table.Store.{key_part, and_then, Row, Table, index_key}
use rusty_db.Table.Indexed.{Reflects, IsIndexed, key_in, has_row-get_elem?}
use rusty_db.Table.Scan.{
  collect_index_predicates, predicate_of, find_predicate, plan_index, better, best_index,
  candidate_row_ids, is_candidate,
}

name_itself : (name : Text) → eq_ignore_ascii_case name name ≡ true
unfolding eq_ignore_ascii_case
name_itself name = text_eq_refl (map ascii_lower name)

-- `q.name = n`
abbrev pub is_number : Text → Text → ℤ → Expr
is_number q name n =
    binary (column (some q) name) (BinaryOp.compare ComparisonOp.equal) (literal (Value.integer n))

search_misses_key :
    (ir : IndexRuntime) (t : Table) (index_name name : Text) (q : Option Text) (index : BtreeIndex)
    (n : ℤ) (at id : ℕ) (part : KeyPart) (row : Row)
    → IsIndexed ir t
    → t.indexes ≡ (index_name, index) ∷ []
    → index.definition.columns ≡ name ∷ []
    → get_elem? t.rows at ≡ some row
    → get_elem? t.row_ids at ≡ some id
    → index_key t.schema row (name ∷ []) ≡ some (part ∷ [])
    → same (KeyPart.integer n ∷ []) (part ∷ []) ≡ false
    → is_candidate
        (candidate_row_ids ir
          (some (
            binary
              (column q name)
              (BinaryOp.compare ComparisonOp.equal)
              (literal (Value.integer n))))
          t).0
        (some id)
      ≡ false
unfolding candidate_row_ids collect_index_predicates predicate_of best_index better plan_index
    find_predicate
search_misses_key ir t index_name name q index n at id part row h one columns there id_there key
      differ =
    let searched : IndexKey = KeyPart.integer n ∷ [] in
    let reflects = (subst (AllValues (Reflects ir t.schema t.rows t.row_ids)) one h.reflects).0 in
    let other : key_in t.schema index row ≡ some (part ∷ []) =
      ap (λ names. index_key t.schema row names) columns ∙ key in
    let absent : contains id (ids_at searched index.entries) ≡ false =
      reflects.ids searched id
      ∙ has_row-get_elem? (key_in t.schema index) t.rows t.row_ids at row id searched h.increasing
          there id_there
      ∙ ap (holds searched) other
      ∙ differ in
    rw (one, columns, name_itself name)
      (if_both (λ ids. contains id ids ≡ false) (might_contain ir index.bloom searched)
        (ids_at searched index.entries) [] absent refl)

-- In a table whose indexes follow its rows and that has one index, of one column: a row that has
-- a float there which equals an integer satisfies the comparison of the column with the integer,
-- and the index leaves the row out.
pub integer_misses_float :
    (ir : IndexRuntime) (rt : Runtime) (t : Table) (index_name name : Text) (q : Option Text)
    (index : BtreeIndex) (n : ℤ) (at id i x : ℕ) (row : Row)
    → IsIndexed ir t
    → t.indexes ≡ (index_name, index) ∷ []
    → index.definition.columns ≡ name ∷ []
    → get_elem? t.rows at ≡ some row
    → get_elem? t.row_ids at ≡ some id
    → column_index t.schema name ≡ some i
    → get_elem? row i ≡ some (Value.float x)
    → float_partial_cmp x (rt.float_of_int n) ≡ some Ordering.eq
    → (compare_sql rt (Value.float x) (Value.integer n) ComparisonOp.equal ≡ SqlTruth.true)
      × (is_candidate
            (candidate_row_ids ir
              (some (
                binary
                  (column q name)
                  (BinaryOp.compare ComparisonOp.equal)
                  (literal (Value.integer n))))
              t).0
            (some id)
          ≡ false)
unfolding compare_sql compare_result partial_cmp index_key key_part and_then from_value same_key
integer_misses_float ir rt t index_name name q index n at id i x row h one columns there id_there
      found value equal =
    (
      rw equal,
      search_misses_key ir t index_name name q index n at id
          (KeyPart.float (if sign_bit x then 2 ^ 64 - 1 - x else x + 2 ^ 63)) row h one columns
          there id_there (rw (found, value)) refl,
    )

compare_ℤ_refl : (n : ℤ) → compare_ℤ n n ≡ Ordering.eq
compare_ℤ_refl n = ground arith

same_integer : {m n : ℤ} → KeyPart.integer m ∷ [] ≡ KeyPart.integer n ∷ [] → m ≡ n
same_integer h = cc

keys_differ : (m n : ℤ) → m ≢ n → same (KeyPart.integer m ∷ []) (KeyPart.integer n ∷ []) ≡ false
keys_differ m n h = elim (Bool-cases (same (KeyPart.integer m ∷ []) (KeyPart.integer n ∷ []))) [
  | inl e ↦ absurd (h (same_integer (same-eq (KeyPart.integer m ∷ []) (KeyPart.integer n ∷ []) e)))
  | inr e ↦ e
]

-- In a table whose indexes follow its rows and that has one index, of one column, which is
-- another integer than n in a row: when the condition `q.name = n`, with the name of that column,
-- stands for a column of another table in a join, it holds of the row joined with a row that has
-- n there, and the index that is chosen for the condition leaves the row out.
pub joined_selection_misses :
    (ir : IndexRuntime) (rt : Runtime) (run : Query → Evaluated Relation) (t : Table)
    (index_name name q : Text) (index : BtreeIndex) (m n : ℤ) (at id i j : ℕ) (row other : Row)
    (columns : List BoundColumn)
    → IsIndexed ir t
    → t.indexes ≡ (index_name, index) ∷ []
    → index.definition.columns ≡ name ∷ []
    → get_elem? t.rows at ≡ some row
    → get_elem? t.row_ids at ≡ some id
    → column_index t.schema name ≡ some i
    → get_elem? row i ≡ some (Value.integer m)
    → n ≢ m
    → resolve_column columns (some q) name ≡ ok j
    → get_elem? (row ++ other) j ≡ some (Value.integer n)
    → (eval_expr rt run columns (row ++ other) none (is_number q name n) ≡ ok (Value.boolean true))
      × (is_candidate (candidate_row_ids ir (some (is_number q name n)) t).0 (some id) ≡ false)
unfolding compare_sql compare_result partial_cmp index_key key_part and_then from_value eval_expr
    eval_binary truth_value
joined_selection_misses ir rt run t index_name name q index m n at id i j row other columns h one
      named there id_there found value differ resolved elsewhere =
    (
      rw (resolved, elsewhere, compare_ℤ_refl n),
      search_misses_key ir t index_name name (some q) index n at id (KeyPart.integer m) row h one
          named there id_there (rw (found, value)) (keys_differ n m differ),
    )
