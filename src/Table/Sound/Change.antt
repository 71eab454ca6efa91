-- ===== src/Table/Sound/Change.antt =====
-- src/sql/executor.rs: UPDATE and DELETE keep the tables sound.
use rusty_db.Prelude.{
  ℕ, suc, ◌<◌, Bool, true, false, Option, some, List, [], ◌∷◌, All, length, drop, ◌≡◌, refl, ap,
  sym, ◌∙◌, subst, arith, ok, bind-ok, ok_injective,
}
use rusty_db.Prelude.Keyed.{find, AllValues}
use rusty_db.Sql.Number.{Runtime}
use rusty_db.Sql.Types.{Text}
use rusty_db.Sql.Expr.{Expr, OptExpr, Query}
use rusty_db.Sql.Operators.{BoundColumn, Relation, Evaluated}
use rusty_db.Table.Schema.{TableSchema, some_or, missing_table}
use rusty_db.Table.Keys.{keyed_by_text}
use rusty_db.Table.Bloom.{IndexRuntime}
use rusty_db.Table.Store.{Row, Table}
use rusty_db.Table.Indexed.{IsIncreasing}
use rusty_db.Table.Indexed.Rebuild.{rebuild_index-IsIndexed}
use rusty_db.Table.Declared.{rebuild_index-IsDeclared}
use rusty_db.Table.Scan.{bound_columns, candidate_row_ids}
use rusty_db.Table.Validate.{Tables}
use rusty_db.Table.Insert.{to_ascii_lowercase}
use rusty_db.Table.Change.{
  selection_of, first_id, is_selected, assign_if, update_rows, keep_if, delete_rows, update_table,
  delete_from, execute_update, execute_delete,
}
use rusty_db.Table.Sound.{IsSound, IsStored, finish-IsSound, find-AllValues, some_or-ok}

-- The IDs that are left are some of those that were there, in their order, one for each row.
record IsRest (ids : List ℕ) (p : List Row × List ℕ × ℕ) : Type 1 where
  same_length : length p.1 ≡ length p.0
  keeps : (P : ℕ → Type 0) → All P ids → All P p.1
  increasing : IsIncreasing ids → IsIncreasing p.1

keep_if-IsRest :
    (selected : Bool) (row : Row) (id : ℕ) (ids : List ℕ) (rest p : List Row × List ℕ × ℕ)
    → IsRest ids rest
    → keep_if selected row (some id) rest ≡ ok p
    → IsRest (id ∷ ids) p
keep_if-IsRest true row id ids (rows, left, n) p h e =
    subst (IsRest (id ∷ ids)) (ok_injective _ _ _ refl e) (record {
      same_length = h.same_length;
      keeps = λ P all. h.keeps P all.1;
      increasing = λ inc. h.increasing inc.1;
    })
keep_if-IsRest false row id ids (rows, left, n) p h e =
    subst (IsRest (id ∷ ids)) (ok_injective _ _ _ refl e) (record {
      same_length = ap suc h.same_length;
      keeps = λ P all. (all.0, h.keeps P all.1);
      increasing = λ inc. (h.keeps (λ later. id < later) inc.0, h.increasing inc.1);
    })

module _ (rt : Runtime) (run : Query → Evaluated Relation) (columns : List BoundColumn) where
  length-update_rows :
      (candidates : Option (List ℕ)) (selection : OptExpr) (schema : TableSchema)
      (assignments : List (Text × Expr)) (rows : List Row) (ids : List ℕ) (p : List Row × ℕ)
      → update_rows rt run columns candidates selection schema assignments rows ids ≡ ok p
      → length p.0 ≡ length rows
  unfolding update_rows
  length-update_rows candidates selection schema assignments [] ids p e =
      ap (λ (q : List Row × ℕ). length q.0) (sym (ok_injective _ _ _ refl e))
  length-update_rows candidates selection schema assignments (row ∷ rows) ids p e =
      let (selected, _, e₁) =
        bind-ok (is_selected rt run columns candidates selection row (first_id ids)) _ p e in
      let (changed, _, e₂) =
        bind-ok (assign_if rt run columns selected schema row assignments) _ p e₁ in
      let (rest, step, e₃) =
        bind-ok
          (update_rows rt run columns candidates selection schema assignments rows (drop 1 ids)) _ p
          e₂ in
      ap (λ (q : List Row × ℕ). length q.0) (sym (ok_injective _ _ _ refl e₃))
      ∙ ap suc
          (length-update_rows candidates selection schema assignments rows (drop 1 ids) rest step)

  delete_rows-IsRest :
      (candidates : Option (List ℕ)) (selection : OptExpr) (rows : List Row) (ids : List ℕ)
      (p : List Row × List ℕ × ℕ)
      → length ids ≡ length rows
      → delete_rows rt run columns candidates selection rows ids ≡ ok p
      → IsRest ids p
  unfolding delete_rows
  delete_rows-IsRest candidates selection [] [] p l e =
      subst (IsRest []) (ok_injective _ _ _ refl e)
        (record { same_length = refl; keeps = λ P all. tt; increasing = λ inc. tt })
  delete_rows-IsRest candidates selection [] (id ∷ ids) p l e = absurd (omega arith)
  delete_rows-IsRest candidates selection (row ∷ rows) [] p l e = absurd (omega arith)
  delete_rows-IsRest candidates selection (row ∷ rows) (id ∷ ids) p l e =
      let (selected, _, e₁) =
        bind-ok (is_selected rt run columns candidates selection row (some id)) _ p e in
      let (rest, step, e₂) =
        bind-ok (delete_rows rt run columns candidates selection rows ids) _ p e₁ in
      keep_if-IsRest selected row id ids rest p
        (delete_rows-IsRest candidates selection rows ids rest (omega arith) step) e₂

module _ (ir : IndexRuntime) (rt : Runtime) (run : Tables → Query → Evaluated Relation) where
  update_table-IsStored :
      (tables : Tables) (name : Text) (assignments : List (Text × Expr)) (selection : OptExpr)
      (t : Table) (p : Table × ℕ)
      → IsStored ir t
      → update_table rt run ir tables name assignments selection t ≡ ok p
      → IsStored ir p.0
  unfolding update_table
  update_table-IsStored tables name assignments selection t p (h, declared) e =
      let ((rows, n), step, made) =
        bind-ok
          (update_rows rt (run tables) (bound_columns name t.schema)
            (candidate_row_ids ir (selection_of selection) t).0 selection t.schema assignments
            t.rows t.row_ids)
          _ p e in
      subst (λ (q : Table × ℕ). IsStored ir q.0) (ok_injective _ _ _ refl made)
        (
          rebuild_index-IsIndexed ir (record t { rows = rows })
              (h.same_length
                ∙ sym (
                    length-update_rows rt (run tables) (bound_columns name t.schema) _ selection
                      t.schema assignments t.rows t.row_ids (rows, n) step))
              h.increasing h.below_next,
          rebuild_index-IsDeclared ir (record t { rows = rows }) declared.names_differ,
        )

  delete_from-IsStored :
      (tables : Tables) (name : Text) (selection : OptExpr) (t : Table) (p : Table × ℕ)
      → IsStored ir t
      → delete_from rt run ir tables name selection t ≡ ok p
      → IsStored ir p.0
  unfolding delete_from
  delete_from-IsStored tables name selection t p (h, declared) e =
      let ((rows, ids, n), step, made) =
        bind-ok
          (delete_rows rt (run tables) (bound_columns name t.schema)
            (candidate_row_ids ir (selection_of selection) t).0 selection t.rows t.row_ids)
          _ p e in
      let rest =
        delete_rows-IsRest rt (run tables) (bound_columns name t.schema) _ selection t.rows
          t.row_ids (rows, ids, n) h.same_length step in
      subst (λ (q : Table × ℕ). IsStored ir q.0) (ok_injective _ _ _ refl made)
        (
          rebuild_index-IsIndexed ir (record t { rows = rows; row_ids = ids }) rest.same_length
              (rest.increasing h.increasing) (rest.keeps (λ id. id < t.next_row_id) h.below_next),
          rebuild_index-IsDeclared ir (record t { rows = rows; row_ids = ids })
              declared.names_differ,
        )

  -- When UPDATE succeeds on tables that have the indexes which their schemas declare, under
  -- different names, and whose indexes follow their rows, then all tables are so again, each
  -- row fits the schema, and no two rows share a key without NULL in the columns of a unique
  -- index that the schema declares.
  pub execute_update-IsSound :
      (table_name : Text) (assignments : List (Text × Expr)) (selection : OptExpr)
      (tables after : Tables) (count : ℕ)
      → AllValues (IsStored ir) tables
      → execute_update rt run ir table_name assignments selection tables ≡ (ok count, after)
      → AllValues (IsSound ir) after
  unfolding execute_update
  execute_update-IsSound table_name assignments selection tables after count h done =
      let name = to_ascii_lowercase table_name in
      finish-IsSound ir rt run name _ tables after count h
        (λ u m made.
          let (t, found, made₁) =
            bind-ok (some_or (missing_table name) (find name tables)) _ (u, m) made in
          update_table-IsStored tables name assignments selection t (u, m)
            (find-AllValues (IsStored ir) name tables (some_or-ok _ (find name tables) found) h)
            made₁)
        done

  -- When DELETE succeeds on tables that have the indexes which their schemas declare, under
  -- different names, and whose indexes follow their rows, then all tables are so again, each
  -- row fits the schema, and no two rows share a key without NULL in the columns of a unique
  -- index that the schema declares.
  pub execute_delete-IsSound :
      (table_name : Text) (selection : OptExpr) (tables after : Tables) (count : ℕ)
      → AllValues (IsStored ir) tables
      → execute_delete rt run ir table_name selection tables ≡ (ok count, after)
      → AllValues (IsSound ir) after
  unfolding execute_delete
  execute_delete-IsSound table_name selection tables after count h done =
      let name = to_ascii_lowercase table_name in
      finish-IsSound ir rt run name _ tables after count h
        (λ u m made.
          let (t, found, made₁) =
            bind-ok (some_or (missing_table name) (find name tables)) _ (u, m) made in
          delete_from-IsStored tables name selection t (u, m)
            (find-AllValues (IsStored ir) name tables (some_or-ok _ (find name tables) found) h)
            made₁)
        done
