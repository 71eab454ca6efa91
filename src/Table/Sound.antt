-- ===== src/Table/Sound.antt =====
-- src/sql/executor.rs: INSERT, UPDATE and DELETE keep the tables sound.
pub mod Change
use rusty_db.Prelude.{
  subst, ℕ, zero, suc, ◌+◌, ◌≤◌, ◌<◌, Bool, true, false, Option, none, some, List, [], ◌∷◌, All,
  length, get_elem?, drop, if◌then◌else◌, u64_max, ◌≡◌, refl, ap, sym, ◌∙◌, arith, ok, err, ◌>>=◌,
  bind-ok, ok_injective, Bool-cases, Option-cases, inl, inr,
}
use rusty_db.Prelude.Keyed.{same, contains, find, put, AllValues, AllValues-put, same-eq}
use rusty_db.Sql.Number.{Runtime}
use rusty_db.Sql.Types.{Text}
use rusty_db.Sql.Expr.{Expr, Exprs, OptExpr, Query}
use rusty_db.Sql.Operators.{panicked, BoundColumn, Relation, Evaluated}
use rusty_db.Sql.Statement.{InsertSource}
use rusty_db.Table.Schema.{
  evaluation, ExecError, Executed, TableSchema, validate_row, some_or, missing_table,
}
use rusty_db.Table.Keys.{keyed_by_text}
use rusty_db.Table.Bloom.{IndexRuntime}
use rusty_db.Table.Store.{
  row_id_at, row_at, Row, Table, insert_row_indexed, replace_row_indexed, unique_conflict_positions,
  rebuild_index,
}
use rusty_db.Table.Indexed.{some_injective, IsIndexed, IsIncreasing}
use rusty_db.Table.Indexed.Rebuild.{rebuild_index-IsIndexed}
use rusty_db.Table.Indexed.Rows.{insert_row_indexed-IsIndexed, replace_row_indexed-IsIndexed}
use rusty_db.Table.Declared.{
  IsDeclared, insert_row_indexed-IsDeclared, replace_row_indexed-IsDeclared,
}
use rusty_db.Table.Scan.{bound_columns}
use rusty_db.Table.Unique.{IsUnique, validate_unique_indexes-IsUnique}
use rusty_db.Table.Validate.{
  same_values, Tables, validate_rows, validate_checks, validate_unique_indexes, validate_tables,
  validate_foreign_keys, validate_catalog,
}
use rusty_db.Table.Insert.{
  order_values, eval_constants, to_ascii_lowercase, build_rows, insert_rows, resolve_conflict,
  update_duplicate, assign_duplicate, source_values, install, finish, execute_insert,
}

-- A table that has the indexes its schema declares, and whose indexes follow its rows.
abbrev pub IsStored : IndexRuntime → Table → Type 0
IsStored ir t = IsIndexed ir t × IsDeclared t

-- Besides, its rows fit its schema, and its unique keys are unique.
pub record IsSound (ir : IndexRuntime) (t : Table) : Type 0 where
  pub indexed : IsIndexed ir t
  pub declared : IsDeclared t
  pub valid : All (λ row. validate_row t.schema row ≡ ok tt) t.rows
  pub unique : IsUnique t

pub some_or-ok :
    {A : Type 0} (e : ExecError) (o : Option A) {a : A} → some_or e o ≡ ok a → o ≡ some a
some_or-ok e none h = ground arith
some_or-ok e (some b) h = ground arith

either_table :
    (P : Table → Type 0) (b : Bool) (u : Table) (later : Option Table) {t : Table}
    → (if b then some u else later) ≡ some t
    → P u
    → (later ≡ some t → P t)
    → P t
either_table P true u later h here rest = subst P (some_injective h) here
either_table P false u later h here rest = rest h

-- What all tables satisfy, the one that is found satisfies.
pub find-AllValues :
    (P : Table → Type 0) (name : Text) (tables : Tables) {t : Table}
    → find name tables ≡ some t
    → AllValues P tables
    → P t
unfolding find
find-AllValues P name [] h all = absurd (cc h)
find-AllValues P name ((other, u) ∷ tables) {t} h all =
    either_table P (same name other) u (find name tables) h all.0
      (λ e. find-AllValues P name tables e all.1)

next_row_id-insert_row_indexed :
    (ir : IndexRuntime) (t u : Table) (row : Row)
    → insert_row_indexed ir row t ≡ ok u
    → u.next_row_id ≤ t.next_row_id + 1
unfolding insert_row_indexed
next_row_id-insert_row_indexed ir t u row e =
    let (_, _, made) = bind-ok (validate_row t.schema row) _ u e in
    subst (λ (v : Table). v.next_row_id ≤ t.next_row_id + 1) (ok_injective _ _ _ refl made)
      (omega arith)

next_row_id-replace_row_indexed :
    (ir : IndexRuntime) (t u : Table) (at : ℕ) (row : Row)
    → replace_row_indexed ir at row t ≡ ok u
    → u.next_row_id ≤ t.next_row_id + 1
unfolding replace_row_indexed
next_row_id-replace_row_indexed ir t u at row e =
    let (_, _, e₁) = bind-ok (validate_row t.schema row) _ u e in
    let (_, _, e₂) = bind-ok (row_at (get_elem? t.rows at)) _ u e₁ in
    let (_, _, made) = bind-ok (row_id_at (get_elem? t.row_ids at)) _ u e₂ in
    subst (λ (v : Table). v.next_row_id ≤ t.next_row_id + 1) (ok_injective _ _ _ refl made)
      (omega arith)

module _ (ir : IndexRuntime) (rt : Runtime) where
  validate_rows-valid :
      (run : Query → Evaluated Relation) (t : Table) (rows : List Row)
      → validate_rows rt run t rows ≡ ok tt
      → All (λ row. validate_row t.schema row ≡ ok tt) rows
  unfolding validate_rows
  validate_rows-valid run t [] h = tt
  validate_rows-valid run t (row ∷ rows) h =
      let (_, here, h₁) = bind-ok (validate_row t.schema row) _ tt h in
      let (_, _, later) = bind-ok (validate_checks rt run t row) _ tt h₁ in
      (here, validate_rows-valid run t rows later)

  validate_tables-IsSound :
      (run : Query → Evaluated Relation) (tables : Tables)
      → AllValues (IsStored ir) tables
      → validate_tables rt run tables ≡ ok tt
      → AllValues (IsSound ir) tables
  unfolding validate_tables
  validate_tables-IsSound run [] h v = tt
  validate_tables-IsSound run ((name, t) ∷ tables) (h, hs) v =
      let (_, rows_valid, v₁) = bind-ok (validate_rows rt run t t.rows) _ tt v in
      let (_, keys_unique, later) = bind-ok (validate_unique_indexes t) _ tt v₁ in
      (
        record {
          indexed = h.0;
          declared = h.1;
          valid = validate_rows-valid run t t.rows rows_valid;
          unique = validate_unique_indexes-IsUnique ir t h.0 h.1 keys_unique;
        },
        validate_tables-IsSound run tables hs later,
      )

  -- A catalog that passes the checks is sound, when its indexes follow its rows.
  pub validate_catalog-IsSound :
      (run : Query → Evaluated Relation) (tables : Tables)
      → AllValues (IsStored ir) tables
      → validate_catalog rt run tables ≡ ok tt
      → AllValues (IsSound ir) tables
  unfolding validate_catalog
  validate_catalog-IsSound run tables h v =
      let (_, tables_valid, _) = bind-ok (validate_tables rt run tables) _ tt v in
      validate_tables-IsSound run tables h tables_valid

  module _ (run : Tables → Query → Evaluated Relation) where
    pub finish-IsSound :
        (name : Text) (outcome : Executed (Table × ℕ)) (tables after : Tables) (count : ℕ)
        → AllValues (IsStored ir) tables
        → ((t : Table) (n : ℕ) → outcome ≡ ok (t, n) → IsStored ir t)
        → finish rt run name outcome tables ≡ (ok count, after)
        → AllValues (IsSound ir) after
    unfolding finish install
    finish-IsSound name (err e) tables after count h made done = absurd (ground arith)
    finish-IsSound name (ok (t, n)) tables after count h made done =
        let (_, passed, _) =
          bind-ok (validate_catalog rt (run (put name t tables)) (put name t tables)) _ count
            (ap (λ p. p.0) done) in
        subst (AllValues (IsSound ir)) (ap (λ p. p.1) done) (
          validate_catalog-IsSound (run (put name t tables)) (put name t tables)
            (AllValues-put (IsStored ir) name t tables (made t n refl) h) passed)

    -- A table that was changed and has given no more than one ID.
    abbrev Kept : Table → Table × ℕ → Type 0
    Kept t p = IsStored ir p.0 × (p.0.next_row_id ≤ t.next_row_id + 1)

    inserted :
        (row : Row) (t : Table) (n : ℕ) (p : Table × ℕ)
        → IsStored ir t
        → t.next_row_id < u64_max
        → insert_row_indexed ir row t >>= (λ v. ok (v, n + 1)) ≡ ok p
        → Kept t p
    inserted row t n p h room made =
        let (v, step, e) = bind-ok (insert_row_indexed ir row t) _ p made in
        subst (Kept t) (ok_injective _ _ _ refl e) (
          (
            insert_row_indexed-IsIndexed ir t v row h.0 room step,
            insert_row_indexed-IsDeclared ir t v row h.1 step,
          ),
          next_row_id-insert_row_indexed ir t v row step,
        )

    replaced :
        (unchanged : Bool) (at : ℕ) (updated : Row) (t : Table) (n : ℕ) (p : Table × ℕ)
        → IsStored ir t
        → (if unchanged
            then ok (t, n)
            else replace_row_indexed ir at updated t >>= (λ v. ok (v, n + 2)))
          ≡ ok p
        → Kept t p
    replaced true at updated t n p h made =
        subst (Kept t) (ok_injective _ _ _ refl made) (h, omega arith)
    replaced false at updated t n p h made =
        let (v, step, e) = bind-ok (replace_row_indexed ir at updated t) _ p made in
        subst (Kept t) (ok_injective _ _ _ refl e) (
          (
            replace_row_indexed-IsIndexed ir t v at updated h.0 step,
            replace_row_indexed-IsDeclared ir t v at updated h.1 step,
          ),
          next_row_id-replace_row_indexed ir t v at updated step,
        )

    updated_duplicate :
        (tables : Tables) (name : Text) (on_duplicate : List (Text × Expr)) (row : Row) (at : ℕ)
        (t : Table) (n : ℕ) (p : Table × ℕ)
        → IsStored ir t
        → update_duplicate rt run ir tables name on_duplicate row at (t, n) ≡ ok p
        → Kept t p
    unfolding update_duplicate
    updated_duplicate tables name on_duplicate row at t n p h made =
        let (current, _, made₁) =
          bind-ok (some_or (evaluation panicked) (get_elem? t.rows at)) _ p made in
        let (updated, _, made₂) =
          bind-ok
            (assign_duplicate rt run tables (bound_columns name t.schema) t.schema row on_duplicate
              current)
            _ p made₁ in
        replaced (same_values updated current) at updated t n p h made₂

    resolve_conflict-Kept :
        (tables : Tables) (name : Text) (on_duplicate : List (Text × Expr)) (row : Row)
        (conflicts : List ℕ) (t : Table) (n : ℕ) (p : Table × ℕ)
        → IsStored ir t
        → t.next_row_id < u64_max
        → resolve_conflict rt run ir tables name on_duplicate row conflicts (t, n) ≡ ok p
        → Kept t p
    unfolding resolve_conflict
    resolve_conflict-Kept tables name on_duplicate row [] t n p h room made =
        inserted row t n p h room made
    resolve_conflict-Kept tables name [] row (at ∷ more) t n p h room made = absurd (ground arith)
    resolve_conflict-Kept tables name (a ∷ others) row (at ∷ []) t n p h room made =
        updated_duplicate tables name (a ∷ others) row at t n p h made
    resolve_conflict-Kept tables name (a ∷ others) row (at ∷ b ∷ more) t n p h room made =
        absurd (ground arith)

    length-build_rows :
        (schema : TableSchema) (names : Option (List Text)) (given : List Exprs) (rows : List Row)
        → build_rows rt run schema names given ≡ ok rows
        → length rows ≡ length given
    unfolding build_rows
    length-build_rows schema names [] rows e = ap length (sym (ok_injective _ _ _ refl e))
    length-build_rows schema names (es ∷ given) rows e =
        let (raw, _, e₁) = bind-ok (eval_constants rt run es) _ rows e in
        let (ordered, _, e₂) = bind-ok (order_values schema names raw) _ rows e₁ in
        let (rest, e₃, e₄) = bind-ok (build_rows rt run schema names given) _ rows e₂ in
        ap length (sym (ok_injective _ _ _ refl e₄))
        ∙ ap suc (length-build_rows schema names given rest e₃)

    insert_rows-IsStored :
        (tables : Tables) (name : Text) (on_duplicate : List (Text × Expr)) (rows : List Row)
        (t u : Table) (n m : ℕ)
        → IsStored ir t
        → t.next_row_id + length rows ≤ u64_max
        → insert_rows rt run ir tables name on_duplicate rows (t, n) ≡ ok (u, m)
        → IsStored ir u
    unfolding insert_rows
    insert_rows-IsStored tables name on_duplicate [] t u n m h room made =
        subst (λ (p : Table × ℕ). IsStored ir p.0) (ok_injective _ _ _ refl made) h
    insert_rows-IsStored tables name on_duplicate (row ∷ rows) t u n m h room made =
        let ((v, k), step, later) =
          bind-ok
            (resolve_conflict rt run ir tables name on_duplicate row
              (unique_conflict_positions ir row t) (t, n))
            _ (u, m) made in
        let (kept, next) =
          resolve_conflict-Kept tables name on_duplicate row (unique_conflict_positions ir row t) t
            n (v, k) h (omega arith) step in
        insert_rows-IsStored tables name on_duplicate rows v u k m kept (omega arith) later

    -- When INSERT succeeds on tables that have the indexes which their schemas declare, under
    -- different names, and whose indexes follow their rows, with row IDs left for the new
    -- rows, then all tables are so again, each row fits the schema, and no two rows share a
    -- key without NULL in the columns of a unique index that the schema declares.
    pub execute_insert-IsSound :
        (table_name : Text) (names : Option (List Text)) (source : InsertSource)
        (on_duplicate : List (Text × Expr)) (tables after : Tables) (count : ℕ)
        → AllValues (IsStored ir) tables
        → ((t : Table) (rows : List Exprs)
            → find (to_ascii_lowercase table_name) tables ≡ some t
            → source_values rt run tables source ≡ ok rows
            → t.next_row_id + length rows ≤ u64_max)
        → execute_insert rt run ir table_name names source on_duplicate tables ≡ (ok count, after)
        → AllValues (IsSound ir) after
    unfolding execute_insert
    execute_insert-IsSound table_name names source on_duplicate tables after count h room done =
        finish-IsSound (to_ascii_lowercase table_name) _ tables after count h
          (λ u m made.
            let (given, given-eq, made₁) =
              bind-ok (source_values rt run tables source) _ (u, m) made in
            let (t, found, made₂) =
              bind-ok
                (some_or (missing_table (to_ascii_lowercase table_name))
                  (find (to_ascii_lowercase table_name) tables))
                _ (u, m) made₁ in
            let (rows, built, made₃) =
              bind-ok (build_rows rt run t.schema names given) _ (u, m) made₂ in
            insert_rows-IsStored tables (to_ascii_lowercase table_name) on_duplicate rows t u 0 m
              (find-AllValues (IsStored ir) _ tables
                (some_or-ok _ (find (to_ascii_lowercase table_name) tables) found) h)
              (omega (
                arith,
                length-build_rows t.schema names given rows built,
                room t given (some_or-ok _ (find (to_ascii_lowercase table_name) tables) found)
                    given-eq,
              ))
              made₃)
          done
