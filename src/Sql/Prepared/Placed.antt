-- ===== src/Sql/Prepared/Placed.antt =====
-- src/sql/parser.rs: `bind_parameters` puts each value in the places of its parameter.
use rusty_db.Prelude.{
  max, List, [], ◌∷◌, map, ok, err, ◌==◌, length, ◌≡◌, refl, arith, ==→eq, Bool-cases, inl, inr,
  ◌⊎◌, ◌≢◌, ◌∙◌, ap, sym,
}
use rusty_db.Sql.Types.{Text, Value}
use rusty_db.Sql.Expr.{Expr, Exprs}
use rusty_db.Sql.Statement.{
  Statement, ColumnDef, TableConstraint, check, AlterOperation, add_column, modify_column,
  add_constraint, InsertSource, values, from_query, create_table, alter_table, insert, update,
  delete, explain,
}
use rusty_db.Sql.Prepared.{
  wrong_number, count_checks, bind_checks, count_columns, bind_column, bind_columns,
  count_constraints, bind_constraint, bind_constraints, count_operations, bind_operation,
  bind_operations, count_rows, bind_rows, count_source, bind_source, count_assignments,
  bind_assignments, parameter_count, bind_statement, bind_parameters,
}
use rusty_db.Sql.Leaves.{
  opt_leaves, checks_leaves, columns_leaves, constraints_leaves, operations_leaves, rows_leaves,
  values_leaves, assignments_leaves, leaves, place, parameters_below,
}
use rusty_db.Sql.Binding.{
  parameters_below-place, expr_leaves-bind, exprs_leaves-bind, opt_leaves-bind, query_leaves-bind,
  expr_leaves_below, exprs_leaves_below, opt_leaves_below, query_leaves_below,
}

module _ (vs : List Value) where
  checks_leaves-bind :
      (x : List Expr) (rest : List Expr)
      → checks_leaves (bind_checks vs x) (map (place vs) rest)
        ≡ map (place vs) (checks_leaves x rest)
  unfolding checks_leaves bind_checks
  checks_leaves-bind [] rest = refl
  checks_leaves-bind (e ∷ es) rest =
      rw (checks_leaves-bind es rest, expr_leaves-bind vs e (checks_leaves es rest))

  columns_leaves-bind :
      (x : List ColumnDef) (rest : List Expr)
      → columns_leaves (bind_columns vs x) (map (place vs) rest)
        ≡ map (place vs) (columns_leaves x rest)
  unfolding columns_leaves bind_columns bind_column
  columns_leaves-bind [] rest = refl
  columns_leaves-bind (c ∷ cs) rest =
      rw (columns_leaves-bind cs rest, checks_leaves-bind c.checks (columns_leaves cs rest))

  constraints_leaves-bind :
      (x : List TableConstraint) (rest : List Expr)
      → constraints_leaves (bind_constraints vs x) (map (place vs) rest)
        ≡ map (place vs) (constraints_leaves x rest)
  unfolding constraints_leaves bind_constraints bind_constraint
  constraints_leaves-bind [] rest = refl
  constraints_leaves-bind (check n e ∷ ks) rest =
      rw (constraints_leaves-bind ks rest, expr_leaves-bind vs e (constraints_leaves ks rest))
  constraints_leaves-bind (_ ∷ ks) rest = constraints_leaves-bind ks rest

  operations_leaves-bind :
      (x : List AlterOperation) (rest : List Expr)
      → operations_leaves (bind_operations vs x) (map (place vs) rest)
        ≡ map (place vs) (operations_leaves x rest)
  unfolding operations_leaves bind_operations bind_operation bind_column bind_constraints
  operations_leaves-bind [] rest = refl
  operations_leaves-bind (add_column c ks b ∷ ops) rest = rw (
    operations_leaves-bind ops rest,
    constraints_leaves-bind ks (operations_leaves ops rest),
    checks_leaves-bind c.checks (constraints_leaves ks (operations_leaves ops rest)),
  )
  operations_leaves-bind (modify_column n c ks ∷ ops) rest = rw (
    operations_leaves-bind ops rest,
    constraints_leaves-bind ks (operations_leaves ops rest),
    checks_leaves-bind c.checks (constraints_leaves ks (operations_leaves ops rest)),
  )
  operations_leaves-bind (add_constraint k ∷ ops) rest = rw (
    operations_leaves-bind ops rest,
    constraints_leaves-bind (k ∷ []) (operations_leaves ops rest),
  )
  operations_leaves-bind (_ ∷ ops) rest = operations_leaves-bind ops rest

  rows_leaves-bind :
      (x : List Exprs) (rest : List Expr)
      → rows_leaves (bind_rows vs x) (map (place vs) rest) ≡ map (place vs) (rows_leaves x rest)
  unfolding rows_leaves bind_rows
  rows_leaves-bind [] rest = refl
  rows_leaves-bind (row ∷ rows) rest =
      rw (rows_leaves-bind rows rest, exprs_leaves-bind vs row (rows_leaves rows rest))

  values_leaves-bind :
      (x : InsertSource) (rest : List Expr)
      → values_leaves (bind_source vs x) (map (place vs) rest)
        ≡ map (place vs) (values_leaves x rest)
  unfolding values_leaves bind_source
  values_leaves-bind (values rows) rest = rows_leaves-bind rows rest
  values_leaves-bind (from_query q) rest = query_leaves-bind vs q rest

  assignments_leaves-bind :
      (x : List (Text × Expr)) (rest : List Expr)
      → assignments_leaves (bind_assignments vs x) (map (place vs) rest)
        ≡ map (place vs) (assignments_leaves x rest)
  unfolding assignments_leaves bind_assignments
  assignments_leaves-bind [] rest = refl
  assignments_leaves-bind ((name, e) ∷ more) rest =
      rw (assignments_leaves-bind more rest, expr_leaves-bind vs e (assignments_leaves more rest))

  leaves-bind_statement : (s : Statement) → leaves (bind_statement vs s) ≡ map (place vs) (leaves s)
  unfolding leaves bind_statement
  leaves-bind_statement (create_table n cs ks b) =
      rw (constraints_leaves-bind ks [], columns_leaves-bind cs (constraints_leaves ks []))
  leaves-bind_statement (alter_table n ops) = operations_leaves-bind ops []
  leaves-bind_statement (insert n cs s on_duplicate) = rw (
    assignments_leaves-bind on_duplicate [],
    values_leaves-bind s (assignments_leaves on_duplicate []),
  )
  leaves-bind_statement (Statement.query q) = query_leaves-bind vs q []
  leaves-bind_statement (update n assignments sel) =
      rw (opt_leaves-bind vs sel [], assignments_leaves-bind assignments (opt_leaves sel []))
  leaves-bind_statement (delete n sel) = opt_leaves-bind vs sel []
  leaves-bind_statement (explain s) = leaves-bind_statement s
  leaves-bind_statement _ = refl

checks_leaves_below :
    (x : List Expr) (rest : List Expr)
    → parameters_below (checks_leaves x rest) ≡ max (count_checks x) (parameters_below rest)
unfolding checks_leaves count_checks
checks_leaves_below [] rest = omega arith
checks_leaves_below (e ∷ es) rest =
    omega (arith, expr_leaves_below e (checks_leaves es rest), checks_leaves_below es rest)

columns_leaves_below :
    (x : List ColumnDef) (rest : List Expr)
    → parameters_below (columns_leaves x rest) ≡ max (count_columns x) (parameters_below rest)
unfolding columns_leaves count_columns
columns_leaves_below [] rest = omega arith
columns_leaves_below (c ∷ cs) rest =
    omega
      (arith, checks_leaves_below c.checks (columns_leaves cs rest), columns_leaves_below cs rest)

constraints_leaves_below :
    (x : List TableConstraint) (rest : List Expr)
    → parameters_below (constraints_leaves x rest)
      ≡ max (count_constraints x) (parameters_below rest)
unfolding constraints_leaves count_constraints
constraints_leaves_below [] rest = omega arith
constraints_leaves_below (check n e ∷ ks) rest =
    omega
      (arith, expr_leaves_below e (constraints_leaves ks rest), constraints_leaves_below ks rest)
constraints_leaves_below (_ ∷ ks) rest = omega (arith, constraints_leaves_below ks rest)

operations_leaves_below :
    (x : List AlterOperation) (rest : List Expr)
    → parameters_below (operations_leaves x rest) ≡ max (count_operations x) (parameters_below rest)
unfolding operations_leaves count_operations
operations_leaves_below [] rest = omega arith
operations_leaves_below (add_column c ks b ∷ ops) rest = omega (
  arith,
  checks_leaves_below c.checks (constraints_leaves ks (operations_leaves ops rest)),
  constraints_leaves_below ks (operations_leaves ops rest),
  operations_leaves_below ops rest,
)
operations_leaves_below (modify_column n c ks ∷ ops) rest = omega (
  arith,
  checks_leaves_below c.checks (constraints_leaves ks (operations_leaves ops rest)),
  constraints_leaves_below ks (operations_leaves ops rest),
  operations_leaves_below ops rest,
)
operations_leaves_below (add_constraint k ∷ ops) rest = omega (
  arith,
  constraints_leaves_below (k ∷ []) (operations_leaves ops rest),
  operations_leaves_below ops rest,
)
operations_leaves_below (_ ∷ ops) rest = omega (arith, operations_leaves_below ops rest)

rows_leaves_below :
    (x : List Exprs) (rest : List Expr)
    → parameters_below (rows_leaves x rest) ≡ max (count_rows x) (parameters_below rest)
unfolding rows_leaves count_rows
rows_leaves_below [] rest = omega arith
rows_leaves_below (row ∷ rows) rest =
    omega (arith, exprs_leaves_below row (rows_leaves rows rest), rows_leaves_below rows rest)

values_leaves_below :
    (x : InsertSource) (rest : List Expr)
    → parameters_below (values_leaves x rest) ≡ max (count_source x) (parameters_below rest)
unfolding values_leaves count_source
values_leaves_below (values rows) rest = omega (arith, rows_leaves_below rows rest)
values_leaves_below (from_query q) rest = omega (arith, query_leaves_below q rest)

assignments_leaves_below :
    (x : List (Text × Expr)) (rest : List Expr)
    → parameters_below (assignments_leaves x rest)
      ≡ max (count_assignments x) (parameters_below rest)
unfolding assignments_leaves count_assignments
assignments_leaves_below [] rest = omega arith
assignments_leaves_below ((name, e) ∷ more) rest =
    omega (
      arith,
      expr_leaves_below e (assignments_leaves more rest),
      assignments_leaves_below more rest,
    )

parameter_count-leaves : (s : Statement) → parameters_below (leaves s) ≡ parameter_count s
unfolding leaves parameter_count parameters_below
parameter_count-leaves (create_table n cs ks b) =
    omega
      (arith, columns_leaves_below cs (constraints_leaves ks []), constraints_leaves_below ks [])
parameter_count-leaves (alter_table n ops) = omega (arith, operations_leaves_below ops [])
parameter_count-leaves (insert n cs s on_duplicate) = omega (
  arith,
  values_leaves_below s (assignments_leaves on_duplicate []),
  assignments_leaves_below on_duplicate [],
)
parameter_count-leaves (Statement.query q) = omega (arith, query_leaves_below q [])
parameter_count-leaves (update n assignments sel) =
    omega (arith, assignments_leaves_below assignments (opt_leaves sel []), opt_leaves_below sel [])
parameter_count-leaves (delete n sel) = omega (arith, opt_leaves_below sel [])
parameter_count-leaves (explain s) = parameter_count-leaves s
parameter_count-leaves _ = refl

-- Binding fails exactly when the number of values is not one more than the largest number of a
-- parameter among the leaves of the statement, or 0 without one; otherwise the leaves of the
-- bound statement, from left to right, are those of the statement with value i in each place of
-- parameter i and all others as they were, and none is a parameter.
pub bind_parameters-leaves :
    (vs : List Value) (s : Statement)
    → ((length vs ≡ parameters_below (leaves s))
        × ((bound : Statement) × (bind_parameters s vs ≡ ok bound)
            × (leaves bound ≡ map (place vs) (leaves s))
            × (parameters_below (leaves bound) ≡ 0)))
      ⊎ ((length vs ≢ parameters_below (leaves s))
          × (bind_parameters s vs ≡ err (wrong_number (parameters_below (leaves s)) (length vs))))
unfolding bind_parameters
bind_parameters-leaves vs s =
    let count = parameter_count-leaves s in
    elim (Bool-cases (length vs == parameter_count s)) [
      | inl e ↦
          let same : length vs ≡ parameter_count s = ==→eq _ _ e in
          let placed = leaves-bind_statement vs s in
          inl (
            same ∙ sym count,
            (
              bind_statement vs s,
              rw e,
              placed,
              ap parameters_below placed ∙ parameters_below-place vs (leaves s) (omega arith),
            ),
          )
      | inr n ↦ inr (λ e. ground arith, rw (n, count))
    ]
