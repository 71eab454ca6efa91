-- ===== src/Table/Scan/Predicates.antt =====
-- src/sql/executor.rs: a selection that is true of a row makes its index predicates true of the
-- row's key parts.
use rusty_db.Prelude.{
  not, ◌≢◌, inr, inl, Bool-cases, ℕ, suc, ◌+◌, Bool, true, false, ◌||◌, Option, none, some, List,
  [], ◌∷◌, ◌++◌, map, All, ok, err, bind-ok, get_elem?, ◌≡◌, refl, arith,
}
use rusty_db.Sql.Number.{Runtime}
use rusty_db.Sql.Types.{Text, Value, SqlTruth, ComparisonOp, compare_sql, truth, truth_value}
use rusty_db.Sql.Types
use rusty_db.Sql.Expr.{Expr, BinaryOp, Query, binary, column, literal}
use rusty_db.Sql.Operators.{
  BoundColumn, Relation, Evaluated, eq_ignore_ascii_case, resolve_column, eval_binary,
  eval_operator, and_rest, matching, the_match, column_matches, matches_qualifier, or_unavailable,
}
use rusty_db.Sql.Eval.{eval_expr}
use rusty_db.Sql.Statement.{ColumnDef}
use rusty_db.Table.Schema.{TableSchema, column_index, position}
use rusty_db.Table.Keys.{KeyPart, from_value, compare_key_part}
use rusty_db.Table.Store.{and_then, Row, key_part}
use rusty_db.Table.Scan.{
  IndexPredicate, collect_index_predicates, predicate_of, reverse_comparison, is_range, is_equal,
  bound_columns,
}
use rusty_db.Table.Scan.Order.{agrees, compare_sql-compare_key_part, compare_key_part-reverse}

-- Whether an index can serve the operator.
abbrev pub serves : ComparisonOp → Bool
serves operator = is_equal operator || is_range operator

-- When an index can serve the predicate, the row's value in its column, if any, agrees in kind with
-- the predicate's.
abbrev pub agrees_with : TableSchema → Row → IndexPredicate → Bool
agrees_with schema row p = not (serves p.operator) || elim (column_index schema p.column) [
  | none ↦ true
  | some i ↦ elim (get_elem? row i) [ none ↦ true | some value ↦ agrees value p.value ]
]

-- The key part of the row in the column of the predicate satisfies it.
abbrev pub Fits : TableSchema → Row → IndexPredicate → Type 0
Fits schema row p =
    serves p.operator ≡ true
    → (part : KeyPart) × (key_part schema row p.column ≡ some part)
      × (compare_key_part part (from_value p.value) p.operator ≡ true)

All-append :
    (P : IndexPredicate → Type 0) (xs ys : List IndexPredicate)
    → All P xs
    → All P ys
    → All P (xs ++ ys)
All-append P [] ys h k = k
All-append P (x ∷ xs) ys h k = (h.0, All-append P xs ys h.1 k)

All-append_left :
    (P : IndexPredicate → Type 0) (xs ys : List IndexPredicate) → All P (xs ++ ys) → All P xs
All-append_left P [] ys h = tt
All-append_left P (x ∷ xs) ys h = (h.0, All-append_left P xs ys h.1)

All-append_right :
    (P : IndexPredicate → Type 0) (xs ys : List IndexPredicate) → All P (xs ++ ys) → All P ys
All-append_right P [] ys h = h
All-append_right P (x ∷ xs) ys h = All-append_right P xs ys h.1

abbrev bind_column : Text → ColumnDef → BoundColumn
bind_column table c = record { table = table; name = c.name }

matching-eq-nil :
    (table : Text) (q : Option Text) (n : Text) (i : ℕ) (columns : List ColumnDef)
    → matches_qualifier q table ≡ false
    → matching q n i (map (bind_column table) columns) ≡ []
unfolding matching column_matches
matching-eq-nil table q n i [] h = refl
matching-eq-nil table q n i (c ∷ columns) h =
    ground (arith, matching-eq-nil table q n (suc i) columns h)

-- The first of the columns that match is the first of its name.
matching-position :
    (table : Text) (q : Option Text) (n : Text) (i j : ℕ) (columns : List ColumnDef) (rest : List ℕ)
    → matches_qualifier q table ≡ true
    → matching q n i (map (bind_column table) columns) ≡ j ∷ rest
    → (k : ℕ) × (position (λ (c : ColumnDef). eq_ignore_ascii_case c.name n) columns ≡ some k)
      × (j ≡ i + k)
unfolding matching column_matches position
matching-position table q n i j [] rest m h = absurd (cc h)
matching-position table q n i j (c ∷ columns) rest m h =
    elim (Bool-cases (eq_ignore_ascii_case c.name n)) [
      | inl e ↦ (0, ground arith, ground arith)
      | inr e ↦
          let (k, at, j-eq) = matching-position table q n (suc i) j columns rest m (ground arith) in
          (suc k, ground arith, ground arith)
    ]

the_match-ok :
    (q : Option Text) (n : Text) (found : List ℕ) {i : ℕ}
    → the_match q n found ≡ ok i
    → found ≡ i ∷ []
unfolding the_match
the_match-ok q n [] h = ground arith
the_match-ok q n (j ∷ []) h = ground arith
the_match-ok q n (j ∷ k ∷ more) h = ground arith

resolve_column-column_index :
    (table : Text) (schema : TableSchema) (q : Option Text) (n : Text) (i : ℕ)
    → resolve_column (bound_columns table schema) q n ≡ ok i
    → column_index schema n ≡ some i
unfolding resolve_column column_index
resolve_column-column_index table schema q n i h =
    let found = the_match-ok q n (matching q n 0 (bound_columns table schema)) h in
    elim (Bool-cases (matches_qualifier q table)) [
      | inr e ↦ absurd (cc (found, matching-eq-nil table q n 0 schema.columns e))
      | inl e ↦
          let (k, at, i-eq) = matching-position table q n 0 i schema.columns [] e found in
          ground arith
    ]

or_unavailable-ok :
    (n : Text) (o : Option Value) {a : Value} → or_unavailable n o ≡ ok a → o ≡ some a
or_unavailable-ok n none h = ground arith
or_unavailable-ok n (some b) h = ground arith

and_never : (b : Value) → truth (truth_value (Types.and SqlTruth.unknown (truth b))) ≢ SqlTruth.true
unfolding truth_value Types.and
and_never b h =
    elim (truth b) as (λ c. truth (truth_value (Types.and SqlTruth.unknown c)) ≢ SqlTruth.true) [
      | SqlTruth.true ↦ λ e. unfold truth in ground arith
      | SqlTruth.false ↦ λ e. unfold truth in ground arith
      | SqlTruth.unknown ↦ λ e. unfold truth in ground arith
    ]
      h

and_rest-true :
    (t : SqlTruth) (r : Evaluated Value) {v : Value}
    → and_rest t r ≡ ok v
    → truth v ≡ SqlTruth.true
    → (b : Value) × (t ≡ SqlTruth.true) × (r ≡ ok b) × (truth b ≡ SqlTruth.true)
unfolding and_rest truth truth_value Types.and
and_rest-true SqlTruth.true (ok b) h t = (b, refl, refl, ground arith)
and_rest-true SqlTruth.unknown (ok b) h t = absurd (ground (arith, and_never b))
and_rest-true SqlTruth.false r h t = absurd (ground arith)
and_rest-true SqlTruth.true (err e) h t = absurd (ground arith)
and_rest-true SqlTruth.unknown (err e) h t = absurd (ground arith)

truth_value-true :
    (t : SqlTruth) {v : Value}
    → ◌≡◌ {A = Evaluated Value} (ok (truth_value t)) (ok v)
    → truth v ≡ SqlTruth.true
    → t ≡ SqlTruth.true
unfolding truth truth_value
truth_value-true SqlTruth.true h t = refl
truth_value-true SqlTruth.false h t = absurd (ground arith)
truth_value-true SqlTruth.unknown h t = absurd (ground arith)

serves-reverse :
    (operator : ComparisonOp) → serves (reverse_comparison operator) ≡ true → serves operator ≡ true
unfolding reverse_comparison
serves-reverse operator h = ground arith

agrees_symm : (a b : Value) → agrees a b ≡ true → agrees b a ≡ true
agrees_symm a b h = ground arith

module _ (rt : Runtime) (run : Query → Evaluated Relation) (table : Text) (schema : TableSchema)
    (row : Row) where
  abbrev pub value_of : Expr → Evaluated Value
  value_of e = eval_expr rt run (bound_columns table schema) row none e

  column-value :
      (q : Option Text) (n : Text) {a : Value}
      → value_of (column q n) ≡ ok a
      → (i : ℕ) × (column_index schema n ≡ some i) × (get_elem? row i ≡ some a)
  unfolding eval_expr
  column-value q n {a} h =
      let (i, found, there) = bind-ok (resolve_column (bound_columns table schema) q n) _ a h in
      (
        i,
        resolve_column-column_index table schema q n i found,
        or_unavailable-ok n (get_elem? row i) there,
      )

  both-true :
      (left right : Expr) {v : Value}
      → value_of (binary left BinaryOp.and right) ≡ ok v
      → truth v ≡ SqlTruth.true
      → (a b : Value) × (value_of left ≡ ok a)
        × (truth a ≡ SqlTruth.true)
        × (value_of right ≡ ok b)
        × (truth b ≡ SqlTruth.true)
  unfolding eval_expr eval_binary
  both-true left right {v} h t =
      let (a, ha, h₁) = bind-ok (value_of left) _ v h in
      let (b, ta, hb, tb) = and_rest-true (truth a) (value_of right) h₁ t in (a, b, ha, ta, hb, tb)

  compare-true :
      (left right : Expr) (operator : ComparisonOp) {v : Value}
      → value_of (binary left (BinaryOp.compare operator) right) ≡ ok v
      → truth v ≡ SqlTruth.true
      → (a b : Value) × (value_of left ≡ ok a)
        × (value_of right ≡ ok b)
        × (compare_sql rt a b operator ≡ SqlTruth.true)
  unfolding eval_expr eval_binary eval_operator
  compare-true left right operator {v} h t =
      let (a, ha, h₁) = bind-ok (value_of left) _ v h in
      let (b, hb, h₂) = bind-ok (value_of right) _ v h₁ in
      (a, b, ha, hb, truth_value-true (compare_sql rt a b operator) h₂ t)

  Fits-column :
      (q : Option Text) (n : Text) (a c : Value) (operator : ComparisonOp)
      → value_of (column q n) ≡ ok a
      → agrees_with schema row (record { column = n; operator = operator; value = c }) ≡ true
      → (agrees a c ≡ true
          → serves operator ≡ true
          → compare_key_part (from_value a) (from_value c) operator ≡ true)
      → Fits schema row (record { column = n; operator = operator; value = c })
  unfolding key_part and_then
  Fits-column q n a c operator ha agree compared s =
      let (i, at, there) = column-value q n ha in
      (from_value a, rw (at, there), compared (ground arith) s)

  predicate_of-Fits :
      (left right : Expr) (operator : ComparisonOp) {a b : Value}
      → value_of left ≡ ok a
      → value_of right ≡ ok b
      → compare_sql rt a b operator ≡ SqlTruth.true
      → All (λ p. agrees_with schema row p ≡ true) (predicate_of left operator right)
      → All (Fits schema row) (predicate_of left operator right)
  unfolding predicate_of eval_expr
  predicate_of-Fits (column q n) (literal c) operator {a} {b} ha hb t (agree, _) = (
    Fits-column q n a c operator ha agree
        (λ h s. compare_sql-compare_key_part rt a c operator s h (ground arith)),
    tt,
  )
  predicate_of-Fits (literal c) (column q n) operator {a} {b} ha hb t (agree, _) = (
    Fits-column q n b c (reverse_comparison operator) hb agree (λ h s.
        compare_key_part-reverse (from_value c) (from_value b) operator (
          compare_sql-compare_key_part rt c b operator (serves-reverse operator s)
            (agrees_symm b c h) (ground arith))),
    tt,
  )
  predicate_of-Fits _ _ operator ha hb t agree = tt

  -- A selection that is true of a row makes all its index predicates fit the row.
  pub collect_index_predicates-Fits :
      (e : Expr) {v : Value}
      → value_of e ≡ ok v
      → truth v ≡ SqlTruth.true
      → All (λ p. agrees_with schema row p ≡ true) (collect_index_predicates e)
      → All (Fits schema row) (collect_index_predicates e)
  unfolding collect_index_predicates
  collect_index_predicates-Fits (binary left BinaryOp.and right) h t agree =
      let (a, b, ha, ta, hb, tb) = both-true left right h t in
      All-append (Fits schema row) (collect_index_predicates left) (collect_index_predicates right)
        (collect_index_predicates-Fits left ha ta (
          All-append_left _ (collect_index_predicates left) (collect_index_predicates right) agree))
        (collect_index_predicates-Fits right hb tb (
          All-append_right _ (collect_index_predicates left) (collect_index_predicates right)
            agree))
  collect_index_predicates-Fits (binary left (BinaryOp.compare operator) right) h t agree =
      let (a, b, ha, hb, c) = compare-true left right operator h t in
      predicate_of-Fits left right operator ha hb c agree
  collect_index_predicates-Fits _ h t agree = tt
