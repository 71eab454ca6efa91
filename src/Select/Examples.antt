-- ===== src/Select/Examples.antt =====
-- The theorems on queries at concrete inputs.
use mathlib.Core.List.{Nodup, Mem}
use rusty_db.Prelude.{
  inl, inr, ap, ◌⊎◌, ℕ, zero, suc, true, false, none, some, [], ◌∷◌, replicate, ok, err, ◌≡◌, ◌↔◌,
  refl, arith,
}
use rusty_db.Prelude.Int.{ℤ, pos, negsuc}
use rusty_db.Sql.Number.{Runtime}
use rusty_db.Sql.Types.{Text, Value, ComparisonOp, truth_value}
use rusty_db.Sql.Expr.{
  Expr, Query, query, no_ctes, BinaryOp, binary, column, literal, JoinType, no_expr, some_expr,
  no_items, cons_wildcard, cons_item, no_source, some_source, derived, no_joins, no_exprs, no_order,
}
use rusty_db.Sql.Operators.{BoundColumn, Relation, Evaluated, query_error}
use rusty_db.Table.Bloom.{IndexRuntime}
use rusty_db.Table.Store.{Row}
use rusty_db.Select.Join.{join_relations}
use rusty_db.Select.Join.Equivalence.{join_relations-nested_join}
use rusty_db.Select.Project.{Printing, row_key, distinct_rows}
use rusty_db.Select.Keys.{lacks, IsPrinting, row_key_injective}
use rusty_db.Select.Distinct.{distinct_rows_lem}
use rusty_db.Select.Execute.{execute_query}
use rusty_db.Select.Execute.Count.{in_query}
use rusty_db.Select.Execute.Fuel.{execute_query_terminates}

abbrev plain : Runtime
plain = record {
  float_add = λ a b. a;
  float_sub = λ a b. a;
  float_mul = λ a b. a;
  float_div = λ a b. a;
  float_of_int = λ n. 7;
  int_of_float = λ x. pos x;
  to_lowercase = λ t. t;
}

abbrev tiny : IndexRuntime
tiny = record {
  raw_bit_count = λ n rate. 64;
  raw_hash_count = λ bits n. 1;
  clamp_rate = λ rate. rate;
  debug_bytes = λ key. [];
  display = λ v. [];
}

-- Numbers by as many strokes, with a sign.
abbrev strokes : ℤ → Text
strokes (pos n) = replicate {A = ℕ} n b'1'
strokes (negsuc n) = b'-' ∷ replicate {A = ℕ} n b'1'

abbrev unary : Printing
unary = record { decimal = strokes; hex = λ n. replicate {A = ℕ} n b'1' }

replicate_injective : (m n : ℕ) → replicate {A = ℕ} m b'1' ≡ replicate {A = ℕ} n b'1' → m ≡ n
replicate_injective zero zero e = refl
replicate_injective zero (suc n) e = absurd cc
replicate_injective (suc m) zero e = absurd cc
replicate_injective (suc m) (suc n) e = let k = replicate_injective m n cc in omega arith

lacks-replicate : (c n : ℕ) → (c ≡ 0x1f) ⊎ (c ≡ b':') → lacks c (replicate {A = ℕ} n b'1') ≡ true
unfolding lacks
lacks-replicate c zero h = refl
lacks-replicate c (suc n) h = ground (arith, lacks-replicate c n h)

heads : {c d : ℕ} {s t : Text} → c ∷ s ≡ d ∷ t → c ≡ d
heads h = cc

strokes_injective : (m n : ℤ) → strokes m ≡ strokes n → m ≡ n
strokes_injective (pos m) (pos n) e = ap pos (replicate_injective m n e)
strokes_injective (pos zero) (negsuc n) e = absurd cc
strokes_injective (pos (suc m)) (negsuc n) e = let k = heads e in absurd (omega arith)
strokes_injective (negsuc m) (pos zero) e = absurd cc
strokes_injective (negsuc m) (pos (suc n)) e = let k = heads e in absurd (omega arith)
strokes_injective (negsuc m) (negsuc n) e = ap negsuc (replicate_injective m n cc)

lacks-strokes : (c : ℕ) (n : ℤ) → (c ≡ 0x1f) ⊎ (c ≡ b':') → lacks c (strokes n) ≡ true
unfolding lacks
lacks-strokes c (pos n) h = lacks-replicate c n h
lacks-strokes c (negsuc n) h = ground (arith, lacks-replicate c n h)

unary-IsPrinting : IsPrinting unary
unary-IsPrinting = record {
  decimal_injective = strokes_injective;
  hex_injective = replicate_injective;
  decimal_lacks_colon = λ n. lacks-strokes b':' n (inr refl);
  decimal_lacks_separator = λ n. lacks-strokes 0x1f n (inl refl);
  hex_lacks_separator = λ n. lacks-replicate 0x1f n (inl refl);
}

abbrev int : ℕ → Value
int n = Value.integer (pos n)

abbrev no_queries : Query → Evaluated Relation
no_queries q = err (query_error [])

-- A text with the separator in it.
abbrev tricky : Row
tricky = Value.text (0x1f ∷ b'n' ∷ []) ∷ Value.null ∷ []

abbrev one : Row
one = int 1 ∷ int 2 ∷ []

row_key_injective_example : tricky ≡ tricky
unfolding row_key
row_key_injective_example = row_key_injective unary unary-IsPrinting tricky tricky refl

distinct_rows_lem_example :
    Nodup (distinct_rows unary [] (one ∷ tricky ∷ one ∷ []))
    × ((r : Row)
        → Mem r (distinct_rows unary [] (one ∷ tricky ∷ one ∷ []))
          ↔ Mem r (one ∷ tricky ∷ one ∷ []))
distinct_rows_lem_example = distinct_rows_lem unary unary-IsPrinting (one ∷ tricky ∷ one ∷ [])

abbrev a_column : BoundColumn
a_column = record { table = b'l' ∷ []; name = b'a' ∷ [] }

abbrev b_column : BoundColumn
b_column = record { table = b'r' ∷ []; name = b'b' ∷ [] }

abbrev left_rows : Relation
left_rows = record { columns = a_column ∷ []; rows = (int 1 ∷ []) ∷ (int 2 ∷ []) ∷ [] }

abbrev right_rows : Relation
right_rows = record { columns = b_column ∷ []; rows = (int 2 ∷ []) ∷ (Value.null ∷ []) ∷ [] }

-- `a = b`
abbrev a_is_b : Expr
a_is_b =
    binary (column none (b'a' ∷ [])) (BinaryOp.compare ComparisonOp.equal) (column none (b'b' ∷ []))

abbrev joined : Relation
joined = record {
  columns = a_column ∷ b_column ∷ [];
  rows = (int 1 ∷ Value.null ∷ []) ∷ (int 2 ∷ int 2 ∷ []) ∷ [];
}

join_relations-nested_join_example :
    join_relations plain no_queries JoinType.left (some_expr a_is_b) left_rows right_rows
    ≡ ok joined
unfolding join_relations truth_value
join_relations-nested_join_example =
    join_relations-nested_join plain no_queries JoinType.left a_is_b left_rows right_rows 0 0
      (int 1 ∷ int 2 ∷ []) (int 2 ∷ Value.null ∷ []) joined refl refl refl (refl, (refl, tt))
      ((refl, (refl, tt)), ((refl, (refl, tt)), tt)) refl

-- `SELECT 1 AS a`
abbrev inner : Query
inner =
    query no_ctes false (cons_item (literal (int 1)) (some (b'a' ∷ [])) no_items) no_source no_joins
      no_expr no_exprs no_expr no_order none

-- `SELECT * FROM (SELECT 1 AS a) AS l`
abbrev outer : Query
outer =
    query no_ctes false (cons_wildcard none no_items) (some_source (derived inner (b'l' ∷ [])))
      no_joins no_expr no_exprs no_expr no_order none

execute_query_terminates_example :
    execute_query tiny plain unary [] (err (query_error [])) 2 [] outer
    ≡ ok (record { columns = a_column ∷ []; rows = (int 1 ∷ []) ∷ [] })
unfolding execute_query in_query
execute_query_terminates_example =
    execute_query_terminates tiny plain unary [] 2 5 (err (query_error [])) (err (query_error []))
      [] outer (omega arith) (omega arith)
