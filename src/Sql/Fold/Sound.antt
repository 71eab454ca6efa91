-- ===== src/Sql/Fold/Sound.antt =====
-- src/sql/planner.rs against src/sql/executor.rs: where folding keeps the value of an expression.
use rusty_db.Prelude.{
  Bool, Option, none, some, List, ok, err, ◌>>=◌, ◌≡◌, refl, inl, inr, sym, arith, bind-ok, map-ok,
  Option-cases,
}
use rusty_db.Sql.Number.{Runtime}
use rusty_db.Sql.Types.{Value}
use rusty_db.Sql.Expr.{
  Expr, Exprs, OptExpr, Query, column, literal, parameter, incoming, binary, unary, is_null, like,
  in_list, in_subquery, exists, scalar_subquery, aggregate, no_exprs, cons_expr, no_expr, some_expr,
  BinaryOp, UnaryOp,
}
use rusty_db.Sql.Fold.{
  Fallible, literal_or, fold_binary, fold_unary, as_literal, binary_folded, binary_node,
  unary_folded, unary_node, is_null_folded, is_null_node, like_folded, like_node, fold_expr,
  fold_exprs, fold_option,
}
use rusty_db.Sql.Fold.Operators.{AllowsFold, binary-agrees, unary-agrees}
use rusty_db.Sql.Operators.{eval_unary, eval_binary, BoundColumn, Relation, Evaluated}
use rusty_db.Sql.Eval.{eval_expr, eval_exprs, eval_rows}
use rusty_db.Sql.Fold.Foldable.{
  NullFreeUnder, Foldable, AllFoldable, OptFoldable, as_literal-cases, collect-ext, fold-known,
}

module _ (rt : Runtime) (run : Query → Evaluated Relation) (columns : List BoundColumn)
    (row : List Value) (group : Option (List (List Value))) where
  abbrev value_of : Expr → Evaluated Value
  value_of e = eval_expr rt run columns row group e

  replaced-eval :
      (r : Fallible (Option Value)) (old new : Expr) (x : Evaluated Value)
      → ((w : Value) → r ≡ ok (some w) → x ≡ ok w)
      → value_of old ≡ x
      → (r >>= λ folded. ok (literal_or folded old)) ≡ ok new
      → value_of new ≡ x
  unfolding eval_expr
  replaced-eval (ok (some w)) old new x known o h = ground (arith, known w refl)
  replaced-eval (ok none) old new x known o h = ground arith
  replaced-eval (err e) old new x known o h = ground arith

  literals-eval :
      (op : BinaryOp) (a b : Value) (new : Expr)
      → AllowsFold rt op a b
      → binary_node rt (literal a) op (literal b) ≡ ok new
      → value_of new ≡ eval_binary rt (ok a) op (ok b)
  unfolding binary_node eval_expr binary_folded as_literal
  literals-eval op a b new allows h =
      replaced-eval (fold_binary rt a op b) (binary (literal a) op (literal b)) new
        (eval_binary rt (ok a) op (ok b)) (λ w. binary-agrees rt op a b w allows) refl h

  -- A node on folded operands has the value that the operator has on theirs.
  binary_node-eval :
      (op : BinaryOp) (l r new : Expr)
      → ((a b : Value) → as_literal l ≡ some a → as_literal r ≡ some b → AllowsFold rt op a b)
      → binary_node rt l op r ≡ ok new
      → value_of new ≡ eval_binary rt (value_of l) op (value_of r)
  unfolding binary_node eval_expr binary_folded
  binary_node-eval op l r new allows h = elim (as_literal-cases l) [
    | inl nl ↦ ground arith
    | inr (a, la, el) ↦ elim (as_literal-cases r) [
      | inl nr ↦ ground arith
      | inr (b, rb, er) ↦
          rw (el, er) (literals-eval op a b new (allows a b la rb) (rw (el, er) at h))
    ]
  ]

  unary_node-eval :
      (op : UnaryOp) (e : Expr) → value_of (unary_node op e) ≡ (value_of e >>= eval_unary op)
  unfolding unary_node unary_folded eval_expr
  unary_node-eval op e = elim (as_literal-cases e) [
    | inl n ↦ rw n
    | inr (v, lv, ev) ↦ elim (Option-cases (fold_unary op v)) [
      | inl f ↦ rw (ev, f)
      | inr (w, f) ↦ rw (ev, f) (sym (unary-agrees rt op v w f))
    ]
  ]

  is_null_node-eval :
      (e : Expr) (negated : Bool) → value_of (is_null_node e negated) ≡ value_of (is_null e negated)
  unfolding is_null_node is_null_folded eval_expr
  is_null_node-eval e negated = elim (as_literal-cases e) [ inl n ↦ rw n | inr (v, lv, ev) ↦ rw ev ]

  like_node-eval :
      (e p : Expr) (negated : Bool)
      → value_of (like_node rt e p negated) ≡ value_of (like e p negated)
  unfolding like_node like_folded eval_expr
  like_node-eval e p negated = elim (as_literal-cases e) [
    | inl n ↦ rw n
    | inr (v, lv, ev) ↦ elim (as_literal-cases p) [
      | inl n ↦ rw (ev, n)
      | inr (w, lw, ew) ↦ rw (ev, ew)
    ]
  ]

module _ (rt : Runtime) where
  allows_fold :
      (op : BinaryOp) (l r l' r' : Expr)
      → NullFreeUnder op l r
      → fold_expr rt l ≡ ok l'
      → fold_expr rt r ≡ ok r'
      → (a b : Value) → as_literal l' ≡ some a
      → as_literal r' ≡ some b
      → AllowsFold rt op a b
  unfolding NullFreeUnder AllowsFold
  allows_fold BinaryOp.and l r l' r' (nl, nr) hl hr a b ka kb =
      (fold-known rt l l' a nl hl ka, fold-known rt r r' b nr hr kb)
  allows_fold BinaryOp.or l r l' r' (nl, nr) hl hr a b ka kb =
      (fold-known rt l l' a nl hl ka, fold-known rt r r' b nr hr kb)
  allows_fold BinaryOp.divide l r l' r' (nl, nr) hl hr a b ka kb =
      (fold-known rt l l' a nl hl ka, fold-known rt r r' b nr hr kb)
  allows_fold _ l r l' r' n hl hr a b ka kb = tt

  module _ (run : Query → Evaluated Relation) (columns : List BoundColumn) where
    mutual
      unfolding Foldable AllFoldable OptFoldable fold_expr fold_exprs fold_option eval_expr
          eval_exprs eval_rows

      fold_keeps :
          (row : List Value) (group : Option (List (List Value))) (e new : Expr)
          → Foldable e
          → fold_expr rt e ≡ ok new
          → eval_expr rt run columns row group new ≡ eval_expr rt run columns row group e
      fold_keeps row group (binary l op r) new (sl, sr, n) h =
          let (l', hl, h1) = bind-ok (fold_expr rt l) _ new h in
          let (r', hr, h2) = bind-ok (fold_expr rt r) (λ x. binary_node rt l' op x) new h1 in
          rw (← fold_keeps row group l l' sl hl, ← fold_keeps row group r r' sr hr)
            (binary_node-eval rt run columns row group op l' r' new
              (allows_fold op l r l' r' n hl hr) h2)
      fold_keeps row group (unary op e) new s h =
          let (e', he, eq) = map-ok (fold_expr rt e) (unary_node op) new h in
          rw (eq, unary_node-eval rt run columns row group op e', fold_keeps row group e e' s he)
      fold_keeps row group (is_null e negated) new s h =
          let (e', he, eq) = map-ok (fold_expr rt e) (λ x. is_null_node x negated) new h in
          rw (
            eq,
            is_null_node-eval rt run columns row group e' negated,
            fold_keeps row group e e' s he,
          )
      fold_keeps row group (like e p negated) new (se, sp) h =
          let (e', he, h1) = bind-ok (fold_expr rt e) _ new h in
          let (p', hp, eq) = map-ok (fold_expr rt p) (λ x. like_node rt e' x negated) new h1 in
          rw (
            eq,
            like_node-eval rt run columns row group e' p' negated,
            fold_keeps row group e e' se he,
            fold_keeps row group p p' sp hp,
          )
      fold_keeps row group (in_list e es negated) new (se, ss) h =
          let (e', he, h1) = bind-ok (fold_expr rt e) _ new h in
          let (es', hs, eq) = map-ok (fold_exprs rt es) (λ x. in_list e' x negated) new h1 in
          rw (eq, fold_keeps row group e e' se he, fold_exprs_keep row group es es' ss hs)
      fold_keeps row none (aggregate f o distinct) new s h =
          let (o', ho, eq) = map-ok (fold_option rt o) (λ x. aggregate f x distinct) new h in rw eq
      fold_keeps row (some rows) (aggregate f o distinct) new s h =
          let (o', ho, eq) = map-ok (fold_option rt o) (λ x. aggregate f x distinct) new h in
          rw (eq, fold_option_keeps rows o o' s ho)
      fold_keeps row group (in_subquery e q negated) new s h = ground arith
      fold_keeps row group (exists q negated) new s h = ground arith
      fold_keeps row group (scalar_subquery q) new s h = ground arith
      fold_keeps row group (column t c) new s h = ground arith
      fold_keeps row group (literal v) new s h = ground arith
      fold_keeps row group (parameter i) new s h = ground arith
      fold_keeps row group (incoming c) new s h = ground arith

      fold_exprs_keep :
          (row : List Value) (group : Option (List (List Value))) (es new : Exprs)
          → AllFoldable es
          → fold_exprs rt es ≡ ok new
          → eval_exprs rt run columns row group new ≡ eval_exprs rt run columns row group es
      fold_exprs_keep row group no_exprs new s h = ground arith
      fold_exprs_keep row group (cons_expr e es) new (se, ss) h =
          let (e', he, h1) = bind-ok (fold_expr rt e) _ new h in
          let (es', hs, eq) = map-ok (fold_exprs rt es) (λ x. cons_expr e' x) new h1 in
          rw (eq, fold_keeps row group e e' se he, fold_exprs_keep row group es es' ss hs)

      fold_option_keeps :
          (rows : List (List Value)) (o new : OptExpr)
          → OptFoldable o
          → fold_option rt o ≡ ok new
          → eval_rows rt run columns rows new ≡ eval_rows rt run columns rows o
      fold_option_keeps rows no_expr new s h = ground arith
      fold_option_keeps rows (some_expr e) new s h =
          let (e', he, eq) = map-ok (fold_expr rt e) some_expr new h in
          rw eq (collect-ext _ _ (λ row. fold_keeps row none e e' s he) rows)

  -- An expression without subqueries whose operands of AND, OR and division cannot fold to NULL
  -- has, when it folds without a panic, the same value or error folded and unfolded, on every
  -- row and group.
  pub eval-fold :
      (run : Query → Evaluated Relation) (columns : List BoundColumn) (row : List Value)
      (group : Option (List (List Value))) (e new : Expr)
      → Foldable e
      → fold_expr rt e ≡ ok new
      → eval_expr rt run columns row group new ≡ eval_expr rt run columns row group e
  eval-fold run columns = fold_keeps run columns
