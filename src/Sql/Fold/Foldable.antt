-- ===== src/Sql/Fold/Foldable.antt =====
-- src/sql/planner.rs: the expressions whose folding keeps their value, and what folding leaves.
use rusty_db.Prelude.{
  Bool, false, Option, none, some, List, ok, err, ◌>>=◌, ◌≡◌, refl, ◌⊎◌, inl, inr, arith, bind-ok,
  [], ◌∷◌, Option-cases,
}
use rusty_db.Sql.Number.{Runtime}
use rusty_db.Sql.Types
use rusty_db.Sql.Types.{Value, ComparisonOp, compare_sql, truth, truth_value, SqlTruth}
use rusty_db.Sql.Expr.{
  Expr, Exprs, OptExpr, literal, binary, unary, is_null, like, in_list, in_subquery, exists,
  scalar_subquery, aggregate, no_exprs, cons_expr, no_expr, some_expr, BinaryOp, UnaryOp,
}
use rusty_db.Sql.Fold.{
  Fallible, literal_or, fold_binary, fold_unary, as_literal, binary_folded, binary_node,
  unary_folded, unary_node, is_null_folded, is_null_node, like_folded, like_node, fold_expr,
  fold_exprs, fold_option, optimize_query,
}
use rusty_db.Sql.Fold.Known.{
  fold_binary-known, fold_unary-known, compare-IsKnown, negate_if-IsKnown, IsKnown,
}
use rusty_db.Sql.Operators.{Evaluated}
use rusty_db.Sql.Aggregate.{collect}

-- Such an expression does not fold to NULL.
unfoldable pub NullFree : Expr → Type 0
NullFree (literal v) = Types.is_null v ≡ false
NullFree (binary l op r) = NullFree l × NullFree r
NullFree (unary op e) = NullFree e
NullFree (like e p negated) = NullFree e × NullFree p
NullFree _ = Unit {0}

-- The operators that are not NULL on every NULL: AND, OR, and division, which fails on a 0.
unfoldable pub NullFreeUnder : BinaryOp → Expr → Expr → Type 0
unfolding NullFree
NullFreeUnder BinaryOp.and l r = NullFree l × NullFree r
NullFreeUnder BinaryOp.or l r = NullFree l × NullFree r
NullFreeUnder BinaryOp.divide l r = NullFree l × NullFree r
NullFreeUnder _ l r = Unit {0}

-- The operands of AND, OR and division are free of NULL, and there is no subquery.
unfoldable mutual
  unfolding NullFreeUnder

  pub Foldable : Expr → Type 0
  Foldable (binary l op r) = Foldable l × Foldable r × NullFreeUnder op l r
  Foldable (unary op e) = Foldable e
  Foldable (is_null e negated) = Foldable e
  Foldable (like e p negated) = Foldable e × Foldable p
  Foldable (in_list e es negated) = Foldable e × AllFoldable es
  Foldable (aggregate f o distinct) = OptFoldable o
  Foldable (in_subquery e q negated) = ⊥
  Foldable (exists q negated) = ⊥
  Foldable (scalar_subquery q) = ⊥
  Foldable _ = Unit {0}

  pub AllFoldable : Exprs → Type 0
  AllFoldable no_exprs = Unit {0}
  AllFoldable (cons_expr e es) = Foldable e × AllFoldable es

  pub OptFoldable : OptExpr → Type 0
  OptFoldable no_expr = Unit {0}
  OptFoldable (some_expr e) = Foldable e

pub as_literal-cases :
    (e : Expr) → (as_literal e ≡ none) ⊎ ((v : Value) × (as_literal e ≡ some v) × (e ≡ literal v))
unfolding as_literal
as_literal-cases (literal v) = inr (v, refl, refl)
as_literal-cases e = inl refl

pub collect-ext {ℓ} :
    {A : Type ℓ} (f g : A → Evaluated Value)
    → ((a : A) → f a ≡ g a)
    → (values : List A) → collect f values ≡ collect g values
unfolding collect
collect-ext f g h [] = refl
collect-ext f g h (a ∷ rest) = rw (h a, collect-ext f g h rest)

-- What becomes of an operator whose operands are literals.
replaced-known :
    (r : Fallible (Option Value)) (old new : Expr) (v : Value)
    → ((w : Value) → r ≡ ok (some w) → Types.is_null w ≡ false)
    → as_literal old ≡ none
    → (r >>= λ folded. ok (literal_or folded old)) ≡ ok new
    → as_literal new ≡ some v
    → Types.is_null v ≡ false
unfolding as_literal
replaced-known (ok (some w)) old new v known o h k = ground (arith, known w refl)
replaced-known (ok none) old new v known o h k = ground arith
replaced-known (err e) old new v known o h k = ground arith

module _ (rt : Runtime) where
  binary_folded-known :
      (op : BinaryOp) (l r new : Expr) (v : Value) (a b : Option Value)
      → ((w : Value) → a ≡ some w → Types.is_null w ≡ false)
      → ((w : Value) → b ≡ some w → Types.is_null w ≡ false)
      → binary_folded rt l op r a b ≡ ok new
      → as_literal new ≡ some v
      → Types.is_null v ≡ false
  unfolding binary_folded as_literal
  binary_folded-known op l r new v (some a) (some b) na nb h k =
      replaced-known (fold_binary rt a op b) (binary l op r) new v
        (λ w. fold_binary-known rt op a b w (na a refl) (nb b refl)) refl h k
  binary_folded-known op l r new v none b na nb h k = ground arith
  binary_folded-known op l r new v (some a) none na nb h k = ground arith

  unary_folded-known :
      (op : UnaryOp) (e : Expr) (v : Value) (a : Option Value)
      → ((w : Value) → a ≡ some w → Types.is_null w ≡ false)
      → as_literal (unary_folded op e a) ≡ some v
      → Types.is_null v ≡ false
  unfolding unary_folded as_literal
  unary_folded-known op e v none na k = ground arith
  unary_folded-known op e v (some a) na k = elim (Option-cases (fold_unary op a)) [
    | inl none_folded ↦ ground arith
    | inr (w, folded) ↦ ground (arith, fold_unary-known rt op a w (na a refl))
  ]

  like_folded-known :
      (e p : Expr) (negated : Bool) (v : Value) (a b : Option Value)
      → ((w : Value) → a ≡ some w → Types.is_null w ≡ false)
      → ((w : Value) → b ≡ some w → Types.is_null w ≡ false)
      → as_literal (like_folded rt e p negated a b) ≡ some v
      → Types.is_null v ≡ false
  unfolding like_folded as_literal IsKnown
  like_folded-known e p negated v (some a) (some b) na nb k = ground (
    arith,
    negate_if-IsKnown negated (compare_sql rt a b ComparisonOp.like)
        (compare-IsKnown rt a b ComparisonOp.like (na a refl) (nb b refl)),
  )
  like_folded-known e p negated v none b na nb k = ground arith
  like_folded-known e p negated v (some a) none na nb k = ground arith

  is_null_folded-known :
      (e : Expr) (negated : Bool) (v : Value) (a : Option Value)
      → as_literal (is_null_folded e negated a) ≡ some v
      → Types.is_null v ≡ false
  unfolding is_null_folded as_literal
  is_null_folded-known e negated v (some a) k = ground arith
  is_null_folded-known e negated v none k = ground arith

  pub fold-known :
      (e new : Expr) (v : Value)
      → NullFree e
      → fold_expr rt e ≡ ok new
      → as_literal new ≡ some v
      → Types.is_null v ≡ false
  unfolding NullFree fold_expr as_literal binary_node unary_node like_node is_null_node
  fold-known (literal w) new v n h k = ground arith
  fold-known (binary l op r) new v (nl, nr) h k =
      let (l', hl, h1) = bind-ok _ _ _ h in
      let (r', hr, h2) = bind-ok _ _ _ h1 in
      binary_folded-known op l' r' new v (as_literal l') (as_literal r')
        (λ w. fold-known l l' w nl hl) (λ w. fold-known r r' w nr hr) h2 k
  fold-known (unary op e) new v n h k =
      let (e', he, h1) = bind-ok (fold_expr rt e) (λ x. ok (unary_node op x)) new h in
      unary_folded-known op e' v (as_literal e') (λ w. fold-known e e' w n he) (ground arith)
  fold-known (like e p negated) new v (ne, np) h k =
      let (e', he, h1) = bind-ok (fold_expr rt e) _ new h in
      let (p', hp, h2) = bind-ok (fold_expr rt p) (λ x. ok (like_node rt e' x negated)) new h1 in
      like_folded-known e' p' negated v (as_literal e') (as_literal p')
        (λ w. fold-known e e' w ne he) (λ w. fold-known p p' w np hp) (ground arith)
  fold-known (is_null e negated) new v n h k =
      let (e', he, h1) = bind-ok (fold_expr rt e) (λ x. ok (is_null_node x negated)) new h in
      is_null_folded-known e' negated v (as_literal e') (ground arith)
  fold-known (in_list e es negated) new v n h k =
      let (e', he, h1) = bind-ok (fold_expr rt e) _ new h in
      let (es', hs, h2) = bind-ok (fold_exprs rt es) (λ x. ok (in_list e' x negated)) new h1 in
      ground arith
  fold-known (in_subquery e q negated) new v n h k =
      let (e', he, h1) = bind-ok (fold_expr rt e) _ new h in
      let (q', hq, h2) =
        bind-ok (optimize_query rt q) (λ x. ok (in_subquery e' x negated)) new h1 in
      ground arith
  fold-known (exists q negated) new v n h k =
      let (q', hq, h1) = bind-ok (optimize_query rt q) (λ x. ok (exists x negated)) new h in
      ground arith
  fold-known (scalar_subquery q) new v n h k =
      let (q', hq, h1) = bind-ok (optimize_query rt q) (λ x. ok (scalar_subquery x)) new h in
      ground arith
  fold-known (aggregate f o distinct) new v n h k =
      let (o', ho, h1) = bind-ok (fold_option rt o) (λ x. ok (aggregate f x distinct)) new h in
      ground arith
  fold-known e new v n h k = ground arith
