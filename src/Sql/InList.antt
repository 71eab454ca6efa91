-- ===== src/Sql/InList.antt =====
-- src/sql/executor.rs: `in_values` against the disjunction of equalities that IN abbreviates.
use rusty_db.Prelude.{Bool, true, false, List, [], ◌∷◌, ◌≡◌, refl, if◌then◌else◌}
use rusty_db.Sql.Number.{Runtime}
use rusty_db.Sql.Types
use rusty_db.Sql.Types.{Value, SqlTruth, ComparisonOp, compare_sql}
use rusty_db.Sql.Fold.{negate_if}
use rusty_db.Sql.Operators.{in_rest, in_values}

-- `v = c₁ OR (v = c₂ OR ...)`, false without a candidate.
unfoldable pub any_equal : Runtime → Value → List Value → SqlTruth
any_equal rt v [] = SqlTruth.false
any_equal rt v (c ∷ candidates) =
    Types.or (compare_sql rt v c ComparisonOp.equal) (any_equal rt v candidates)

abbrev seen_unknown : Bool → SqlTruth
seen_unknown b = if b then SqlTruth.unknown else SqlTruth.false

or_assoc : (a b c : SqlTruth) → Types.or a (Types.or b c) ≡ Types.or (Types.or a b) c
unfolding Types.or
or_assoc SqlTruth.true b c = refl
or_assoc SqlTruth.false SqlTruth.true c = refl
or_assoc SqlTruth.false SqlTruth.false SqlTruth.true = refl
or_assoc SqlTruth.false SqlTruth.false SqlTruth.false = refl
or_assoc SqlTruth.false SqlTruth.false SqlTruth.unknown = refl
or_assoc SqlTruth.false SqlTruth.unknown SqlTruth.true = refl
or_assoc SqlTruth.false SqlTruth.unknown SqlTruth.false = refl
or_assoc SqlTruth.false SqlTruth.unknown SqlTruth.unknown = refl
or_assoc SqlTruth.unknown SqlTruth.true c = refl
or_assoc SqlTruth.unknown SqlTruth.false SqlTruth.true = refl
or_assoc SqlTruth.unknown SqlTruth.false SqlTruth.false = refl
or_assoc SqlTruth.unknown SqlTruth.false SqlTruth.unknown = refl
or_assoc SqlTruth.unknown SqlTruth.unknown SqlTruth.true = refl
or_assoc SqlTruth.unknown SqlTruth.unknown SqlTruth.false = refl
or_assoc SqlTruth.unknown SqlTruth.unknown SqlTruth.unknown = refl

-- One candidate more: what the loop has seen takes it in.
step_lem :
    (negated unknown : Bool) (t rest : SqlTruth) (after : Bool → SqlTruth)
    → ((u : Bool) → after u ≡ negate_if negated (Types.or (seen_unknown u) rest))
    → (elim t [
      | SqlTruth.true ↦ if negated then SqlTruth.false else SqlTruth.true
      | SqlTruth.unknown ↦ after true
      | SqlTruth.false ↦ after unknown
    ])
      ≡ negate_if negated (Types.or (seen_unknown unknown) (Types.or t rest))
unfolding Types.or Types.negate
step_lem true true SqlTruth.true rest after h = refl
step_lem true false SqlTruth.true rest after h = refl
step_lem false true SqlTruth.true rest after h = refl
step_lem false false SqlTruth.true rest after h = refl
step_lem negated true SqlTruth.unknown rest after h =
    rw (or_assoc (seen_unknown true) SqlTruth.unknown rest) (h true)
step_lem negated false SqlTruth.unknown rest after h =
    rw (or_assoc (seen_unknown false) SqlTruth.unknown rest) (h true)
step_lem negated true SqlTruth.false rest after h =
    rw (or_assoc (seen_unknown true) SqlTruth.false rest) (h true)
step_lem negated false SqlTruth.false rest after h =
    rw (or_assoc (seen_unknown false) SqlTruth.false rest) (h false)

in_rest-lem :
    (rt : Runtime) (v : Value) (negated unknown : Bool) (vs : List Value)
    → in_rest rt v negated unknown vs
      ≡ negate_if negated (Types.or (seen_unknown unknown) (any_equal rt v vs))
unfolding in_rest any_equal Types.or
in_rest-lem rt v true true [] = refl
in_rest-lem rt v true false [] = refl
in_rest-lem rt v false true [] = refl
in_rest-lem rt v false false [] = refl
in_rest-lem rt v negated unknown (c ∷ vs) =
    step_lem negated unknown (compare_sql rt v c ComparisonOp.equal) (any_equal rt v vs)
      (λ u. in_rest rt v negated u vs) (λ u. in_rest-lem rt v negated u vs)

false_or : (t : SqlTruth) → Types.or SqlTruth.false t ≡ t
unfolding Types.or
false_or SqlTruth.true = refl
false_or SqlTruth.false = refl
false_or SqlTruth.unknown = refl

-- For a value that is not NULL, `v IN (c₁, c₂, ...)` is `v = c₁ OR v = c₂ OR ...`, and NOT IN is
-- its negation, in three-valued logic.
pub in_values-any_equal :
    (rt : Runtime) (v : Value) (vs : List Value) (negated : Bool)
    → Types.is_null v ≡ false
    → in_values rt v vs negated ≡ negate_if negated (any_equal rt v vs)
unfolding in_values
in_values-any_equal rt v vs negated n =
    rw (n, in_rest-lem rt v negated false vs, false_or (any_equal rt v vs))
