-- ===== src/Sql/Types.antt =====
-- src/sql/types.rs: scalar values, SQL truth, comparison and LIKE.
use Prim.Native.Nat.{compare, Ordering}
use rusty_db.Prelude.{
  ℕ, Bool, ◌||◌, ◌&&◌, not, Option, none, some, List, [], ◌∷◌, ◌==◌, leb, if◌then◌else◌,
}
use rusty_db.Prelude.Int.{ℤ}
use rusty_db.Sql.Number.{Runtime, is_zero, float_is_zero, float_partial_cmp, compare_ℤ}

-- A string is the list of its code points.
abbrev pub Text : Type 0
Text = List ℕ

pub data DataType : Type 0 where
  integer float text boolean null : DataType

-- A float is its bit pattern.
pub data Value : Type 0 where
  integer : ℤ → Value
  float : ℕ → Value
  text : Text → Value
  boolean : Bool → Value
  null : Value

pub data SqlTruth : Type 0 where
  true false unknown : SqlTruth

pub data ComparisonOp : Type 0 where
  equal not_equal less_than less_than_or_equal greater_than greater_than_or_equal like :
      ComparisonOp

unfoldable pub data_type : Value → DataType
data_type (Value.integer _) = DataType.integer
data_type (Value.float _) = DataType.float
data_type (Value.text _) = DataType.text
data_type (Value.boolean _) = DataType.boolean
data_type Value.null = DataType.null

unfoldable pub is_compatible_with : Value → DataType → Bool
is_compatible_with Value.null _ = Bool.true
is_compatible_with (Value.integer _) DataType.integer = Bool.true
is_compatible_with (Value.integer _) DataType.float = Bool.true
is_compatible_with (Value.float _) DataType.float = Bool.true
is_compatible_with (Value.text _) DataType.text = Bool.true
is_compatible_with (Value.boolean _) DataType.boolean = Bool.true
is_compatible_with _ _ = Bool.false

unfoldable pub coerce_to : Runtime → Value → DataType → Option Value
coerce_to rt Value.null _ = some Value.null
coerce_to rt (Value.integer n) DataType.integer = some (Value.integer n)
coerce_to rt (Value.integer n) DataType.float = some (Value.float (rt.float_of_int n))
coerce_to rt (Value.float x) DataType.float = some (Value.float x)
coerce_to rt (Value.text t) DataType.text = some (Value.text t)
coerce_to rt (Value.boolean b) DataType.boolean = some (Value.boolean b)
coerce_to rt _ _ = none

abbrev pub is_null : Value → Bool
is_null Value.null = Bool.true
is_null _ = Bool.false

-- `lo ≤ c ≤ hi`
abbrev pub is_between : ℕ → ℕ → ℕ → Bool
is_between lo hi c = leb lo c && leb c hi

abbrev pub is_empty : Text → Bool
is_empty [] = Bool.true
is_empty (_ ∷ _) = Bool.false

abbrev pub truth_of : Bool → SqlTruth
truth_of Bool.true = SqlTruth.true
truth_of Bool.false = SqlTruth.false

unfoldable pub truth : Value → SqlTruth
truth (Value.boolean b) = truth_of b
truth Value.null = SqlTruth.unknown
truth (Value.integer n) = truth_of (not (is_zero n))
truth (Value.float x) = truth_of (not (float_is_zero x))
truth (Value.text t) = truth_of (not (is_empty t))

unfoldable pub and : SqlTruth → SqlTruth → SqlTruth
and SqlTruth.false _ = SqlTruth.false
and _ SqlTruth.false = SqlTruth.false
and SqlTruth.true SqlTruth.true = SqlTruth.true
and _ _ = SqlTruth.unknown

unfoldable pub or : SqlTruth → SqlTruth → SqlTruth
or SqlTruth.true _ = SqlTruth.true
or _ SqlTruth.true = SqlTruth.true
or SqlTruth.false SqlTruth.false = SqlTruth.false
or _ _ = SqlTruth.unknown

unfoldable pub negate : SqlTruth → SqlTruth
negate SqlTruth.true = SqlTruth.false
negate SqlTruth.false = SqlTruth.true
negate SqlTruth.unknown = SqlTruth.unknown

-- `truth_value` of planner.rs and of executor.rs
unfoldable pub truth_value : SqlTruth → Value
truth_value SqlTruth.true = Value.boolean Bool.true
truth_value SqlTruth.false = Value.boolean Bool.false
truth_value SqlTruth.unknown = Value.null

-- `str::cmp`: the bytes of UTF-8 are ordered as the code points are.
abbrev pub then_compare : Ordering → Ordering → Ordering
then_compare Ordering.eq o = o
then_compare o _ = o

unfoldable pub compare_text : Text → Text → Ordering
compare_text [] [] = Ordering.eq
compare_text [] (_ ∷ _) = Ordering.lt
compare_text (_ ∷ _) [] = Ordering.gt
compare_text (c ∷ s) (d ∷ t) = then_compare (compare c d) (compare_text s t)

abbrev pub compare_bool : Bool → Bool → Ordering
compare_bool Bool.false Bool.true = Ordering.lt
compare_bool Bool.true Bool.false = Ordering.gt
compare_bool _ _ = Ordering.eq

unfoldable pub partial_cmp : Runtime → Value → Value → Option Ordering
unfolding float_partial_cmp compare_text
partial_cmp rt (Value.integer a) (Value.integer b) = some (compare_ℤ a b)
partial_cmp rt (Value.float a) (Value.float b) = float_partial_cmp a b
partial_cmp rt (Value.integer a) (Value.float b) = float_partial_cmp (rt.float_of_int a) b
partial_cmp rt (Value.float a) (Value.integer b) = float_partial_cmp a (rt.float_of_int b)
partial_cmp rt (Value.text a) (Value.text b) = some (compare_text a b)
partial_cmp rt (Value.boolean a) (Value.boolean b) = some (compare_bool a b)
partial_cmp rt Value.null Value.null = some Ordering.eq
partial_cmp rt _ _ = none

-- Row 0 of the table: the empty text matches a run of `%`.
unfoldable pub first_row : Bool → Text → List Bool
first_row left [] = []
first_row left (p ∷ pattern) =
    let cell = if p == b'%' then left else Bool.false in cell ∷ first_row cell pattern

-- One cell, from those to the left, above, and above to the left.
unfoldable pub like_cell : ℕ → ℕ → Bool → Bool → Bool → Bool
like_cell p c left above diagonal =
    if p == b'%' then left || above else if p == b'_' then diagonal else p == c && diagonal

-- The rest of the row of the character `c`, along the row above it.
unfoldable pub next_row : ℕ → Text → Bool → Bool → List Bool → List Bool
unfolding like_cell
next_row c [] left diagonal above = []
next_row c (p ∷ pattern) left diagonal [] = []
next_row c (p ∷ pattern) left diagonal (a ∷ above) =
    let cell = like_cell p c left a diagonal in cell ∷ next_row c pattern cell a above

-- The rows of the table in turn. A row is its first cell and the others.
unfoldable pub like_rows : Text → Text → Bool → List Bool → Bool × List Bool
unfolding next_row
like_rows pattern [] first row = (first, row)
like_rows pattern (c ∷ chars) first row =
    like_rows pattern chars Bool.false (next_row c pattern Bool.false first row)

unfoldable pub last_cell : Bool → List Bool → Bool
last_cell b [] = b
last_cell b (c ∷ cells) = last_cell c cells

unfoldable pub like_match : Runtime → Text → Text → Bool
unfolding first_row like_rows last_cell
like_match rt subject pattern =
    let t = rt.to_lowercase subject in
    let p = rt.to_lowercase pattern in
    let (first, row) = like_rows p t Bool.true (first_row Bool.true p) in last_cell first row

abbrev pub is_equal : Option Ordering → Bool
is_equal (some Ordering.eq) = Bool.true
is_equal _ = Bool.false

abbrev pub is_less : Option Ordering → Bool
is_less (some Ordering.lt) = Bool.true
is_less _ = Bool.false

abbrev pub is_greater : Option Ordering → Bool
is_greater (some Ordering.gt) = Bool.true
is_greater _ = Bool.false

unfoldable pub like_values : Runtime → Value → Value → Bool
unfolding like_match
like_values rt (Value.text subject) (Value.text pattern) = like_match rt subject pattern
like_values rt _ _ = Bool.false

unfoldable pub compare_result : Runtime → Value → Value → ComparisonOp → Bool
unfolding partial_cmp like_values
compare_result rt a b equal = is_equal (partial_cmp rt a b)
compare_result rt a b not_equal = not (is_equal (partial_cmp rt a b))
compare_result rt a b less_than = is_less (partial_cmp rt a b)
compare_result rt a b less_than_or_equal =
    is_less (partial_cmp rt a b) || is_equal (partial_cmp rt a b)
compare_result rt a b greater_than = is_greater (partial_cmp rt a b)
compare_result rt a b greater_than_or_equal =
    is_greater (partial_cmp rt a b) || is_equal (partial_cmp rt a b)
compare_result rt a b like = like_values rt a b

unfoldable pub compare_sql : Runtime → Value → Value → ComparisonOp → SqlTruth
unfolding compare_result
compare_sql rt a b op =
    if is_null a || is_null b then SqlTruth.unknown else truth_of (compare_result rt a b op)
