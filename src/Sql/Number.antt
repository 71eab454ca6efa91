-- ===== src/Sql/Number.antt =====
-- The machine numbers of `Value`: `i64` arithmetic, and `f64` as its bit pattern.
-- Overflow of `+ - *` wraps, as in a release build; `i64::MIN / -1` panics in every build.
use Prim.Native.Nat.{compare, Ordering}
use rusty_db.Prelude.{
  ℕ, suc, ◌+◌, ◌-◌, ◌*◌, ◌/◌, ◌%◌, ◌^◌, Bool, false, ◌||◌, ◌&&◌, Option, none, some, List, ltb, leb,
  ◌==◌, if◌then◌else◌, Result, ok, err,
}
use rusty_db.Prelude.Int.{ℤ, pos, negsuc, to_bits, of_bits}

-- What a panic leaves of a computation.
pub data Panic : Type 0 where
  panic : Panic

abbrev pub i64_add : ℤ → ℤ → ℤ
i64_add a b = of_bits ((to_bits a + to_bits b) % 2 ^ 64)

abbrev pub i64_sub : ℤ → ℤ → ℤ
i64_sub a b = of_bits ((to_bits a + (2 ^ 64 - to_bits b)) % 2 ^ 64)

abbrev pub i64_mul : ℤ → ℤ → ℤ
i64_mul a b = of_bits (to_bits a * to_bits b % 2 ^ 64)

abbrev pub i64_neg : ℤ → ℤ
i64_neg a = of_bits ((2 ^ 64 - to_bits a) % 2 ^ 64)

abbrev pub is_zero : ℤ → Bool
is_zero (pos n) = n == 0
is_zero (negsuc n) = false

negative : ℕ → ℤ
negative q = if q == 0 then pos 0 else negsuc (q - 1)

-- Division truncates towards zero. The quotient of `i64::MIN` by -1 does not fit.
unfoldable pub i64_div : ℤ → ℤ → Result Panic ℤ
unfolding negative
i64_div (pos a) (pos b) = ok (pos (a / b))
i64_div (pos a) (negsuc b) = ok (negative (a / suc b))
i64_div (negsuc a) (pos b) = ok (negative (suc a / b))
i64_div (negsuc a) (negsuc b) =
    let q = suc a / suc b in if ltb q (2 ^ 63) then ok (pos q) else err panic

abbrev pub compare_ℤ : ℤ → ℤ → Ordering
compare_ℤ (pos a) (pos b) = compare a b
compare_ℤ (pos a) (negsuc b) = Ordering.gt
compare_ℤ (negsuc a) (pos b) = Ordering.lt
compare_ℤ (negsuc a) (negsuc b) = compare b a

-- An `f64`: the sign bit, 11 bits of exponent and 52 of fraction.
abbrev pub magnitude : ℕ → ℕ
magnitude bits = bits % 2 ^ 63

abbrev pub sign_bit : ℕ → Bool
sign_bit bits = leb (2 ^ 63) bits

-- All bits of the exponent are set, and one of the fraction.
abbrev pub is_nan : ℕ → Bool
is_nan bits = ltb (2047 * 2 ^ 52) (magnitude bits)

abbrev pub float_is_zero : ℕ → Bool
float_is_zero bits = magnitude bits == 0

abbrev pub float_neg : ℕ → ℕ
float_neg bits = (bits + 2 ^ 63) % 2 ^ 64

-- Where a number lies among the others: magnitudes are ordered as numbers, and both zeros are 0.
abbrev pub float_rank : ℕ → ℤ
float_rank bits =
    if sign_bit bits && ltb 0 (magnitude bits)
    then negsuc (magnitude bits - 1)
    else pos (magnitude bits)

-- `f64::partial_cmp`
unfoldable pub float_partial_cmp : ℕ → ℕ → Option Ordering
float_partial_cmp a b =
    if is_nan a || is_nan b then none else some (compare_ℤ (float_rank a) (float_rank b))

-- The arithmetic of `f64`, its conversions, and Unicode lower case.
pub record Runtime : Type 0 where
  pub float_add : ℕ → ℕ → ℕ
  pub float_sub : ℕ → ℕ → ℕ
  pub float_mul : ℕ → ℕ → ℕ
  pub float_div : ℕ → ℕ → ℕ
  pub float_of_int : ℤ → ℕ
  pub int_of_float : ℕ → ℤ
  pub to_lowercase : List ℕ → List ℕ
