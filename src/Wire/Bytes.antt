-- ===== src/Wire/Bytes.antt =====
-- Little-endian numbers in lists of bytes: `to_le_bytes` and `from_le_bytes`.
use native.Mathlib.Nat.{div-add-mod}
use rusty_db.Prelude.{
  ℕ, zero, suc, ◌+◌, ◌*◌, ◌/◌, ◌%◌, ◌^◌, ◌<◌, Option, none, some, List, [], ◌∷◌, ◌++◌, ltb, le→ltb,
  if◌then◌else◌, length, take, drop, ◌≡◌, refl, ap, arith, length-append,
}

abbrev pub Bytes : Type 0
Bytes = List ℕ

unfoldable pub le_bytes : ℕ → ℕ → Bytes
le_bytes zero v = []
le_bytes (suc n) v = (v % 256) ∷ le_bytes n (v / 256)

unfoldable pub of_le_bytes : Bytes → ℕ
of_le_bytes [] = 0
of_le_bytes (b ∷ bytes) = b + 256 * of_le_bytes bytes

-- The number in the next `n` bytes, and what follows them.
unfoldable pub read_le : ℕ → Bytes → Option ℕ × Bytes
unfolding of_le_bytes
read_le n bs = if ltb (length bs) n then (none, bs) else (some (of_le_bytes (take n bs)), drop n bs)

pub length-le_bytes : (n v : ℕ) → length (le_bytes n v) ≡ n
unfolding le_bytes
length-le_bytes zero v = refl
length-le_bytes (suc n) v = omega (arith, length-le_bytes n (v / 256))

pub of_le_bytes-le_bytes : (n v : ℕ) → v < 256 ^ n → of_le_bytes (le_bytes n v) ≡ v
unfolding of_le_bytes le_bytes
of_le_bytes-le_bytes zero v h = omega arith
of_le_bytes-le_bytes (suc n) v h =
    omega (arith, of_le_bytes-le_bytes n (v / 256) (omega arith), div-add-mod v 256)

pub take-le_bytes : (n v : ℕ) (rest : Bytes) → take n (le_bytes n v ++ rest) ≡ le_bytes n v
unfolding le_bytes
take-le_bytes zero v rest = refl
take-le_bytes (suc n) v rest = ap (λ t. (v % 256) ∷ t) (take-le_bytes n (v / 256) rest)

pub drop-le_bytes : (n v : ℕ) (rest : Bytes) → drop n (le_bytes n v ++ rest) ≡ rest
unfolding le_bytes
drop-le_bytes zero v rest = refl
drop-le_bytes (suc n) v rest = drop-le_bytes n (v / 256) rest

pub read_le-le_bytes :
    (n v : ℕ) (rest : Bytes) → v < 256 ^ n → read_le n (le_bytes n v ++ rest) ≡ (some v, rest)
unfolding read_le
read_le-le_bytes n v rest h = rw (
  le→ltb (length (le_bytes n v ++ rest)) n
      (omega (arith, length-append (le_bytes n v) rest, length-le_bytes n v)),
  take-le_bytes n v rest,
  drop-le_bytes n v rest,
  of_le_bytes-le_bytes n v h,
)
