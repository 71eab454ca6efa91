-- ===== src/Wire/Lenenc.antt =====
-- src/wire/protocol.rs: length-encoded integers and strings, and strings that end with a zero byte.
-- A reader takes the bytes from its position on, and gives back those behind what it has read.
use rusty_db.Prelude.{
  ℕ, ◌^◌, ◌<◌, Option, none, some, [], ◌∷◌, ◌++◌, ltb, ◌==◌, ltb→lt, ne→==, if◌then◌else◌, length,
  All, Bool-cases, inl, inr, ◌≡◌, ◌≢◌, refl, arith,
}
use rusty_db.Wire.Utf8.{decode, from_utf8_lossy, IsUtf8}
use rusty_db.Wire.Bytes.{Bytes, le_bytes, read_le, read_le-le_bytes}

unfoldable pub encode_lenenc_int : ℕ → Bytes
unfolding le_bytes
encode_lenenc_int v =
    if ltb v 251
    then v ∷ []
    else if ltb v 65536
    then 0xFC ∷ le_bytes 2 v
    else if ltb v 16777216
    then 0xFD ∷ le_bytes 3 v
    else 0xFE ∷ le_bytes 8 v

-- The bytes of the string, after their number.
unfoldable pub encode_lenenc_str : Bytes → Bytes
unfolding encode_lenenc_int
encode_lenenc_str s = encode_lenenc_int (length s) ++ s

unfoldable pub read_lenenc_int : Bytes → Option ℕ × Bytes
unfolding read_le
read_lenenc_int [] = (none, [])
read_lenenc_int (first ∷ rest) =
    if first == 0xFC
    then read_le 2 rest
    else if first == 0xFD
    then read_le 3 rest
    else if first == 0xFE
    then read_le 8 rest
    else (some first, rest)

-- The bytes before the first zero byte, and those behind it.
unfoldable pub split_at_zero : Bytes → Bytes × Bytes
split_at_zero [] = ([], [])
split_at_zero (b ∷ rest) =
    let (s, after) = split_at_zero rest in if b == 0 then ([], rest) else (b ∷ s, after)

unfoldable pub read_null_terminated : Bytes → Bytes × Bytes
unfolding split_at_zero decode
read_null_terminated bytes = let (s, rest) = split_at_zero bytes in (from_utf8_lossy s, rest)

one_byte : (v : ℕ) (rest : Bytes) → v < 251 → read_lenenc_int (v ∷ rest) ≡ (some v, rest)
unfolding read_lenenc_int
one_byte v rest h = rw (
  ne→== v 0xFC (λ e. omega (arith, h, e)),
  ne→== v 0xFD (λ e. omega (arith, h, e)),
  ne→== v 0xFE (λ e. omega (arith, h, e)),
)

-- What `encode_lenenc_int` wrote for a `u64` is read back, and the bytes behind it are left.
pub read_lenenc_int-encode_lenenc_int :
    (v : ℕ) (rest : Bytes)
    → v < 2 ^ 64
    → read_lenenc_int (encode_lenenc_int v ++ rest) ≡ (some v, rest)
unfolding read_lenenc_int encode_lenenc_int
read_lenenc_int-encode_lenenc_int v rest h = elim (Bool-cases (ltb v 251)) [
  | inl tiny ↦ rw tiny (one_byte v rest (ltb→lt v 251 tiny))
  | inr big ↦ elim (Bool-cases (ltb v 65536)) [
    | inl two ↦ rw (big, two) (read_le-le_bytes 2 v rest (omega (arith, ltb→lt _ _ two)))
    | inr more ↦ elim (Bool-cases (ltb v 16777216)) [
      | inl three ↦
          rw (big, more, three) (read_le-le_bytes 3 v rest (omega (arith, ltb→lt _ _ three)))
      | inr eight ↦ rw (big, more, eight) (read_le-le_bytes 8 v rest (omega arith))
    ]
  ]
]

pub split_at_zero-append :
    (s rest : Bytes) → All (λ b. b ≢ 0) s → split_at_zero (s ++ 0 ∷ rest) ≡ (s, rest)
unfolding split_at_zero
split_at_zero-append [] rest h = refl
split_at_zero-append (b ∷ s) rest (hb, hs) = rw (ne→== b 0 hb, split_at_zero-append s rest hs)

-- A string of UTF-8 without a zero byte is read back up to the zero byte that ends it.
pub read_null_terminated-append :
    (s rest : Bytes)
    → All (λ b. b ≢ 0) s
    → IsUtf8 s
    → read_null_terminated (s ++ 0 ∷ rest) ≡ (s, rest)
unfolding read_null_terminated
read_null_terminated-append s rest h utf8 = rw (split_at_zero-append s rest h, utf8)
