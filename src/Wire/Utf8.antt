-- ===== src/Wire/Utf8.antt =====
-- `String::from_utf8_lossy` of the standard library, which src/wire/protocol.rs calls.
-- A sequence that breaks off, or that no character begins with, gives way to U+FFFD.
use rusty_db.Prelude.{ℕ, Bool, ◌&&◌, [], ◌∷◌, ◌++◌, ◌-◌, leb, ltb, ◌==◌, if◌then◌else◌, ◌≡◌}
use rusty_db.Wire.Bytes.{Bytes}

-- The bytes of a character so far, how many it lacks, and the range of the next one.
pub record Decoder : Type 0 where
  pub pending : Bytes
  pub needed : ℕ
  pub low : ℕ
  pub high : ℕ

abbrev pub idle : Decoder
idle = record { pending = []; needed = 0; low = 0; high = 0 }

abbrev pub replacement : Bytes
replacement = 0xEF ∷ 0xBF ∷ 0xBD ∷ []

abbrev pub begun : ℕ → ℕ → ℕ → ℕ → Bytes × Decoder
begun b needed low high = ([], record { pending = b ∷ []; needed = needed; low = low; high = high })

unfoldable pub first_byte : ℕ → Bytes × Decoder
first_byte b =
    if ltb b 0x80
    then (b ∷ [], idle)
    else if ltb b 0xC2
    then (replacement, idle)
    else if ltb b 0xE0
    then begun b 1 0x80 0xBF
    else if b == 0xE0
    then begun b 2 0xA0 0xBF
    else if b == 0xED
    then begun b 2 0x80 0x9F
    else if ltb b 0xF0
    then begun b 2 0x80 0xBF
    else if b == 0xF0
    then begun b 3 0x90 0xBF
    else if ltb b 0xF4
    then begun b 3 0x80 0xBF
    else if b == 0xF4
    then begun b 3 0x80 0x8F
    else (replacement, idle)

abbrev pub in_range : Decoder → ℕ → Bool
in_range d b = leb d.low b && leb b d.high

abbrev pub continued : Decoder → ℕ → Bytes × Decoder
continued d b = if d.needed == 1 then (d.pending ++ b ∷ [], idle) else (
  [],
  record { pending = d.pending ++ b ∷ []; needed = d.needed - 1; low = 0x80; high = 0xBF },
)

abbrev pub broken_off : Bytes × Decoder → Bytes × Decoder
broken_off (out, d) = (replacement ++ out, d)

unfoldable pub next_byte : Decoder → ℕ → Bytes × Decoder
unfolding first_byte
next_byte d b =
    if d.needed == 0
    then first_byte b
    else if in_range d b
    then continued d b
    else broken_off (first_byte b)

unfoldable pub decode : Decoder → Bytes → Bytes
unfolding next_byte
decode d [] = if d.needed == 0 then [] else replacement
decode d (b ∷ bytes) = let (out, next) = next_byte d b in out ++ decode next bytes

abbrev pub from_utf8_lossy : Bytes → Bytes
from_utf8_lossy bytes = decode idle bytes

-- Bytes of UTF-8 stay as they are.
abbrev pub IsUtf8 : Bytes → Type 0
IsUtf8 bytes = from_utf8_lossy bytes ≡ bytes
