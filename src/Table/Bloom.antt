-- ===== src/Table/Bloom.antt =====
-- src/sql/executor.rs: the Bloom filter in front of an index.
-- The words of the filter stand one after the other as bits. The floating-point formulas for its
-- size and the debug format of a key are those of the standard library, in `IndexRuntime`.
use Prim.Native.Nat.{bit_or, bit_xor}
use native.Mathlib.Nat.{mod-lt}
use rusty_db.Prelude.{
  ℕ, zero, suc, ◌+◌, ◌*◌, ◌/◌, ◌%◌, ◌^◌, ◌<◌, max, min, Bool, true, false, List, [], ◌∷◌, length,
  all, set, replicate, ◌≡◌, refl, arith, length-replicate, ap, ◌∙◌, All,
}
use rusty_db.Sql.Types.{Text, Value}
use rusty_db.Table.Keys.{IndexKey}

pub record IndexRuntime : Type 0 where
  -- `(-(expected * rate.ln()) / LN_2 ^ 2).ceil()`
  pub raw_bit_count : ℕ → ℕ → ℕ
  -- `((bit_count / expected) * LN_2).round()`
  pub raw_hash_count : ℕ → ℕ → ℕ
  -- `rate.clamp(0.000_001, 0.5)`
  pub clamp_rate : ℕ → ℕ
  -- the bytes of `format!("{key:?}")`
  pub debug_bytes : IndexKey → List ℕ
  -- `Value::to_string`
  pub display : Value → Text

pub record BloomFilter : Type 0 where
  pub bits : List Bool
  pub hashes : ℕ

unfoldable pub fnv1a : List ℕ → ℕ → ℕ
fnv1a [] hash = hash
fnv1a (byte ∷ bytes) hash = fnv1a bytes (bit_xor hash byte * 0x100000001b3 % 2 ^ 64)

abbrev pub get_bit : List Bool → ℕ → Bool
get_bit [] i = false
get_bit (b ∷ bits) zero = b
get_bit (b ∷ bits) (suc i) = get_bit bits i

-- The positions of the hash functions from `index` on.
positions_from : ℕ → ℕ → ℕ → ℕ → ℕ → List ℕ
positions_from zero index first second bit_count = []
positions_from (suc n) index first second bit_count =
    ((first + index * second % 2 ^ 64) % 2 ^ 64 % bit_count)
    ∷ positions_from n (suc index) first second bit_count

set_bits : List ℕ → List Bool → List Bool
set_bits [] bits = bits
set_bits (position ∷ positions) bits = set_bits positions (set bits position true)

module _ (ir : IndexRuntime) where
  unfoldable pub new_filter : ℕ → ℕ → BloomFilter
  new_filter expected_items rate =
      let expected = max expected_items 1 in
      let bit_count = max (ir.raw_bit_count expected (ir.clamp_rate rate)) 64 in
      record {
        bits = replicate ((bit_count + 63) / 64 * 64) false;
        hashes = min (max (ir.raw_hash_count bit_count expected) 1) 16;
      }

  unfoldable pub positions : BloomFilter → IndexKey → List ℕ
  unfolding fnv1a positions_from
  positions filter key =
      let bytes = ir.debug_bytes key in
      positions_from filter.hashes 0 (fnv1a bytes 0xcbf29ce484222325)
        (bit_or (fnv1a bytes 0x84222325cbf29ce4) 1) (length filter.bits)

  unfoldable pub insert : BloomFilter → IndexKey → BloomFilter
  unfolding set_bits positions
  insert filter key = record filter { bits = set_bits (positions filter key) filter.bits }

  unfoldable pub might_contain : BloomFilter → IndexKey → Bool
  unfolding positions
  might_contain filter key = all (λ position. get_bit filter.bits position) (positions filter key)

-- A filter has bits, so that every position is one of them.
abbrev pub IsFilter : BloomFilter → Type 0
IsFilter filter = 0 < length filter.bits

length-set : (bits : List Bool) (i : ℕ) → length (set bits i true) ≡ length bits
length-set [] i = refl
length-set (b ∷ bits) zero = refl
length-set (b ∷ bits) (suc i) = ap suc (length-set bits i)

length-set_bits : (ps : List ℕ) (bits : List Bool) → length (set_bits ps bits) ≡ length bits
unfolding set_bits
length-set_bits [] bits = refl
length-set_bits (p ∷ ps) bits = length-set_bits ps (set bits p true) ∙ length-set bits p

get_bit-set_self : (bits : List Bool) (i : ℕ) → i < length bits → get_bit (set bits i true) i ≡ true
get_bit-set_self [] i h = absurd (omega arith)
get_bit-set_self (b ∷ bits) zero h = refl
get_bit-set_self (b ∷ bits) (suc i) h = get_bit-set_self bits i (omega arith)

get_bit-set :
    (bits : List Bool) (i j : ℕ) → get_bit bits j ≡ true → get_bit (set bits i true) j ≡ true
get_bit-set [] i j h = h
get_bit-set (b ∷ bits) zero zero h = refl
get_bit-set (b ∷ bits) zero (suc j) h = h
get_bit-set (b ∷ bits) (suc i) zero h = h
get_bit-set (b ∷ bits) (suc i) (suc j) h = get_bit-set bits i j h

get_bit-set_bits :
    (ps : List ℕ) (bits : List Bool) (j : ℕ)
    → get_bit bits j ≡ true
    → get_bit (set_bits ps bits) j ≡ true
unfolding set_bits
get_bit-set_bits [] bits j h = h
get_bit-set_bits (p ∷ ps) bits j h =
    get_bit-set_bits ps (set bits p true) j (get_bit-set bits p j h)

-- The bits that were set stay set, and those at the positions are set.
all-set_bits_mono :
    (ps : List ℕ) (bits : List Bool) (qs : List ℕ)
    → all (λ q. get_bit bits q) qs ≡ true
    → all (λ q. get_bit (set_bits ps bits) q) qs ≡ true
all-set_bits_mono ps bits [] h = refl
all-set_bits_mono ps bits (q ∷ qs) h =
    ground (arith, get_bit-set_bits ps bits q, all-set_bits_mono ps bits qs)

all-set_bits :
    (ps : List ℕ) (bits : List Bool)
    → All (λ p. p < length bits) ps
    → all (λ p. get_bit (set_bits ps bits) p) ps ≡ true
unfolding set_bits
all-set_bits [] bits h = refl
all-set_bits (p ∷ ps) bits (hp, hps) = ground (
  arith,
  get_bit-set_bits ps (set bits p true) p (get_bit-set_self bits p hp),
  all-set_bits ps (set bits p true) (rw (length-set bits p) hps),
)

positions_from_within :
    (n index first second bit_count : ℕ)
    → 0 < bit_count
    → All (λ p. p < bit_count) (positions_from n index first second bit_count)
unfolding positions_from
positions_from_within zero index first second bit_count h = tt
positions_from_within (suc n) index first second bit_count h =
    (mod-lt _ h, positions_from_within n (suc index) first second bit_count h)

module _ (ir : IndexRuntime) where
  positions-insert :
      (filter : BloomFilter) (key k : IndexKey)
      → positions ir (insert ir filter key) k ≡ positions ir filter k
  unfolding positions insert
  positions-insert filter key k = rw (length-set_bits (positions ir filter key) filter.bits)

  pub insert-IsFilter :
      (filter : BloomFilter) (key : IndexKey) → IsFilter filter → IsFilter (insert ir filter key)
  unfolding insert
  insert-IsFilter filter key h = rw (length-set_bits (positions ir filter key) filter.bits) h

  pub might_contain-insert_self :
      (filter : BloomFilter) (key : IndexKey)
      → IsFilter filter
      → might_contain ir (insert ir filter key) key ≡ true
  unfolding might_contain
  might_contain-insert_self filter key h = rw (positions-insert filter key key) (
      unfold insert positions in
      all-set_bits (positions ir filter key) filter.bits
        (positions_from_within filter.hashes 0 _ _ (length filter.bits) h))

  pub might_contain-insert :
      (filter : BloomFilter) (key k : IndexKey)
      → might_contain ir filter k ≡ true
      → might_contain ir (insert ir filter key) k ≡ true
  unfolding might_contain
  might_contain-insert filter key k h = rw (positions-insert filter key k) (
      unfold insert in
      all-set_bits_mono (positions ir filter key) filter.bits (positions ir filter k) h)

  pub new_filter-IsFilter : (expected rate : ℕ) → IsFilter (new_filter ir expected rate)
  unfolding new_filter
  new_filter-IsFilter expected rate = rw length-replicate (omega arith)
