-- ===== src/Table/Keys.antt =====
-- src/sql/executor.rs: the parts of an index key, their order, and when two keys are the same.
use Prim.Native.Nat.{compare, Ordering}
use rusty_db.Prelude.{
  ==_refl, ℕ, ◌+◌, ◌-◌, ◌^◌, Bool, true, false, not, ◌&&◌, List, [], ◌∷◌, ◌==◌, if◌then◌else◌, ◌≡◌,
  refl, arith, ==→eq,
}
use rusty_db.Prelude.Int.{ℤ, pos, negsuc}
use rusty_db.Prelude.Keyed.{Key}
use rusty_db.Sql.Number.{sign_bit, compare_ℤ}
use rusty_db.Sql.Types.{Text, Value, ComparisonOp, compare_text, compare_bool}
use rusty_db.Sql.Operators.{text_eq}

pub data KeyPart : Type 0 where
  null : KeyPart
  boolean : Bool → KeyPart
  integer : ℤ → KeyPart
  float : ℕ → KeyPart
  text : Text → KeyPart

-- The bits of a float, turned so that their order as numbers is that of the floats.
unfoldable pub from_value : Value → KeyPart
from_value Value.null = KeyPart.null
from_value (Value.boolean b) = KeyPart.boolean b
from_value (Value.integer n) = KeyPart.integer n
from_value (Value.float bits) =
    KeyPart.float (if sign_bit bits then 2 ^ 64 - 1 - bits else bits + 2 ^ 63)
from_value (Value.text t) = KeyPart.text t

abbrev pub IndexKey : Type 0
IndexKey = List KeyPart

-- The derived equality and order: variants in the order of their declaration.
unfoldable pub same_bool : Bool → Bool → Bool
same_bool true b = b
same_bool false b = not b

unfoldable pub same_ℤ : ℤ → ℤ → Bool
same_ℤ (pos a) (pos b) = a == b
same_ℤ (negsuc a) (negsuc b) = a == b
same_ℤ _ _ = false

unfoldable pub same_part : KeyPart → KeyPart → Bool
unfolding same_bool same_ℤ text_eq
same_part KeyPart.null KeyPart.null = true
same_part (KeyPart.boolean a) (KeyPart.boolean b) = same_bool a b
same_part (KeyPart.integer a) (KeyPart.integer b) = same_ℤ a b
same_part (KeyPart.float a) (KeyPart.float b) = a == b
same_part (KeyPart.text a) (KeyPart.text b) = text_eq a b
same_part _ _ = false

unfoldable pub same_key : IndexKey → IndexKey → Bool
unfolding same_part
same_key [] [] = true
same_key (a ∷ more) (b ∷ bs) = same_part a b && same_key more bs
same_key _ _ = false

abbrev pub variant : KeyPart → ℕ
variant KeyPart.null = 0
variant (KeyPart.boolean _) = 1
variant (KeyPart.integer _) = 2
variant (KeyPart.float _) = 3
variant (KeyPart.text _) = 4

unfoldable pub compare_part : KeyPart → KeyPart → Ordering
unfolding compare_text
compare_part (KeyPart.boolean a) (KeyPart.boolean b) = compare_bool a b
compare_part (KeyPart.integer a) (KeyPart.integer b) = compare_ℤ a b
compare_part (KeyPart.float a) (KeyPart.float b) = compare a b
compare_part (KeyPart.text a) (KeyPart.text b) = compare_text a b
compare_part a b = compare (variant a) (variant b)

unfoldable pub holds_for : ComparisonOp → Ordering → Bool
holds_for ComparisonOp.equal Ordering.eq = true
holds_for ComparisonOp.not_equal Ordering.lt = true
holds_for ComparisonOp.not_equal Ordering.gt = true
holds_for ComparisonOp.less_than Ordering.lt = true
holds_for ComparisonOp.less_than_or_equal Ordering.lt = true
holds_for ComparisonOp.less_than_or_equal Ordering.eq = true
holds_for ComparisonOp.greater_than Ordering.gt = true
holds_for ComparisonOp.greater_than_or_equal Ordering.gt = true
holds_for ComparisonOp.greater_than_or_equal Ordering.eq = true
holds_for _ _ = false

unfoldable pub compare_key_part : KeyPart → KeyPart → ComparisonOp → Bool
unfolding holds_for compare_part
compare_key_part left right operator = holds_for operator (compare_part left right)

-- `key.contains(&KeyPart::Null)`
unfoldable pub has_null_part : IndexKey → Bool
has_null_part [] = false
has_null_part (KeyPart.null ∷ key) = true
has_null_part (_ ∷ key) = has_null_part key

-- `key.starts_with(&prefix)`
unfoldable pub starts_with : IndexKey → IndexKey → Bool
unfolding same_part
starts_with key [] = true
starts_with [] (_ ∷ _) = false
starts_with (a ∷ key) (b ∷ prefix) = same_part a b && starts_with key prefix

pub text_eq-eq : (s t : Text) → text_eq s t ≡ true → s ≡ t
unfolding text_eq
text_eq-eq [] [] h = refl
text_eq-eq (c ∷ s) (d ∷ t) h = ground (arith, text_eq-eq s t)
text_eq-eq [] (d ∷ t) h = cc
text_eq-eq (c ∷ s) [] h = cc

pub text_eq_refl : (s : Text) → text_eq s s ≡ true
unfolding text_eq
text_eq_refl [] = refl
text_eq_refl (c ∷ s) = ground (arith, text_eq_refl s)

pub same_part-eq : (a b : KeyPart) → same_part a b ≡ true → a ≡ b
unfolding same_part
same_part-eq (KeyPart.text s) (KeyPart.text t) h = ground (arith, text_eq-eq s t)
same_part-eq a b h = ground arith

pub same_part_refl : (a : KeyPart) → same_part a a ≡ true
unfolding same_part
same_part_refl (KeyPart.text s) = text_eq_refl s
same_part_refl a = ground arith

pub same_key-eq : (a b : IndexKey) → same_key a b ≡ true → a ≡ b
unfolding same_key
same_key-eq [] [] h = refl
same_key-eq (a ∷ more) (b ∷ bs) h = ground (arith, same_part-eq a b, same_key-eq more bs)
same_key-eq [] (b ∷ bs) h = cc
same_key-eq (a ∷ more) [] h = cc

pub same_key_refl : (a : IndexKey) → same_key a a ≡ true
unfolding same_key
same_key_refl [] = refl
same_key_refl (a ∷ more) = ground (arith, same_part_refl a, same_key_refl more)

instance abbrev pub keyed_by_parts : Key IndexKey
keyed_by_parts = record { same = same_key; same-eq = same_key-eq; same_refl = same_key_refl }

instance abbrev pub keyed_by_text : Key Text
keyed_by_text = record { same = text_eq; same-eq = text_eq-eq; same_refl = text_eq_refl }

instance abbrev pub keyed_by_number : Key ℕ
keyed_by_number = record { same = ◌==◌; same-eq = ==→eq; same_refl = ==_refl }
