-- ===== src/Prelude.antt =====
-- What the other modules share: names of the libraries, passed on, the Boolean tests, lists over
-- the native numbers, the result of fallible code, and the words of the machine.
mod Tests
mod Lists
pub mod Int
pub mod Assoc
pub mod Keyed
pub use Tests.*
pub use Lists.*
pub use Prim.Native.Nat.{ℕ, zero, suc, ◌+◌, ◌-◌, ◌*◌, ◌/◌, ◌%◌, ◌^◌, ◌≤◌, ◌<◌, max, min}
pub use mathlib.Core.Path.{◌≡◌, refl, sym, ap, subst, ◌∙◌}
use mathlib.Core.Path.{fun_ext}
pub use mathlib.Core.Logic.{◌≢◌, ◌↔◌, ◌⊎◌, inl, inr}
pub use mathlib.Core.Bool.{Bool, true, false, ◌&&◌, ◌||◌, not}
pub use mathlib.Core.Option.{Option, none, some}
pub use mathlib.Core.List.{List, [], ◌∷◌, ◌++◌, map, append-nil, append_assoc}
pub use native.Mathlib.Omega.{arith}

-- Rust's `Result`; each component names its errors by a type of its own.
pub data Result {ℓ κ} (E : Type κ) (A : Type ℓ) : Type (ℓ ⊔ κ) where
  ok : A → Result E A
  err : E → Result E A

infixl 5 ◌>>=◌
abbrev pub ◌>>=◌ {ℓ} :
    {E : Type 0} {A : Type ℓ} {B : Type 0} → Result E A → (A → Result E B) → Result E B
ok a >>= f = f a
err e >>= f = err e

pub Result-cases {ℓ κ} :
    {E : Type κ} {A : Type ℓ} (r : Result E A) → ((a : A) × (r ≡ ok a)) ⊎ ((e : E) × (r ≡ err e))
Result-cases (ok a) = inl (a, refl)
Result-cases (err e) = inr (e, refl)

pub ok_injective : {E A : Type 0} (a b : A) (r : Result E A) → r ≡ ok a → r ≡ ok b → a ≡ b
ok_injective a b r h k = ground arith

pub bind-ok {ℓ} :
    {E : Type 0} {A : Type ℓ} {B : Type 0} (r : Result E A) (f : A → Result E B) (b : B)
    → r >>= f ≡ ok b
    → (a : A) × (r ≡ ok a) × (f a ≡ ok b)
bind-ok (ok a) f b h = (a, refl, h)
bind-ok (err e) f b h = ground arith

pub bind-agree {ℓ} :
    {E : Type 0} {A : Type ℓ} {B : Type 0} {r s : Result E A} {f g : A → Result E B}
    → r ≡ s
    → ((a : A) → f a ≡ g a)
    → r >>= f ≡ s >>= g
bind-agree {s = s} {f = f} {g = g} p q = ap (λ r. r >>= f) p ∙ ap (λ k. s >>= k) (fun_ext q)

-- A `bind` that ends with a value: what its first part gave, and the value.
pub map-ok {ℓ} :
    {E : Type 0} {A : Type ℓ} {B : Type 0} (r : Result E A) (f : A → B) (b : B)
    → (r >>= λ a. ok (f a)) ≡ ok b
    → (a : A) × (r ≡ ok a) × (b ≡ f a)
map-ok (ok a) f b h = (a, refl, ground arith)
map-ok (err e) f b h = ground arith

-- `u64::saturating_add` and `saturating_sub`
abbrev pub u64_max : ℕ
u64_max = 2 ^ 64 - 1

abbrev pub saturating_add : ℕ → ℕ → ℕ
saturating_add a b = min (a + b) u64_max

abbrev pub saturating_sub : ℕ → ℕ → ℕ
saturating_sub a b = a - b
