-- ===== src/Prelude/Keyed.antt =====
-- Maps and sets of the standard library whose keys are compared by a Boolean test.
-- The order of a map's entries, and of a set's elements, is not looked at.
use mathlib.Core.Path.{◌≡◌, refl}
use mathlib.Core.Bool.{Bool, true, false, ◌||◌, ◌&&◌, not}
use mathlib.Core.Option.{Option, none, some}
use mathlib.Core.List.{List, [], ◌∷◌, ◌++◌}
use native.Mathlib.Omega.{arith}
use rusty_db.Prelude.Tests.{if◌then◌else◌}
use rusty_db.Prelude.Lists.{All}

pub record Key {ℓ} (K : Type ℓ) : Type ℓ where
  pub same : K → K → Bool
  pub same-eq : (a b : K) → same a b ≡ true → a ≡ b
  pub same_refl : (a : K) → same a a ≡ true

module _ {ℓ} {K : Type ℓ} ⦃key : Key K⦄ where
  abbrev pub same : K → K → Bool
  same a b = key.same a b

  pub same-eq : (a b : K) → same a b ≡ true → a ≡ b
  same-eq a b h = key.same-eq a b h

  pub same_refl : (a : K) → same a a ≡ true
  same_refl a = key.same_refl a

  pub same_symm : (a b : K) → same a b ≡ same b a
  same_symm a b = ground (arith, key.same-eq a b, key.same-eq b a, same_refl a, same_refl b)

  -- A set is a list of its elements.
  abbrev pub contains : K → List K → Bool
  contains k [] = false
  contains k (a ∷ set) = same k a || contains k set

  unfoldable pub add : K → List K → List K
  add k set = if contains k set then set else k ∷ set

  unfoldable pub discard : K → List K → List K
  discard k [] = []
  discard k (a ∷ set) = let rest = discard k set in if same k a then rest else a ∷ rest

  pub contains-add :
      (j k : K) (set : List K) → contains j (add k set) ≡ (same j k || contains j set)
  unfolding add
  contains-add j k set = ground (arith, key.same-eq j k)

  pub contains-discard :
      (j k : K) (set : List K) → contains j (discard k set) ≡ (not (same j k) && contains j set)
  unfolding discard
  contains-discard j k [] = ground arith
  contains-discard j k (a ∷ set) =
      ground (arith, contains-discard j k set, same-eq j a, same-eq k a, same_refl a, same-eq j k)

  pub contains-append :
      (k : K) (s t : List K) → contains k (s ++ t) ≡ (contains k s || contains k t)
  contains-append k [] t = refl
  contains-append k (a ∷ s) t = ground (arith, contains-append k s t)

-- What all values of a map satisfy.
abbrev pub AllValues {ℓ κ} : {K V : Type ℓ} → (V → Type κ) → List (K × V) → Type κ
AllValues {K} {V} P m = All (λ (entry : K × V). P entry.1) m

module _ {ℓ} {K V : Type ℓ} ⦃key : Key K⦄ where
  unfoldable pub find : K → List (K × V) → Option V
  find k [] = none
  find k (entry ∷ m) = let later = find k m in if same k entry.0 then some entry.1 else later

  -- `insert` of a map: the value of a key that is there is replaced.
  unfoldable pub put : K → V → List (K × V) → List (K × V)
  put k v [] = (k, v) ∷ []
  put k v (entry ∷ m) =
      let later = put k v m in if same k entry.0 then (entry.0, v) ∷ m else entry ∷ later

  unfoldable pub remove : K → List (K × V) → List (K × V)
  remove k [] = []
  remove k (entry ∷ m) = let later = remove k m in if same k entry.0 then later else entry ∷ later

  pub find-put :
      (j k : K) (v : V) (m : List (K × V))
      → find j (put k v m) ≡ (if same j k then some v else find j m)
  unfolding find put
  find-put j k v [] = refl
  find-put j k v (entry ∷ m) = ground (
    arith,
    find-put j k v m,
    same-eq j entry.0,
    same-eq k entry.0,
    same-eq j k,
    same_refl entry.0,
  )

  pub find-remove :
      (j k : K) (m : List (K × V)) → find j (remove k m) ≡ (if same j k then none else find j m)
  unfolding find remove
  find-remove j k [] = ground arith
  find-remove j k (entry ∷ m) = ground (
    arith,
    find-remove j k m,
    same-eq j entry.0,
    same-eq k entry.0,
    same-eq j k,
    same_refl entry.0,
  )

  pub AllValues-put {κ} :
      (P : V → Type κ) (k : K) (v : V) (m : List (K × V))
      → P v
      → AllValues P m
      → AllValues P (put k v m)
  unfolding put
  AllValues-put P k v [] h hs = (h, hs)
  AllValues-put P k v (entry ∷ m) h hs = ground (arith, AllValues-put P k v m h hs.1)
