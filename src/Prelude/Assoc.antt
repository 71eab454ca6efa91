-- ===== src/Prelude/Assoc.antt =====
-- Maps with `String` keys as association lists: what the source takes from `DashMap` and `HashMap`.
use text.Mathlib.Text.{◌==◌}
use text.Mathlib.TextEquality.{eq_iff}
use Prim.Native.String.{String}
use mathlib.Core.Path.{◌≡◌, refl}
use mathlib.Core.Option.{Option, none, some}
use mathlib.Core.List.{List, [], ◌∷◌}
use native.Mathlib.Omega.{arith}
use rusty_db.Prelude.Tests.{if◌then◌else◌}

abbrev pub Assoc {ℓ} : Type ℓ → Type ℓ
Assoc V = List (String × V)

-- The keys in a map are compared byte by byte; an entry that is replaced keeps its place.
module _ {ℓ} {V : Type ℓ} where
  unfoldable pub lookup : String → Assoc V → Option V
  lookup key [] = none
  lookup key (entry ∷ rest) = if entry.0 == key then some entry.1 else lookup key rest

  unfoldable pub insert : String → V → Assoc V → Assoc V
  insert key value [] = (key, value) ∷ []
  insert key value (entry ∷ rest) =
      let later = insert key value rest in
      if entry.0 == key then (key, value) ∷ rest else entry ∷ later

  unfoldable pub remove : String → Assoc V → Assoc V
  remove key [] = []
  remove key (entry ∷ rest) =
      let later = remove key rest in if entry.0 == key then later else entry ∷ later

  pub lookup-insert :
      (key j : String) (value : V) (m : Assoc V)
      → lookup j (insert key value m) ≡ (if key == j then some value else lookup j m)
  unfolding insert lookup
  lookup-insert key j value [] = refl
  lookup-insert key j value (entry ∷ rest) =
      ground
        (arith, lookup-insert key j value rest, eq_iff entry.0 j, eq_iff entry.0 key, eq_iff key j)

  pub lookup-remove :
      (key j : String) (m : Assoc V)
      → lookup j (remove key m) ≡ (if key == j then none else lookup j m)
  unfolding remove lookup
  lookup-remove key j [] = ground arith
  lookup-remove key j (entry ∷ rest) =
      ground (arith, lookup-remove key j rest, eq_iff entry.0 j, eq_iff entry.0 key, eq_iff key j)

  -- No key stands twice.
  abbrev pub NodupKeys : Assoc V → Type ℓ
  NodupKeys [] = Unit
  NodupKeys (entry ∷ rest) = (lookup entry.0 rest ≡ none) × NodupKeys rest

  pub insert-NodupKeys :
      (key : String) (value : V) (m : Assoc V) → NodupKeys m → NodupKeys (insert key value m)
  unfolding insert
  insert-NodupKeys key value [] h = (unfold lookup in refl, tt)
  insert-NodupKeys key value (entry ∷ rest) h = ground (
    arith,
    eq_iff entry.0 key,
    eq_iff key entry.0,
    lookup-insert key entry.0 value rest,
    insert-NodupKeys key value rest h.1,
  )

  pub remove-NodupKeys : (key : String) (m : Assoc V) → NodupKeys m → NodupKeys (remove key m)
  unfolding remove
  remove-NodupKeys key [] h = tt
  remove-NodupKeys key (entry ∷ rest) h =
      ground
        (arith, lookup-remove key entry.0 rest, eq_iff key entry.0, remove-NodupKeys key rest h.1)
