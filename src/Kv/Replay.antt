-- ===== src/Kv/Replay.antt =====
-- What a list of logged operations does to a map, key by key.
use Prim.Native.String.{String}
use mathlib.Core.List.{foldl-append}
use text.Mathlib.TextEquality.{eq_iff}
use text.Mathlib.Text.{◌==◌}
use rusty_db.Prelude.{
  ◌≡◌, refl, sym, ap, ◌∙◌, ◌⊎◌, inl, inr, Bool-cases, Option, none, some, List, [], ◌∷◌, ◌++◌, map,
  arith, if◌then◌else◌,
}
use rusty_db.Prelude.Assoc.{Assoc, lookup, lookup-insert, lookup-remove, NodupKeys}
use rusty_db.Kv.Persistence.{Operation, set, delete, clear, set_entry}
use rusty_db.Kv.Store.{apply, replay}

-- The two maps hold the same value, or none, under each key.
abbrev pub SameMap : Assoc String → Assoc String → Type 0
SameMap m n = (k : String) → lookup k m ≡ lookup k n

-- What an operation leaves under the key `k`, where `o` stood before.
abbrev pub apply_at : String → Operation → Option String → Option String
apply_at k (set j v) o = if j == k then some v else o
apply_at k (delete j) o = if j == k then none else o
apply_at k clear o = none

abbrev pub replay_at : String → List Operation → Option String → Option String
replay_at k [] o = o
replay_at k (op ∷ ops) o = replay_at k ops (apply_at k op o)

pub lookup-apply :
    (k : String) (op : Operation) (m : Assoc String)
    → lookup k (apply m op) ≡ apply_at k op (lookup k m)
unfolding apply
lookup-apply k (set j v) m = lookup-insert j k v m
lookup-apply k (delete j) m = lookup-remove j k m
lookup-apply k clear m = unfold lookup in refl

pub lookup-replay :
    (k : String) (ops : List Operation) (m : Assoc String)
    → lookup k (replay m ops) ≡ replay_at k ops (lookup k m)
unfolding replay
lookup-replay k [] m = refl
lookup-replay k (op ∷ ops) m = rw (lookup-replay k ops (apply m op), lookup-apply k op m)

pub replay-append :
    (m : Assoc String) (xs ys : List Operation) → replay m (xs ++ ys) ≡ replay (replay m xs) ys
unfolding replay
replay-append m xs ys = foldl-append apply m xs ys

-- The last operation on a key decides, or the key is untouched.
apply_at-cases :
    (k : String) (op : Operation)
    → ((o : Option String) → apply_at k op o ≡ o)
      ⊎ ((o p : Option String) → apply_at k op o ≡ apply_at k op p)
apply_at-cases k (set j v) = elim (Bool-cases (j == k)) [
  | inl e ↦ inr (λ o p. rw e)
  | inr e ↦ inl (λ o. rw e)
]
apply_at-cases k (delete j) = elim (Bool-cases (j == k)) [
  | inl e ↦ inr (λ o p. rw e)
  | inr e ↦ inl (λ o. rw e)
]
apply_at-cases k clear = inr (λ o p. refl)

replay_at-cases :
    (k : String) (ops : List Operation)
    → ((o : Option String) → replay_at k ops o ≡ o)
      ⊎ ((o p : Option String) → replay_at k ops o ≡ replay_at k ops p)
replay_at-cases k [] = inl (λ o. refl)
replay_at-cases k (op ∷ ops) = elim (replay_at-cases k ops) [
  | inr fixed ↦ inr (λ o p. fixed (apply_at k op o) (apply_at k op p))
  | inl same ↦ elim (apply_at-cases k op) [
    | inl same_op ↦ inl (λ o. same (apply_at k op o) ∙ same_op o)
    | inr fixed_op ↦ inr (λ o p. ap (replay_at k ops) (fixed_op o p))
  ]
]

replay_at_idem :
    (k : String) (ops : List Operation) (o : Option String)
    → replay_at k ops (replay_at k ops o) ≡ replay_at k ops o
replay_at_idem k ops o = elim (replay_at-cases k ops) [
  | inl same ↦ same (replay_at k ops o)
  | inr fixed ↦ fixed (replay_at k ops o) o
]

-- A log replayed on top of its own outcome changes nothing.
pub replay_idem :
    (m : Assoc String) (ops : List Operation) → SameMap (replay (replay m ops) ops) (replay m ops)
replay_idem m ops k =
    lookup-replay k ops (replay m ops)
    ∙ ap (replay_at k ops) (lookup-replay k ops m)
    ∙ replay_at_idem k ops (lookup k m)
    ∙ sym (lookup-replay k ops m)

pub SameMap-apply :
    (m n : Assoc String) (op : Operation) → SameMap m n → SameMap (apply m op) (apply n op)
SameMap-apply m n op h k = rw (lookup-apply k op m, lookup-apply k op n, h k)

pub SameMap-replay :
    (m n : Assoc String) (ops : List Operation)
    → SameMap m n
    → SameMap (replay m ops) (replay n ops)
SameMap-replay m n ops h k = rw (lookup-replay k ops m, lookup-replay k ops n, h k)

-- The entries of a map, set one after the other, give the map back.
lookup-replay-entries :
    (k : String) (m : Assoc String) (o : Option String)
    → NodupKeys m
    → replay_at k (map set_entry m) o ≡ elim (lookup k m) [ some v ↦ some v | none ↦ o ]
unfolding lookup
lookup-replay-entries k [] o h = refl
lookup-replay-entries k ((j, v) ∷ m) o h =
    ground (arith, lookup-replay-entries k m (apply_at k (set j v) o) h.1, eq_iff j k)

some_or_none : (o : Option String) → (elim o [ some v ↦ some v | none ↦ none ]) ≡ o
some_or_none none = refl
some_or_none (some v) = refl

pub replay-entries : (m : Assoc String) → NodupKeys m → SameMap (replay [] (map set_entry m)) m
replay-entries m h k =
    lookup-replay k (map set_entry m) []
    ∙ lookup-replay-entries k m (lookup k []) h
    ∙ (unfold lookup in some_or_none (lookup k m))
