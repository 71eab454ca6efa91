-- ===== src/Db/PlanCache/Bounded.antt =====
-- src/sql/database.rs: the cache of plans never holds more entries than its capacity.
use rusty_db.Prelude.{
  ℕ, suc, ◌≤◌, ◌<◌, true, false, Option, none, some, [], ◌∷◌, if_both, saturating_add, ◌==◌, ltb,
  leb, leb→le, leb→lt, length, ==_refl, Bool-cases, inl, inr, ◌⊎◌, ◌≡◌, refl, arith,
}
use rusty_db.Sql.Types.{Text}
use rusty_db.Sql.Operators.{text_eq}
use rusty_db.Sql.Statement.{Statement}
use rusty_db.Db.TextMap.{find, remove, put}
use rusty_db.Db.PlanCache.{
  PlanCacheEntry, Entries, PlanCache, oldest, evict_oldest, is_some, tick, found, get, room_for,
  insert,
}

length-remove : (sql : Text) (es : Entries) → length (remove sql es) ≤ length es
unfolding remove
length-remove sql [] = omega arith
length-remove sql ((key, entry) ∷ es) =
    if_both (λ (l : Entries). length l ≤ suc (length es)) (text_eq sql key) (remove sql es)
      ((key, entry) ∷ remove sql es) (omega (arith, length-remove sql es))
      (omega (arith, length-remove sql es))

abbrev Has : Text → Entries → Type 0
Has sql es = is_some (find sql es) ≡ true

-- Removing a key that is there makes the list shorter.
length-remove-Has : (sql : Text) (es : Entries) → Has sql es → length (remove sql es) < length es
unfolding remove find
length-remove-Has sql [] h = ground arith
length-remove-Has sql ((key, entry) ∷ es) h = elim (Bool-cases (text_eq sql key)) [
  | inl same ↦ rw same (omega (arith, length-remove sql es))
  | inr other ↦ rw other (omega (arith, length-remove-Has sql es (rw other at h)))
]

text_eq_refl : (t : Text) → text_eq t t ≡ true
unfolding text_eq
text_eq_refl [] = refl
text_eq_refl (c ∷ t) = rw (==_refl c, text_eq_refl t)

find-head : (key : Text) (entry : PlanCacheEntry) (es : Entries) → Has key ((key, entry) ∷ es)
unfolding find
find-head key entry es = rw (text_eq_refl key)

find-tail :
    (sql key : Text) (entry : PlanCacheEntry) (es : Entries)
    → Has sql es
    → Has sql ((key, entry) ∷ es)
unfolding find
find-tail sql key entry es h =
    if_both (λ (o : Option PlanCacheEntry). is_some o ≡ true) (text_eq sql key) (some entry)
      (find sql es) refl h

find-middle :
    (sql key other : Text) (entry next : PlanCacheEntry) (es : Entries)
    → Has sql ((key, entry) ∷ es)
    → Has sql ((key, entry) ∷ (other, next) ∷ es)
unfolding find
find-middle sql key other entry next es h = elim (Bool-cases (text_eq sql key)) [
  | inl same ↦ rw same
  | inr differs ↦ rw differs (find-tail sql other next es (rw differs at h))
]

-- The oldest key is one of the keys.
oldest-Has :
    (key : Text) (entry : PlanCacheEntry) (es : Entries)
    → Has (oldest key entry.last_used es) ((key, entry) ∷ es)
unfolding oldest
oldest-Has key entry [] = find-head key entry []
oldest-Has key entry ((other, next) ∷ es) =
    if_both (λ (k : Text). Has k ((key, entry) ∷ (other, next) ∷ es))
      (ltb next.last_used entry.last_used) (oldest other next.last_used es)
      (oldest key entry.last_used es)
      (find-tail (oldest other next.last_used es) key entry ((other, next) ∷ es)
        (oldest-Has other next es))
      (find-middle (oldest key entry.last_used es) key other entry next es
        (oldest-Has key entry es))

length-evict : (es : Entries) → (es ≡ []) ⊎ (length (evict_oldest es) < length es)
unfolding evict_oldest
length-evict [] = inl refl
length-evict ((key, entry) ∷ es) = inr (
    length-remove-Has (oldest key entry.last_used es) ((key, entry) ∷ es) (oldest-Has key entry es))

no_room : (n : ℕ) → (n == 0) ≡ false → n ≤ 0 → ⊥
no_room n h le = ground arith

unfoldable pub IsBounded : PlanCache → Type 0
IsBounded cache = length cache.entries ≤ cache.capacity

length-put-Has :
    (sql : Text) (entry : PlanCacheEntry) (es : Entries)
    → Has sql es
    → length (put sql entry es) ≤ length es
unfolding put
length-put-Has sql entry es h = omega (arith, length-remove-Has sql es h)

length-put :
    (sql : Text) (entry : PlanCacheEntry) (es : Entries)
    → length (put sql entry es) ≤ suc (length es)
unfolding put
length-put sql entry es = omega (arith, length-remove sql es)

evicted_fits :
    (sql : Text) (entry : PlanCacheEntry) (cache : PlanCache)
    → (cache.capacity == 0) ≡ false
    → IsBounded cache
    → cache.capacity ≤ length cache.entries
    → length (put sql entry (evict_oldest cache.entries)) ≤ cache.capacity
unfolding IsBounded
evicted_fits sql entry cache some_room bounded full = elim (length-evict cache.entries) [
  | inl empty ↦ elim (no_room cache.capacity some_room (rw empty at full)) [ ]
  | inr shorter ↦ omega (arith, length-put sql entry (evict_oldest cache.entries), shorter)
]

-- With the room made, one more entry fits.
room_fits :
    (sql : Text) (entry : PlanCacheEntry) (cache : PlanCache)
    → (cache.capacity == 0) ≡ false
    → IsBounded cache
    → length (put sql entry (room_for sql cache)) ≤ cache.capacity
unfolding room_for IsBounded
room_fits sql entry cache some_room bounded =
    elim (Bool-cases (leb cache.capacity (length cache.entries))) [
      | inr free ↦ rw free (omega (arith, length-put sql entry cache.entries, leb→lt _ _ free))
      | inl full ↦ elim (Bool-cases (is_some (find sql cache.entries))) [
        | inl present ↦
            rw (full, present) (omega (arith, length-put-Has sql entry cache.entries present))
        | inr absent ↦
            rw (full, absent) (evicted_fits sql entry cache some_room bounded (leb→le _ _ full))
      ]
    ]

pub insert-IsBounded :
    (sql : Text) (version : ℕ) (s : Statement) (cache : PlanCache)
    → IsBounded cache
    → IsBounded (insert sql version s cache)
unfolding insert IsBounded
insert-IsBounded sql version s cache bounded = elim (Bool-cases (cache.capacity == 0)) [
  | inl none_allowed ↦ rw none_allowed bounded
  | inr some_room ↦ rw some_room (
      room_fits sql
        (record {
          catalog_version = version;
          statement = s;
          last_used = saturating_add cache.clock 1;
        })
        cache some_room bounded)
]

found-IsBounded :
    (sql : Text) (version : ℕ) (cache : PlanCache) (o : Option PlanCacheEntry)
    → find sql cache.entries ≡ o
    → IsBounded cache
    → IsBounded (found sql version cache o).1
unfolding found IsBounded
found-IsBounded sql version cache none at bounded = bounded
found-IsBounded sql version cache (some entry) at bounded =
    if_both (λ (r : Option Statement × PlanCache). IsBounded r.1) (entry.catalog_version == version)
      _ _
      (omega (
        arith,
        length-put-Has sql (record entry { last_used = cache.clock }) cache.entries (rw at),
      ))
      (omega (arith, length-remove sql cache.entries))

pub get-IsBounded :
    (sql : Text) (version : ℕ) (cache : PlanCache)
    → IsBounded cache
    → IsBounded (get sql version cache).1
unfolding get IsBounded
get-IsBounded sql version cache bounded =
    found-IsBounded sql version (tick cache) (find sql cache.entries) refl bounded
