-- ===== src/Db/PlanCache.antt =====
-- src/sql/database.rs: the cache of parsed statements. The hash map is a list with one entry for a
-- key; `last_used` tells the entries apart, so the order of the list does not matter.
pub mod Bounded
use rusty_db.Prelude.{
  ℕ, Bool, true, false, ◌&&◌, not, Option, none, some, List, [], ◌∷◌, if◌then◌else◌, saturating_add,
  ◌==◌, ltb, leb, length,
}
use rusty_db.Sql.Types.{Text}
use rusty_db.Db.TextMap.{TextMap, find, remove, put}
use rusty_db.Sql.Statement.{Statement}

pub record PlanCacheEntry : Type 0 where
  pub catalog_version : ℕ
  pub statement : Statement
  pub last_used : ℕ

abbrev pub Entries : Type 0
Entries = TextMap PlanCacheEntry

pub record PlanCache : Type 0 where
  pub capacity : ℕ
  pub clock : ℕ
  pub entries : Entries

-- `min_by_key(last_used)`
unfoldable pub oldest : Text → ℕ → Entries → Text
oldest key used [] = key
oldest key used ((other, entry) ∷ rest) =
    if ltb entry.last_used used then oldest other entry.last_used rest else oldest key used rest

unfoldable pub evict_oldest : Entries → Entries
unfolding oldest remove
evict_oldest [] = []
evict_oldest ((key, entry) ∷ rest) = remove (oldest key entry.last_used rest) ((key, entry) ∷ rest)

abbrev pub is_some {ℓ} : {A : Type ℓ} → Option A → Bool
is_some none = false
is_some (some _) = true

abbrev pub tick : PlanCache → PlanCache
tick cache = record cache { clock = saturating_add cache.clock 1 }

unfoldable pub found : Text → ℕ → PlanCache → Option PlanCacheEntry → Option Statement × PlanCache
unfolding remove put
found sql version cache none = (none, cache)
found sql version cache (some entry) =
    if entry.catalog_version == version
    then (
      some entry.statement,
      record cache { entries = put sql (record entry { last_used = cache.clock }) cache.entries },
    )
    else (none, record cache { entries = remove sql cache.entries })

unfoldable pub get : Text → ℕ → PlanCache → Option Statement × PlanCache
unfolding found find
get sql version cache = found sql version (tick cache) (find sql cache.entries)

unfoldable pub room_for : Text → PlanCache → Entries
unfolding find evict_oldest
room_for sql cache =
    if leb cache.capacity (length cache.entries) && not (is_some (find sql cache.entries))
    then evict_oldest cache.entries
    else cache.entries

unfoldable pub insert : Text → ℕ → Statement → PlanCache → PlanCache
unfolding room_for put
insert sql version statement cache = if cache.capacity == 0 then cache else record (tick cache) {
  entries =
      put sql
        (record {
          catalog_version = version;
          statement = statement;
          last_used = saturating_add cache.clock 1;
        })
        (room_for sql cache);
}

unfoldable pub clear : PlanCache → PlanCache
clear cache = record cache { entries = [] }
