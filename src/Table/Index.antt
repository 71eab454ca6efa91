-- ===== src/Table/Index.antt =====
-- src/sql/executor.rs: `BTreeIndex`, a map from keys to the IDs of the rows that have them, and
-- the three ways in which a table changes it.
use rusty_db.Prelude.{
  inr, inl, ap, Bool-cases, ◌∙◌, ℕ, Bool, true, false, ◌||◌, ◌&&◌, not, Option, none, some, List,
  [], ◌∷◌, if◌then◌else◌, ◌≡◌, refl, arith,
}
use rusty_db.Prelude.Keyed.{
  same, contains, add, discard, find, put, remove, same-eq, contains-add, contains-discard,
  find-put, find-remove,
}
use rusty_db.Table.Schema.{IndexDef}
use rusty_db.Table.Keys.{IndexKey, same_key, keyed_by_parts, keyed_by_number}
use rusty_db.Table.Bloom.{
  IndexRuntime, BloomFilter, IsFilter, new_filter, insert, might_contain, insert-IsFilter,
  might_contain-insert, might_contain-insert_self, new_filter-IsFilter,
}

-- `BTreeMap<IndexKey, BTreeSet<u64>>`
abbrev pub Entries : Type 0
Entries = List (IndexKey × List ℕ)

pub record BtreeIndex : Type 0 where
  pub definition : IndexDef
  pub entries : Entries
  pub bloom : BloomFilter

abbrev pub or_no_ids : Option (List ℕ) → List ℕ
or_no_ids none = []
or_no_ids (some ids) = ids

unfoldable pub ids_at : IndexKey → Entries → List ℕ
unfolding find
ids_at key entries = or_no_ids (find key entries)

abbrev pub is_empty_set : List ℕ → Bool
is_empty_set [] = true
is_empty_set (_ ∷ _) = false

-- `entries.entry(key).or_default().insert(row_id)`
unfoldable pub enter : IndexKey → ℕ → Entries → Entries
unfolding ids_at add put
enter key row_id entries = put key (add row_id (ids_at key entries)) entries

drop_from : IndexKey → ℕ → Option (List ℕ) → Entries → Entries
unfolding discard remove put
drop_from key row_id none entries = entries
drop_from key row_id (some ids) entries =
    let left = discard row_id ids in
    if is_empty_set left then remove key entries else put key left entries

-- The ID leaves the set of the key, and a set that is empty leaves the map.
unfoldable pub withdraw : IndexKey → ℕ → Entries → Entries
unfolding drop_from find
withdraw key row_id entries = drop_from key row_id (find key entries) entries

unfoldable pub same_option : Option IndexKey → Option IndexKey → Bool
unfolding same_key
same_option none none = true
same_option (some a) (some b) = same_key a b
same_option _ _ = false

unfoldable pub withdraw_old : Option IndexKey → ℕ → BtreeIndex → BtreeIndex
unfolding withdraw
withdraw_old none row_id index = index
withdraw_old (some key) row_id index = record index { entries = withdraw key row_id index.entries }

module _ (ir : IndexRuntime) where
  abbrev pub empty_index : IndexDef → ℕ → ℕ → BtreeIndex
  empty_index definition expected_items rate = record {
    definition = definition;
    entries = [];
    bloom = new_filter ir expected_items rate;
  }

  unfoldable pub note : Option IndexKey → ℕ → BtreeIndex → BtreeIndex
  unfolding enter insert
  note none row_id index = index
  note (some key) row_id index = record index {
    entries = enter key row_id index.entries;
    bloom = insert ir index.bloom key;
  }

  -- The change of the key of one row.
  unfoldable pub renote : Option IndexKey → Option IndexKey → ℕ → BtreeIndex → BtreeIndex
  unfolding same_option withdraw_old note
  renote previous_key next_key row_id index =
      if same_option previous_key next_key
      then index
      else note next_key row_id (withdraw_old previous_key row_id index)

contains-ids_at-enter :
    (j : ℕ) (k key : IndexKey) (row_id : ℕ) (entries : Entries)
    → contains j (ids_at k (enter key row_id entries))
      ≡ ((same k key && same j row_id) || contains j (ids_at k entries))
unfolding ids_at enter
contains-ids_at-enter j k key row_id entries = ground (
  arith,
  find-put k key (add row_id (ids_at key entries)) entries,
  contains-add j row_id (ids_at key entries),
  same-eq k key,
)

contains-ids_at-drop_from :
    (j : ℕ) (k key : IndexKey) (row_id : ℕ) (entries : Entries) (old : Option (List ℕ))
    → find key entries ≡ old
    → contains j (ids_at k (drop_from key row_id old entries))
      ≡ (not (same k key && same j row_id) && contains j (ids_at k entries))
unfolding ids_at drop_from
contains-ids_at-drop_from j k key row_id entries none h = ground (arith, same-eq k key)
contains-ids_at-drop_from j k key row_id entries (some ids) h = ground (
  arith,
  same-eq k key,
  contains-discard j row_id ids,
  find-put k key (discard row_id ids) entries,
  find-remove k key entries,
)

contains-ids_at-withdraw :
    (j : ℕ) (k key : IndexKey) (row_id : ℕ) (entries : Entries)
    → contains j (ids_at k (withdraw key row_id entries))
      ≡ (not (same k key && same j row_id) && contains j (ids_at k entries))
unfolding withdraw
contains-ids_at-withdraw j k key row_id entries =
    contains-ids_at-drop_from j k key row_id entries (find key entries) refl

-- Whether a row with this key, if any, is one with the key `k`.
abbrev pub holds : IndexKey → Option IndexKey → Bool
holds k none = false
holds k (some key) = same k key

pub same_option-eq : (a b : Option IndexKey) → same_option a b ≡ true → a ≡ b
unfolding same_option
same_option-eq none none h = refl
same_option-eq (some a) (some b) h = ap (λ k. some k) (same-eq a b h)
same_option-eq none (some b) h = cc
same_option-eq (some a) none h = cc

module _ (ir : IndexRuntime) where
  -- The index holds, under each key, the IDs that `f` tells, and the filter has all these keys.
  pub record Shows (f : IndexKey → ℕ → Bool) (index : BtreeIndex) : Type 0 where
    pub ids : (k : IndexKey) (j : ℕ) → contains j (ids_at k index.entries) ≡ f k j
    pub seen :
        (k : IndexKey) (j : ℕ)
        → contains j (ids_at k index.entries) ≡ true
        → might_contain ir index.bloom k ≡ true
    pub filter : IsFilter index.bloom

  pub empty_index-Shows :
      (definition : IndexDef) (expected_items rate : ℕ)
      → Shows (λ k j. false) (empty_index ir definition expected_items rate)
  unfolding ids_at find
  empty_index-Shows definition expected_items rate = record {
    ids = λ k j. refl;
    seen = λ k j h. absurd (cc h);
    filter = new_filter-IsFilter ir expected_items rate;
  }

  pub note-Shows :
      (f : IndexKey → ℕ → Bool) (key : Option IndexKey) (row_id : ℕ) (index : BtreeIndex)
      → Shows f index
      → Shows (λ k j. (holds k key && same j row_id) || f k j) (note ir key row_id index)
  unfolding note
  note-Shows f none row_id index h = h
  note-Shows f (some key) row_id index h = record {
    ids = λ k j. ground (arith, contains-ids_at-enter j k key row_id index.entries, h.ids k j);
    seen = λ k j e. ground (
      arith,
      contains-ids_at-enter j k key row_id index.entries,
      h.seen k j,
      might_contain-insert ir index.bloom key k,
      might_contain-insert_self ir index.bloom key h.filter,
      same-eq k key,
    );
    filter = insert-IsFilter ir index.bloom key h.filter;
  }

  withdraw_old-Shows :
      (f : IndexKey → ℕ → Bool) (key : Option IndexKey) (row_id : ℕ) (index : BtreeIndex)
      → Shows f index
      → Shows (λ k j. not (holds k key && same j row_id) && f k j) (withdraw_old key row_id index)
  unfolding withdraw_old
  withdraw_old-Shows f none row_id index h = h
  withdraw_old-Shows f (some key) row_id index h = record {
    ids = λ k j. ground (arith, contains-ids_at-withdraw j k key row_id index.entries, h.ids k j);
    seen =
        λ k j e. ground (arith, contains-ids_at-withdraw j k key row_id index.entries, h.seen k j);
    filter = h.filter;
  }

  pub Shows-eq :
      (f g : IndexKey → ℕ → Bool) (index : BtreeIndex)
      → ((k : IndexKey) (j : ℕ) → f k j ≡ g k j)
      → Shows f index
      → Shows g index
  Shows-eq f g index e h = record {
    ids = λ k j. h.ids k j ∙ e k j;
    seen = h.seen;
    filter = h.filter;
  }

  -- What was under the old key of the row stands under its new one, and nothing else changes.
  pub renote-Shows :
      (f : IndexKey → ℕ → Bool) (previous_key next_key : Option IndexKey) (row_id : ℕ)
      (index : BtreeIndex)
      → ((k : IndexKey) → f k row_id ≡ holds k previous_key)
      → Shows f index
      → Shows
          (λ k j. if same j row_id then holds k next_key else f k j)
          (renote ir previous_key next_key row_id index)
  unfolding renote
  renote-Shows f previous_key next_key row_id index old h =
      elim (Bool-cases (same_option previous_key next_key)) [
        | inl e ↦ rw e (
            Shows-eq f _ index
              (λ k j.
                ground (arith, old k, same-eq j row_id, same_option-eq previous_key next_key e))
              h)
        | inr e ↦ rw e (
            Shows-eq _ _ (note ir next_key row_id (withdraw_old previous_key row_id index))
              (λ k j. ground (arith, old k, same-eq j row_id))
              (note-Shows _ next_key row_id (withdraw_old previous_key row_id index)
                (withdraw_old-Shows f previous_key row_id index h)))
      ]
