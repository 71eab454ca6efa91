-- ===== src/Table/Indexed/Rebuild.antt =====
-- src/sql/executor.rs: `rebuild_index`, and the notes of one row in all indexes.
use rusty_db.Prelude.{
  drop, ◌∙◌, ap, sym, subst, ℕ, suc, ◌<◌, Bool, false, ◌||◌, ◌&&◌, some, List, [], ◌∷◌, ◌++◌, All,
  length, get_elem?, set, ◌≡◌, refl, arith,
}
use rusty_db.Prelude.Keyed.{same, AllValues, AllValues-put}
use rusty_db.Sql.Types.{Text}
use rusty_db.Table.Schema.{TableSchema, IndexDef}
use rusty_db.Table.Keys.{keyed_by_text, IndexKey, keyed_by_number, keyed_by_parts}
use rusty_db.Table.Bloom.{IndexRuntime}
use rusty_db.Table.Index.{
  BtreeIndex, Shows, Shows-eq, holds, note, note-Shows, renote-Shows, empty_index,
  empty_index-Shows,
}
use rusty_db.Table.Store.{
  empty_table, new_table, Row, Table, index_key, fill, id_or, build_index, build_indexes,
  rebuild_index, note_row, renote_row,
}
use rusty_db.Table.Indexed.{
  has_row, IsIncreasing, key_in, Reflects, IsIndexed, definition-note, definition-renote,
  has_row-append, has_row-get_elem?, has_row-set,
}

module _ (ir : IndexRuntime) where
  fill-Shows :
      (schema : TableSchema) (at : ℕ) (rows : List Row) (ids : List ℕ) (index : BtreeIndex)
      (f : IndexKey → ℕ → Bool)
      → length ids ≡ length rows
      → Shows ir f index
      → Shows ir
          (λ k j. has_row (key_in schema index) rows ids k j || f k j)
          (fill ir schema at rows ids index)
  unfolding has_row fill
  fill-Shows schema at [] ids index f h s = s
  fill-Shows schema at (row ∷ rows) [] index f h s = absurd (omega arith)
  fill-Shows schema at (row ∷ rows) (id ∷ ids) index f h s =
      let noted = note ir (key_in schema index row) id index in
      let key : key_in schema noted ≡ key_in schema index =
        ap (λ d row'. index_key schema row' (IndexDef.columns d))
          (definition-note ir (key_in schema index row) id index) in
      Shows-eq ir _ _ _ (λ k j. ground (arith, ap (λ g. has_row g rows ids k j) key))
        (fill-Shows schema (suc at) rows ids noted
          (λ k j. (holds k (key_in schema index row) && same j id) || f k j) (omega arith)
          (note-Shows ir f (key_in schema index row) id index s))

  -- An index that was changed keeps its definition.
  same_definition :
      (schema : TableSchema) (rows : List Row) (ids : List ℕ) (old index : BtreeIndex)
      → index.definition ≡ old.definition
      → Shows ir (has_row (key_in schema old) rows ids) index
      → Reflects ir schema rows ids index
  same_definition schema rows ids old index e s =
      subst
        (λ (d : IndexDef).
          Shows ir (has_row (λ row. index_key schema row d.columns) rows ids) index)
        (sym e) s

  pub note_row-Reflects :
      (schema : TableSchema) (rows : List Row) (ids : List ℕ) (row : Row) (id : ℕ)
      (indexes : List (Text × BtreeIndex))
      → length ids ≡ length rows
      → AllValues (Reflects ir schema rows ids) indexes
      → AllValues
          (Reflects ir schema (rows ++ row ∷ []) (ids ++ id ∷ []))
          (note_row ir schema row id indexes)
  unfolding note_row
  note_row-Reflects schema rows ids row id [] h s = tt
  note_row-Reflects schema rows ids row id ((name, index) ∷ indexes) h (s, ss) = (
    same_definition schema _ _ index _ (definition-note ir (key_in schema index row) id index) (
        Shows-eq ir _ _ _ (λ k j. sym (has_row-append (key_in schema index) rows ids row id k j h))
          (note-Shows ir _ (key_in schema index row) id index s)),
    note_row-Reflects schema rows ids row id indexes h ss,
  )

  pub renote_row-Reflects :
      (schema : TableSchema) (rows : List Row) (ids : List ℕ) (at : ℕ) (row previous : Row) (id : ℕ)
      (indexes : List (Text × BtreeIndex))
      → IsIncreasing ids
      → get_elem? rows at ≡ some previous
      → get_elem? ids at ≡ some id
      → AllValues (Reflects ir schema rows ids) indexes
      → AllValues
          (Reflects ir schema (set rows at row) ids)
          (renote_row ir schema previous row id indexes)
  unfolding renote_row
  renote_row-Reflects schema rows ids at row previous id [] inc hr hi s = tt
  renote_row-Reflects schema rows ids at row previous id ((name, index) ∷ indexes) inc hr hi
        (s, ss) =
      (
        same_definition schema _ _ index _
            (definition-renote ir (key_in schema index previous) (key_in schema index row) id index)
            (Shows-eq ir _ _ _
              (λ k j.
                sym (has_row-set (key_in schema index) rows ids at row previous id k j inc hr hi))
              (renote-Shows ir _ (key_in schema index previous) (key_in schema index row) id index
                (λ k. has_row-get_elem? (key_in schema index) rows ids at previous id k inc hr hi)
                s)),
        renote_row-Reflects schema rows ids at row previous id indexes inc hr hi ss,
      )

  definition-fill :
      (schema : TableSchema) (at : ℕ) (rows : List Row) (ids : List ℕ) (index : BtreeIndex)
      → (fill ir schema at rows ids index).definition ≡ index.definition
  unfolding fill
  definition-fill schema at [] ids index = refl
  definition-fill schema at (row ∷ rows) ids index =
      definition-fill schema (suc at) rows (drop 1 ids)
        (note ir (key_in schema index row) (id_or at ids) index)
      ∙ definition-note ir (key_in schema index row) (id_or at ids) index

  pub definition-build_index :
      (t : Table) (definition : IndexDef) → (build_index ir t definition).definition ≡ definition
  unfolding build_index
  definition-build_index t definition =
      definition-fill t.schema 0 t.rows t.row_ids
        (empty_index ir definition (length t.rows) t.bloom_false_positive_rate)

  build_index-Reflects :
      (t : Table) (definition : IndexDef)
      → length t.row_ids ≡ length t.rows
      → Reflects ir t.schema t.rows t.row_ids (build_index ir t definition)
  unfolding build_index
  build_index-Reflects t definition h =
      let empty = empty_index ir definition (length t.rows) t.bloom_false_positive_rate in
      same_definition t.schema _ _ empty _ (definition-fill t.schema 0 t.rows t.row_ids empty) (
        Shows-eq ir _ _ _ (λ k j. ground arith)
          (fill-Shows t.schema 0 t.rows t.row_ids empty (λ k j. false) h
            (empty_index-Shows ir definition (length t.rows) t.bloom_false_positive_rate)))

  build_indexes-Reflects :
      (t : Table) (definitions : List IndexDef) (built : List (Text × BtreeIndex))
      → length t.row_ids ≡ length t.rows
      → AllValues (Reflects ir t.schema t.rows t.row_ids) built
      → AllValues (Reflects ir t.schema t.rows t.row_ids) (build_indexes ir t definitions built)
  unfolding build_indexes
  build_indexes-Reflects t [] built h s = s
  build_indexes-Reflects t (definition ∷ definitions) built h s =
      build_indexes-Reflects t definitions _ h (
        AllValues-put (Reflects ir t.schema t.rows t.row_ids) definition.name _ built
          (build_index-Reflects t definition h) s)

  pub rebuild_index-IsIndexed :
      (t : Table)
      → length t.row_ids ≡ length t.rows
      → IsIncreasing t.row_ids
      → All (λ id. id < t.next_row_id) t.row_ids
      → IsIndexed ir (rebuild_index ir t)
  unfolding rebuild_index
  rebuild_index-IsIndexed t h inc below = record {
    same_length = h;
    increasing = inc;
    below_next = below;
    reflects = build_indexes-Reflects t t.schema.indexes [] h tt;
  }

  new_table-IsIndexed : (schema : TableSchema) → IsIndexed ir (new_table ir schema)
  unfolding new_table
  new_table-IsIndexed schema = rebuild_index-IsIndexed (empty_table schema) refl tt tt
