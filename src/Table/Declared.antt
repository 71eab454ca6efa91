-- ===== src/Table/Declared.antt =====
-- src/sql/executor.rs: the indexes of a table are those that its schema declares.
-- The map holds one index for each name, so two declarations of one name are not both kept.
use rusty_db.Prelude.{
  ℕ, Bool, true, false, Option, none, some, List, [], ◌∷◌, All, get_elem?, if◌then◌else◌, ◌≡◌, refl,
  subst, ◌∙◌, arith, ok, bind-ok, ok_injective,
}
use rusty_db.Prelude.Keyed.{same, same-eq, same_refl, put}
use rusty_db.Sql.Types.{Text}
use rusty_db.Table.Schema.{TableSchema, IndexDef, validate_row}
use rusty_db.Table.Keys.{keyed_by_text}
use rusty_db.Table.Bloom.{IndexRuntime}
use rusty_db.Table.Index.{BtreeIndex}
use rusty_db.Table.Store.{
  Row, Table, build_index, build_indexes, rebuild_index, note_row, renote_row, row_at, row_id_at,
  insert_row_indexed, replace_row_indexed,
}
use rusty_db.Table.Indexed.{some_injective, key_in, definition-note, definition-renote}
use rusty_db.Table.Indexed.Rebuild.{definition-build_index}
use rusty_db.Table.Conflicts.{shares_key, shares_unique_key}

unfoldable pub definition_at : Text → List (Text × BtreeIndex) → Option IndexDef
definition_at name [] = none
definition_at name ((other, index) ∷ indexes) =
    let later = definition_at name indexes in
    if same name other then some index.definition else later

abbrev pub NamesDiffer : List IndexDef → Type 0
NamesDiffer [] = Unit
NamesDiffer (d ∷ ds) = All (λ other. same d.name other.name ≡ false) ds × NamesDiffer ds

abbrev pub AllHeld : List (Text × BtreeIndex) → List IndexDef → Type 0
AllHeld indexes ds = All (λ d. definition_at d.name indexes ≡ some d) ds

-- The declarations have different names, and the table has the index of each.
pub record IsDeclared (t : Table) : Type 0 where
  pub names_differ : NamesDiffer t.schema.indexes
  pub held : AllHeld t.indexes t.schema.indexes

definition_at-put :
    (j k : Text) (index : BtreeIndex) (m : List (Text × BtreeIndex))
    → definition_at j (put k index m)
      ≡ (if same j k then some index.definition else definition_at j m)
unfolding definition_at put
definition_at-put j k index [] = refl
definition_at-put j k index ((other, there) ∷ m) = ground (
  arith,
  definition_at-put j k index m,
  same-eq j other,
  same-eq k other,
  same-eq j k,
  same_refl other,
)

AllHeld-eq :
    (m m' : List (Text × BtreeIndex))
    → ((name : Text) → definition_at name m' ≡ definition_at name m)
    → (ds : List IndexDef) → AllHeld m ds
    → AllHeld m' ds
AllHeld-eq m m' e [] h = tt
AllHeld-eq m m' e (d ∷ ds) h = (e d.name ∙ h.0, AllHeld-eq m m' e ds h.1)

module _ (ir : IndexRuntime) where
  definition_at-note_row :
      (schema : TableSchema) (row : Row) (id : ℕ) (indexes : List (Text × BtreeIndex)) (name : Text)
      → definition_at name (note_row ir schema row id indexes) ≡ definition_at name indexes
  unfolding definition_at note_row
  definition_at-note_row schema row id [] name = refl
  definition_at-note_row schema row id ((other, index) ∷ indexes) name = rw (
    definition_at-note_row schema row id indexes name,
    definition-note ir (key_in schema index row) id index,
  )

  definition_at-renote_row :
      (schema : TableSchema) (previous row : Row) (id : ℕ) (indexes : List (Text × BtreeIndex))
      (name : Text)
      → definition_at name (renote_row ir schema previous row id indexes)
        ≡ definition_at name indexes
  unfolding definition_at renote_row
  definition_at-renote_row schema previous row id [] name = refl
  definition_at-renote_row schema previous row id ((other, index) ∷ indexes) name = rw (
    definition_at-renote_row schema previous row id indexes name,
    definition-renote ir (key_in schema index previous) (key_in schema index row) id index,
  )

  -- An index that is built stays under its name, when no later declaration has the name.
  build_indexes-keeps :
      (t : Table) (ds : List IndexDef) (built : List (Text × BtreeIndex)) (d : IndexDef)
      → definition_at d.name built ≡ some d
      → All (λ other. same d.name other.name ≡ false) ds
      → definition_at d.name (build_indexes ir t ds built) ≡ some d
  unfolding build_indexes
  build_indexes-keeps t [] built d there h = there
  build_indexes-keeps t (other ∷ ds) built d there (differ, h) =
      build_indexes-keeps t ds _ d
        (definition_at-put d.name other.name (build_index ir t other) built ∙ rw differ there) h

  build_indexes-held :
      (t : Table) (ds : List IndexDef) (built : List (Text × BtreeIndex))
      → NamesDiffer ds
      → AllHeld (build_indexes ir t ds built) ds
  unfolding build_indexes
  build_indexes-held t [] built h = tt
  build_indexes-held t (d ∷ ds) built (differ, h) = (
    build_indexes-keeps t ds _ d
        (definition_at-put d.name d.name (build_index ir t d) built
          ∙ rw (same_refl d.name, definition-build_index ir t d))
        differ,
    build_indexes-held t ds _ h,
  )

  pub rebuild_index-IsDeclared :
      (t : Table) → NamesDiffer t.schema.indexes → IsDeclared (rebuild_index ir t)
  unfolding rebuild_index
  rebuild_index-IsDeclared t h = record {
    names_differ = h;
    held = build_indexes-held t t.schema.indexes [] h;
  }

  pub insert_row_indexed-IsDeclared :
      (t u : Table) (row : Row) → IsDeclared t → insert_row_indexed ir row t ≡ ok u → IsDeclared u
  unfolding insert_row_indexed
  insert_row_indexed-IsDeclared t u row h e =
      let (_, _, made) = bind-ok (validate_row t.schema row) _ u e in
      subst IsDeclared (ok_injective _ _ _ refl made) (record {
        names_differ = h.names_differ;
        held =
            AllHeld-eq t.indexes _ (definition_at-note_row t.schema row t.next_row_id t.indexes)
              t.schema.indexes h.held;
      })

  pub replace_row_indexed-IsDeclared :
      (t u : Table) (at : ℕ) (row : Row)
      → IsDeclared t
      → replace_row_indexed ir at row t ≡ ok u
      → IsDeclared u
  unfolding replace_row_indexed
  replace_row_indexed-IsDeclared t u at row h e =
      let (_, _, e₁) = bind-ok (validate_row t.schema row) _ u e in
      let (previous, _, e₂) = bind-ok (row_at (get_elem? t.rows at)) _ u e₁ in
      let (id, _, made) = bind-ok (row_id_at (get_elem? t.row_ids at)) _ u e₂ in
      subst IsDeclared (ok_injective _ _ _ refl made) (record {
        names_differ = h.names_differ;
        held =
            AllHeld-eq t.indexes _ (definition_at-renote_row t.schema previous row id t.indexes)
              t.schema.indexes h.held;
      })

either_definition :
    (P : IndexDef → Type 0) (b : Bool) (here : IndexDef) (later : Option IndexDef) {d : IndexDef}
    → (if b then some here else later) ≡ some d
    → P here
    → (later ≡ some d → P d)
    → P d
either_definition P true here later h now rest = subst P (some_injective h) now
either_definition P false here later h now rest = rest h

-- No key is shared in the index of a declaration when none is in any index.
pub declared_not_shared :
    (schema : TableSchema) (row other : Row) (indexes : List (Text × BtreeIndex)) (name : Text)
    (d : IndexDef)
    → definition_at name indexes ≡ some d
    → shares_unique_key schema row other indexes ≡ false
    → d.unique ≡ true
    → shares_key schema d.columns row other ≡ false
unfolding definition_at
declared_not_shared schema row other [] name d there h = absurd (cc there)
declared_not_shared schema row other ((n, index) ∷ indexes) name d there h =
    either_definition
      (λ (c : IndexDef). c.unique ≡ true → shares_key schema c.columns row other ≡ false)
      (same name n) index.definition (definition_at name indexes) there (λ unique. ground arith)
      (λ later. declared_not_shared schema row other indexes name d later (ground arith))
