-- ===== src/Table/Indexed/Rows.antt =====
-- src/sql/executor.rs: `insert_row_indexed` and `replace_row_indexed` keep the indexes in step.
use rusty_db.Prelude.{
  ok_injective, saturating_add, bind-ok, u64_max, ◌∙◌, ap, sym, subst, ℕ, zero, suc, ◌<◌, Option,
  none, some, List, [], ◌∷◌, ◌++◌, All, length, get_elem?, set, ◌≡◌, refl, arith, ok, length-append,
}
use rusty_db.Sql.Types.{Text}
use rusty_db.Table.Schema.{validate_row}
use rusty_db.Table.Keys.{keyed_by_text, keyed_by_number, keyed_by_parts}
use rusty_db.Table.Bloom.{IndexRuntime}
use rusty_db.Table.Store.{
  row_id_at, row_at, insert_row_indexed, replace_row_indexed, Row, Table, note_row, renote_row,
}
use rusty_db.Table.Indexed.{IsIncreasing, IsIndexed}
use rusty_db.Table.Indexed.Rebuild.{note_row-Reflects, renote_row-Reflects}

All-append_one {κ} :
    (P : ℕ → Type κ) (ids : List ℕ) (id : ℕ) → All P ids → P id → All P (ids ++ id ∷ [])
All-append_one P [] id h p = (p, tt)
All-append_one P (i ∷ ids) id h p = (h.0, All-append_one P ids id h.1 p)

All-weaken {κ} : (P Q : ℕ → Type κ) (ids : List ℕ) → ((i : ℕ) → P i → Q i) → All P ids → All Q ids
All-weaken P Q [] f h = tt
All-weaken P Q (i ∷ ids) f h = (f i h.0, All-weaken P Q ids f h.1)

IsIncreasing-append :
    (ids : List ℕ) (next : ℕ)
    → IsIncreasing ids
    → All (λ id. id < next) ids
    → IsIncreasing (ids ++ next ∷ [])
IsIncreasing-append [] next h below = (tt, tt)
IsIncreasing-append (id ∷ ids) next h below = (
  All-append_one (λ later. id < later) ids next h.0 below.0,
  IsIncreasing-append ids next h.1 below.1,
)

length-set : {A : Type 0} (xs : List A) (i : ℕ) (v : A) → length (set xs i v) ≡ length xs
length-set [] i v = refl
length-set (x ∷ xs) zero v = refl
length-set (x ∷ xs) (suc i) v = ap suc (length-set xs i v)

row_at-ok : (o : Option Row) {row : Row} → row_at o ≡ ok row → o ≡ some row
row_at-ok none h = ground arith
row_at-ok (some r) h = ground arith

row_id_at-ok : (o : Option ℕ) {id : ℕ} → row_id_at o ≡ ok id → o ≡ some id
row_id_at-ok none h = ground arith
row_id_at-ok (some i) h = ground arith

module _ (ir : IndexRuntime) where
  appended-IsIndexed :
      (t : Table) (row : Row) (m : List (Text × ℕ))
      → IsIndexed ir t
      → t.next_row_id < u64_max
      → IsIndexed ir (record t {
        rows = t.rows ++ row ∷ [];
        row_ids = t.row_ids ++ t.next_row_id ∷ [];
        next_row_id = saturating_add t.next_row_id 1;
        primary_key_index = m;
        indexes = note_row ir t.schema row t.next_row_id t.indexes;
      })
  appended-IsIndexed t row m h room = record {
    same_length = omega (
      arith,
      h.same_length,
      length-append t.rows (row ∷ []),
      length-append t.row_ids (t.next_row_id ∷ []),
    );
    increasing = IsIncreasing-append t.row_ids t.next_row_id h.increasing h.below_next;
    below_next =
        All-append_one _ t.row_ids t.next_row_id
          (All-weaken _ _ t.row_ids (λ i p. ground arith) h.below_next) (ground arith);
    reflects =
        note_row-Reflects ir t.schema t.rows t.row_ids row t.next_row_id t.indexes h.same_length
          h.reflects;
  }

  -- A row that is inserted is in every index, while IDs are left.
  pub insert_row_indexed-IsIndexed :
      (t u : Table) (row : Row)
      → IsIndexed ir t
      → t.next_row_id < u64_max
      → insert_row_indexed ir row t ≡ ok u
      → IsIndexed ir u
  unfolding insert_row_indexed
  insert_row_indexed-IsIndexed t u row h room e =
      let (_, _, made) = bind-ok (validate_row t.schema row) _ u e in
      subst (IsIndexed ir) (ok_injective _ _ _ refl made) (appended-IsIndexed t row _ h room)

  replaced-IsIndexed :
      (t : Table) (at : ℕ) (row previous : Row) (id : ℕ) (m : List (Text × ℕ))
      → IsIndexed ir t
      → get_elem? t.rows at ≡ some previous
      → get_elem? t.row_ids at ≡ some id
      → IsIndexed ir (record t {
        rows = set t.rows at row;
        primary_key_index = m;
        indexes = renote_row ir t.schema previous row id t.indexes;
      })
  replaced-IsIndexed t at row previous id m h hr hi = record {
    same_length = h.same_length ∙ sym (length-set t.rows at row);
    increasing = h.increasing;
    below_next = h.below_next;
    reflects =
        renote_row-Reflects ir t.schema t.rows t.row_ids at row previous id t.indexes h.increasing
          hr hi h.reflects;
  }

  -- So is one that replaces another.
  pub replace_row_indexed-IsIndexed :
      (t u : Table) (at : ℕ) (row : Row)
      → IsIndexed ir t
      → replace_row_indexed ir at row t ≡ ok u
      → IsIndexed ir u
  unfolding replace_row_indexed
  replace_row_indexed-IsIndexed t u at row h e =
      let (_, _, e₁) = bind-ok (validate_row t.schema row) _ u e in
      let (previous, e₂, e₃) = bind-ok (row_at (get_elem? t.rows at)) _ u e₁ in
      let (id, e₄, made) = bind-ok (row_id_at (get_elem? t.row_ids at)) _ u e₃ in
      subst (IsIndexed ir) (ok_injective _ _ _ refl made) (
        replaced-IsIndexed t at row previous id _ h (row_at-ok (get_elem? t.rows at) e₂)
          (row_id_at-ok (get_elem? t.row_ids at) e₄))
