-- ===== src/Table/Scan/Complete.antt =====
-- src/sql/executor.rs: the candidates of an index hold all rows on which the selection is true.
use rusty_db.Prelude.{
  if_both, subst, ℕ, suc, Bool, true, false, ◌||◌, not, Option, none, some, List, [], ◌∷◌, All, ok,
  bind-ok, if◌then◌else◌, length, get_elem?, ◌≡◌, refl, ap, sym, ◌∙◌, arith, Bool-cases, inl, inr,
  ◌==◌, ==→eq,
}
use rusty_db.Prelude.Keyed.{contains, AllValues, same_refl}
use rusty_db.Sql.Number.{Runtime}
use rusty_db.Sql.Types.{Text, Value, SqlTruth, truth}
use rusty_db.Sql.Expr.{Expr, Query}
use rusty_db.Sql.Operators.{Relation, Evaluated}
use rusty_db.Table.Schema.{TableSchema}
use rusty_db.Table.Keys.{IndexKey, starts_with, keyed_by_number, keyed_by_parts}
use rusty_db.Table.Bloom.{IndexRuntime, might_contain}
use rusty_db.Table.Index.{BtreeIndex, ids_at, holds, Shows}
use rusty_db.Table.Store.{Row, Table}
use rusty_db.Table.Indexed.{All-get_elem?, has_row, key_in, Reflects, IsIndexed, has_row-get_elem?}
use rusty_db.Table.Scan.{
  best_candidates, score, beats, is_unused, IndexPredicate, collect_index_predicates, Plan,
  plan_index, range_matches, index_ids, better, best_index, Best, candidate_row_ids, is_candidate,
  candidate_rows, relation_from_table, select_rows, is_true,
}
use rusty_db.Table.Scan.Predicates.{Fits, agrees_with, value_of, collect_index_predicates-Fits}
use rusty_db.Table.Scan.Plan.{
  plan_index-admits, length-index_key, starts_with-whole, contains-scan_entries,
}

module _ (ir : IndexRuntime) where
  -- The key of a row that the plan admits puts the row's ID among those of the index.
  contains-index_ids :
      (plan : Plan) (f : IndexKey → ℕ → Bool) (index : BtreeIndex) (key : IndexKey) (id : ℕ)
      → Shows ir f index
      → f key id ≡ true
      → length key ≡ length index.definition.columns
      → starts_with key plan.0 ≡ true
      → range_matches plan key ≡ true
      → contains id (index_ids ir plan index) ≡ true
  unfolding index_ids
  contains-index_ids (prefix, some range) f index key id shows h l s r =
      contains-scan_entries (prefix, some range) key id index.entries s r (shows.ids key id ∙ h)
  contains-index_ids (prefix, none) f index key id shows h l s r =
      let held : contains id (ids_at key index.entries) ≡ true = shows.ids key id ∙ h in
      elim (Bool-cases (length prefix == length index.definition.columns)) [
        | inr e ↦ rw e (contains-scan_entries (prefix, none) key id index.entries s r held)
        | inl e ↦ rw e (
            subst
              (λ x.
                contains id (if might_contain ir index.bloom x then ids_at x index.entries else [])
                ≡ true)
              (starts_with-whole key prefix s
                (==→eq (length prefix) (length index.definition.columns) e ∙ sym l))
              (rw (shows.seen key id held) held))
      ]

  abbrev Holds : ℕ → Option Best → Type 0
  Holds id none = Unit {0}
  Holds id (some best) = contains id best.ids ≡ true

  module _ (schema : TableSchema) (rows : List Row) (row_ids : List ℕ) (row : Row) (id : ℕ)
      (predicates : List IndexPredicate) (fits : All (Fits schema row) predicates)
      (there : (f : Row → Option IndexKey) (k : IndexKey)
        → has_row f rows row_ids k id ≡ holds k (f row)) where
    better-Holds :
        (index : BtreeIndex) (best : Option Best) (key : IndexKey)
        → Reflects ir schema rows row_ids index
        → key_in schema index row ≡ some key
        → Holds id best
        → Holds id (better ir predicates index best)
    unfolding better
    better-Holds index best key reflects e h =
        let plan = plan_index predicates index.definition.columns in
        let admitted =
          plan_index-admits schema row predicates index.definition.columns key fits e in
        if_both (Holds id) (is_unused plan || not (beats (score plan) best)) best
          (some (record {
            ids = index_ids ir plan index;
            name = index.definition.name;
            score = score plan;
          }))
          h
          (contains-index_ids plan _ index key id reflects
            (there (key_in schema index) key ∙ rw e (same_refl key))
            (length-index_key schema row index.definition.columns key e) admitted.0 admitted.1)

    best_index-Holds :
        (indexes : List (Text × BtreeIndex)) (best : Option Best)
        → AllValues (Reflects ir schema rows row_ids) indexes
        → AllValues (λ index. (key : IndexKey) × (key_in schema index row ≡ some key)) indexes
        → Holds id best
        → Holds id (best_index ir predicates indexes best)
    unfolding best_index
    best_index-Holds [] best reflects keyed h = h
    best_index-Holds ((name, index) ∷ indexes) best (r, rs) (k, ks) h =
        best_index-Holds indexes (better ir predicates index best) rs ks
          (better-Holds index best k.0 r k.1 h)

-- All rows have a key in every index: its columns are columns of the table.
abbrev pub HasKeys : Table → Row → Type 0
HasKeys t row =
    AllValues (λ index. (key : IndexKey) × (key_in t.schema index row ≡ some key)) t.indexes

skip_row :
    (t : SqlTruth) (c : Bool) (row : Row) (rest : List Row)
    → (t ≡ SqlTruth.true → c ≡ true)
    → c ≡ false
    → (if is_true t then row ∷ rest else rest) ≡ rest
skip_row SqlTruth.true c row rest f e = absurd (cc (f refl))
skip_row SqlTruth.false c row rest f e = refl
skip_row SqlTruth.unknown c row rest f e = refl

candidate_rows-select_rows :
    (holds : Row → Evaluated Value) (ids : Option (List ℕ)) (rows : List Row) (row_ids : List ℕ)
    {out : List Row}
    → length row_ids ≡ length rows
    → ((at : ℕ) (row : Row) (id : ℕ) (v : Value)
        → get_elem? rows at ≡ some row
        → get_elem? row_ids at ≡ some id
        → holds row ≡ ok v
        → truth v ≡ SqlTruth.true
        → is_candidate ids (some id) ≡ true)
    → select_rows holds rows ≡ ok out
    → select_rows holds (candidate_rows ids rows row_ids) ≡ ok out
unfolding select_rows candidate_rows
candidate_rows-select_rows holds ids [] row_ids l covered h = h
candidate_rows-select_rows holds ids (row ∷ rows) [] l covered h = absurd (omega arith)
candidate_rows-select_rows holds ids (row ∷ rows) (id ∷ row_ids) {out} l covered h =
    let (v, hv, h₁) = bind-ok (holds row) _ out h in
    let (rest, hrest, h₂) = bind-ok (select_rows holds rows) _ out h₁ in
    let ih =
      candidate_rows-select_rows holds ids rows row_ids (omega arith)
        (λ at r i w. covered (suc at) r i w) hrest in
    let here = covered 0 row id v refl refl hv in
    elim (Bool-cases (is_candidate ids (some id))) [
      | inl e ↦ rw (e, hv, ih) h₂
      | inr e ↦
          rw e (
            ih ∙ ap ok (sym (skip_row (truth v) (is_candidate ids (some id)) row rest here e)) ∙ h₂)
    ]

Holds-candidate :
    (ir : IndexRuntime) (id : ℕ) (best : Option Best)
    → Holds ir id best
    → is_candidate (best_candidates best).0 (some id) ≡ true
Holds-candidate ir id none h = refl
Holds-candidate ir id (some b) h = h

candidate_row_ids-Holds :
    (ir : IndexRuntime) (t : Table) (e : Expr) (id : ℕ)
    → Holds ir id (best_index ir (collect_index_predicates e) t.indexes none)
    → is_candidate (candidate_row_ids ir (some e) t).0 (some id) ≡ true
unfolding candidate_row_ids
candidate_row_ids-Holds ir t e id h =
    Holds-candidate ir id (best_index ir (collect_index_predicates e) t.indexes none) h

-- In a table whose indexes follow its rows and whose rows have a key in every index, when in each
-- =, <, <=, > or >= of a column of the table with a literal, among the conjuncts of the
-- selection, no integer of a row meets a float or the other way round, no zero meets a zero of
-- the other sign, and the floats are of 64 bits, and the selection has a value on every row: the
-- selection on the rows that the index leaves gives the same rows as the selection on the whole
-- table. A comparison counts whether or not its column has an index.
pub relation_from_table-select_rows :
    (ir : IndexRuntime) (rt : Runtime) (run : Query → Evaluated Relation) (name : Text) (t : Table)
    (e : Expr) (out : List Row)
    → IsIndexed ir t
    → All (HasKeys t) t.rows
    → All (λ row. All (λ p. agrees_with t.schema row p ≡ true) (collect_index_predicates e)) t.rows
    → select_rows (λ row. value_of rt run name t.schema row e) t.rows ≡ ok out
    → select_rows
        (λ row. value_of rt run name t.schema row e)
        (relation_from_table ir t name (some e)).rows
      ≡ ok out
unfolding relation_from_table
relation_from_table-select_rows ir rt run name t e out indexed keyed agree h =
    candidate_rows-select_rows _ (candidate_row_ids ir (some e) t).0 t.rows t.row_ids
      indexed.same_length
      (λ at row id v there id_there hv tv. candidate_row_ids-Holds ir t e id (
        best_index-Holds ir t.schema t.rows t.row_ids row id (collect_index_predicates e)
          (collect_index_predicates-Fits rt run name t.schema row e hv tv
            (All-get_elem? _ t.rows at agree there))
          (λ f k.
            has_row-get_elem? f t.rows t.row_ids at row id k indexed.increasing there id_there)
          t.indexes none indexed.reflects (All-get_elem? (HasKeys t) t.rows at keyed there) tt))
      h
