-- ===== src/Table/Scan/Plan.antt =====
-- src/sql/executor.rs: what the columns of an index and a range leave.
use rusty_db.Prelude.{
  subst, ℕ, suc, true, Option, none, some, List, [], ◌∷◌, All, map, length, ◌≡◌, refl, ap, arith,
  Bool-cases, Option-cases, inl, inr,
}
use rusty_db.Prelude.Keyed.{contains, find, same-eq, contains-append}
use rusty_db.Sql.Types.{Text}
use rusty_db.Sql.Operators.{eq_ignore_ascii_case, ascii_lower}
use rusty_db.Table.Schema.{TableSchema, column_index}
use rusty_db.Table.Keys.{
  KeyPart, IndexKey, from_value, compare_key_part, starts_with, same_part-eq, text_eq-eq,
  keyed_by_number, keyed_by_parts,
}
use rusty_db.Table.Index.{Entries, ids_at}
use rusty_db.Table.Store.{Row, index_key, key_part, and_then}
use rusty_db.Table.Scan.{
  IndexPredicate, find_predicate, Plan, continue_plan, plan_index, range_matches, scan_entries,
}
use rusty_db.Table.Scan.Order.{compare_key_part-same_part}
use rusty_db.Table.Scan.Predicates.{Fits, serves}

find_predicate-Fits :
    (schema : TableSchema) (row : Row) (predicates : List IndexPredicate) (name : Text)
    {p : IndexPredicate}
    → find_predicate predicates name ≡ some p
    → All (Fits schema row) predicates
    → Fits schema row p × (eq_ignore_ascii_case p.column name ≡ true)
unfolding find_predicate
find_predicate-Fits schema row [] name h fits = absurd (cc h)
find_predicate-Fits schema row (q ∷ predicates) name {p} h (fit, fits) =
    elim (Bool-cases (eq_ignore_ascii_case q.column name)) [
      | inl e ↦
          subst (λ r. Fits schema row r × (eq_ignore_ascii_case r.column name ≡ true))
            (ground arith) (fit, e)
      | inr e ↦ find_predicate-Fits schema row predicates name (ground arith) fits
    ]

-- Names that differ in case only name the same column.
key_part-eq_ignore_ascii_case :
    (schema : TableSchema) (row : Row) (a b : Text)
    → eq_ignore_ascii_case a b ≡ true
    → key_part schema row a ≡ key_part schema row b
unfolding key_part column_index eq_ignore_ascii_case
key_part-eq_ignore_ascii_case schema row a b h =
    rw (text_eq-eq (map ascii_lower a) (map ascii_lower b) h)

index_key-cons :
    (schema : TableSchema) (row : Row) (name : Text) (names : List Text) {key : IndexKey}
    → index_key schema row (name ∷ names) ≡ some key
    → (part : KeyPart) × (rest : IndexKey) × (key_part schema row name ≡ some part)
      × (index_key schema row names ≡ some rest)
      × (key ≡ part ∷ rest)
unfolding index_key and_then
index_key-cons schema row name names {key} h = elim (Option-cases (key_part schema row name)) [
  | inl e ↦ absurd (ground arith)
  | inr (part, e) ↦ elim (Option-cases (index_key schema row names)) [
    | inl e' ↦ absurd (ground arith)
    | inr (rest, e') ↦ (part, rest, e, e', ground arith)
  ]
]

continue_plan-admits :
    (p : IndexPredicate) (plan : Plan) (part : KeyPart) (rest : IndexKey)
    → (serves p.operator ≡ true → compare_key_part part (from_value p.value) p.operator ≡ true)
    → starts_with rest plan.0 ≡ true
    → range_matches plan rest ≡ true
    → (starts_with (part ∷ rest) (continue_plan (some p) plan).0 ≡ true)
      × (range_matches (continue_plan (some p) plan) (part ∷ rest) ≡ true)
unfolding starts_with range_matches
continue_plan-admits p (prefix, none) part rest fit s r =
    ground (arith, compare_key_part-same_part part (from_value p.value))
continue_plan-admits p (prefix, some (operator, value)) part rest fit s r =
    ground (arith, compare_key_part-same_part part (from_value p.value))

-- The key of a row that fits the predicates starts with the prefix and lies in the range.
pub plan_index-admits :
    (schema : TableSchema) (row : Row) (predicates : List IndexPredicate) (names : List Text)
    (key : IndexKey)
    → All (Fits schema row) predicates
    → index_key schema row names ≡ some key
    → (starts_with key (plan_index predicates names).0 ≡ true)
      × (range_matches (plan_index predicates names) key ≡ true)
unfolding plan_index starts_with range_matches
plan_index-admits schema row predicates [] key fits h = (refl, refl)
plan_index-admits schema row predicates (name ∷ names) key fits h =
    let (part, rest, here, later, e) = index_key-cons schema row name names h in
    elim (Option-cases (find_predicate predicates name)) [
      | inl unfound ↦ rw unfound (refl, refl)
      | inr (p, found) ↦
          let (fit, same_name) = find_predicate-Fits schema row predicates name found fits in
          let ih = plan_index-admits schema row predicates names rest fits later in
          rw (found, e)
            (continue_plan-admits p (plan_index predicates names) part rest
              (λ serving.
                let (part', at, compared) = fit serving in
                subst (λ x. compare_key_part x (from_value p.value) p.operator ≡ true)
                  (cc (at, here, key_part-eq_ignore_ascii_case schema row p.column name same_name))
                  compared)
              ih.0 ih.1)
    ]

nil_length : {key : IndexKey} → ◌≡◌ {A = Option IndexKey} (some []) (some key) → length key ≡ 0
nil_length h = ground arith

pub length-index_key :
    (schema : TableSchema) (row : Row) (names : List Text) (key : IndexKey)
    → index_key schema row names ≡ some key
    → length key ≡ length names
length-index_key schema row [] key h = nil_length (unfold index_key in h)
length-index_key schema row (name ∷ names) key h =
    let (part, rest, here, later, e) = index_key-cons schema row name names h in
    rw e (ap suc (length-index_key schema row names rest later))

pub starts_with-whole :
    (key prefix : IndexKey)
    → starts_with key prefix ≡ true
    → length prefix ≡ length key
    → key ≡ prefix
unfolding starts_with
starts_with-whole [] [] h e = refl
starts_with-whole (a ∷ key) [] h e = absurd (omega arith)
starts_with-whole [] (b ∷ prefix) h e = absurd (omega arith)
starts_with-whole (a ∷ key) (b ∷ prefix) h e =
    ground (arith, same_part-eq a b, starts_with-whole key prefix)

pub contains-scan_entries :
    (plan : Plan) (key : IndexKey) (id : ℕ) (entries : Entries)
    → starts_with key plan.0 ≡ true
    → range_matches plan key ≡ true
    → contains id (ids_at key entries) ≡ true
    → contains id (scan_entries plan entries) ≡ true
unfolding scan_entries ids_at find
contains-scan_entries plan key id [] s r h = h
contains-scan_entries plan key id ((k, found) ∷ entries) s r h = ground (
  arith,
  contains-scan_entries plan key id entries s r,
  contains-append id found (scan_entries plan entries),
  same-eq key k,
)
