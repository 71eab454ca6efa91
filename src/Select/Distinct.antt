-- ===== src/Select/Distinct.antt =====
-- src/sql/executor.rs: DISTINCT on the rows of a result.

use mathlib.Core.List.{Mem, Nodup, Nodup-nil, Nodup-cons}
use mathlib.Core.List.Memᴰ
use mathlib.Core.List.Memᴰ.{Memᴰ}
use mathlib.Core.Logic.{∥∥₁_elim, ∥∥₁_map}
use mathlib.Core.HLevel.{⊥_prop}
use rusty_db.Prelude.{
  Bool, true, false, List, [], ◌∷◌, if◌then◌else◌, ◌≡◌, ◌↔◌, inl, inr, refl, ap, ◌∙◌, arith,
  Bool-cases,
}
use rusty_db.Prelude.Keyed.{contains, same, same_refl, same-eq}
use rusty_db.Sql.Types.{Text}
use rusty_db.Table.Keys.{keyed_by_text}
use rusty_db.Table.Store.{Row}
use rusty_db.Select.Project.{Printing, row_key, distinct_rows}
use rusty_db.Select.Keys.{IsPrinting, row_key_injective}

if_elim :
    (P : List Row → Type 0) (b : Bool) (rows others : List Row)
    → (b ≡ true → P rows)
    → (b ≡ false → P others)
    → P (if b then rows else others)
if_elim P true rows others h k = h refl
if_elim P false rows others h k = k refl

module _ (pr : Printing) where
  distinct_rows-fresh :
      (seen : List Text) (rows : List Row) (r : Row)
      → Memᴰ r (distinct_rows pr seen rows)
      → contains (row_key pr r) seen ≡ false
  unfolding distinct_rows
  distinct_rows-fresh seen [] r m = absurd (Memᴰ.not-nil m)
  distinct_rows-fresh seen (row ∷ rows) r m =
      if_elim (λ out. Memᴰ r out → contains (row_key pr r) seen ≡ false)
        (contains (row_key pr row) seen) (distinct_rows pr seen rows)
        (row ∷ distinct_rows pr (row_key pr row ∷ seen) rows)
        (λ known m. distinct_rows-fresh seen rows r m)
        (λ fresh m. elim (Memᴰ.cases_cons m) [
          | inl e ↦ ap (λ k. contains (row_key pr k) seen) e ∙ fresh
          | inr later ↦
              let rest = distinct_rows-fresh (row_key pr row ∷ seen) rows r later in ground arith
        ])
        m

  distinct_rows-from :
      (seen : List Text) (rows : List Row) (r : Row)
      → Memᴰ r (distinct_rows pr seen rows)
      → Memᴰ r rows
  unfolding distinct_rows
  distinct_rows-from seen [] r m = m
  distinct_rows-from seen (row ∷ rows) r m =
      if_elim (λ out. Memᴰ r out → Memᴰ r (row ∷ rows)) (contains (row_key pr row) seen)
        (distinct_rows pr seen rows) (row ∷ distinct_rows pr (row_key pr row ∷ seen) rows)
        (λ known m. Memᴰ.tail (distinct_rows-from seen rows r m))
        (λ fresh m. elim (Memᴰ.cases_cons m) [
          | inl e ↦ Memᴰ.head e
          | inr later ↦ Memᴰ.tail (distinct_rows-from (row_key pr row ∷ seen) rows r later)
        ])
        m

  distinct_rows-Nodup : (seen : List Text) (rows : List Row) → Nodup (distinct_rows pr seen rows)
  unfolding distinct_rows
  distinct_rows-Nodup seen [] = Nodup-nil
  distinct_rows-Nodup seen (row ∷ rows) =
      if_elim (λ out. Nodup out) (contains (row_key pr row) seen) (distinct_rows pr seen rows)
        (row ∷ distinct_rows pr (row_key pr row ∷ seen) rows)
        (λ known. distinct_rows-Nodup seen rows)
        (λ fresh. Nodup-cons.1 (
          λ m. ∥∥₁_elim m ⊥_prop (λ d.
              let absent = distinct_rows-fresh (row_key pr row ∷ seen) rows row d in
              let there = same_refl (row_key pr row) in absurd (ground arith)),
          distinct_rows-Nodup (row_key pr row ∷ seen) rows,
        ))

  module _ (printing : IsPrinting pr) where
    distinct_rows-keeps :
        (seen : List Text) (rows : List Row) (r : Row)
        → contains (row_key pr r) seen ≡ false
        → Memᴰ r rows
        → Memᴰ r (distinct_rows pr seen rows)
    unfolding distinct_rows
    distinct_rows-keeps seen [] r unseen m = m
    distinct_rows-keeps seen (row ∷ rows) r unseen m =
        if_elim (λ out. Memᴰ r out) (contains (row_key pr row) seen) (distinct_rows pr seen rows)
          (row ∷ distinct_rows pr (row_key pr row ∷ seen) rows)
          (λ known. elim (Memᴰ.cases_cons m) [
            | inl e ↦ absurd (let k = ap (λ x. contains (row_key pr x) seen) e in ground arith)
            | inr later ↦ distinct_rows-keeps seen rows r unseen later
          ])
          (λ fresh. elim (Memᴰ.cases_cons m) [
            | inl e ↦ Memᴰ.head e
            | inr later ↦ elim (Bool-cases (same (row_key pr r) (row_key pr row))) [
              | inl same ↦ Memᴰ.head (
                  row_key_injective pr printing r row
                    (same-eq (row_key pr r) (row_key pr row) same))
              | inr different ↦
                  Memᴰ.tail
                    (distinct_rows-keeps (row_key pr row ∷ seen) rows r (ground arith) later)
            ]
          ])

    -- When the texts of different numbers differ and hold no colon and no separator of keys,
    -- DISTINCT leaves no row twice, and leaves exactly the rows that were there.
    pub distinct_rows_lem :
        (rows : List Row)
        → Nodup (distinct_rows pr [] rows)
          × ((r : Row) → Mem r (distinct_rows pr [] rows) ↔ Mem r rows)
    distinct_rows_lem rows = (
      distinct_rows-Nodup [] rows,
      λ r. (
        λ m. ∥∥₁_map {B = Memᴰ r rows} m (distinct_rows-from [] rows r),
        λ m. ∥∥₁_map {B = Memᴰ r (distinct_rows pr [] rows)} m (distinct_rows-keeps [] rows r refl),
      ),
    )
