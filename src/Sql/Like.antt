-- ===== src/Sql/Like.antt =====
-- src/sql/types.rs: the table of `like_match` against the meaning of a LIKE pattern.
use rusty_db.Prelude.{ℕ, Bool, false, ◌&&◌, ◌||◌, List, [], ◌∷◌, ◌==◌, if◌then◌else◌, ◌≡◌, refl, ap}
use rusty_db.Sql.Number.{Runtime}
use rusty_db.Sql.Types.{
  Text, is_empty, like_match, like_cell, first_row, next_row, like_rows, last_cell,
}

-- Whether a text matches a symbol at its head and, behind what that takes, `rest`:
-- `%` takes any run of characters, `_` takes one, and a letter takes itself.
unfoldable pub matches_symbol : ℕ → (Text → Bool) → Text → Bool
matches_symbol q rest [] = if q == b'%' then rest [] else false
matches_symbol q rest (c ∷ s) =
    let shorter = matches_symbol q rest s in
    if q == b'%' then rest (c ∷ s) || shorter else if q == b'_' then rest s else (q == c) && rest s

-- A text and a pattern, both read from the end.
unfoldable pub matches_back : Text → Text → Bool
unfolding matches_symbol
matches_back [] = is_empty
matches_back (q ∷ pattern) = matches_symbol q (matches_back pattern)

unfoldable pub reversed_onto : Text → Text → Text
reversed_onto [] t = t
reversed_onto (c ∷ s) t = reversed_onto s (c ∷ t)

unfoldable pub matches : Text → Text → Bool
unfolding matches_back reversed_onto
matches subject pattern = matches_back (reversed_onto pattern []) (reversed_onto subject [])

-- The cells of a row behind the one of the prefix `p`, for the prefix `s` of the subject, both
-- reversed.
row_cells : Text → Text → Text → List Bool
unfolding matches_back
row_cells s p [] = []
row_cells s p (q ∷ pattern) = matches_back (q ∷ p) s ∷ row_cells s (q ∷ p) pattern

first_row-cells :
    (p pattern : Text) → first_row (matches_back p []) pattern ≡ row_cells [] p pattern
unfolding first_row row_cells matches_back matches_symbol
first_row-cells p [] = refl
first_row-cells p (q ∷ pattern) =
    ap (λ r. matches_back (q ∷ p) [] ∷ r) (first_row-cells (q ∷ p) pattern)

next_row-cells :
    (c : ℕ) (s p pattern : Text)
    → next_row c pattern (matches_back p (c ∷ s)) (matches_back p s) (row_cells s p pattern)
      ≡ row_cells (c ∷ s) p pattern
unfolding next_row row_cells matches_back matches_symbol like_cell
next_row-cells c s p [] = refl
next_row-cells c s p (q ∷ pattern) =
    ap (λ r. matches_back (q ∷ p) (c ∷ s) ∷ r) (next_row-cells c s (q ∷ p) pattern)

-- The first cell of the row of a prefix: only the empty prefix matches the empty pattern.
like_rows-cells :
    (pattern s chars : Text)
    → like_rows pattern chars (is_empty s) (row_cells s [] pattern)
      ≡ (is_empty (reversed_onto chars s), row_cells (reversed_onto chars s) [] pattern)
unfolding like_rows reversed_onto row_cells
like_rows-cells pattern s [] = refl
like_rows-cells pattern s (c ∷ chars) =
    rw (ap (λ r. like_rows pattern chars false r) (next_row-cells c s [] pattern))
      (like_rows-cells pattern (c ∷ s) chars)

last_cell-cells :
    (s p pattern : Text)
    → last_cell (matches_back p s) (row_cells s p pattern)
      ≡ matches_back (reversed_onto pattern p) s
unfolding last_cell row_cells reversed_onto
last_cell-cells s p [] = refl
last_cell-cells s p (q ∷ pattern) = last_cell-cells s (q ∷ p) pattern

-- The table of `like_match` decides whether the subject, in lower case, matches the pattern, in
-- lower case, symbol by symbol from the end.
pub like_match-matches :
    (rt : Runtime) (subject pattern : Text)
    → like_match rt subject pattern ≡ matches (rt.to_lowercase subject) (rt.to_lowercase pattern)
unfolding like_match matches matches_back
like_match-matches rt subject pattern =
    let t = rt.to_lowercase subject in
    let p = rt.to_lowercase pattern in
    rw (first_row-cells [] p, like_rows-cells p [] t) (last_cell-cells (reversed_onto t []) [] p)
