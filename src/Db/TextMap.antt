-- ===== src/Db/TextMap.antt =====
-- Hash maps with a text as key: a list with one entry for a key.
use rusty_db.Prelude.{Option, none, some, List, [], ◌∷◌, if◌then◌else◌}
use rusty_db.Sql.Types.{Text}
use rusty_db.Sql.Operators.{text_eq}

abbrev pub TextMap : Type 0 → Type 0
TextMap A = List (Text × A)

module _ {A : Type 0} where
  unfoldable pub find : Text → TextMap A → Option A
  unfolding text_eq
  find sql [] = none
  find sql ((key, entry) ∷ rest) =
      let later = find sql rest in if text_eq sql key then some entry else later

  unfoldable pub remove : Text → TextMap A → TextMap A
  unfolding text_eq
  remove sql [] = []
  remove sql ((key, entry) ∷ rest) =
      let later = remove sql rest in if text_eq sql key then later else (key, entry) ∷ later

  unfoldable pub put : Text → A → TextMap A → TextMap A
  unfolding remove
  put sql entry entries = (sql, entry) ∷ remove sql entries
