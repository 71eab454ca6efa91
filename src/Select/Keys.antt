-- ===== src/Select/Keys.antt =====
-- src/sql/executor.rs: `row_key` and `value_key` as an encoding of rows.
use rusty_db.Prelude.{
  ℕ, Bool, true, false, ◌&&◌, not, [], ◌∷◌, ◌++◌, ◌==◌, ◌≡◌, refl, ap, sym, ◌∙◌, arith, subst,
  append_assoc, append-nil,
}
use rusty_db.Prelude.Int.{ℤ, pos}
use rusty_db.Sql.Types.{Text, Value}
use rusty_db.Table.Store.{Row}
use rusty_db.Select.Project.{Printing, utf8_length, value_key, row_key}

-- No character of a text is `c`.
unfoldable pub lacks : ℕ → Text → Bool
lacks c [] = true
lacks c (d ∷ t) = not (d == c) && lacks c t

-- A text that is empty or goes on with the character `c`.
unfoldable pub stops_at : ℕ → Text → Bool
stops_at c [] = true
stops_at c (d ∷ t) = d == c

-- Different numbers have different texts, of no colon and no separator.
pub record IsPrinting (pr : Printing) : Type 0 where
  pub decimal_injective : (m n : ℤ) → pr.decimal m ≡ pr.decimal n → m ≡ n
  pub hex_injective : (m n : ℕ) → pr.hex m ≡ pr.hex n → m ≡ n
  pub decimal_lacks_colon : (n : ℤ) → lacks b':' (pr.decimal n) ≡ true
  pub decimal_lacks_separator : (n : ℤ) → lacks 0x1f (pr.decimal n) ≡ true
  pub hex_lacks_separator : (n : ℕ) → lacks 0x1f (pr.hex n) ≡ true

head_eq : {c d : ℕ} {s t : Text} → c ∷ s ≡ d ∷ t → c ≡ d
head_eq h = cc

tail_eq : {c d : ℕ} {s t : Text} → c ∷ s ≡ d ∷ t → s ≡ t
tail_eq h = cc

split_at_stop :
    (c : ℕ) (a b s t : Text)
    → lacks c a ≡ true
    → lacks c b ≡ true
    → stops_at c s ≡ true
    → stops_at c t ≡ true
    → a ++ s ≡ b ++ t
    → (a ≡ b) × (s ≡ t)
unfolding lacks stops_at
split_at_stop c [] [] s t la lb hs ht e = (refl, e)
split_at_stop c [] (d ∷ b) [] t la lb hs ht e = absurd cc
split_at_stop c [] (d ∷ b) (x ∷ s) t la lb hs ht e =
    let x-eq : x ≡ d = head_eq e in absurd (ground arith)
split_at_stop c (d ∷ a) [] s [] la lb hs ht e = absurd cc
split_at_stop c (d ∷ a) [] s (x ∷ t) la lb hs ht e =
    let x-eq : d ≡ x = head_eq e in absurd (ground arith)
split_at_stop c (x ∷ a) (d ∷ b) s t la lb hs ht e =
    let (a-eq, s-eq) = split_at_stop c a b s t (ground arith) (ground arith) hs ht (tail_eq e) in
    let x-eq : x ≡ d = head_eq e in (cc, s-eq)

split_at_length :
    (a b s t : Text) → utf8_length a ≡ utf8_length b → a ++ s ≡ b ++ t → (a ≡ b) × (s ≡ t)
unfolding utf8_length
split_at_length [] [] s t l e = (refl, e)
split_at_length [] (d ∷ b) s t l e = absurd (ground arith)
split_at_length (d ∷ a) [] s t l e = absurd (ground arith)
split_at_length (x ∷ a) (d ∷ b) s t l e =
    let x-eq : x ≡ d = head_eq e in
    let l₁ : utf8_length (d ∷ a) ≡ utf8_length (d ∷ b) =
      subst (λ c. utf8_length (c ∷ a) ≡ utf8_length (d ∷ b)) x-eq l in
    let (a-eq, s-eq) = split_at_length a b s t (ground arith) (tail_eq e) in
    (ap (λ c. c ∷ a) x-eq ∙ ap (λ r. d ∷ r) a-eq, s-eq)

same_pos : {m n : ℕ} → pos m ≡ pos n → m ≡ n
same_pos h = cc

module _ (pr : Printing) (printing : IsPrinting pr) where
  value_key-append :
      (v w : Value) (s t : Text)
      → stops_at 0x1f s ≡ true
      → stops_at 0x1f t ≡ true
      → value_key pr v ++ s ≡ value_key pr w ++ t
      → (v ≡ w) × (s ≡ t)
  unfolding value_key stops_at
  value_key-append Value.null Value.null s t hs ht e = (refl, tail_eq e)
  value_key-append (Value.integer m) (Value.integer n) s t hs ht e =
      let (same, rest) =
        split_at_stop 0x1f (pr.decimal m) (pr.decimal n) s t (printing.decimal_lacks_separator m)
          (printing.decimal_lacks_separator n) hs ht (tail_eq (tail_eq e)) in
      (ap Value.integer (printing.decimal_injective m n same), rest)
  value_key-append (Value.float m) (Value.float n) s t hs ht e =
      let (same, rest) =
        split_at_stop 0x1f (pr.hex m) (pr.hex n) s t (printing.hex_lacks_separator m)
          (printing.hex_lacks_separator n) hs ht (tail_eq (tail_eq e)) in
      (ap Value.float (printing.hex_injective m n same), rest)
  value_key-append (Value.text a) (Value.text b) s t hs ht e =
      let m = pos (utf8_length a) in
      let n = pos (utf8_length b) in
      let (same, rest) =
        split_at_stop b':' (pr.decimal m) (pr.decimal n) (b':' ∷ a ++ s) (b':' ∷ b ++ t)
          (printing.decimal_lacks_colon m) (printing.decimal_lacks_colon n) refl refl
          (sym (append_assoc (pr.decimal m) (b':' ∷ a) s)
            ∙ tail_eq (tail_eq e)
            ∙ append_assoc (pr.decimal n) (b':' ∷ b) t) in
      let (a-eq, s-eq) =
        split_at_length a b s t (same_pos (printing.decimal_injective m n same)) (tail_eq rest) in
      (ap Value.text a-eq, s-eq)
  value_key-append (Value.boolean true) (Value.boolean true) s t hs ht e =
      (refl, tail_eq (tail_eq (tail_eq (tail_eq (tail_eq (tail_eq e))))))
  value_key-append (Value.boolean false) (Value.boolean false) s t hs ht e =
      (refl, tail_eq (tail_eq (tail_eq (tail_eq (tail_eq (tail_eq (tail_eq e)))))))
  value_key-append v w s t hs ht e = absurd (ground arith)

  row_key_nonempty : (v : Value) (row : Row) → ¬ (row_key pr (v ∷ row) ≡ [])
  unfolding row_key value_key
  row_key_nonempty Value.null [] e = absurd cc
  row_key_nonempty Value.null (w ∷ row) e = absurd cc
  row_key_nonempty (Value.boolean true) [] e = absurd cc
  row_key_nonempty (Value.boolean true) (w ∷ row) e = absurd cc
  row_key_nonempty (Value.boolean false) [] e = absurd cc
  row_key_nonempty (Value.boolean false) (w ∷ row) e = absurd cc
  row_key_nonempty v [] e = absurd cc
  row_key_nonempty v (w ∷ row) e = absurd cc

  -- When the texts of different numbers differ and hold no colon and no separator of keys, two
  -- rows that have the same key, for GROUP BY and DISTINCT, are the same row, also when a text
  -- in them holds a colon or the separator.
  pub row_key_injective : (v w : Row) → row_key pr v ≡ row_key pr w → v ≡ w
  unfolding row_key value_key stops_at
  row_key_injective [] [] e = refl
  row_key_injective [] (w ∷ ws) e = absurd (row_key_nonempty w ws (sym e))
  row_key_injective (v ∷ vs) [] e = absurd (row_key_nonempty v vs e)
  row_key_injective (v ∷ []) (w ∷ []) e =
      let (same, _) =
        value_key-append v w [] [] refl refl
          (append-nil (value_key pr v) ∙ e ∙ sym (append-nil (value_key pr w))) in
      ap (λ x. x ∷ []) same
  row_key_injective (v ∷ []) (w ∷ w₁ ∷ ws) e =
      let (_, rest) =
        value_key-append v w [] (0x1f ∷ row_key pr (w₁ ∷ ws)) refl refl
          (append-nil (value_key pr v) ∙ e) in
      absurd cc
  row_key_injective (v ∷ v₁ ∷ vs) (w ∷ []) e =
      let (_, rest) =
        value_key-append v w (0x1f ∷ row_key pr (v₁ ∷ vs)) [] refl refl
          (e ∙ sym (append-nil (value_key pr w))) in
      absurd cc
  row_key_injective (v ∷ v₁ ∷ vs) (w ∷ w₁ ∷ ws) e =
      let (same, rest) =
        value_key-append v w (0x1f ∷ row_key pr (v₁ ∷ vs)) (0x1f ∷ row_key pr (w₁ ∷ ws)) refl refl
          e in
      ap (λ x. x ∷ v₁ ∷ vs) same
      ∙ ap (λ xs. w ∷ xs) (row_key_injective (v₁ ∷ vs) (w₁ ∷ ws) (tail_eq rest))
