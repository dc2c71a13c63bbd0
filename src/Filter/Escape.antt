-- ===== src/Filter/Escape.antt =====
-- Escaped literals are read back by SQL as the value that they were made from.
use yaadien.Prelude.{
  ℕ, ◌≡◌, refl, sym, ap, inl, inr, Bool, true, false, Option, none, some, [], ◌∷◌, ◌++◌, arith,
  ◌==◌, ==_iff, if◌then◌else◌, Bool-cases,
}
use yaadien.Model.{Text}
use yaadien.Filter.{text, other, quote, double_quotes, escape_sql_string}
use mathlib.Core.List.{append_assoc}

-- How SQL reads the inside of a quoted literal: two quotes stand for one, and one quote ends it.
-- `pending` says that a quote has just been read. The result is the value and what follows.
abbrev pub push : ℕ → Option (Text × Text) → Option (Text × Text)
push c none = none
push c (some (s, rest)) = some (c ∷ s, rest)

unfoldable pub read_tail : Bool → Text → Option (Text × Text)
read_tail false [] = none
read_tail true [] = some ([], [])
read_tail false (c ∷ t) = if c == quote then read_tail true t else push c (read_tail false t)
read_tail true (c ∷ t) = if c == quote then push quote (read_tail false t) else some ([], c ∷ t)

unfoldable pub read_literal : Text → Option (Text × Text)
unfolding read_tail
read_literal [] = none
read_literal (c ∷ t) = if c == quote then read_tail false t else none

abbrev pub starts_with_quote : Text → Bool
starts_with_quote [] = false
starts_with_quote (c ∷ t) = c == quote

read_tail_end :
    (rest : Text) → starts_with_quote rest ≡ false → read_tail true rest ≡ some ([], rest)
unfolding read_tail
read_tail_end [] h = refl
read_tail_end (c ∷ t) h = ground arith

read_tail-double_quotes :
    (s rest : Text)
    → starts_with_quote rest ≡ false
    → read_tail false (double_quotes s ++ quote ∷ rest) ≡ some (s, rest)
unfolding read_tail double_quotes
read_tail-double_quotes [] rest h = read_tail_end rest h
read_tail-double_quotes (a ∷ s) rest h = elim (Bool-cases (a == quote)) [
  | inl e ↦
      rw (e, read_tail-double_quotes s rest h)
        (ap (λ c. some (c ∷ s, rest)) (sym ((==_iff a quote).0 e)))
  | inr e ↦ rw (e, e, read_tail-double_quotes s rest h) refl
]

-- Whatever the text, SQL reads its literal back as that text and goes on right behind it: no text
-- ends the literal early. What follows must not begin with a quote.
pub read_literal-escape :
    (s rest : Text)
    → starts_with_quote rest ≡ false
    → (read_literal (escape_sql_string (text s) ++ rest) ≡ some (s, rest))
      × (read_literal (escape_sql_string (other s) ++ rest) ≡ some (s, rest))
unfolding read_literal escape_sql_string
read_literal-escape s rest h =
    let e : read_tail false ((double_quotes s ++ quote ∷ []) ++ rest) ≡ some (s, rest) =
      rw append_assoc (read_tail-double_quotes s rest h) in
    (e, e)
