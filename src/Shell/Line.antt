-- ===== src/Shell/Line.antt =====
-- The lines that `read_line` makes of the chunks of the input.
use operating_system_challen.Base.{
  ℕ, ◌≡◌, ◌≢◌, refl, sym, ap, ◌∙◌, Option, none, some, List, [], ◌∷◌, ◌++◌, All, arith,
}
use mathlib.Core.List.{append_assoc}
use operating_system_challen.Shell.Syntax.{Text}
use operating_system_challen.Shell.Main.{
  cons_byte, or_empty, strip_newline, read_line_loop, read_line,
}

-- The text does not end with the byte.
abbrev pub NotLast : ℕ → Text → Type 0
NotLast c [] = Unit
NotLast c (x ∷ []) = x ≢ c
NotLast c (x ∷ y ∷ t) = NotLast c (y ∷ t)

abbrev pub concat : List Text → Text
concat [] = []
concat (t ∷ ts) = t ++ concat ts

strip_newline_line : (t : Text) → NotLast 13 t → strip_newline (t ++ 10 ∷ []) ≡ some t
unfolding strip_newline
strip_newline_line [] h = refl
strip_newline_line (x ∷ []) h = ground arith
strip_newline_line (x ∷ y ∷ []) h = ap (cons_byte x) (strip_newline_line (y ∷ []) h)
strip_newline_line (x ∷ y ∷ z ∷ t) h = ap (cons_byte x) (strip_newline_line (y ∷ z ∷ t) h)

strip_newline_windows : (t : Text) → strip_newline (t ++ 13 ∷ 10 ∷ []) ≡ some t
unfolding strip_newline
strip_newline_windows [] = refl
strip_newline_windows (x ∷ []) = refl
strip_newline_windows (x ∷ y ∷ []) = refl
strip_newline_windows (x ∷ y ∷ z ∷ t) = ap (cons_byte x) (strip_newline_windows (y ∷ z ∷ t))

strip_newline_piece : (t : Text) → NotLast 10 t → strip_newline t ≡ none
unfolding strip_newline
strip_newline_piece [] h = refl
strip_newline_piece (x ∷ []) h = ground arith
strip_newline_piece (x ∷ y ∷ []) h = ground arith
strip_newline_piece (x ∷ y ∷ z ∷ t) h = ap (cons_byte x) (strip_newline_piece (y ∷ z ∷ t) h)

-- The line behind the last piece, where the chunk `end` is the text `t` and its newline.
read_line_loop-concat :
    (line : Option Text) (pieces : List Text) (end t : Text) (rest : List Text)
    → All (NotLast 10) pieces
    → strip_newline end ≡ some t
    → read_line_loop line (pieces ++ end ∷ rest)
      ≡ (some (or_empty line ++ (concat pieces ++ t)), rest)
unfolding read_line_loop
read_line_loop-concat line [] end t rest h e = rw (read_line_loop, e) refl
read_line_loop-concat line (p ∷ ps) end t rest h e =
    rw (read_line_loop, strip_newline_piece p h.0)
      (read_line_loop-concat (some (or_empty line ++ p)) ps end t rest h.1 e
        ∙ ap (λ x. (some x, rest))
            (append_assoc (or_empty line) p (concat ps ++ t)
              ∙ ap (λ x. or_empty line ++ x) (sym (append_assoc p (concat ps) t))))

-- `read_line` of chunks that do not end in a newline, and of one that does and whose text does not
-- end in a carriage return, returns their texts as one without the newline; it does the same if a
-- carriage return stands in front of the newline. The chunks behind stay.
pub read_line-concat :
    (pieces : List Text) (t : Text) (rest : List Text)
    → All (NotLast 10) pieces
    → NotLast 13 t
    → (read_line (pieces ++ (t ++ 10 ∷ []) ∷ rest) ≡ (some (concat pieces ++ t), rest))
      × (read_line (pieces ++ (t ++ 13 ∷ 10 ∷ []) ∷ rest) ≡ (some (concat pieces ++ t), rest))
unfolding read_line
read_line-concat pieces t rest h last = (
  read_line_loop-concat none pieces _ t rest h (strip_newline_line t last),
  read_line_loop-concat none pieces _ t rest h (strip_newline_windows t),
)
