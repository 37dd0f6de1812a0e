-- ===== src/Shell/Syntax.antt =====
-- The parse tree of mini-shell/util/parser/parser.h that the shell walks. A text is the list of its
-- bytes, without the NUL.
use operating_system_challen.Base.{ℕ, ◌==◌, Bool, true, false, ◌&&◌, List, [], ◌∷◌}

abbrev pub Text : Type 0
Text = List ℕ

-- `strcmp(a, b) == 0`
unfoldable pub same_text : Text → Text → Bool
same_text [] [] = true
same_text [] (b ∷ ys) = false
same_text (a ∷ xs) [] = false
same_text (a ∷ xs) (b ∷ ys) = (a == b) && same_text xs ys

-- `string` and `expand` of a `word_t`.
pub record Part : Type 0 where
  pub string : Text
  pub expand : Bool

-- A `word_t *` with its `next_part` chain; NULL is the empty list.
abbrev pub Word : Type 0
Word = List Part

-- `next_word` links the parameters; `input` (`in`), `out` and `err` are the first words of their
-- lists, the only ones that the shell reads.
pub record SimpleCommand : Type 0 where
  pub verb : Word
  pub params : List Word
  pub input : Word
  pub out : Word
  pub err : Word
  pub io_flags : ℕ

-- OP_SEQUENTIAL to OP_DUMMY
pub data Operator : Type 0 where
  sequential parallel conditional_zero conditional_nzero pipe dummy : Operator

-- `none` is a tree whose `op` is OP_NONE.
pub data Command : Type 0 where
  simple : SimpleCommand → Command
  node : Operator → Command → Command → Command

abbrev pub io_out_append : ℕ
io_out_append = 1

abbrev pub io_err_append : ℕ
io_err_append = 2
