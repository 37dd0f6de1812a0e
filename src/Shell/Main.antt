-- ===== src/Shell/Main.antt =====
-- mini-shell/src/main.c. `fgets` gives the shell its input in chunks, which are not empty; a chunk is
-- the line's end, or the line goes on in the next one. `parse_line` is the generated parser.
use operating_system_challen.Base.{ℕ, ◌==◌, Option, none, some, List, [], ◌∷◌, ◌++◌, if◌then◌else◌}
use operating_system_challen.Shell.Syntax.{Text, Command}
use operating_system_challen.Shell.Process.{Proc, done}
use operating_system_challen.Shell.Code.{shell_exit_status}
use operating_system_challen.Shell.Run.{parse_command}

abbrev pub cons_byte : ℕ → Option Text → Option Text
cons_byte c none = none
cons_byte c (some t) = some (c ∷ t)

-- The chunk without its newline, or without a carriage return and a newline; `none` if the chunk
-- does not end in a newline.
unfoldable pub strip_newline : Text → Option Text
strip_newline [] = none
strip_newline (c ∷ []) = if c == 10 then some [] else none
strip_newline (c ∷ d ∷ []) = if d == 10 then (if c == 13 then some [] else some (c ∷ [])) else none
strip_newline (c ∷ d ∷ e ∷ cs) = cons_byte c (strip_newline (d ∷ e ∷ cs))

abbrev pub or_empty : Option Text → Text
or_empty none = []
or_empty (some t) = t

-- The loop of `read_line` with the line so far, and the input that is left.
unfoldable pub read_line_loop : Option Text → List Text → Option Text × List Text
read_line_loop line [] = (line, [])
read_line_loop line (chunk ∷ chunks) =
    let rest = read_line_loop (some (or_empty line ++ chunk)) chunks in
    elim (strip_newline chunk) [ some last ↦ (some (or_empty line ++ last), chunks) | none ↦ rest ]

unfoldable pub read_line : List Text → Option Text × List Text
unfolding read_line_loop
read_line chunks = read_line_loop none chunks

module _ (parse_line : Text → Option Command) where
  -- The loop of `start_shell` over the lines that `read_line` returns before its NULL.
  unfoldable pub start_shell : List Text → Proc
  start_shell [] = done 0
  start_shell (line ∷ lines) =
      let rest = start_shell lines in
      elim (parse_line line) [
        | none ↦ rest
        | some root ↦ parse_command root λ ret. if ret == shell_exit_status then done 0 else rest
      ]
