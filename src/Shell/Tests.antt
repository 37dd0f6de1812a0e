-- ===== src/Shell/Tests.antt =====
-- The shell under a small kernel: no file can be opened for reading, descriptors count up from 3,
-- a child runs at once and its exit status is kept for `waitpid`.
use operating_system_challen.Base.{
  ℕ, suc, ◌+◌, ◌%◌, ◌≡◌, Bool, true, false, Option, none, some, [], ◌∷◌, ◌++◌, map, arith,
  if◌then◌else◌,
}
use operating_system_challen.Shell.Syntax.{
  Text, Word, Part, SimpleCommand, Operator, Command, simple, node, same_text,
}
use operating_system_challen.Shell.Process.{Mode, rdonly, trunc, append, exited, Proc, done}
use operating_system_challen.Shell.Code.{get_argv}
use operating_system_challen.Shell.Run.{parse_command}
use operating_system_challen.Shell.Main.{start_shell, read_line}
use operating_system_challen.Shell.Tidy.{Tidy}
use operating_system_challen.Shell.Kernel.{Kernel, returned, run}
use operating_system_challen.Shell.Refine.{after}
use operating_system_challen.Shell.Meaning.{exec, parse_command-exec}
use operating_system_challen.Shell.Words.{joined, env_of, NotNull, get_argv-joined}
use operating_system_challen.Shell.Line.{concat, read_line-concat}
use operating_system_challen.Shell.Descriptors.{start_shell-Tidy}

record Machine : Type 0 where
  next : ℕ

abbrev can_read : Mode → Bool
can_read rdonly = false
can_read trunc = true
can_read append = true

abbrev toy : Kernel Machine
toy = record {
  on_getenv = λ name w. if same_text name (72 ∷ []) then some (47 ∷ 104 ∷ []) else none;
  on_setenv = λ name value w. (true, w);
  on_chdir = λ path w. (true, w);
  on_getcwd = λ w. some (47 ∷ []);
  on_open =
      λ file mode w. (if can_read mode then some w.next else none, record { next = suc w.next });
  on_close = λ fd w. w;
  on_dup2 = λ fd target w. (true, w);
  on_dprintf = λ fd text w. w;
  on_pipe = λ w. (some (w.next, suc w.next), record { next = w.next + 2 });
  on_fork = λ child w. (some w.next, record { next = suc w.next });
  on_waitpid = λ pid w. (exited (pid % 2), w);
  on_execvp = λ file argv w. (true, w);
  on_fgets = λ w. (none, w);
}

abbrev start : Machine
start = record { next = 3 }

abbrev word : Text → Word
word t = record { string = t; expand = false } ∷ []

-- "a$H", with the variable H
abbrev expanding : Word
expanding =
    record { string = 97 ∷ []; expand = false } ∷ record { string = 72 ∷ []; expand = true } ∷ []

abbrev cat : SimpleCommand
cat = record {
  verb = word (99 ∷ 97 ∷ 116 ∷ []);
  params = expanding ∷ [];
  input = word (102 ∷ []);
  out = [];
  err = [];
  io_flags = 0;
}

abbrev tree : Command
tree =
    node Operator.conditional_zero (simple cat) (node Operator.sequential (simple cat) (simple cat))

word-NotNull : (s : Part) → NotNull (s ∷ [])
word-NotNull s e = cc

expanding-NotNull : NotNull expanding
expanding-NotNull e = cc

abbrev stop : {A : Type 0} → A → Proc
stop a = done 0

parse_command-exec_example :
    run toy (parse_command tree done) start
    ≡ after toy (exec toy tree start) (λ status w. returned status w)
parse_command-exec_example = parse_command-exec toy tree done start

get_argv-joined_example :
    run toy (get_argv cat stop) start
    ≡ run toy (stop (map (joined (env_of toy start)) (cat.verb ∷ cat.params))) start
get_argv-joined_example =
    get_argv-joined toy cat stop start (word-NotNull _) (expanding-NotNull, tt)

abbrev parse_any : Text → Option Command
parse_any t = some tree

start_shell-Tidy_example : Tidy ⊥ [] (start_shell parse_any ((97 ∷ []) ∷ []))
start_shell-Tidy_example = start_shell-Tidy parse_any ((97 ∷ []) ∷ [])

read_line-concat_example :
    (read_line ((97 ∷ []) ∷ ((98 ∷ []) ++ 10 ∷ []) ∷ [])
      ≡ (some (concat ((97 ∷ []) ∷ []) ++ 98 ∷ []), []))
    × (read_line ((97 ∷ []) ∷ ((98 ∷ []) ++ 13 ∷ 10 ∷ []) ∷ [])
        ≡ (some (concat ((97 ∷ []) ∷ []) ++ 98 ∷ []), []))
read_line-concat_example =
    read_line-concat ((97 ∷ []) ∷ []) (98 ∷ []) [] (omega arith, tt) (omega arith)
