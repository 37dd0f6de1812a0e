-- ===== src/Shell/Descriptors.antt =====
-- The shell's commands hold no file descriptor when they return, and give none to the programs that
-- they run.
use operating_system_challen.Base.{
  ℕ, refl, Bool, true, false, Option, none, some, List, [], ◌∷◌, if◌then◌else◌, ◌==◌, ◌||◌,
}
use mathlib.Core.List.{Memᴰ}
use operating_system_challen.Shell.Syntax.{
  Text, Word, Part, SimpleCommand, Operator, Command, simple, node, same_text,
}
use operating_system_challen.Shell.Process.{Proc, Cmd, pure, done, exit, exited, other, WaitStatus}
use operating_system_challen.Shell.Code.{
  exit_success, stdin_fileno, stdout_fileno, shell_exit_status,
}
use operating_system_challen.Shell.Run.{
  Assignment, no_assignment, no_value, value, assignment_of, set_variable, run_child, run_external,
  assign_or_run, dispatch, behind_checks, parse_simple, run_in_parallel, pipe_child, pipe_status,
  run_on_pipe, parse_command, is_append, status_of, cd_name, pwd_name, exit_name, quit_name,
}
use operating_system_challen.Shell.Main.{start_shell}
use operating_system_challen.Shell.Tidy.{
  Tidy, Keeps, Removed, here, there, get_word-Keeps, get_argv-Keeps, shell_cd-Keeps,
  shell_pwd-Keeps, redirect_command-Keeps, if-Keeps,
}

module _ (F : Type 0) where
  run_child-Tidy :
      (s : SimpleCommand) (command : Text) (input out err : Option Text) (app : Bool)
      → Tidy F [] (run_child s command input out err app)
  unfolding run_child
  run_child-Tidy s command input out err app =
      redirect_command-Keeps F [] input out err app false _
        λ ok. get_argv-Keeps F [] s _ λ argv. (refl, tt)

  run_external-Keeps :
      (s : SimpleCommand) (command : Text) (input out err : Option Text) (app : Bool)
      → Keeps F [] (run_external s command input out err app)
  unfolding run_external
  run_external-Keeps s command input out err app k h =
      (run_child-Tidy s command input out err app, (λ f. h _, λ pid status. h _))

  set_variable-Keeps : (name : Text) (word : Option Text) → Keeps F [] (set_variable name word)
  set_variable-Keeps name none k h = h _
  set_variable-Keeps name (some v) k h = λ ok. h _

  assign_or_run-Keeps :
      (s : SimpleCommand) (first : Part) (a : Assignment) (command : Text)
      (input out err : Option Text) (app : Bool)
      → Keeps F [] (assign_or_run s first a command input out err app)
  unfolding assign_or_run
  assign_or_run-Keeps s first no_assignment command input out err app k h =
      run_external-Keeps s command input out err app k h
  assign_or_run-Keeps s first no_value command input out err app k h = h _
  assign_or_run-Keeps s first (value v) command input out err app k h =
      get_word-Keeps F [] v _ λ word. set_variable-Keeps first.string word k h

  dispatch-Keeps :
      (s : SimpleCommand) (first : Part) (rest : Word) (command : Text)
      (input out err : Option Text) (app : Bool)
      → Keeps F [] (dispatch s first rest command input out err app)
  unfolding dispatch
  dispatch-Keeps s first rest command input out err app =
      if-Keeps F [] (same_text command cd_name) _ _
        (λ k h.
          redirect_command-Keeps F [] input out err app true _
            λ done_. shell_cd-Keeps F [] s.params _ λ ok. h (status_of ok))
        (if-Keeps F [] (same_text command pwd_name) _ _
          (λ k h. shell_pwd-Keeps F [] out app _ λ ok. h (status_of ok))
          (if-Keeps F [] (same_text first.string exit_name || same_text first.string quit_name) _ _
            (λ k h. tt)
            (assign_or_run-Keeps s first (assignment_of rest) command input out err app)))

  parse_simple-Keeps : (s : SimpleCommand) → Keeps F [] (parse_simple s)
  unfolding parse_simple
  parse_simple-Keeps s k h = get_word-Keeps F [] s.verb _ λ command.
      get_word-Keeps F [] s.input _ λ input.
        get_word-Keeps F [] s.out _
          λ out. get_word-Keeps F [] s.err _ λ err. checks s.verb command input out err k h
    where
      checks :
          (verb : Word) (command input out err : Option Text)
          → Keeps F [] (behind_checks s verb command input out err)
      checks [] command input out err k h = h _
      checks (first ∷ rest) none input out err k h = h _
      checks (first ∷ rest) (some command) input out err k h =
          dispatch-Keeps s first rest command input out err (is_append s.io_flags) k h

  run_in_parallel-Keeps :
      (cmd1 cmd2 : Cmd ℕ)
      → Keeps F [] cmd1
      → Keeps F [] cmd2
      → Keeps F [] (run_in_parallel cmd1 cmd2)
  unfolding run_in_parallel
  run_in_parallel-Keeps cmd1 cmd2 x y k h = (
    x exit (λ code. tt),
    (λ f. h false, λ pid1. (y exit (λ code. tt), (λ f. h false, λ pid2 status1 status2. h _))),
  )

pipe_child-Tidy :
    (F : Type 0) (unused used target : ℕ) (cmd : Cmd ℕ) (held : List ℕ)
    → Removed unused held (used ∷ [])
    → Keeps F [] cmd
    → Tidy F held (pipe_child unused used target cmd)
unfolding pipe_child
pipe_child-Tidy F unused used target cmd held removed x =
    (used ∷ [], removed, (Memᴰ.head refl, λ ok. ([], here, ends ok)))
  where
    ends : (ok : Bool) → Tidy F [] (if ok then cmd exit else exit 1)
    ends true = x exit (λ code. tt)
    ends false = tt

run_on_pipe-Keeps :
    (cmd1 cmd2 : Cmd ℕ) → Keeps ⊥ [] cmd1 → Keeps ⊥ [] cmd2 → Keeps ⊥ [] (run_on_pipe cmd1 cmd2)
unfolding run_on_pipe
run_on_pipe-Keeps cmd1 cmd2 x y k h = (
  tt,
  λ rd wr. (
    pipe_child-Tidy ⊥ rd wr stdout_fileno cmd1 (rd ∷ wr ∷ []) here x,
    (
      λ f. absurd f,
      λ pid1. (
        pipe_child-Tidy ⊥ wr rd stdin_fileno cmd2 (rd ∷ wr ∷ []) (there here) y,
        (λ f. absurd f, λ pid2. (wr ∷ [], here, ([], here, λ status1 status2. last status2))),
      ),
    ),
  ),
)
  where
    last : (status : WaitStatus) → Tidy ⊥ [] (pipe_status status k)
    last (exited code) = h code
    last (other raw) = tt

parse_command-Keeps : (c : Command) → Keeps ⊥ [] (parse_command c)
unfolding parse_command
parse_command-Keeps (simple s) k h = parse_simple-Keeps ⊥ s k h
parse_command-Keeps (node Operator.sequential c d) k h =
    parse_command-Keeps c _ λ status. parse_command-Keeps d k h
parse_command-Keeps (node Operator.parallel c d) k h =
    run_in_parallel-Keeps ⊥ (parse_command c) (parse_command d) (parse_command-Keeps c)
      (parse_command-Keeps d) _ λ ok. h 0
parse_command-Keeps (node Operator.conditional_nzero c d) k h = parse_command-Keeps c _ λ status.
    if-Keeps ⊥ [] (status == exit_success) (pure status) (parse_command d) (λ k h. h status)
      (parse_command-Keeps d) k h
parse_command-Keeps (node Operator.conditional_zero c d) k h = parse_command-Keeps c _ λ status.
    if-Keeps ⊥ [] (status == exit_success) (parse_command d) (pure status) (parse_command-Keeps d)
      (λ k h. h status) k h
parse_command-Keeps (node Operator.pipe c d) k h =
    run_on_pipe-Keeps (parse_command c) (parse_command d) (parse_command-Keeps c)
      (parse_command-Keeps d) k h
parse_command-Keeps (node Operator.dummy c d) k h = h shell_exit_status

-- Whatever the kernel answers, except that `fork` succeeds: the shell and all its children close and
-- duplicate only descriptors that they have opened and not closed, hold none of these when they run
-- a program, and hold none when the shell returns, whatever lines it reads and however they are
-- parsed.
pub start_shell-Tidy :
    (parse_line : Text → Option Command) (lines : List Text)
    → Tidy ⊥ [] (start_shell parse_line lines)
unfolding start_shell
start_shell-Tidy parse_line [] = refl
start_shell-Tidy parse_line (line ∷ lines) =
    next (parse_line line) (start_shell parse_line lines) (start_shell-Tidy parse_line lines)
  where
    ends : (stop : Bool) (p : Proc) → Tidy ⊥ [] p → Tidy ⊥ [] (if stop then done 0 else p)
    ends true p h = refl
    ends false p h = h

    next :
        (root : Option Command) (p : Proc)
        → Tidy ⊥ [] p
        → Tidy ⊥ [] (elim root [
          | none ↦ p
          | some c ↦ parse_command c λ ret. if ret == shell_exit_status then done 0 else p
        ])
    next none p h = h
    next (some c) p h = parse_command-Keeps c _ λ ret. ends (ret == shell_exit_status) p h
