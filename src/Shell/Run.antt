-- ===== src/Shell/Run.antt =====
-- mini-shell/src/cmd.c from `parse_simple` on, and main.c.
use operating_system_challen.Base.{
  ℕ, ◌-◌, ◌^◌, ◌==◌, Bool, true, false, ◌||◌, Option, none, some, [], ◌∷◌, if◌then◌else◌,
}
use operating_system_challen.Shell.Syntax.{
  Text, same_text, Part, Word, SimpleCommand, Operator, Command, simple, node, io_out_append,
  io_err_append,
}
use operating_system_challen.Shell.Process.{
  WaitStatus, exited, other, Proc, Cmd, pure, ◌>>=◌, ◌>>◌, exit, setenv, dup2, pipe, fork, waitpid,
  execvp, close_fd, exit_with,
}
use operating_system_challen.Shell.Code.{
  exit_success, exit_failure, shell_exit_status, stdin_fileno, stdout_fileno, get_word, get_argv,
  shell_cd, shell_pwd, redirect_command,
}

-- A result of the shell's built-in functions as a status.
abbrev pub status_of : Bool → ℕ
status_of true = exit_success
status_of false = exit_failure

-- "cd", "pwd", "exit", "quit", "="
abbrev pub cd_name : Text
cd_name = 99 ∷ 100 ∷ []

abbrev pub pwd_name : Text
pwd_name = 112 ∷ 119 ∷ 100 ∷ []

abbrev pub exit_name : Text
exit_name = 101 ∷ 120 ∷ 105 ∷ 116 ∷ []

abbrev pub quit_name : Text
quit_name = 113 ∷ 117 ∷ 105 ∷ 116 ∷ []

abbrev pub equal_sign : Text
equal_sign = 61 ∷ []

-- The parts behind the first one of a verb: whether it is an assignment, with or without a value.
pub data Assignment : Type 0 where
  no_assignment no_value : Assignment
  value : Word → Assignment

abbrev pub assignment_of : Word → Assignment
assignment_of [] = no_assignment
assignment_of (sign ∷ []) = if same_text sign.string equal_sign then no_value else no_assignment
assignment_of (sign ∷ v ∷ parts) =
    if same_text sign.string equal_sign then value (v ∷ parts) else no_assignment

-- `setenv(variable, value, 1)`: 0 or -1
abbrev pub set_variable : Text → Option Text → Cmd ℕ
set_variable variable none = pure exit_failure
set_variable variable (some v) =
    λ k. setenv variable v (λ ok. k (if ok then exit_success else 2 ^ 32 - 1))

-- The branch of `parse_simple` for the child of `fork`.
unfoldable pub run_child :
    SimpleCommand → (command : Text) → (input out err : Option Text) → Bool → Proc
run_child s command input out err app =
    redirect_command input out err app false
      λ _. get_argv s λ argv. execvp command argv (exit exit_failure)

-- `WIFEXITED(status) ? WEXITSTATUS(status) : status`
abbrev pub status_value : WaitStatus → ℕ
status_value (exited code) = code
status_value (other raw) = raw

-- What the parent does with the result of `fork`.
abbrev pub wait_child : Option ℕ → Cmd ℕ
wait_child none = pure exit_failure
wait_child (some pid) = λ k. waitpid pid λ status. k (status_value status)

unfoldable pub run_external :
    SimpleCommand → (command : Text) → (input out err : Option Text) → Bool → Cmd ℕ
unfolding run_child
run_external s command input out err app = do
  pid ← (λ k. fork (run_child s command input out err app) k)
  wait_child pid

-- The flags are compared with `==`, one after the other.
unfoldable pub is_append : ℕ → Bool
is_append io_flags = io_flags == io_out_append || io_flags == io_err_append

-- The variable assignment, or the external command.
unfoldable pub assign_or_run :
    SimpleCommand
    → Part
    → Assignment
    → (command : Text) → (input out err : Option Text) → Bool
    → Cmd ℕ
assign_or_run s first no_value command input out err app = pure exit_failure
assign_or_run s first no_assignment command input out err app =
    run_external s command input out err app
assign_or_run s first (value v) command input out err app = do
  word ← get_word v
  set_variable first.string word

-- `parse_simple` behind its sanity checks: `first` is the first part of the verb.
unfoldable pub dispatch :
    SimpleCommand
    → (first : Part) → (rest : Word) → (command : Text) → (input out err : Option Text) → Bool
    → Cmd ℕ
dispatch s first rest command input out err app =
    if same_text command cd_name
    then (do
      _ ← redirect_command input out err app true
      ok ← shell_cd s.params
      pure (status_of ok))
    else if same_text command pwd_name
    then (do ok ← shell_pwd out app; pure (status_of ok))
    else if same_text first.string exit_name || same_text first.string quit_name
    then exit_with exit_success
    else assign_or_run s first (assignment_of rest) command input out err app

-- The sanity checks; NULL is the empty word, of which `get_word` is NULL.
abbrev pub behind_checks :
    SimpleCommand → (verb : Word) → (command input out err : Option Text) → Cmd ℕ
behind_checks s [] command input out err = pure exit_failure
behind_checks s (first ∷ rest) none input out err = pure exit_failure
behind_checks s (first ∷ rest) (some command) input out err =
    dispatch s first rest command input out err (is_append s.io_flags)

unfoldable pub parse_simple : SimpleCommand → Cmd ℕ
parse_simple s = do
  command ← get_word s.verb
  input ← get_word s.input
  out ← get_word s.out
  err ← get_word s.err
  behind_checks s s.verb command input out err

-- `WIFEXITED(status2) && WEXITSTATUS(status2) == 0`
abbrev pub is_success : WaitStatus → Bool
is_success (exited code) = code == 0
is_success (other raw) = false

-- The parent of `run_in_parallel` behind its second `fork`, and behind its first one. The children get
-- the code of their command.
abbrev pub wait_both : ℕ → Option ℕ → Cmd Bool
wait_both pid1 none = pure false
wait_both pid1 (some pid2) =
    λ k. waitpid pid1 λ status1. waitpid pid2 λ status2. k (is_success status2)

abbrev pub fork_second : Cmd ℕ → Option ℕ → Cmd Bool
fork_second cmd2 none = pure false
fork_second cmd2 (some pid1) = do pid2 ← (λ k. fork (cmd2 exit) k); wait_both pid1 pid2

unfoldable pub run_in_parallel : (cmd1 cmd2 : Cmd ℕ) → Cmd Bool
run_in_parallel cmd1 cmd2 = do pid1 ← (λ k. fork (cmd1 exit) k); fork_second cmd2 pid1

-- One child of `run_on_pipe`: it closes the end that it does not use, and moves the other one to
-- its standard input or output.
unfoldable pub pipe_child : (unused used target : ℕ) → Cmd ℕ → Proc
pipe_child unused used target cmd =
    close_fd unused
      λ _. dup2 used target λ ok. close_fd used λ _. if ok then cmd exit else exit exit_failure

-- The parent's end; `DIE` where the second child did not exit.
abbrev pub pipe_status : WaitStatus → Cmd ℕ
pipe_status (exited code) = pure code
pipe_status (other raw) = exit_with exit_failure

-- The parent behind its second `fork`, behind its first one, and behind `pipe`.
abbrev pub pipe_wait : (rd wr pid1 : ℕ) → Option ℕ → Cmd ℕ
pipe_wait rd wr pid1 none = pure 0
pipe_wait rd wr pid1 (some pid2) = do
  close_fd rd
  close_fd wr
  _ ← (λ k. waitpid pid1 k)
  status2 ← (λ k. waitpid pid2 k)
  pipe_status status2

abbrev pub pipe_second : (rd wr : ℕ) → Cmd ℕ → Option ℕ → Cmd ℕ
pipe_second rd wr cmd2 none = exit_with exit_failure
pipe_second rd wr cmd2 (some pid1) = do
  pid2 ← (λ k. fork (pipe_child wr rd stdin_fileno cmd2) k)
  pipe_wait rd wr pid1 pid2

abbrev pub pipe_first : (cmd1 cmd2 : Cmd ℕ) → Option (ℕ × ℕ) → Cmd ℕ
pipe_first cmd1 cmd2 none = exit_with exit_failure
pipe_first cmd1 cmd2 (some (rd, wr)) = do
  pid1 ← (λ k. fork (pipe_child rd wr stdout_fileno cmd1) k)
  pipe_second rd wr cmd2 pid1

unfoldable pub run_on_pipe : (cmd1 cmd2 : Cmd ℕ) → Cmd ℕ
unfolding pipe_child
run_on_pipe cmd1 cmd2 = do ends ← (λ k. pipe k); pipe_first cmd1 cmd2 ends

unfoldable pub parse_command : Command → Cmd ℕ
unfolding parse_simple run_in_parallel run_on_pipe
parse_command (simple s) = parse_simple s
parse_command (node Operator.sequential c d) = do _ ← parse_command c; parse_command d
parse_command (node Operator.parallel c d) = do
  _ ← run_in_parallel (parse_command c) (parse_command d)
  pure 0
parse_command (node Operator.conditional_nzero c d) = do
  status ← parse_command c
  if status == exit_success then pure status else parse_command d
parse_command (node Operator.conditional_zero c d) = do
  status ← parse_command c
  if status == exit_success then parse_command d else pure status
parse_command (node Operator.pipe c d) = run_on_pipe (parse_command c) (parse_command d)
parse_command (node Operator.dummy c d) = pure shell_exit_status
