-- ===== src/Shell/Operators.antt =====
-- The same for the simple commands, the parallel ones and the pipe.
use operating_system_challen.Base.{
  ℕ, ◌≡◌, refl, Bool, true, false, Option, none, some, [], ◌∷◌, ◌||◌,
}
use operating_system_challen.Shell.Syntax.{Text, Word, Part, SimpleCommand, same_text}
use operating_system_challen.Shell.Process.{Cmd, exited, other, WaitStatus}
use operating_system_challen.Shell.Run.{
  Assignment, no_assignment, no_value, value, assignment_of, set_variable, run_external,
  assign_or_run, dispatch, behind_checks, parse_simple, wait_child, wait_both, fork_second,
  pipe_status, pipe_wait, pipe_second, pipe_first, run_in_parallel, run_on_pipe, is_append,
  status_of, cd_name, pwd_name, exit_name, quit_name,
}
use operating_system_challen.Shell.Refine.{
  after, Passes, get_word-Passes, redirect_command-Passes, shell_cd-Passes, shell_pwd-Passes,
  if-Passes,
}
use operating_system_challen.Shell.Kernel.{Kernel, run}

module _ {W : Type 0} (K : Kernel W) where
  wait_child-Passes : (pid : Option ℕ) → Passes K (wait_child pid)
  wait_child-Passes none j k i h w = h _ w
  wait_child-Passes (some pid) j k i h w = h _ _

  set_variable-Passes : (name : Text) (word : Option Text) → Passes K (set_variable name word)
  set_variable-Passes name none j k i h w = h _ w
  set_variable-Passes name (some v) j k i h w = h _ _

  assign_or_run-Passes :
      (s : SimpleCommand) (first : Part) (a : Assignment) (command : Text)
      (input out err : Option Text) (app : Bool)
      → Passes K (assign_or_run s first a command input out err app)
  unfolding assign_or_run run_external
  assign_or_run-Passes s first no_assignment command input out err app j k i h w =
      wait_child-Passes _ j k i h _
  assign_or_run-Passes s first no_value command input out err app j k i h w = h _ w
  assign_or_run-Passes s first (value v) command input out err app j k i h w =
      get_word-Passes K v _ k _ (λ word w'. set_variable-Passes first.string word j k i h w') w

  dispatch-Passes :
      (s : SimpleCommand) (first : Part) (rest : Word) (command : Text)
      (input out err : Option Text) (app : Bool)
      → Passes K (dispatch s first rest command input out err app)
  unfolding dispatch
  dispatch-Passes s first rest command input out err app =
      if-Passes K (same_text command cd_name) _ _
        (λ j k i h w.
          redirect_command-Passes K input out err app true _ k _
            (λ _ w'. shell_cd-Passes K s.params _ k _ (λ ok w''. h (status_of ok) w'') w') w)
        (if-Passes K (same_text command pwd_name) _ _
          (λ j k i h w. shell_pwd-Passes K out app _ k _ (λ ok w'. h (status_of ok) w') w)
          (if-Passes K (same_text first.string exit_name || same_text first.string quit_name) _ _
            (λ j k i h w. refl)
            (assign_or_run-Passes s first (assignment_of rest) command input out err app)))

  behind_checks-Passes :
      (s : SimpleCommand) (verb : Word) (command input out err : Option Text)
      → Passes K (behind_checks s verb command input out err)
  behind_checks-Passes s [] command input out err j k i h w = h _ w
  behind_checks-Passes s (first ∷ rest) none input out err j k i h w = h _ w
  behind_checks-Passes s (first ∷ rest) (some command) input out err j k i h w =
      dispatch-Passes s first rest command input out err (is_append s.io_flags) j k i h w

  pub parse_simple-Passes : (s : SimpleCommand) → Passes K (parse_simple s)
  unfolding parse_simple
  parse_simple-Passes s j k i h w =
      get_word-Passes K s.verb _ k _
        (λ command w1.
          get_word-Passes K s.input _ k _
            (λ input w2.
              get_word-Passes K s.out _ k _
                (λ out w3.
                  get_word-Passes K s.err _ k _
                    (λ err w4. behind_checks-Passes s s.verb command input out err j k i h w4) w3)
                w2)
            w1)
        w

  pub run_in_parallel-Passes : (cmd1 cmd2 : Cmd ℕ) → Passes K (run_in_parallel cmd1 cmd2)
  unfolding run_in_parallel
  run_in_parallel-Passes cmd1 cmd2 j k i h w = second _ _
    where
      both :
          (pid1 : ℕ) (pid2 : Option ℕ) (w : W)
          → run K (wait_both pid1 pid2 i) w
            ≡ after K (run K (wait_both pid1 pid2 j) w) (λ status w'. run K (k status) w')
      both pid1 none w = h false w
      both pid1 (some pid2) w = h _ _

      second :
          (pid1 : Option ℕ) (w : W)
          → run K (fork_second cmd2 pid1 i) w
            ≡ after K (run K (fork_second cmd2 pid1 j) w) (λ status w'. run K (k status) w')
      second none w = h false w
      second (some pid1) w = both pid1 _ _

  pub run_on_pipe-Passes : (cmd1 cmd2 : Cmd ℕ) → Passes K (run_on_pipe cmd1 cmd2)
  unfolding run_on_pipe
  run_on_pipe-Passes cmd1 cmd2 j k i h w = first _ _
    where
      last :
          (status : WaitStatus) (w : W)
          → run K (pipe_status status i) w
            ≡ after K (run K (pipe_status status j) w) (λ status w'. run K (k status) w')
      last (exited code) w = h code w
      last (other raw) w = refl

      wait :
          (rd wr pid1 : ℕ) (pid2 : Option ℕ) (w : W)
          → run K (pipe_wait rd wr pid1 pid2 i) w
            ≡ after K (run K (pipe_wait rd wr pid1 pid2 j) w) (λ status w'. run K (k status) w')
      wait rd wr pid1 none w = h 0 w
      wait rd wr pid1 (some pid2) w = last _ _

      second :
          (rd wr : ℕ) (pid1 : Option ℕ) (w : W)
          → run K (pipe_second rd wr cmd2 pid1 i) w
            ≡ after K (run K (pipe_second rd wr cmd2 pid1 j) w) (λ status w'. run K (k status) w')
      second rd wr none w = refl
      second rd wr (some pid1) w = wait rd wr pid1 _ _

      first :
          (ends : Option (ℕ × ℕ)) (w : W)
          → run K (pipe_first cmd1 cmd2 ends i) w
            ≡ after K (run K (pipe_first cmd1 cmd2 ends j) w) (λ status w'. run K (k status) w')
      first none w = refl
      first (some (rd, wr)) w = second rd wr _ _
