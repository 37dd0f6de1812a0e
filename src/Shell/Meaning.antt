-- ===== src/Shell/Meaning.antt =====
-- What a command tree means, and that `parse_command` does it.
use operating_system_challen.Base.{ℕ, ◌==◌, ◌≡◌, refl, ◌∙◌, Bool, true, false, if◌then◌else◌}
use operating_system_challen.Shell.Syntax.{Operator, Command, simple, node}
use operating_system_challen.Shell.Process.{Proc, Cmd, done, pure}
use operating_system_challen.Shell.Code.{shell_exit_status}
use operating_system_challen.Shell.Run.{parse_simple, run_in_parallel, run_on_pipe, parse_command}
use operating_system_challen.Shell.Kernel.{Kernel, Outcome, returned, ended, replaced, run}
use operating_system_challen.Shell.Refine.{after}
use operating_system_challen.Shell.Operators.{
  parse_simple-Passes, run_in_parallel-Passes, run_on_pipe-Passes,
}

module _ {W : Type 0} (K : Kernel W) where
  -- `c ; d` runs both; `c && d` runs `d` if `c` returns 0, `c || d` if it does not, and the status is
  -- that of the last command that ran; `c & d` has the status 0, whatever the children do.
  unfoldable pub exec : Command → W → Outcome W
  exec (simple s) w = run K (parse_simple s done) w
  exec (node Operator.sequential c d) w = after K (exec c w) λ status w'. exec d w'
  exec (node Operator.conditional_zero c d) w =
      after K (exec c w) λ status w'. if status == 0 then exec d w' else returned status w'
  exec (node Operator.conditional_nzero c d) w =
      after K (exec c w) λ status w'. if status == 0 then returned status w' else exec d w'
  exec (node Operator.parallel c d) w =
      run K (run_in_parallel (parse_command c) (parse_command d) λ _. done 0) w
  exec (node Operator.pipe c d) w = run K (run_on_pipe (parse_command c) (parse_command d) done) w
  exec (node Operator.dummy c d) w = returned shell_exit_status w

  after_after :
      (o : Outcome W) (f g h : ℕ → W → Outcome W)
      → ((status : ℕ) (w : W) → h status w ≡ after K (f status w) g)
      → after K o h ≡ after K (after K o f) g
  after_after (returned status w) f g h e = e status w
  after_after (ended code w) f g h e = refl
  after_after (replaced file argv w) f g h e = refl

  chosen :
      (b : Bool) (m n : Cmd ℕ) (f g : W → Outcome W) (k : ℕ → Proc)
      → ((w : W) → run K (m k) w ≡ after K (f w) (λ status w'. run K (k status) w'))
      → ((w : W) → run K (n k) w ≡ after K (g w) (λ status w'. run K (k status) w'))
      → (w : W)
      → run K ((if b then m else n) k) w
        ≡ after K (if b then f w else g w) (λ status w'. run K (k status) w')
  chosen true m n f g k x y w = x w
  chosen false m n f g k x y w = y w

  -- Under every kernel, and whatever follows, `parse_command` does what the command tree means and
  -- goes on with its status: both commands of `c ; d` run, the second one of `c && d` and `c || d`
  -- runs if the status of the first is 0, or is not, and the status of `c & d` is 0. A simple
  -- command, and the processes of `c & d` and `c | d`, are those of the shell's functions.
  pub parse_command-exec :
      (c : Command) (k : ℕ → Proc) (w : W)
      → run K (parse_command c k) w ≡ after K (exec c w) (λ status w'. run K (k status) w')
  unfolding parse_command exec
  parse_command-exec (simple s) k w = parse_simple-Passes K s done k k (λ status w'. refl) w
  parse_command-exec (node Operator.sequential c d) k w =
      parse_command-exec c (λ _. parse_command d k) w
      ∙ after_after (exec c w) (λ status w'. exec d w') (λ status w'. run K (k status) w') _
          λ status w'. parse_command-exec d k w'
  parse_command-exec (node Operator.conditional_zero c d) k w =
      parse_command-exec c _ w
      ∙ after_after (exec c w) _ (λ status w'. run K (k status) w') _
          λ status w'.
            chosen (status == 0) (parse_command d) (pure status) (exec d) (returned status) k
              (λ w. parse_command-exec d k w) (λ w. refl) w'
  parse_command-exec (node Operator.conditional_nzero c d) k w =
      parse_command-exec c _ w
      ∙ after_after (exec c w) _ (λ status w'. run K (k status) w') _
          λ status w'.
            chosen (status == 0) (pure status) (parse_command d) (returned status) (exec d) k
              (λ w. refl) (λ w. parse_command-exec d k w) w'
  parse_command-exec (node Operator.parallel c d) k w =
      run_in_parallel-Passes K (parse_command c) (parse_command d) (λ _. done 0) k (λ _. k 0)
        (λ ok w'. refl) w
  parse_command-exec (node Operator.pipe c d) k w =
      run_on_pipe-Passes K (parse_command c) (parse_command d) done k k (λ status w'. refl) w
  parse_command-exec (node Operator.dummy c d) k w = refl
