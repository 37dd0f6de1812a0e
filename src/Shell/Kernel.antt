-- ===== src/Shell/Kernel.antt =====
-- A process run by a kernel, which is a parameter: what each system call answers and does to the
-- state `W` that the process sees.
use operating_system_challen.Base.{ℕ, Bool, Option, List, if◌then◌else◌}
use operating_system_challen.Shell.Syntax.{Text}
use operating_system_challen.Shell.Process.{
  Mode, WaitStatus, Proc, done, exit, getenv, setenv, chdir, getcwd, open_file, close, dup2,
  dprintf, pipe, fork, waitpid, execvp, fgets,
}

-- `fork` gets the child's code; `execvp` answers whether the program runs.
pub record Kernel (W : Type 0) : Type 0 where
  pub on_getenv : Text → W → Option Text
  pub on_setenv : Text → Text → W → Bool × W
  pub on_chdir : Text → W → Bool × W
  pub on_getcwd : W → Option Text
  pub on_open : Text → Mode → W → Option ℕ × W
  pub on_close : ℕ → W → W
  pub on_dup2 : ℕ → ℕ → W → Bool × W
  pub on_dprintf : ℕ → Text → W → W
  pub on_pipe : W → Option (ℕ × ℕ) × W
  pub on_fork : Proc → W → Option ℕ × W
  pub on_waitpid : ℕ → W → WaitStatus × W
  pub on_execvp : Text → List Text → W → Bool × W
  pub on_fgets : W → Option Text × W

-- How a process ends: the shell's function returns, `exit`, or another program takes its place.
pub data Outcome (W : Type 0) : Type 0 where
  returned : ℕ → W → Outcome W
  ended : ℕ → W → Outcome W
  replaced : Text → List Text → W → Outcome W

module _ {W : Type 0} (K : Kernel W) where
  abbrev pub run : Proc → W → Outcome W
  run (done status) w = returned status w
  run (exit code) w = ended code w
  run (getenv name k) w = run (k (K.on_getenv name w)) w
  run (setenv name value k) w = let (r, w') = K.on_setenv name value w in run (k r) w'
  run (chdir path k) w = let (r, w') = K.on_chdir path w in run (k r) w'
  run (getcwd k) w = run (k (K.on_getcwd w)) w
  run (open_file file mode k) w = let (r, w') = K.on_open file mode w in run (k r) w'
  run (close fd p) w = run p (K.on_close fd w)
  run (dup2 fd target k) w = let (r, w') = K.on_dup2 fd target w in run (k r) w'
  run (dprintf fd text p) w = run p (K.on_dprintf fd text w)
  run (pipe k) w = let (r, w') = K.on_pipe w in run (k r) w'
  run (fork child k) w = let (r, w') = K.on_fork child w in run (k r) w'
  run (waitpid pid k) w = let (r, w') = K.on_waitpid pid w in run (k r) w'
  run (execvp file argv p) w =
      let (r, w') = K.on_execvp file argv w in
      let failed = run p w' in if r then replaced file argv w' else failed
  run (fgets k) w = let (r, w') = K.on_fgets w in run (k r) w'
