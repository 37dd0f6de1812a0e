-- ===== src/Shell/Process.antt =====
-- A process as the system calls that it makes: each call carries what the process does with the
-- reply, whatever the kernel answers. `fork` carries the child and what the parent does.
use operating_system_challen.Base.{ℕ, Bool, Option, List}
use operating_system_challen.Shell.Syntax.{Text}

-- O_RDONLY; O_WRONLY | O_CREAT with O_TRUNC or with O_APPEND
pub data Mode : Type 0 where
  rdonly trunc append : Mode

-- What `waitpid` stores: the exit status, or the raw value for another end.
pub data WaitStatus : Type 0 where
  exited : ℕ → WaitStatus
  other : ℕ → WaitStatus

-- A failed call is `none` or false. `done` is the return of the shell's function, with its status.
pub data Proc : Type 0 where
  done : ℕ → Proc
  exit : ℕ → Proc
  getenv : Text → (Option Text → Proc) → Proc
  setenv : Text → Text → (Bool → Proc) → Proc
  chdir : Text → (Bool → Proc) → Proc
  getcwd : (Option Text → Proc) → Proc
  open_file : Text → Mode → (Option ℕ → Proc) → Proc
  close : ℕ → Proc → Proc
  dup2 : ℕ → ℕ → (Bool → Proc) → Proc
  dprintf : ℕ → Text → Proc → Proc
  pipe : (Option (ℕ × ℕ) → Proc) → Proc
  fork : Proc → (Option ℕ → Proc) → Proc
  waitpid : ℕ → (WaitStatus → Proc) → Proc
  execvp : Text → List Text → Proc → Proc
  fgets : (Option Text → Proc) → Proc

-- Code that ends with an `A` and goes on.
abbrev pub Cmd : Type 0 → Type 0
Cmd A = (A → Proc) → Proc

abbrev pub pure : {A : Type 0} → A → Cmd A
pure a k = k a

infixl 5 ◌>>=◌ ◌>>◌
abbrev pub ◌>>=◌ : {A B : Type 0} → Cmd A → (A → Cmd B) → Cmd B
◌>>=◌ m f k = m (λ a. f a k)

abbrev pub ◌>>◌ : {B : Type 0} → Cmd (Unit {0}) → Cmd B → Cmd B
m >> n = m >>= λ _. n

-- `close(fd)` and `dprintf` as statements.
abbrev pub close_fd : ℕ → Cmd (Unit {0})
close_fd fd k = close fd (k tt)

abbrev pub print_to : ℕ → Text → Cmd (Unit {0})
print_to fd text k = dprintf fd text (k tt)

-- `exit(code)`: nothing behind it runs.
abbrev pub exit_with : {A : Type 0} → ℕ → Cmd A
exit_with code k = exit code
