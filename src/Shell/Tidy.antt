-- ===== src/Shell/Tidy.antt =====
-- Which file descriptors a process holds: those that it has opened and not closed.
use operating_system_challen.Base.{
  ℕ, ◌≡◌, refl, Bool, true, false, Option, none, some, List, [], ◌∷◌, not, if◌then◌else◌,
  Bool-cases, inl, inr,
}
use mathlib.Core.List.{Memᴰ}
use operating_system_challen.Shell.Syntax.{Text, Word, Part, SimpleCommand}
use operating_system_challen.Shell.Process.{
  Mode, rdonly, pure, Proc, Cmd, done, exit, getenv, setenv, chdir, getcwd, open_file, close, dup2,
  dprintf, pipe, fork, waitpid, execvp, fgets,
}
use operating_system_challen.Shell.Code.{
  substring, get_word_loop, get_word, get_params, get_argv, change_dir, shell_cd, shell_pwd,
  redirect_one, redirect_both, redirect_command, both_or_each, dup_fails, out_mode, same_file,
  or_die, stdin_fileno, stdout_fileno, stderr_fileno,
}

-- `ys` is `xs` without one `x`.
pub data Removed (x : ℕ) : List ℕ → List ℕ → Type 0 where
  here : {xs : List ℕ} → Removed x (x ∷ xs) xs
  there : {y : ℕ} {xs ys : List ℕ} → Removed x xs ys → Removed x (y ∷ xs) (y ∷ ys)

-- Whatever the kernel answers, the process closes and duplicates only what it holds, holds nothing
-- when it runs another program, and nothing when the shell's function returns. `F` says whether
-- `fork` may fail.
abbrev pub Tidy : (F : Type 0) → List ℕ → Proc → Type 0
Tidy F held (done status) = held ≡ []
Tidy F held (exit code) = Unit
Tidy F held (getenv name k) = (r : Option Text) → Tidy F held (k r)
Tidy F held (setenv name value k) = (r : Bool) → Tidy F held (k r)
Tidy F held (chdir path k) = (r : Bool) → Tidy F held (k r)
Tidy F held (getcwd k) = (r : Option Text) → Tidy F held (k r)
Tidy F held (open_file file mode k) =
    Tidy F held (k none) × ((fd : ℕ) → Tidy F (fd ∷ held) (k (some fd)))
Tidy F held (close fd p) = (rest : List ℕ) × Removed fd held rest × Tidy F rest p
Tidy F held (dup2 fd target k) = Memᴰ fd held × ((r : Bool) → Tidy F held (k r))
Tidy F held (dprintf fd text p) = Memᴰ fd held × Tidy F held p
Tidy F held (pipe k) = Tidy F held (k none) × ((r w : ℕ) → Tidy F (r ∷ w ∷ held) (k (some (r, w))))
Tidy F held (fork child k) =
    Tidy F held child × ((F → Tidy F held (k none)) × ((pid : ℕ) → Tidy F held (k (some pid))))
Tidy F held (waitpid pid k) = (status : _) → Tidy F held (k status)
Tidy F held (execvp file argv p) = (held ≡ []) × Tidy F held p
Tidy F held (fgets k) = (r : Option Text) → Tidy F held (k r)

module _ (F : Type 0) (held : List ℕ) where
  -- A command that ends holding what it held at its start.
  abbrev pub Keeps : {A : Type 0} → Cmd A → Type 0
  Keeps {A = A} m = (k : A → Proc) → ((a : A) → Tidy F held (k a)) → Tidy F held (m k)

  substring-Keeps : (s : Part) → Keeps (substring s)
  unfolding substring
  substring-Keeps s k h = elim (Bool-cases s.expand) [
    | inl e ↦ rw e (λ r. h _)
    | inr e ↦ rw e (h s.string)
  ]

  get_word_loop-Keeps : (string : Text) (word : Word) → Keeps (get_word_loop string word)
  unfolding get_word_loop
  get_word_loop-Keeps string [] k h = h string
  get_word_loop-Keeps string (s ∷ parts) k h =
      substring-Keeps s _ λ sub. get_word_loop-Keeps _ parts k h

  pub get_word-Keeps : (word : Word) → Keeps (get_word word)
  unfolding get_word
  get_word-Keeps [] k h = h none
  get_word-Keeps (s ∷ parts) k h = get_word_loop-Keeps [] (s ∷ parts) _ λ string. h (some string)

  or_die-Keeps : (o : Option Text) → Keeps (or_die o)
  or_die-Keeps none k h = tt
  or_die-Keeps (some t) k h = h t

  get_params-Keeps : (params : List Word) → Keeps (get_params params)
  unfolding get_params
  get_params-Keeps [] k h = h []
  get_params-Keeps (param ∷ params) k h =
      get_word-Keeps param _
        λ word. or_die-Keeps word _ λ arg. get_params-Keeps params _ λ args. h (arg ∷ args)

  pub get_argv-Keeps : (s : SimpleCommand) → Keeps (get_argv s)
  unfolding get_argv
  get_argv-Keeps s k h =
      get_word-Keeps s.verb _
        λ word. or_die-Keeps word _ λ verb. get_params-Keeps s.params _ λ args. h (verb ∷ args)

  change_dir-Keeps : (path : Option Text) → Keeps (change_dir path)
  change_dir-Keeps none k h = h false
  change_dir-Keeps (some path) k h = h

  pub shell_cd-Keeps : (params : List Word) → Keeps (shell_cd params)
  unfolding shell_cd
  shell_cd-Keeps [] k h = h false
  shell_cd-Keeps (dir ∷ rest) k h = get_word-Keeps dir _ λ path. change_dir-Keeps path k h

  pub shell_pwd-Keeps : (out : Option Text) (app : Bool) → Keeps (shell_pwd out app)
  unfolding shell_pwd
  shell_pwd-Keeps none app k h none = h false
  shell_pwd-Keeps none app k h (some dir) = h true
  shell_pwd-Keeps (some file) app k h none = h false
  shell_pwd-Keeps (some file) app k h (some dir) =
      (h false, λ fd. (Memᴰ.head refl, (held, here, h true)))

  redirect_one-Keeps :
      (file : Option Text) (mode : Mode) (skip : Bool) (target : ℕ)
      → Keeps (redirect_one file mode skip target)
  unfolding redirect_one
  redirect_one-Keeps none mode skip target k h = h true
  redirect_one-Keeps (some file) mode true target k h = (h false, λ fd. (held, here, h true))
  redirect_one-Keeps (some file) mode false target k h =
      (h false, λ fd. (Memᴰ.head refl, λ ok. (held, here, h _)))

  pub if-Keeps :
      {A : Type 0} (b : Bool) (m n : Cmd A) → Keeps m → Keeps n → Keeps (if b then m else n)
  if-Keeps true m n x y = x
  if-Keeps false m n x y = y

  redirect_both-Keeps :
      (file : Text) (mode : Mode) (skip : Bool) → Keeps (redirect_both file mode skip)
  unfolding redirect_both
  redirect_both-Keeps file mode true k h = (h false, λ fd. (held, here, h true))
  redirect_both-Keeps file mode false k h = (h false, λ fd. (Memᴰ.head refl, λ ok. second fd ok))
    where
      second :
          (fd : ℕ) (ok : Bool)
          → Tidy F (fd ∷ held) (
              (if not ok then pure true else dup_fails false fd stderr_fileno)
                (λ failed. close fd (k (not failed))))
      second fd true = (Memᴰ.head refl, λ r. (held, here, h _))
      second fd false = (held, here, h false)

  both_or_each-Keeps :
      (out err : Option Text) (mode : Mode) (skip : Bool) → Keeps (both_or_each out err mode skip)
  both_or_each-Keeps none err mode skip k h = redirect_one-Keeps err mode skip stderr_fileno k h
  both_or_each-Keeps (some o) err mode skip k h =
      if-Keeps (same_file (some o) err) (redirect_both o mode skip) _
        (redirect_both-Keeps o mode skip)
        (λ k' h'. redirect_one-Keeps (some o) mode skip stdout_fileno _ λ ok.
          if-Keeps ok (redirect_one err mode skip stderr_fileno) (pure false)
            (redirect_one-Keeps err mode skip stderr_fileno) (λ k h. h false) k' h')
        k h

  pub redirect_command-Keeps :
      (input out err : Option Text) (app skip : Bool)
      → Keeps (redirect_command input out err app skip)
  unfolding redirect_command
  redirect_command-Keeps input out err app skip k h =
      redirect_one-Keeps input rdonly skip stdin_fileno _ λ ok.
        if-Keeps ok (both_or_each out err (out_mode app) skip) (pure false)
          (both_or_each-Keeps out err (out_mode app) skip) (λ k h. h false) k h
