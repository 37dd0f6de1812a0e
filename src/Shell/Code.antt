-- ===== src/Shell/Code.antt =====
-- mini-shell/src/utils.c and cmd.c. An `int` is written modulo 2 ^ 32. The messages on stderr and the
-- allocation of the strings, which succeeds, are left out; `level` and `father` are not used.
use operating_system_challen.Base.{
  ℕ, ◌-◌, ◌^◌, Bool, true, false, not, Option, none, some, List, [], ◌∷◌, ◌++◌, if◌then◌else◌,
}
use operating_system_challen.Shell.Syntax.{Text, same_text, Part, Word, SimpleCommand}
use operating_system_challen.Shell.Process.{
  Mode, rdonly, trunc, append, Cmd, pure, ◌>>=◌, ◌>>◌, getenv, chdir, getcwd, open_file, dup2,
  close_fd, print_to, exit_with,
}

abbrev pub exit_success : ℕ
exit_success = 0

abbrev pub exit_failure : ℕ
exit_failure = 1

-- -100
abbrev pub shell_exit_status : ℕ
shell_exit_status = 2 ^ 32 - 100

abbrev pub stdin_fileno : ℕ
stdin_fileno = 0

abbrev pub stdout_fileno : ℕ
stdout_fileno = 1

abbrev pub stderr_fileno : ℕ
stderr_fileno = 2

abbrev pub or_nothing : Option Text → Text
or_nothing none = []
or_nothing (some t) = t

-- The substring that one part stands for; a variable that is not set is the empty one.
unfoldable pub substring : Part → Cmd Text
substring s = if s.expand then (λ k. getenv s.string (λ v. k (or_nothing v))) else pure s.string

-- The loop of `get_word`, with the string so far.
unfoldable pub get_word_loop : Text → Word → Cmd Text
get_word_loop string [] = pure string
get_word_loop string (s ∷ parts) = do sub ← substring s; get_word_loop (string ++ sub) parts

-- NULL for the word NULL.
unfoldable pub get_word : Word → Cmd (Option Text)
get_word [] = pure none
get_word (s ∷ parts) = do string ← get_word_loop [] (s ∷ parts); pure (some string)

-- `DIE(argv[argc] == NULL, ...)`
abbrev pub or_die : Option Text → Cmd Text
or_die none = exit_with exit_failure
or_die (some t) = pure t

unfoldable pub get_params : List Word → Cmd (List Text)
get_params [] = pure []
get_params (param ∷ params) = do
  word ← get_word param
  arg ← or_die word
  args ← get_params params
  pure (arg ∷ args)

-- `*size` is the length of the list.
unfoldable pub get_argv : SimpleCommand → Cmd (List Text)
get_argv command = do
  word ← get_word command.verb
  verb ← or_die word
  args ← get_params command.params
  pure (verb ∷ args)

abbrev pub change_dir : Option Text → Cmd Bool
change_dir none = pure false
change_dir (some path) = λ k. chdir path k

unfoldable pub shell_cd : List Word → Cmd Bool
shell_cd [] = pure false
shell_cd (dir ∷ _) = do path ← get_word dir; change_dir path

abbrev pub out_mode : Bool → Mode
out_mode true = append
out_mode false = trunc

-- What `shell_pwd` does with the descriptor of the file, and with the current directory.
abbrev pub write_cwd : Text → Option ℕ → Cmd Bool
write_cwd dir none = pure false
write_cwd dir (some fd_out) = do print_to fd_out (dir ++ 10 ∷ []); close_fd fd_out; pure true

abbrev pub print_cwd : Option Text → Bool → Option Text → Cmd Bool
print_cwd out app none = pure false
print_cwd none app (some dir) = pure true
print_cwd (some file) app (some dir) = do
  fd_out ← (λ k. open_file file (out_mode app) k)
  write_cwd dir fd_out

unfoldable pub shell_pwd : Option Text → Bool → Cmd Bool
shell_pwd out app = do cwd ← getcwd; print_cwd out app cwd

-- `!skipDup && dup2(fd, target) == -1`
abbrev pub dup_fails : Bool → ℕ → ℕ → Cmd Bool
dup_fails true fd target = pure false
dup_fails false fd target = λ k. dup2 fd target (λ ok. k (not ok))

-- What follows `open`: duplicate and close.
abbrev pub duplicate : Bool → ℕ → Option ℕ → Cmd Bool
duplicate skip target none = pure false
duplicate skip target (some fd) = do
  failed ← dup_fails skip fd target
  close_fd fd
  pure (not failed)

-- One redirection.
unfoldable pub redirect_one : Option Text → Mode → Bool → ℕ → Cmd Bool
redirect_one none mode skip target = pure true
redirect_one (some file) mode skip target = do
  opened ← (λ k. open_file file mode k)
  duplicate skip target opened

-- The second `dup2` is made if the first succeeds.
abbrev pub duplicate_both : Bool → Option ℕ → Cmd Bool
duplicate_both skip none = pure false
duplicate_both skip (some fd) = do
  failed ← dup_fails skip fd stdout_fileno
  failed' ← if failed then pure true else dup_fails skip fd stderr_fileno
  close_fd fd
  pure (not failed')

-- The branch for `out` and `err` of the same name.
unfoldable pub redirect_both : Text → Mode → Bool → Cmd Bool
redirect_both file mode skip = do opened ← (λ k. open_file file mode k); duplicate_both skip opened

-- `out != NULL && err != NULL && strcmp(out, err) == 0`
abbrev pub same_file : Option Text → Option Text → Bool
same_file none err = false
same_file (some o) none = false
same_file (some o) (some e) = same_text o e

abbrev pub both_or_each : Option Text → Option Text → Mode → Bool → Cmd Bool
both_or_each none err mode skip = redirect_one err mode skip stderr_fileno
both_or_each (some o) err mode skip =
    if same_file (some o) err then redirect_both o mode skip else (do
      ok ← redirect_one (some o) mode skip stdout_fileno
      if ok then redirect_one err mode skip stderr_fileno else pure false)

unfoldable pub redirect_command : (input out err : Option Text) → (app skip : Bool) → Cmd Bool
redirect_command input out err app skip = do
  ok ← redirect_one input rdonly skip stdin_fileno
  if ok then both_or_each out err (out_mode app) skip else pure false
