-- ===== src/Shell/Words.antt =====
-- The texts that the shell makes of its words.
use operating_system_challen.Base.{
  ◌≡◌, ◌≢◌, refl, sym, ap, ◌∙◌, Bool, true, false, Option, none, some, List, [], ◌∷◌, ◌++◌, map,
  All, Bool-cases, inl, inr, if◌then◌else◌,
}
use mathlib.Core.List.{append_assoc, append-nil}
use operating_system_challen.Shell.Syntax.{Text, Word, Part, SimpleCommand}
use operating_system_challen.Shell.Process.{Proc, pure, rdonly, execvp, exit, ◌>>=◌}
use operating_system_challen.Shell.Code.{
  or_nothing, substring, get_word_loop, get_word, get_params, get_argv, or_die, shell_pwd,
  print_cwd, redirect_command, redirect_one, duplicate, both_or_each, out_mode, exit_failure,
}
use operating_system_challen.Shell.Run.{run_child}
use operating_system_challen.Shell.Kernel.{Kernel, replaced, ended, run}

-- What one part stands for, where `env` are the variables.
unfoldable pub meaning : (env : Text → Option Text) → Part → Text
meaning env s = if s.expand then or_nothing (env s.string) else s.string

-- The meanings of the parts, one after the other.
unfoldable pub joined : (Text → Option Text) → Word → Text
unfolding meaning
joined env [] = []
joined env (s ∷ parts) = meaning env s ++ joined env parts

abbrev pub NotNull : Word → Type 0
NotNull word = word ≢ []

module _ {W : Type 0} (K : Kernel W) where
  abbrev pub env_of : W → Text → Option Text
  env_of w name = K.on_getenv name w

  substring-meaning :
      (s : Part) (k : Text → Proc) (w : W)
      → run K (substring s k) w ≡ run K (k (meaning (env_of w) s)) w
  unfolding substring meaning
  substring-meaning s k w = elim (Bool-cases s.expand) [ inl e ↦ rw e refl | inr e ↦ rw e refl ]

  get_word_loop-joined :
      (string : Text) (word : Word) (k : Text → Proc) (w : W)
      → run K (get_word_loop string word k) w ≡ run K (k (string ++ joined (env_of w) word)) w
  unfolding get_word_loop joined
  get_word_loop-joined string [] k w = ap (λ t. run K (k t) w) (sym (append-nil string))
  get_word_loop-joined string (s ∷ parts) k w =
      substring-meaning s _ w
      ∙ get_word_loop-joined (string ++ meaning (env_of w) s) parts k w
      ∙ ap (λ t. run K (k t) w)
          (append_assoc string (meaning (env_of w) s) (joined (env_of w) parts))

  -- Under every kernel `get_word` of a word, which is not NULL, goes on with the values of its parts one
  -- after the other, where a variable that is not set is empty.
  pub get_word-joined :
      (s : Part) (parts : Word) (k : Option Text → Proc) (w : W)
      → run K (get_word (s ∷ parts) k) w ≡ run K (k (some (joined (env_of w) (s ∷ parts)))) w
  unfolding get_word
  get_word-joined s parts k w = get_word_loop-joined [] (s ∷ parts) _ w

  get_params-joined :
      (params : List Word) (k : List Text → Proc) (w : W)
      → All NotNull params
      → run K (get_params params k) w ≡ run K (k (map (joined (env_of w)) params)) w
  unfolding get_params
  get_params-joined [] k w h = refl
  get_params-joined ([] ∷ params) k w h = absurd (h.0 refl)
  get_params-joined ((s ∷ parts) ∷ params) k w h =
      get_word-joined s parts _ w ∙ get_params-joined params _ w h.1

  -- Under every kernel `get_argv` of a command whose verb and parameters are not NULL goes on with the
  -- texts of the verb and of the parameters, in their order.
  pub get_argv-joined :
      (command : SimpleCommand) (k : List Text → Proc) (w : W)
      → NotNull command.verb
      → All NotNull command.params
      → run K (get_argv command k) w
        ≡ run K (k (map (joined (env_of w)) (command.verb ∷ command.params))) w
  unfolding get_argv
  get_argv-joined command k w v h = at command.verb v
    where
      at :
          (verb : Word)
          → NotNull verb
          → run K
              ((get_word verb >>= or_die)
                (λ first. get_params command.params (λ args. k (first ∷ args))))
              w
            ≡ run K (k (map (joined (env_of w)) (verb ∷ command.params))) w
      at [] n = absurd (n refl)
      at (s ∷ parts) n = get_word-joined s parts _ w ∙ get_params-joined command.params _ w h

  -- `pwd` without a redirection writes nothing: where the current directory is found it goes on
  -- with success in the state that it began in.
  pub shell_pwd_silent :
      (app : Bool) (dir : Text) (k : Bool → Proc) (w : W)
      → K.on_getcwd w ≡ some dir
      → run K (shell_pwd none app k) w ≡ run K (k true) w
  unfolding shell_pwd
  shell_pwd_silent app dir k w e = ap (λ cwd. run K (print_cwd none app cwd k) w) e

  -- Where the input file of an external command whose verb and parameters are not NULL cannot be
  -- opened, and the program can be executed, the child runs it all the same, with the arguments of
  -- the command line.
  pub run_child_ignores_redirect :
      (s : SimpleCommand) (command file : Text) (out err : Option Text) (app : Bool) (w w' w'' : W)
      → NotNull s.verb
      → All NotNull s.params
      → K.on_open file rdonly w ≡ (none, w')
      → K.on_execvp command (map (joined (env_of w')) (s.verb ∷ s.params)) w' ≡ (true, w'')
      → run K (run_child s command (some file) out err app) w
        ≡ replaced command (map (joined (env_of w')) (s.verb ∷ s.params)) w''
  unfolding run_child redirect_command redirect_one
  run_child_ignores_redirect s command file out err app w w' w'' v h fails runs =
      ap
        (λ r.
          run K
            (duplicate false 0 r.0 λ ok.
              (if ok then both_or_each out err (out_mode app) false else pure false)
                λ _. get_argv s λ argv. execvp command argv (exit exit_failure))
            r.1)
        fails
      ∙ get_argv-joined s (λ argv. execvp command argv (exit exit_failure)) w' v h
      ∙ ap
          (λ r.
            if r.0
            then replaced command (map (joined (env_of w')) (s.verb ∷ s.params)) r.1
            else ended exit_failure r.1)
          runs
