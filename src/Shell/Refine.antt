-- ===== src/Shell/Refine.antt =====
-- What the shell's functions do before they go on does not depend on what follows.
use operating_system_challen.Base.{
  ℕ, ◌≡◌, Bool, true, false, Option, none, some, List, [], ◌∷◌, if◌then◌else◌,
}
use operating_system_challen.Shell.Syntax.{Text, Word, Part}
use operating_system_challen.Shell.Process.{Mode, rdonly, Proc, Cmd, pure, getenv}
use operating_system_challen.Shell.Code.{
  or_nothing, substring, get_word_loop, get_word, change_dir, shell_cd, write_cwd, print_cwd,
  shell_pwd, dup_fails, duplicate, duplicate_both, redirect_one, redirect_both, both_or_each,
  same_file, redirect_command, out_mode, stdin_fileno, stdout_fileno, stderr_fileno,
}
use operating_system_challen.Shell.Kernel.{Kernel, Outcome, returned, ended, replaced, run}

module _ {W : Type 0} (K : Kernel W) where
  -- What goes on where the shell's function returns.
  abbrev pub after : Outcome W → (ℕ → W → Outcome W) → Outcome W
  after (returned status w) f = f status w
  after (ended code w) f = ended code w
  after (replaced file argv w) f = replaced file argv w

  -- A part of a command that ends with an `A`: what it does before is the same for every rest, and
  -- the rest may be any that is the same as `k` behind another start.
  abbrev pub Passes : {A : Type 0} → Cmd A → Type 0
  Passes {A = A} m =
      (j : A → Proc) (k : ℕ → Proc) (i : A → Proc)
      → ((a : A) (w : W) → run K (i a) w ≡ after (run K (j a) w) (λ status w'. run K (k status) w'))
      → (w : W) → run K (m i) w ≡ after (run K (m j) w) (λ status w'. run K (k status) w')

  substring-Passes : (s : Part) → Passes (substring s)
  unfolding substring
  substring-Passes s j k i h w = by s.expand
    where
      by :
          (e : Bool)
          → run K
              ((if e then (λ k. getenv s.string (λ v. k (or_nothing v))) else pure s.string) i)
              w
            ≡ after
                (run K
                  ((if e then (λ k. getenv s.string (λ v. k (or_nothing v))) else pure s.string) j)
                  w)
                (λ status w'. run K (k status) w')
      by true = h _ w
      by false = h s.string w

  get_word_loop-Passes : (string : Text) (word : Word) → Passes (get_word_loop string word)
  unfolding get_word_loop
  get_word_loop-Passes string [] j k i h w = h string w
  get_word_loop-Passes string (s ∷ parts) j k i h w =
      substring-Passes s _ k _ (λ sub w'. get_word_loop-Passes _ parts j k i h w') w

  pub get_word-Passes : (word : Word) → Passes (get_word word)
  unfolding get_word
  get_word-Passes [] j k i h w = h none w
  get_word-Passes (s ∷ parts) j k i h w =
      get_word_loop-Passes [] (s ∷ parts) _ k _ (λ string w'. h (some string) w') w

  pub if-Passes :
      {A : Type 0} (b : Bool) (m n : Cmd A) → Passes m → Passes n → Passes (if b then m else n)
  if-Passes true m n x y = x
  if-Passes false m n x y = y

  pub pure-Passes : {A : Type 0} (a : A) → Passes (pure a)
  pure-Passes a j k i h w = h a w

  pub shell_cd-Passes : (params : List Word) → Passes (shell_cd params)
  unfolding shell_cd
  shell_cd-Passes [] j k i h w = h false w
  shell_cd-Passes (dir ∷ rest) j k i h w = get_word-Passes dir _ k _ (λ path w'. go path w') w
    where
      go :
          (path : Option Text) (w : W)
          → run K (change_dir path i) w
            ≡ after (run K (change_dir path j) w) (λ status w'. run K (k status) w')
      go none w = h false w
      go (some path) w = h _ _

  pub shell_pwd-Passes : (out : Option Text) (app : Bool) → Passes (shell_pwd out app)
  unfolding shell_pwd
  shell_pwd-Passes out app j k i h w = to out (K.on_getcwd w)
    where
      write :
          (dir : Text) (fd : Option ℕ) (w : W)
          → run K (write_cwd dir fd i) w
            ≡ after (run K (write_cwd dir fd j) w) (λ status w'. run K (k status) w')
      write dir none w = h false w
      write dir (some fd) w = h true _

      to :
          (out cwd : Option Text)
          → run K (print_cwd out app cwd i) w
            ≡ after (run K (print_cwd out app cwd j) w) (λ status w'. run K (k status) w')
      to out none = h false w
      to none (some dir) = h true w
      to (some file) (some dir) = write dir _ _

  dup_fails-Passes : (skip : Bool) (fd target : ℕ) → Passes (dup_fails skip fd target)
  dup_fails-Passes true fd target j k i h w = h false w
  dup_fails-Passes false fd target j k i h w = h _ _

  duplicate-Passes : (skip : Bool) (target : ℕ) (fd : Option ℕ) → Passes (duplicate skip target fd)
  duplicate-Passes skip target none j k i h w = h false w
  duplicate-Passes skip target (some fd) j k i h w =
      dup_fails-Passes skip fd target _ k _ (λ failed w'. h _ _) w

  redirect_one-Passes :
      (file : Option Text) (mode : Mode) (skip : Bool) (target : ℕ)
      → Passes (redirect_one file mode skip target)
  unfolding redirect_one
  redirect_one-Passes none mode skip target j k i h w = h true w
  redirect_one-Passes (some file) mode skip target j k i h w =
      duplicate-Passes skip target _ j k i h _

  redirect_both-Passes :
      (file : Text) (mode : Mode) (skip : Bool) → Passes (redirect_both file mode skip)
  unfolding redirect_both
  redirect_both-Passes file mode skip j k i h w = both _ _
    where
      both :
          (fd : Option ℕ) (w : W)
          → run K (duplicate_both skip fd i) w
            ≡ after (run K (duplicate_both skip fd j) w) (λ status w'. run K (k status) w')
      both none w = h false w
      both (some fd) w =
          dup_fails-Passes skip fd stdout_fileno _ k _
            (λ failed w'.
              if-Passes failed (pure true) (dup_fails skip fd stderr_fileno) (pure-Passes true)
                (dup_fails-Passes skip fd stderr_fileno) _ k _ (λ failed' w''. h _ _) w')
            w

  both_or_each-Passes :
      (out err : Option Text) (mode : Mode) (skip : Bool) → Passes (both_or_each out err mode skip)
  both_or_each-Passes none err mode skip = redirect_one-Passes err mode skip stderr_fileno
  both_or_each-Passes (some o) err mode skip =
      if-Passes (same_file (some o) err) (redirect_both o mode skip) _
        (redirect_both-Passes o mode skip)
        (λ j k i h w.
          redirect_one-Passes (some o) mode skip stdout_fileno _ k _
            (λ ok w'.
              if-Passes ok (redirect_one err mode skip stderr_fileno) (pure false)
                (redirect_one-Passes err mode skip stderr_fileno) (pure-Passes false) j k i h w')
            w)

  pub redirect_command-Passes :
      (input out err : Option Text) (app skip : Bool)
      → Passes (redirect_command input out err app skip)
  unfolding redirect_command
  redirect_command-Passes input out err app skip j k i h w =
      redirect_one-Passes input rdonly skip stdin_fileno _ k _
        (λ ok w'.
          if-Passes ok (both_or_each out err (out_mode app) skip) (pure false)
            (both_or_each-Passes out err (out_mode app) skip) (pure-Passes false) j k i h w')
        w
