-- ===== src/Sys/Wrappers.antt =====
-- What the system call wrappers of mini-libc/src make of the kernel's answer.
use operating_system_challen.Base.{ℕ, ◌-◌, ◌^◌, ◌<◌, ◌≡◌, refl, true, false, List, [], ◌∷◌, arith}
use operating_system_challen.Sys.Code.{
  Kernel, State, Cmd, to_int, is_negative, negate, minus_one, minus_one_long, check_result,
  make_call, close, ftruncate, lseek, open_file, write, read, truncate, fstat, stat, nanosleep,
  sleep,
}

-- What the kernel answers: a value that an `int` holds, or an error.
pub data Answer : Type 0 where
  value : ℕ → Answer
  failure : ℕ → Answer

abbrev pub word_of : Answer → ℕ
word_of (value r) = r
word_of (failure e) = 2 ^ 64 - e

abbrev pub Documented : Answer → Type 0
Documented (value r) = r < 2 ^ 31
Documented (failure e) = (0 < e) × (e < 4096)

-- What the C library promises: the value, or `failed` with `errno` set.
abbrev pub promised : {W : Type 0} → (failed : ℕ) → Answer → State W → ℕ × State W
promised failed (value r) s = (r, s)
promised failed (failure e) s = (failed, record s { errno = e })

-- A call of one of the functions that make a system call and test its result: those of io and stat,
-- and `nanosleep`. `third` of `call_open` is what the register of the mode holds, which `open` does
-- not set from its caller's mode.
pub data Call : Type 0 where
  call_close : (fd : ℕ) → Call
  call_ftruncate : (fd length : ℕ) → Call
  call_lseek : (fd offset whence : ℕ) → Call
  call_open : (filename flags third : ℕ) → Call
  call_write call_read : (fd buf len : ℕ) → Call
  call_truncate : (path length : ℕ) → Call
  call_fstat : (fd st : ℕ) → Call
  call_stat : (path buf : ℕ) → Call
  call_nanosleep : (t1 t2 : ℕ) → Call

abbrev pub run_call : {W : Type 0} → Kernel W → Call → Cmd W
run_call k (call_close fd) = close k fd
run_call k (call_ftruncate fd length) = ftruncate k fd length
run_call k (call_lseek fd offset whence) = lseek k fd offset whence
run_call k (call_open filename flags third) = open_file k filename flags third
run_call k (call_write fd buf len) = write k fd buf len
run_call k (call_read fd buf len) = read k fd buf len
run_call k (call_truncate path length) = truncate k path length
run_call k (call_fstat fd st) = fstat k fd st
run_call k (call_stat path buf) = stat k path buf
run_call k (call_nanosleep t1 t2) = nanosleep k t1 t2

-- The system call that it stands for, and the result where that fails.
abbrev pub number : Call → ℕ
number (call_close _) = 3
number (call_ftruncate _ _) = 77
number (call_lseek _ _ _) = 8
number (call_open _ _ _) = 2
number (call_write _ _ _) = 1
number (call_read _ _ _) = 0
number (call_truncate _ _) = 76
number (call_fstat _ _) = 5
number (call_stat _ _) = 4
number (call_nanosleep _ _) = 35

abbrev pub arguments : Call → List ℕ
arguments (call_close fd) = fd ∷ []
arguments (call_ftruncate fd length) = fd ∷ length ∷ []
arguments (call_lseek fd offset whence) = fd ∷ offset ∷ whence ∷ []
arguments (call_open filename flags third) = filename ∷ flags ∷ third ∷ []
arguments (call_write fd buf len) = fd ∷ buf ∷ len ∷ []
arguments (call_read fd buf len) = fd ∷ buf ∷ len ∷ []
arguments (call_truncate path length) = path ∷ length ∷ []
arguments (call_fstat fd st) = fd ∷ st ∷ []
arguments (call_stat path buf) = path ∷ buf ∷ []
arguments (call_nanosleep t1 t2) = t1 ∷ t2 ∷ []

abbrev pub on_failure : Call → ℕ
on_failure (call_lseek _ _ _) = minus_one_long
on_failure (call_write _ _ _) = minus_one_long
on_failure (call_read _ _ _) = minus_one_long
on_failure (call_close _) = minus_one
on_failure (call_ftruncate _ _) = minus_one
on_failure (call_open _ _ _) = minus_one
on_failure (call_truncate _ _) = minus_one
on_failure (call_fstat _ _) = minus_one
on_failure (call_stat _ _) = minus_one
on_failure (call_nanosleep _ _) = minus_one

int_small : (r : ℕ) → r < 2 ^ 31 → (to_int r ≡ r) × (is_negative r ≡ false)
unfolding to_int is_negative
int_small r h = ground arith

int_error :
    (e : ℕ)
    → 0 < e
    → e < 4096
    → (to_int (2 ^ 64 - e) ≡ 2 ^ 32 - e)
      × (is_negative (2 ^ 32 - e) ≡ true)
      × (negate (2 ^ 32 - e) ≡ e)
unfolding to_int is_negative negate
int_error e h l = ground arith

module _ {W : Type 0} (k : Kernel W) where
  make_call-promised :
      (failed num : ℕ) (args : List ℕ) (answer : Answer) (s : State W) (w : W)
      → k.syscall num args s.world ≡ (word_of answer, w)
      → Documented answer
      → make_call k failed num args s ≡ promised failed answer (record s { world = w })
  unfolding make_call check_result
  make_call-promised failed num args (value r) s w q h =
      let (a, b) = int_small r h in rw (q, a, b) refl
  make_call-promised failed num args (failure e) s w q (h, l) =
      let (a, b, c) = int_error e h l in rw (q, a, b, c) refl

  -- Each of `close`, `ftruncate`, `lseek`, `open`, `write`, `read`, `truncate`, `fstat`, `stat` and
  -- `nanosleep` makes the system call that it stands for, with its arguments in their order (`open`
  -- the file name and the flags, and for the mode what the third register happens to hold), and where
  -- the kernel answers with a value below 2 ^ 31 or with an error below 4096, it does what the
  -- C library promises: it returns the value and leaves `errno`, or returns -1 and sets `errno` to
  -- the error.
  pub run_call-promised :
      (c : Call) (answer : Answer) (s : State W) (w : W)
      → k.syscall (number c) (arguments c) s.world ≡ (word_of answer, w)
      → Documented answer
      → run_call k c s ≡ promised (on_failure c) answer (record s { world = w })
  unfolding close ftruncate lseek open_file write read truncate fstat stat nanosleep
  run_call-promised (call_close fd) = make_call-promised _ _ _
  run_call-promised (call_ftruncate fd length) = make_call-promised _ _ _
  run_call-promised (call_lseek fd offset whence) = make_call-promised _ _ _
  run_call-promised (call_open filename flags third) = make_call-promised _ _ _
  run_call-promised (call_write fd buf len) = make_call-promised _ _ _
  run_call-promised (call_read fd buf len) = make_call-promised _ _ _
  run_call-promised (call_truncate path length) = make_call-promised _ _ _
  run_call-promised (call_fstat fd st) = make_call-promised _ _ _
  run_call-promised (call_stat path buf) = make_call-promised _ _ _
  run_call-promised (call_nanosleep t1 t2) = make_call-promised _ _ _

  -- `sleep` tests the result of `nanosleep`, which is -1 where the call fails, once more: `errno` is
  -- 1 then, whatever the error was.
  pub sleep_errno :
      (t1 e : ℕ) (s : State W) (w : W)
      → k.syscall 35 (t1 ∷ 0 ∷ []) s.world ≡ (2 ^ 64 - e, w)
      → 0 < e
      → e < 4096
      → sleep k t1 s ≡ (minus_one, record s { errno = 1; world = w })
  unfolding sleep nanosleep check_result is_negative negate
  sleep_errno t1 e s w q h l =
      rw (make_call-promised minus_one 35 (t1 ∷ 0 ∷ []) (failure e) s w q (h, l)) refl
