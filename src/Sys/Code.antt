-- ===== src/Sys/Code.antt =====
-- The functions of mini-libc/src/io, stat, process and stdio that make a system call. A `long` and
-- an `int` are words of 64 and of 32 bits in two's complement.
use operating_system_challen.Base.{
  ℕ, zero, suc, ◌+◌, ◌-◌, ◌%◌, ◌^◌, Bool, true, false, Option, none, some, List, [], ◌∷◌, ◌==◌, ltb,
  leb, if◌then◌else◌,
}

-- `syscall num args` is `__syscall` with the registers that the call reads; its result is a word.
-- The kernel's state holds the memory of the process: `byte w p` is what lies at `p`.
pub record Kernel (W : Type 0) : Type 0 where
  pub syscall : (num : ℕ) → (args : List ℕ) → W → ℕ × W
  pub byte : W → ℕ → ℕ

pub record State (W : Type 0) : Type 0 where
  pub errno : ℕ
  pub world : W

abbrev pub Cmd : Type 0 → Type 0
Cmd W = State W → ℕ × State W

-- `(int) r`, the test `ret < 0`, and `-ret`
unfoldable pub to_int : ℕ → ℕ
to_int r = r % 2 ^ 32

unfoldable pub is_negative : ℕ → Bool
is_negative ret = leb (2 ^ 31) ret

unfoldable pub negate : ℕ → ℕ
negate ret = (2 ^ 32 - ret) % 2 ^ 32

-- -1 as an `int` and as a `long`
abbrev pub minus_one : ℕ
minus_one = 2 ^ 32 - 1

abbrev pub minus_one_long : ℕ
minus_one_long = 2 ^ 64 - 1

-- `if (ret < 0) { errno = -ret; return -1; } return ret;`
unfoldable pub check_result : {W : Type 0} → (failed ret : ℕ) → Cmd W
unfolding is_negative negate
check_result failed ret s =
    if is_negative ret then (failed, record s { errno = negate ret }) else (ret, s)

module _ {W : Type 0} (k : Kernel W) where
  -- `int ret = syscall(num, args);` and the test that follows
  unfoldable pub make_call : (failed num : ℕ) → List ℕ → Cmd W
  unfolding check_result to_int
  make_call failed num args s =
      let (r, w) = k.syscall num args s.world in
      check_result failed (to_int r) (record s { world = w })

  unfoldable pub close : (fd : ℕ) → Cmd W
  unfolding make_call
  close fd = make_call minus_one 3 (fd ∷ [])

  unfoldable pub ftruncate : (fd length : ℕ) → Cmd W
  unfolding make_call
  ftruncate fd length = make_call minus_one 77 (fd ∷ length ∷ [])

  unfoldable pub lseek : (fd offset whence : ℕ) → Cmd W
  unfolding make_call
  lseek fd offset whence = make_call minus_one_long 8 (fd ∷ offset ∷ whence ∷ [])

  -- the optional mode is not passed on
  -- `open`. The call reads a third register, the mode, which the function does not set: `third` is
  -- what that register holds.
  unfoldable pub open_file : (filename flags third : ℕ) → Cmd W
  unfolding make_call
  open_file filename flags third = make_call minus_one 2 (filename ∷ flags ∷ third ∷ [])

  unfoldable pub write : (fd buf len : ℕ) → Cmd W
  unfolding make_call
  write fd buf len = make_call minus_one_long 1 (fd ∷ buf ∷ len ∷ [])

  unfoldable pub read : (fd buf len : ℕ) → Cmd W
  unfolding make_call
  read fd buf len = make_call minus_one_long 0 (fd ∷ buf ∷ len ∷ [])

  unfoldable pub truncate : (path length : ℕ) → Cmd W
  unfolding make_call
  truncate path length = make_call minus_one 76 (path ∷ length ∷ [])

  unfoldable pub fstat : (fd st : ℕ) → Cmd W
  unfolding make_call
  fstat fd st = make_call minus_one 5 (fd ∷ st ∷ [])

  unfoldable pub stat : (path buf : ℕ) → Cmd W
  unfolding make_call
  stat path buf = make_call minus_one 4 (path ∷ buf ∷ [])

  unfoldable pub nanosleep : (t1 t2 : ℕ) → Cmd W
  unfolding make_call
  nanosleep t1 t2 = make_call minus_one 35 (t1 ∷ t2 ∷ [])

  -- `t1` is the address of the local variable.
  unfoldable pub sleep : (t1 : ℕ) → Cmd W
  unfolding nanosleep check_result
  sleep t1 s = let (ret, s') = nanosleep t1 0 s in check_result minus_one ret s'

  -- The result is that of a call that has failed.
  unfoldable pub exit : (exit_code : ℕ) → Cmd W
  exit exit_code s =
      let (r, w) = k.syscall 60 (exit_code ∷ []) s.world in (r, record s { world = w })

  -- The first loop of `puts`, from `dummy` on.
  unfoldable pub size_loop : ℕ → (dummy size : ℕ) → W → Option ℕ
  size_loop zero dummy size w = none
  size_loop (suc fuel) dummy size w =
      let rest = size_loop fuel (dummy + 1) (to_int (size + 1)) w in
      if k.byte w dummy == 0 then some size else rest

  -- `(long) i` for an `int`
  unfoldable pub extend : ℕ → ℕ
  unfolding is_negative
  extend i = if is_negative i then i + (2 ^ 64 - 2 ^ 32) else i

  -- `total_written < size`, which compares signed words
  unfoldable pub less_int : ℕ → ℕ → Bool
  less_int a b = ltb ((a + 2 ^ 31) % 2 ^ 32) ((b + 2 ^ 31) % 2 ^ 32)

  -- The second loop, which ends when the whole string is written.
  unfoldable pub write_loop : ℕ → (str size total_written : ℕ) → W → Option (ℕ × W)
  unfolding extend less_int to_int
  write_loop zero str size total_written w = none
  write_loop (suc fuel) str size total_written w = elim (less_int total_written size) [
    | false ↦ some (total_written, w)
    | true ↦
        let at = (str + extend total_written) % 2 ^ 64 in
        let left = extend (to_int (size + 2 ^ 32 - total_written)) in
        let (r, w') = k.syscall 1 (1 ∷ at ∷ left ∷ []) w in
        write_loop fuel str size (to_int (extend total_written + r)) w'
  ]

  -- `newline` is the address of the literal "\n".
  unfoldable pub puts : ℕ → (newline str : ℕ) → W → Option (ℕ × W)
  unfolding size_loop write_loop
  puts fuel newline str w = elim (size_loop fuel str 0 w) [
    | none ↦ none
    | some size ↦ elim (write_loop fuel str size 0 w) [
      | none ↦ none
      | some (total_written, w') ↦ some (total_written, (k.syscall 1 (1 ∷ newline ∷ 1 ∷ []) w').1)
    ]
  ]
