-- ===== src/Mm/State.antt =====
-- What the functions of mini-libc/src/mm run on: the fields of `struct mem_list` as functions of the
-- address, the bytes, `errno`, and the kernel, whose system calls are parameters.
use operating_system_challen.Base.{ℕ, ◌-◌, ◌^◌, ◌==◌, Bool, if◌then◌else◌}
use operating_system_challen.Ring.{put}
pub use operating_system_challen.Ring.{Ptr}

abbrev pub null : Ptr
null = 0

-- `(void *) -1`
abbrev pub map_failed : ℕ
map_failed = 2 ^ 64 - 1

abbrev pub Bytes : Type 0
Bytes = Ptr → ℕ

-- MAP_ANONYMOUS, MAP_PRIVATE, MAP_SHARED
pub record Flags : Type 0 where
  pub anonymous : Bool
  pub is_private : Bool
  pub is_shared : Bool

-- The results of the system calls, as 64-bit words: an error e is 2 ^ 64 - e.
pub record Kernel (W : Type 0) : Type 0 where
  pub sys_mmap : (addr : Ptr) → (length prot : ℕ) → Flags → (fd offset : ℕ) → W → ℕ × W
  pub sys_mremap : (old_address : Ptr) → (old_size new_size flags : ℕ) → W → ℕ × W
  pub sys_munmap : (addr : Ptr) → (length : ℕ) → W → ℕ × W

pub record State (W : Type 0) : Type 0 where
  pub start : Ptr → Ptr
  pub len : Ptr → ℕ
  pub prev : Ptr → Ptr
  pub next : Ptr → Ptr
  pub byte : Bytes
  pub errno : ℕ
  pub world : W

-- `fault` is an access through NULL.
pub data Run (W A : Type 0) : Type 0 where
  ok : A → State W → Run W A
  fault : Run W A
  out_of_fuel : Run W A

abbrev pub Cmd : Type 0 → Type 0 → Type 0
Cmd W A = State W → Run W A

module _ {W : Type 0} where
  abbrev pub pure : {A : Type 0} → A → Cmd W A
  pure = ok

  abbrev pub and_then : {A B : Type 0} → Run W A → (A → Cmd W B) → Run W B
  and_then (ok a s) f = f a s
  and_then fault f = fault
  and_then out_of_fuel f = out_of_fuel

  infixl 5 ◌>>=◌ ◌>>◌
  abbrev pub ◌>>=◌ : {A B : Type 0} → Cmd W A → (A → Cmd W B) → Cmd W B
  m >>= f = λ s. and_then (m s) f

  abbrev pub ◌>>◌ : {B : Type 0} → Cmd W (Unit {0}) → Cmd W B → Cmd W B
  m >> n = m >>= λ _. n

  abbrev pub get : Cmd W (State W)
  get s = ok s s

  -- The test for NULL of an access through `p`.
  abbrev pub deref : Ptr → Cmd W (Unit {0})
  deref p s = if p == null then fault else ok tt s

  abbrev pub set_errno : ℕ → Cmd W (Unit {0})
  set_errno e s = ok tt (record s { errno = e })

  -- `p->start = x`, and the other fields
  unfoldable pub set_start : Ptr → Ptr → Cmd W (Unit {0})
  unfolding put
  set_start p x = deref p >> λ s. ok tt (record s { start = put s.start p x })

  unfoldable pub set_len : Ptr → ℕ → Cmd W (Unit {0})
  unfolding put
  set_len p x = deref p >> λ s. ok tt (record s { len = put s.len p x })

  unfoldable pub set_prev : Ptr → Ptr → Cmd W (Unit {0})
  unfolding put
  set_prev p x = deref p >> λ s. ok tt (record s { prev = put s.prev p x })

  unfoldable pub set_next : Ptr → Ptr → Cmd W (Unit {0})
  unfolding put
  set_next p x = deref p >> λ s. ok tt (record s { next = put s.next p x })

  -- `p->start`, and the other fields
  unfoldable pub get_start : Ptr → Cmd W Ptr
  get_start p = deref p >> λ s. ok (s.start p) s

  unfoldable pub get_len : Ptr → Cmd W ℕ
  get_len p = deref p >> λ s. ok (s.len p) s

  unfoldable pub get_prev : Ptr → Cmd W Ptr
  get_prev p = deref p >> λ s. ok (s.prev p) s

  unfoldable pub get_next : Ptr → Cmd W Ptr
  get_next p = deref p >> λ s. ok (s.next p) s
