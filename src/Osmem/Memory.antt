-- ===== src/Osmem/Memory.antt =====
-- What the functions of mem-allocator/src/osmem.c run on: block headers
-- (`struct block_meta` of mem-allocator/utils/block_meta.h), the two list pointers, the payload
-- bytes, and the kernel and C library calls, which are parameters.
use operating_system_challen.Base.{
  ℕ, zero, suc, ◌+◌, ◌%◌, ◌-◌, ◌^◌, ◌&&◌, ltb, Bool, true, false, Option, none, some, ◌==◌,
  if◌then◌else◌,
}

abbrev pub Ptr : Type 0
Ptr = ℕ

abbrev pub null : Ptr
null = 0

-- `(void *) -1`
abbrev pub map_failed : Ptr
map_failed = 2 ^ 64 - 1

-- STATUS_FREE, STATUS_ALLOC, STATUS_MAPPED
pub data Status : Type 0 where
  free alloc mapped : Status

abbrev pub is_free : Status → Bool
is_free free = true
is_free alloc = false
is_free mapped = false

abbrev pub is_alloc : Status → Bool
is_alloc free = false
is_alloc alloc = true
is_alloc mapped = false

abbrev pub is_mapped : Status → Bool
is_mapped free = false
is_mapped alloc = false
is_mapped mapped = true

pub record BlockMeta : Type 0 where
  pub size : ℕ
  pub status : Status
  pub prev : Ptr
  pub next : Ptr

abbrev pub block_meta : ℕ → Status → Ptr → Ptr → BlockMeta
block_meta n s p q = record { size = n; status = s; prev = p; next = q }

-- `sizeof(struct block_meta)`: a `size_t`, an `int` with its padding, and two pointers
abbrev pub meta_size : ℕ
meta_size = 32

unfoldable pub padding : ℕ → ℕ
padding size = if size % 8 == 0 then 0 else 8 - size % 8

abbrev pub Bytes : Type 0
Bytes = Ptr → ℕ

-- The kernel's state is `W`. `allocated w a` says that the address `a` belongs to the process: it
-- lies below the program break or in a live mapping. `memset` and `memcpy` say what bytes a call
-- leaves. `torn p n m a h` is what the header `h` at `a` reads once a write of the `n` bytes from `p`
-- on, which left the bytes `m`, has reached into it.
pub record Kernel (W : Type 0) : Type 0 where
  pub sbrk : ℕ → W → Option Ptr × W
  pub mmap : ℕ → W → Option Ptr × W
  pub munmap : Ptr → ℕ → W → Bool × W
  pub getpagesize : ℕ
  pub allocated : W → Ptr → Bool
  pub memset : Ptr → ℕ → ℕ → Bytes → Bytes
  pub memcpy : Ptr → Ptr → ℕ → Bytes → Bytes
  pub torn : Ptr → ℕ → Bytes → Ptr → BlockMeta → BlockMeta

pub record State (W : Type 0) : Type 0 where
  pub cell : Ptr → BlockMeta
  pub byte : Bytes
  pub list_head : Ptr
  pub list_tail : Ptr
  pub world : W

-- `fault` is an access to an address that the process does not own; `exit` is `DIE`.
pub data Run (W A : Type 0) : Type 0 where
  ok : A → State W → Run W A
  fault : Run W A
  exit : Run W A
  out_of_fuel : Run W A

abbrev pub Cmd : Type 0 → Type 0 → Type 0
Cmd W A = State W → Run W A

-- The process owns the `n` bytes from `p` on.
unfoldable pub all_allocated : (Ptr → Bool) → Ptr → ℕ → Bool
all_allocated allocated p zero = true
all_allocated allocated p (suc n) = allocated p && all_allocated allocated (suc p) n

-- The headers behind a write of the `n` bytes from `p` on, which left the bytes `m`.
unfoldable pub overlay :
    {W : Type 0} → Kernel W → Ptr → ℕ → Bytes → (Ptr → BlockMeta) → Ptr → BlockMeta
overlay k p n m h a =
    if ltb 0 n && ltb a (p + n) && ltb p (a + meta_size) then k.torn p n m a (h a) else h a

-- The headers with `f` applied to the one at `p`.
unfoldable pub edit : (Ptr → BlockMeta) → Ptr → (BlockMeta → BlockMeta) → Ptr → BlockMeta
edit h p f a = if a == p then f (h a) else h a

abbrev pub with_size : ℕ → BlockMeta → BlockMeta
with_size n m = record m { size = n }

abbrev pub with_status : Status → BlockMeta → BlockMeta
with_status t m = record m { status = t }

abbrev pub with_prev : Ptr → BlockMeta → BlockMeta
with_prev q m = record m { prev = q }

abbrev pub with_next : Ptr → BlockMeta → BlockMeta
with_next q m = record m { next = q }

module _ {W : Type 0} where
  abbrev pub pure : {A : Type 0} → A → Cmd W A
  pure = ok

  abbrev pub and_then : {A B : Type 0} → Run W A → (A → Cmd W B) → Run W B
  and_then (ok a s) f = f a s
  and_then fault f = fault
  and_then exit f = exit
  and_then out_of_fuel f = out_of_fuel

  infixl 5 ◌>>=◌ ◌>>◌
  abbrev pub ◌>>=◌ : {A B : Type 0} → Cmd W A → (A → Cmd W B) → Cmd W B
  m >>= f = λ s. and_then (m s) f

  abbrev pub ◌>>◌ : {B : Type 0} → Cmd W (Unit {0}) → Cmd W B → Cmd W B
  m >> n = m >>= λ _. n

  abbrev pub get : Cmd W (State W)
  get s = ok s s

  abbrev pub die_if : Bool → Cmd W (Unit {0})
  die_if true s = exit
  die_if false s = ok tt s

  abbrev pub set_head : Ptr → Cmd W (Unit {0})
  set_head p s = ok tt (record s { list_head = p })

  abbrev pub set_tail : Ptr → Cmd W (Unit {0})
  set_tail p s = ok tt (record s { list_tail = p })

-- The result of a failed `sbrk` or `mmap` is `(void *) -1`.
abbrev pub answer : Option Ptr → Ptr
answer none = map_failed
answer (some p) = p

module _ {W : Type 0} (k : Kernel W) where
  -- `*p`
  unfoldable pub load : Ptr → Cmd W BlockMeta
  load p s = if k.allocated s.world p then ok (s.cell p) s else fault

  -- A write to some of the fields of `*p`.
  unfoldable pub modify : Ptr → (BlockMeta → BlockMeta) → Cmd W (Unit {0})
  modify p f s =
      if k.allocated s.world p then ok tt (record s { cell = edit s.cell p f }) else fault

  -- `p->size = n` and its kin
  unfoldable pub set_size : Ptr → ℕ → Cmd W (Unit {0})
  set_size p n = modify p (with_size n)

  unfoldable pub set_status : Ptr → Status → Cmd W (Unit {0})
  set_status p t = modify p (with_status t)

  unfoldable pub set_prev : Ptr → Ptr → Cmd W (Unit {0})
  set_prev p q = modify p (with_prev q)

  unfoldable pub set_next : Ptr → Ptr → Cmd W (Unit {0})
  set_next p q = modify p (with_next q)

  unfoldable pub sbrk : ℕ → Cmd W Ptr
  sbrk n s = let (p, w) = k.sbrk n s.world in ok (answer p) (record s { world = w })

  unfoldable pub mmap : ℕ → Cmd W Ptr
  mmap n s = let (p, w) = k.mmap n s.world in ok (answer p) (record s { world = w })

  -- true if the call succeeded
  unfoldable pub munmap : Ptr → ℕ → Cmd W Bool
  munmap p n s = let (b, w) = k.munmap p n s.world in ok b (record s { world = w })

  -- The state behind a write of the `n` bytes from `p` on, which left the bytes `m`.
  abbrev pub write_bytes : Ptr → ℕ → Bytes → State W → State W
  write_bytes p n m s = record s { byte = m; cell = overlay k p n m s.cell }

  unfoldable pub memset : Ptr → ℕ → ℕ → Cmd W (Unit {0})
  memset p v n s =
      if all_allocated (k.allocated s.world) p n
      then ok tt (write_bytes p n (k.memset p v n s.byte) s)
      else fault

  unfoldable pub memcpy : Ptr → Ptr → ℕ → Cmd W (Unit {0})
  memcpy p q n s =
      if all_allocated (k.allocated s.world) q n && all_allocated (k.allocated s.world) p n
      then ok tt (write_bytes p n (k.memcpy p q n s.byte) s)
      else fault
