-- ===== src/Osmem/Code.antt =====
-- The functions of mem-allocator/src/osmem.c. `fuel` bounds the walks over the block list: a list
-- of n blocks needs n + 1 rounds.
use operating_system_challen.Base.{
  ℕ, zero, suc, ◌+◌, ◌-◌, ◌*◌, Bool, true, false, ◌&&◌, ◌==◌, ltb, leb, not, if◌then◌else◌,
}
use operating_system_challen.Base.Word.{add64, sub64, mul64}
use operating_system_challen.Osmem.Memory.{
  Ptr, null, map_failed, free, alloc, mapped, is_free, is_alloc, is_mapped, Kernel, Cmd,
  out_of_fuel, pure, ◌>>=◌, ◌>>◌, get, die_if, set_head, set_tail, load, set_size, set_status,
  set_prev, set_next, meta_size, padding, sbrk, mmap, munmap, memset,
}

abbrev pub mmap_threshold : ℕ
mmap_threshold = 128 * 1024

abbrev pub n_max : ℕ
n_max = 2147483647

-- `(void *)block + META_SIZE + padding(META_SIZE)`, and back
unfoldable pub payload : Ptr → Ptr
unfolding padding add64
payload p = add64 p (meta_size + padding meta_size)

unfoldable pub header : Ptr → Ptr
unfolding padding sub64
header ptr = sub64 ptr (meta_size + padding meta_size)

module _ {W : Type 0} (k : Kernel W) where
  unfoldable pub heap_preallocation : Cmd W (Unit {0})
  heap_preallocation = do
    new_block ← sbrk k mmap_threshold
    set_size k new_block (mmap_threshold - meta_size - padding meta_size)
    die_if (new_block == map_failed)
    set_status k new_block free
    set_next k new_block null
    set_prev k new_block null
    s ← get
    if s.list_head == null then set_head new_block else pure tt
    if s.list_tail == null
        then pure tt
        else (do set_next k s.list_tail new_block; set_prev k new_block s.list_tail)
    set_tail new_block

  unfoldable pub find_best_loop : ℕ → ℕ → (current best_block : Ptr) → ℕ → Cmd W Ptr
  find_best_loop zero size current best_block best_size = λ _. out_of_fuel
  find_best_loop (suc fuel) size current best_block best_size =
      if current == null then pure best_block else do
        m ← load k current
        if is_free m.status && leb size m.size && ltb (m.size - size) best_size
            then find_best_loop fuel size m.next current (m.size - size)
            else find_best_loop fuel size m.next best_block best_size

  unfoldable pub find_best_block : ℕ → ℕ → Cmd W Ptr
  unfolding find_best_loop
  find_best_block fuel size = do s ← get; find_best_loop fuel size s.list_head null n_max

  -- the inner loop of `coalesce_free_blocks`
  unfoldable pub absorb : ℕ → Ptr → Cmd W (Unit {0})
  absorb zero current = λ _. out_of_fuel
  absorb (suc fuel) current = do
    m ← load k current
    if m.next == null then pure tt else do
      n ← load k m.next
      if is_free n.status
          then (do
            set_size k current (add64 m.size (n.size + meta_size + padding meta_size))
            set_next k current n.next
            absorb fuel current)
          else pure tt

  unfoldable pub coalesce_loop : ℕ → Ptr → Cmd W (Unit {0})
  coalesce_loop zero current = λ _. out_of_fuel
  coalesce_loop (suc fuel) current = if current == null then pure tt else do
    m ← load k current
    if is_free m.status then absorb fuel current else pure tt
    m' ← load k current
    if m'.next == null then set_tail current else pure tt
    coalesce_loop fuel m'.next

  unfoldable pub coalesce_free_blocks : ℕ → Cmd W (Unit {0})
  unfolding coalesce_loop
  coalesce_free_blocks fuel = do s ← get; coalesce_loop fuel s.list_head

  -- `if (is_calloc) memset(...)`
  unfoldable pub zero_payload : Bool → Ptr → ℕ → Cmd W (Unit {0})
  zero_payload true block n = memset k (payload block) 0 n
  zero_payload false block n = pure tt

  unfoldable pub extend_last_block : ℕ → Bool → Cmd W Ptr
  extend_last_block size_new_block is_calloc = do
    s ← get
    tail ← load k s.list_tail
    ret ← sbrk k (sub64 size_new_block tail.size)
    die_if (ret == map_failed)
    set_size k s.list_tail size_new_block
    set_status k s.list_tail alloc
    zero_payload is_calloc s.list_tail size_new_block
    pure (payload s.list_tail)

  unfoldable pub add_new_block : ℕ → Bool → Cmd W Ptr
  add_new_block size_new_block is_calloc = do
    new_block ← sbrk k (add64 size_new_block (meta_size + padding meta_size))
    die_if (new_block == map_failed)
    set_size k new_block size_new_block
    set_status k new_block alloc
    s ← get
    set_next k new_block null
    set_prev k new_block s.list_tail
    set_next k s.list_tail new_block
    set_tail new_block
    zero_payload is_calloc new_block size_new_block
    pure (payload new_block)

  unfoldable pub split_block : Ptr → ℕ → Cmd W (Unit {0})
  split_block best_block size_best_block = do
    m ← load k best_block
    let new_block = add64 (add64 best_block size_best_block) (meta_size + padding meta_size)
    set_status k new_block free
    set_size k new_block (sub64 (sub64 m.size size_best_block) (meta_size + padding meta_size))
    set_next k new_block m.next
    if m.next == null then set_tail new_block else set_prev k m.next new_block
    set_next k best_block new_block
    set_prev k new_block best_block
    set_size k best_block size_best_block

  unfoldable pub memory_mapping : ℕ → Bool → Cmd W Ptr
  memory_mapping size is_calloc = do
    let total_size = add64 (add64 (meta_size + padding meta_size) size) (padding size)
    new_block ← mmap k total_size
    die_if (new_block == map_failed)
    set_size k new_block (add64 size (padding size))
    set_status k new_block mapped
    set_next k new_block null
    s ← get
    set_prev k new_block s.list_tail
    if s.list_head == null
        then (do set_head new_block; set_tail new_block)
        else (do set_next k s.list_tail new_block; set_tail new_block)
    zero_payload is_calloc new_block total_size
    pure (payload new_block)

  -- true if every block of the list is mapped
  unfoldable pub check_prealloc_loop : ℕ → Ptr → Cmd W Bool
  check_prealloc_loop zero curr = λ _. out_of_fuel
  check_prealloc_loop (suc fuel) curr = if curr == null then pure true else do
    m ← load k curr
    if is_mapped m.status then check_prealloc_loop fuel m.next else pure false

  unfoldable pub check_prealloc : ℕ → Cmd W Bool
  unfolding check_prealloc_loop
  check_prealloc fuel = do s ← get; check_prealloc_loop fuel s.list_head

  -- The part of `os_malloc` and of `os_calloc` behind `find_best_block` that uses the block found.
  unfoldable pub use_best : Ptr → ℕ → Bool → Cmd W Ptr
  use_best best_block size_new_block is_calloc = do
    m ← load k best_block
    set_status k best_block alloc
    if size_new_block == m.size
        then pure tt
        else (if ltb (meta_size + padding meta_size) (sub64 m.size size_new_block)
            then split_block best_block size_new_block
            else pure tt)
    m' ← load k best_block
    zero_payload is_calloc best_block m'.size
    pure (payload best_block)

  -- ... and the part where there is none.
  unfoldable pub grow_heap : ℕ → Bool → Cmd W Ptr
  grow_heap size_new_block is_calloc = do
    s ← get
    tail ← load k s.list_tail
    if is_free tail.status
        then extend_last_block size_new_block is_calloc
        else add_new_block size_new_block is_calloc

  -- The branch below the threshold, which `os_malloc` and `os_calloc` share.
  unfoldable pub take_block : ℕ → ℕ → Bool → Cmd W Ptr
  take_block fuel size is_calloc = do
    all_mapped ← check_prealloc fuel
    if all_mapped then heap_preallocation else pure tt
    let size_new_block = add64 size (padding size)
    best_block ← find_best_block fuel size_new_block
    if best_block == null
        then grow_heap size_new_block is_calloc
        else use_best best_block size_new_block is_calloc

  unfoldable pub os_malloc : ℕ → ℕ → Cmd W Ptr
  os_malloc fuel size = if size == 0 then pure null else do
    coalesce_free_blocks fuel
    if ltb (add64 size meta_size) mmap_threshold
        then take_block fuel size false
        else memory_mapping size false

  unfoldable pub os_free : Ptr → Cmd W (Unit {0})
  os_free ptr = if ptr == null then pure tt else do
    let current = header ptr
    m ← load k current
    if is_alloc m.status
        then set_status k current free
        else if is_mapped m.status
        then (do
          s ← get
          if current == s.list_head
              then (do set_head m.next; if m.next == null then pure tt else set_prev k m.next null)
              else (if current == s.list_tail
                  then (do
                    set_tail m.prev
                    if m.prev == null then pure tt else set_next k m.prev null)
                  else (do
                    set_prev k m.next m.prev
                    m' ← load k current
                    set_next k m'.prev m'.next))
          done ← munmap k current (add64 m.size (meta_size + padding meta_size))
          die_if (not done))
        else pure tt

  unfoldable pub os_calloc : ℕ → ℕ → ℕ → Cmd W Ptr
  os_calloc fuel nmemb size =
      let size = mul64 size nmemb in
      if size == 0 then pure null else do
        coalesce_free_blocks fuel
        if ltb (add64 size meta_size) k.getpagesize
            then take_block fuel size true
            else memory_mapping size true
