-- ===== src/Osmem/Realloc.antt =====
-- `os_realloc` of mem-allocator/src/osmem.c and what it alone uses.
use operating_system_challen.Base.{
  ℕ, zero, suc, ◌+◌, false, ◌&&◌, ◌==◌, ltb, leb, not, if◌then◌else◌,
}
use operating_system_challen.Base.Word.{add64, sub64}
use operating_system_challen.Osmem.Memory.{
  Ptr, null, map_failed, alloc, is_free, is_mapped, Kernel, Cmd, out_of_fuel, pure, ◌>>=◌, ◌>>◌,
  get, die_if, load, set_size, set_status, set_prev, set_next, meta_size, padding, sbrk, memcpy,
}
use operating_system_challen.Osmem.Code.{
  mmap_threshold, payload, header, find_best_block, coalesce_free_blocks, extend_last_block,
  split_block, os_malloc, os_free,
}

module _ {W : Type 0} (k : Kernel W) where
  unfoldable pub find_last_loop : ℕ → Ptr → Cmd W Ptr
  find_last_loop zero curr = λ _. out_of_fuel
  find_last_loop (suc fuel) curr = do
    m ← load k curr
    if is_mapped m.status
        then find_last_loop fuel m.prev
        else (if is_free m.status then pure curr else pure null)

  unfoldable pub find_last_brk_free : ℕ → Cmd W Ptr
  unfolding find_last_loop
  find_last_brk_free fuel = do
    s ← get
    if s.list_tail == null then pure null else find_last_loop fuel s.list_tail

  -- `new_ptr = os_malloc(size); memcpy(new_ptr, ptr, ...); os_free(ptr)`
  unfoldable pub move_block : ℕ → Ptr → ℕ → Cmd W Ptr
  move_block fuel ptr size = do
    new_ptr ← os_malloc k fuel size
    m ← load k (header ptr)
    memcpy k new_ptr ptr (if is_mapped m.status && not (ltb m.size size) then size else m.size)
    os_free k ptr
    pure new_ptr

  -- The rest of a block that is large enough, split off if it can hold 8 bytes.
  unfoldable pub shrink_block : Ptr → Ptr → ℕ → Cmd W Ptr
  shrink_block ptr current size_new_block = do
    m ← load k current
    if leb (meta_size + padding meta_size + 8) (sub64 m.size size_new_block)
        then split_block k current size_new_block
        else pure tt
    pure ptr

  unfoldable pub merge_next : Ptr → Cmd W (Unit {0})
  merge_next current = do
    m ← load k current
    n ← load k m.next
    if is_free n.status
        then (do
          set_size k current (add64 m.size (n.size + meta_size + padding meta_size))
          if n.next == null then pure tt else set_prev k n.next current
          set_next k current n.next)
        else pure tt

  -- The last branch of `os_realloc`: the block is too small, and not the last one.
  unfoldable pub relocate : ℕ → Ptr → ℕ → Cmd W Ptr
  relocate fuel ptr size = do
    let size_new_block = add64 size (padding size)
    best_block ← find_best_block k fuel size_new_block
    last_free ← find_last_brk_free fuel
    if not (last_free == null) && best_block == null
        then (do
          l ← load k last_free
          ret ← sbrk k (sub64 size_new_block l.size)
          die_if (ret == map_failed)
          set_size k last_free size_new_block
          set_status k last_free alloc
          m ← load k (header ptr)
          memcpy k (payload last_free) ptr m.size
          os_free k ptr
          pure (payload last_free))
        else move_block fuel ptr size

  -- The rest of `os_realloc` behind `coalesce_free_blocks`.
  unfoldable pub after_coalesce : ℕ → Ptr → ℕ → Cmd W Ptr
  after_coalesce fuel ptr size = do
    let size_new_block = add64 size (padding size)
    let current = header ptr
    m ← load k current
    s ← get
    if is_free m.status
        then pure null
        else if is_mapped m.status
        then move_block fuel ptr size
        else if current == s.list_tail
        then (if ltb m.size size_new_block
            then extend_last_block k size_new_block false
            else shrink_block ptr current size_new_block)
        else (do
          merge_next current
          m' ← load k current
          if leb size_new_block m'.size
              then shrink_block ptr current size_new_block
              else (if leb mmap_threshold size_new_block
                  then move_block fuel ptr size
                  else relocate fuel ptr size))

  unfoldable pub os_realloc : ℕ → Ptr → ℕ → Cmd W Ptr
  unfolding after_coalesce
  os_realloc fuel ptr size =
      if ptr == null
      then os_malloc k fuel size
      else if size == 0
      then (do os_free k ptr; pure null)
      else (do coalesce_free_blocks k fuel; after_coalesce fuel ptr size)
