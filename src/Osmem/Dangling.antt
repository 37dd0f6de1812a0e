-- ===== src/Osmem/Dangling.antt =====
-- `os_free` of the only block of the list, where that block is mapped, leaves `list_tail` pointing
-- to memory that is unmapped; the next `os_malloc` below the threshold writes there.
use operating_system_challen.Base.{
  ℕ, suc, ◌+◌, ◌<◌, ◌≡◌, ◌≢◌, refl, sym, ap, ◌∙◌, true, false, some, [], ◌∷◌, ◌==◌, ltb, arith,
}
use operating_system_challen.Base.Word.{add64, add64-eq-add}
use operating_system_challen.Osmem.Memory.{
  Ptr, null, map_failed, mapped, Kernel, State, ok, fault, modify, meta_size, padding, ◌>>◌,
  set_size, set_status, set_prev, set_next, load, sbrk, munmap,
}
use operating_system_challen.Osmem.Blocks.{Block}
use operating_system_challen.Osmem.Chain.{load-ok}
use operating_system_challen.Osmem.Heap.{IsHeap, IsHeap-Readable}
use operating_system_challen.Osmem.Free.{header-payload}
use operating_system_challen.Osmem.Code.{
  payload, heap_preallocation, coalesce_free_blocks, check_prealloc, take_block, os_malloc, os_free,
  mmap_threshold,
}

module _ {W : Type 0} (k : Kernel W) where
  abbrev emptied : State W → W → State W
  emptied s w = record s { list_head = null; world = w }

  os_free_only :
      {start stop : ℕ} (s : State W) (m : Block) (w : W)
      → IsHeap k start stop s (m ∷ [])
      → m.status ≡ mapped
      → k.munmap m.addr (add64 m.size (meta_size + padding meta_size)) s.world ≡ (true, w)
      → os_free k (payload m.addr) s ≡ ok tt (emptied s w)
  unfolding os_free munmap
  os_free_only s m w h e done =
      let own = (IsHeap-Readable k s (m ∷ []) h).0 in
      let (here, ne) = header-payload m.addr (omega (arith, h.layout.sized.0)) in
      let not_null : (payload m.addr == null) ≡ false = ground arith in
      let at_head : (m.addr == s.list_head) ≡ true = ground (arith, h.head) in
      rw (not_null, here, load-ok k s own.0, h.chain.0, e, at_head, done) refl

  os_malloc_dangling :
      (fuel size : ℕ) (s : State W) (p : Ptr) (w : W)
      → s.list_head ≡ null
      → s.list_tail ≢ null
      → size ≢ 0
      → size + 32 < mmap_threshold
      → k.sbrk mmap_threshold s.world ≡ (some p, w)
      → p ≢ map_failed
      → k.allocated w p ≡ true
      → k.allocated w s.list_tail ≡ false
      → os_malloc k (suc fuel) size s ≡ fault
  unfolding os_malloc coalesce_free_blocks take_block check_prealloc heap_preallocation set_size
      set_status set_prev set_next sbrk load modify
  os_malloc_dangling fuel size s p w head tail nonzero small grant valid own gone =
      let some_bytes : (size == 0) ≡ false = ground arith in
      let below : ltb (add64 size meta_size) mmap_threshold ≡ true =
        ground (arith, add64-eq-add size meta_size) in
      let dangling : (s.list_tail == null) ≡ false = ground arith in
      let granted : (p == map_failed) ≡ false = ground arith in
      simp (some_bytes, head, below, grant, granted, own, dangling, gone)

  -- Where the list holds one mapped block and no other, `os_free` of it, if the unmapping takes its
  -- header away, and then `os_malloc` of a size that is not 0 and below the threshold, if `sbrk`
  -- grants the heap and does not give that address back, end in an access to memory that the
  -- process does not own.
  pub os_malloc-os_free-fault :
      {start stop : ℕ} (fuel size : ℕ) (s : State W) (m : Block) (p : Ptr) (w w' : W)
      → IsHeap k start stop s (m ∷ [])
      → m.status ≡ mapped
      → k.munmap m.addr (add64 m.size (meta_size + padding meta_size)) s.world ≡ (true, w)
      → size ≢ 0
      → size + 32 < mmap_threshold
      → k.sbrk mmap_threshold w ≡ (some p, w')
      → p ≢ map_failed
      → k.allocated w' p ≡ true
      → k.allocated w' m.addr ≡ false
      → (os_free k (payload m.addr) >> os_malloc k (suc fuel) size) s ≡ fault
  os_malloc-os_free-fault fuel size s m p w w' h e done nonzero small grant valid own gone =
      let tail : s.list_tail ≡ m.addr = h.tail in
      rw (os_free_only s m w h e done) (
        os_malloc_dangling fuel size (emptied s w) p w' refl
          (λ q. h.layout.sized.0.2 (sym tail ∙ q)) nonzero small grant valid own
          (ap (k.allocated w') tail ∙ gone))
