-- ===== src/Osmem/Preallocate.antt =====
-- `heap_preallocation` of mem-allocator/src/osmem.c: the heap segment grows by a free block.
use operating_system_challen.Base.{
  ℕ, ◌-◌, ◌≡◌, ◌≢◌, refl, sym, ◌∙◌, true, false, some, List, [], ◌∷◌, ◌++◌, ◌==◌, arith,
}
use operating_system_challen.Osmem.Memory.{
  null, map_failed, free, Kernel, State, edit, sbrk, modify, set_size, set_status, set_prev,
  set_next, meta_size, padding,
}
use operating_system_challen.Osmem.Blocks.{Block}
use operating_system_challen.Osmem.Returns.{Returns, returns}
use operating_system_challen.Osmem.Code.{mmap_threshold, heap_preallocation}
use operating_system_challen.Osmem.Append.{Chain-append, first-snoc, Appended, Ends, new_block}

abbrev pub preallocated : ℕ
preallocated = mmap_threshold - meta_size

module _ {W : Type 0} (k : Kernel W) where
  pub heap_preallocation-Served :
      (p : ℕ) (s : State W) (xs : List Block) (b : Block) (w : W)
      → Ends k s xs b p w
      → s.list_head ≢ null
      → b.addr ≢ null
      → k.sbrk mmap_threshold s.world ≡ (some p, w)
      → Returns
          (λ _ t.
            Appended k s (xs ++ b ∷ []) (new_block p preallocated free b.addr) w t
            × (t.byte ≡ s.byte))
          (heap_preallocation k s)
  unfolding heap_preallocation sbrk set_size set_status set_prev set_next modify edit padding
  heap_preallocation-Served p s xs b w h some_head some_tail grant =
      let valid' : (p == map_failed) ≡ false = let v : p ≢ map_failed = h.valid in ground arith in
      let d : p ≢ b.addr = h.apart in
      let e : (s.list_head == null) ≡ false = ground arith in
      let f : (b.addr == null) ≡ false = ground arith in
      simp (grant, valid', h.own, h.own_tail, h.tail, e, f)
        (returns (
          record {
            chain =
                Chain-append s.cell _ xs b p preallocated free h.chain h.avoids h.avoids_new
                  (ground arith) (ground arith) (λ a x y. ground arith);
            head = h.head ∙ sym (first-snoc xs b (new_block p preallocated free b.addr ∷ []));
            tail = refl;
            world = refl;
          },
          refl,
        ))

  pub heap_preallocation-first :
      (p : ℕ) (s : State W) (w : W)
      → s.list_head ≡ null
      → s.list_tail ≡ null
      → k.sbrk mmap_threshold s.world ≡ (some p, w)
      → p ≢ map_failed
      → k.allocated w p ≡ true
      → Returns
          (λ _ t. Appended k s [] (new_block p preallocated free null) w t × (t.byte ≡ s.byte))
          (heap_preallocation k s)
  unfolding heap_preallocation sbrk set_size set_status set_prev set_next modify edit padding
  heap_preallocation-first p s w no_head no_tail grant valid own =
      let valid' : (p == map_failed) ≡ false = ground arith in
      simp (grant, valid', own, no_head, no_tail)
        (returns
          (record { chain = (ground arith, tt); head = refl; tail = refl; world = refl }, refl))
