-- ===== src/Osmem/Ready.antt =====
-- The first step of `os_malloc` and `os_calloc` of mem-allocator/src/osmem.c below their thresholds:
-- `checkPrealloc`, and `heap_preallocation` where every block is mapped.
use operating_system_challen.Base.{
  ℕ, ◌+◌, ◌^◌, ◌≤◌, ◌≡◌, ◌≢◌, refl, sym, subst, ap, ◌∙◌, false, List, [], ◌∷◌, ◌++◌, ◌==◌, inl, inr,
  arith, All-split, length, length-append, Bool-cases, if◌then◌else◌,
}
use operating_system_challen.Osmem.Memory.{Ptr, null, free, pure, Kernel, State}
use operating_system_challen.Osmem.Blocks.{Block, end_of}
use operating_system_challen.Osmem.Blocks.Layout.{Sized, live}
use operating_system_challen.Osmem.Returns
use operating_system_challen.Osmem.Returns.{Returns, returns}
use operating_system_challen.Osmem.Heap.{IsHeap}
use operating_system_challen.Osmem.Malloc.{all_mapped, not_all_mapped}
use operating_system_challen.Osmem.Unix.{Grants, Unix}
use operating_system_challen.Osmem.Append.{
  LastView, empty, snoc, snoc_view, new_block, Appended, Appended-IsHeap,
}
use operating_system_challen.Osmem.Preallocate.{
  preallocated, heap_preallocation-Served, heap_preallocation-first,
}
use operating_system_challen.Osmem.Obtained.{Ends-IsHeap, head_not_null, live-snoc_free}
use operating_system_challen.Osmem.Code.{mmap_threshold, heap_preallocation}

-- A heap on which the search for a block starts.
pub record Ready {W : Type 0} (k : Kernel W) {limit : ℕ} (u : Unix k limit) (start : ℕ)
    (s : State W) (bs : List Block) (t : State W) : Type 0 where
  pub blocks : List Block
  pub heap : IsHeap k start (u.brk t.world) t blocks
  pub some_heap : all_mapped blocks ≡ false
  pub bytes : t.byte ≡ s.byte
  pub same : live blocks ≡ live bs
  pub count : length blocks ≤ length bs + 1
  pub brk : u.brk t.world ≤ u.brk s.world + mmap_threshold

pub eq-null : (p : Ptr) → p ≢ null → (p == null) ≡ false
eq-null p h = ground arith

module _ {W : Type 0} (k : Kernel W) {start limit : ℕ} (u : Unix k limit) where
  preallocated-Ready :
      (s : State W) (bs : List Block) (w : W) (prev : Ptr)
      → IsHeap k start (u.brk s.world) s bs
      → Grants k (u.brk s.world) mmap_threshold s.world w
      → u.brk w ≡ u.brk s.world + mmap_threshold
      → (t : State W) → Appended k s bs (new_block (u.brk s.world) preallocated free prev) w t
      → t.byte ≡ s.byte
      → Ready k u start s bs t
  preallocated-Ready s bs w prev h g brk t a bytes =
      let c = new_block (u.brk s.world) preallocated free prev in
      let end : u.brk t.world ≡ end_of c = ap u.brk a.world ∙ omega arith in
      record {
        blocks = bs ++ c ∷ [];
        heap =
            subst (λ x. IsHeap k start x t (bs ++ c ∷ [])) (sym end)
              (Appended-IsHeap k s bs c w t h a g refl (inr refl));
        some_heap = not_all_mapped bs c [] refl;
        bytes = bytes;
        same = live-snoc_free bs c refl;
        count = omega (arith, length-append bs (c ∷ []));
        brk = omega arith;
      }

  heap_preallocation-Ready :
      (s : State W) {bs : List Block}
      → LastView bs
      → IsHeap k start (u.brk s.world) s bs
      → u.brk s.world + mmap_threshold ≤ limit
      → Returns (λ _ t. Ready k u start s bs t) (heap_preallocation k s)
  heap_preallocation-Ready s empty h space =
      let (w, grant, g, brk) = u.grows mmap_threshold s.world space in
      let low : u.brk s.world + mmap_threshold ≤ 2 ^ 62 = g.low in
      Returns.mono
        (heap_preallocation-first k (u.brk s.world) s w h.head h.tail grant (omega arith)
          (g.owned (u.brk s.world) (omega arith) (omega arith)))
        (λ _ t (a, bytes). preallocated-Ready s [] w null h g brk t a bytes)
  heap_preallocation-Ready s (snoc xs b) h space =
      let (w, grant, g, brk) = u.grows mmap_threshold s.world space in
      Returns.mono
        (heap_preallocation-Served k (u.brk s.world) s xs b w
          (Ends-IsHeap k s xs b (u.brk s.world) mmap_threshold w h (omega arith) g)
          (head_not_null k s xs b h) (All-split Sized xs (b ∷ []) h.layout.sized).1.0.2 grant)
        (λ _ t (a, bytes). preallocated-Ready s (xs ++ b ∷ []) w b.addr h g brk t a bytes)

  pub prepare-Ready :
      (s : State W) (bs : List Block)
      → IsHeap k start (u.brk s.world) s bs
      → u.brk s.world + mmap_threshold ≤ limit
      → Returns
          (λ _ t. Ready k u start s bs t)
          ((if all_mapped bs then heap_preallocation k else pure tt) s)
  prepare-Ready s bs h space = elim (Bool-cases (all_mapped bs)) [
    | inl e ↦ rw e (heap_preallocation-Ready s (snoc_view bs) h space)
    | inr e ↦ rw e (
        returns (record {
          blocks = bs;
          heap = h;
          some_heap = e;
          bytes = refl;
          same = refl;
          count = omega arith;
          brk = omega arith;
        }))
  ]
