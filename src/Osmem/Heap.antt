-- ===== src/Osmem/Heap.antt =====
-- A well-formed heap, and what `coalesce_free_blocks` and `find_best_block` do to it.
use operating_system_challen.Base.{ℕ, ◌<◌, ◌≡◌, sym, ◌∙◌, List, [], ◌∷◌, arith, All, length}
use operating_system_challen.Osmem.Memory.{Kernel, State}
use operating_system_challen.Osmem.Blocks.{Block, first, last, merge}
use operating_system_challen.Osmem.Blocks.Merge.{first-merge, last-merge}
use operating_system_challen.Osmem.Blocks.Layout.{
  Sized, Layout, Layout-merge, Covered, Covered-merge, Distinct-AllApart, live,
}
use operating_system_challen.Osmem.Chain.{Chain}
use operating_system_challen.Osmem.Returns
use operating_system_challen.Osmem.Returns.{Returns, returns}
use operating_system_challen.Osmem.Coalesce.{Readable, coalesce-merge}
use operating_system_challen.Osmem.Code.{coalesce_free_blocks}

-- The list pointers and the headers in memory form the list `bs`; its blocks are apart, and those
-- that are not mapped fill the heap segment from `start` to `stop`.
pub record IsHeap {W : Type 0} (k : Kernel W) (start stop : ℕ) (s : State W) (bs : List Block)
    : Type 0 where
  pub chain : Chain s.cell bs
  pub head : s.list_head ≡ first bs
  pub tail : s.list_tail ≡ last bs
  pub layout : Layout start stop bs
  pub owned : All (Covered (k.allocated s.world)) bs

readable :
    {W : Type 0} (k : Kernel W) (w : W) (bs : List Block)
    → All Sized bs
    → All (Covered (k.allocated w)) bs
    → All (Readable k w) bs
readable k w [] h p = tt
readable k w (b ∷ bs) h p =
    ((p.0 b.addr (omega arith) (omega arith), h.0.2), readable k w bs h.1 p.1)

module _ {W : Type 0} (k : Kernel W) {start stop : ℕ} where
  pub IsHeap-Readable :
      (s : State W) (bs : List Block) → IsHeap k start stop s bs → All (Readable k s.world) bs
  IsHeap-Readable s bs h = readable k s.world bs h.layout.sized h.owned

  -- On a well-formed heap with fuel for one round more than it has blocks, `coalesce_free_blocks`
  -- returns, the heap is the well-formed one in which each run of free blocks is one block, and the
  -- payload bytes, the kernel's state and the blocks in use, their sizes included, are unchanged.
  pub coalesce-IsHeap :
      (fuel : ℕ) (s : State W) (bs : List Block)
      → IsHeap k start stop s bs
      → length bs < fuel
      → Returns
          (λ _ t.
            IsHeap k start stop t (merge bs)
            × (t.byte ≡ s.byte)
            × (t.world ≡ s.world)
            × (live (merge bs) ≡ live bs))
          (coalesce_free_blocks k fuel s)
  coalesce-IsHeap fuel s bs h more =
      Returns.mono
        (coalesce-merge k fuel bs s h.chain h.head (Distinct-AllApart bs h.layout.apart)
          (IsHeap-Readable s bs h) more)
        λ _ t r. (
          record {
            chain = r.chain;
            head = r.rest.head ∙ h.head ∙ sym (first-merge bs);
            tail = r.tail ∙ last-merge s.list_tail bs h.tail;
            layout = (Layout-merge start stop bs h.layout).0;
            owned =
                rw r.rest.world
                  (Covered-merge (k.allocated s.world) start stop bs h.layout h.owned);
          },
          r.rest.bytes,
          r.rest.world,
          (Layout-merge start stop bs h.layout).1,
        )
