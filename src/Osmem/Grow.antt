-- ===== src/Osmem/Grow.antt =====
-- `grow_heap`, the part of `os_malloc` and `os_calloc` of mem-allocator/src/osmem.c behind a search
-- that found no block: the last block grows, or a new one is put behind it.
use operating_system_challen.Base.{
  ℕ, ◌+◌, ◌-◌, ◌%◌, ◌^◌, ◌≤◌, ◌<◌, ◌≡◌, refl, sym, subst, ap, ◌∙◌, Bool, true, false, List, [], ◌∷◌,
  ◌++◌, ◌⊎◌, inl, inr, arith, All-split,
}
use mathlib.Core.List.{append-nil}
use operating_system_challen.Base.Word.{add64, add64-eq-add}
use operating_system_challen.Osmem.Memory.{
  Ptr, null, Status, free, alloc, mapped, is_free, is_mapped, block_meta, ok, load, padding,
  meta_size, Kernel, State,
}
use operating_system_challen.Osmem.Blocks.{Block, end_of}
use operating_system_challen.Osmem.Blocks.Layout.{Covered, live}
use operating_system_challen.Osmem.Blocks.Middle.{last_or-append}
use operating_system_challen.Osmem.Chain.{ChainTo-split, load-ok}
use operating_system_challen.Osmem.Returns
use operating_system_challen.Osmem.Returns.{Returns}
use operating_system_challen.Osmem.Heap.{IsHeap}
use operating_system_challen.Osmem.Unix.{Unix}
use operating_system_challen.Osmem.Append.{new_block, add_new_block-Served}
use operating_system_challen.Osmem.Extend.{extended, extend_last_block-Extended, Tiles-last}
use operating_system_challen.Osmem.Obtained.{
  Obtained, Served-world, Ends-IsHeap, Served-Obtained, live-snoc, live-snoc_free,
}
use operating_system_challen.Osmem.Clear.{zeroed, reachable-true, wiped_block}
use operating_system_challen.Osmem.Code.{add_new_block, extend_last_block, grow_heap}

free_or_used : (t : Status) → (t ≡ free) ⊎ (is_free t ≡ false)
free_or_used free = inl refl
free_or_used alloc = inr refl
free_or_used mapped = inr refl

-- One block more is in use, on a heap whose segment ends at the program break.
abbrev pub AtBrk :
    {W : Type 0} {k : Kernel W} {limit : ℕ} (u : Unix k limit) (start : ℕ) (is_calloc : Bool)
    (size : ℕ) (s : State W) (bs : List Block)
    → Ptr
    → State W
    → Type 0
AtBrk {k} u start is_calloc size s bs p t =
    Obtained k start (u.brk t.world) is_calloc 0 size s bs p t

module _ {W : Type 0} (k : Kernel W) {start limit : ℕ} (u : Unix k limit) where
  pub Obtained-AtBrk :
      {stop : ℕ} (is_calloc : Bool) (size : ℕ) (s : State W) (bs : List Block) (p : Ptr)
      (t : State W)
      → u.brk t.world ≡ stop
      → Obtained k start stop is_calloc 0 size s bs p t
      → AtBrk u start is_calloc size s bs p t
  Obtained-AtBrk is_calloc size s bs p t e o =
      subst (λ x. Obtained k start x is_calloc 0 size s bs p t) (sym e) o

  module _ (is_calloc : Bool) (size n : ℕ) (s : State W) (xs : List Block) (b : Block)
      (h : IsHeap k start (u.brk s.world) s (xs ++ b ∷ [])) (even : n % 8 ≡ 0) (enough : size ≤ n)
      (space : u.brk s.world + n + 32 ≤ limit) where
    extend_last_block-AtBrk :
        b.status ≡ free
        → b.size < n
        → Returns
            (AtBrk u start is_calloc size s (xs ++ b ∷ []))
            (extend_last_block k n is_calloc s)
    extend_last_block-AtBrk is more =
        let (w, grant, g, brk) = u.grows (n - b.size) s.world (omega arith) in
        let at : end_of b ≡ u.brk s.world =
          (Tiles-last start (u.brk s.world) xs b (ap is_mapped is) h.layout.tiles).0 in
        Returns.mono
          (extend_last_block-Extended k is_calloc n s xs b w h (ap is_mapped is) even more g grant)
          λ p t r.
            Obtained-AtBrk is_calloc size s (xs ++ b ∷ []) p t (ap u.brk r.world ∙ omega arith)
              (record {
                blocks = xs ++ extended b n ∷ [];
                heap = r.heap;
                addr = b.addr;
                room = n;
                status = alloc;
                result = r.result;
                enough = enough;
                used = refl;
                bytes = r.bytes ∙ ap (λ m. zeroed k is_calloc b.addr m s.byte) (omega arith);
                before = live xs;
                after = [];
                was = live-snoc_free xs b (ap is_free is) ∙ sym (append-nil (live xs));
                now = live-snoc xs (extended b n) refl;
              })

    add_new_block-AtBrk :
        Returns (AtBrk u start is_calloc size s (xs ++ b ∷ [])) (add_new_block k n is_calloc s)
    unfolding padding
    add_new_block-AtBrk =
        let (w, grant, g, brk) = u.grows (32 + n) s.world (omega arith) in
        let low : u.brk s.world + (32 + n) ≤ 2 ^ 62 = g.low in
        let sum : add64 n (meta_size + padding meta_size) ≡ 32 + n =
          add64-eq-add n 32 (omega arith) ∙ omega arith in
        let c = new_block (u.brk s.world) n alloc b.addr in
        Returns.mono
          (add_new_block-Served k is_calloc n (u.brk s.world) s xs b w
            (Ends-IsHeap k s xs b (u.brk s.world) (32 + n) w h (omega arith) g) (rw sum grant)
            (reachable-true k is_calloc (u.brk s.world) n w (omega arith)
              (λ a l m. g.owned a (omega arith) (omega arith))))
          λ p t r.
            Obtained-AtBrk is_calloc size s (xs ++ b ∷ []) p t
              (ap u.brk (Served-world k is_calloc n s (xs ++ b ∷ []) c w p t r) ∙ omega arith)
              (Served-Obtained k is_calloc 0 size n s (xs ++ b ∷ []) c w h g even refl (inr refl)
                enough (omega arith)
                (λ t' h'. (wiped_block k is_calloc n t' (xs ++ b ∷ []) c [] (omega arith) h').1) p t
                r)

    pub grow_heap-AtBrk :
        (b.status ≡ free → b.size < n)
        → Returns (AtBrk u start is_calloc size s (xs ++ b ∷ [])) (grow_heap k n is_calloc s)
    unfolding grow_heap
    grow_heap-AtBrk more =
        let (_, back) = ChainTo-split s.cell null xs (b ∷ []) h.chain in
        let own : k.allocated s.world b.addr ≡ true =
          (All-split (Covered (k.allocated s.world)) xs (b ∷ []) h.owned).1.0 b.addr (omega arith)
            (omega arith) in
        let tail : s.list_tail ≡ b.addr = h.tail ∙ last_or-append null xs b [] in
        let status : load k s.list_tail s ≡ ok (block_meta b.size b.status b.prev null) s =
          ap (λ a. load k a s) tail ∙ load-ok k s own ∙ ap (λ m. ok m s) back.0 in
        rw status (elim (free_or_used b.status) [
          | inl is ↦ rw (ap is_free is) (extend_last_block-AtBrk is (more is))
          | inr e ↦ rw e add_new_block-AtBrk
        ])
