-- ===== src/Osmem/Resize.antt =====
-- `os_realloc` of mem-allocator/src/osmem.c on the last block of the heap segment.
use operating_system_challen.Base.{
  ℕ, ◌+◌, ◌-◌, ◌^◌, ◌<◌, ◌≤◌, ◌≡◌, ◌≢◌, refl, sym, ap, subst, ◌∙◌, true, false, List, [], ◌∷◌, ◌++◌,
  ◌==◌, ◌&&◌, ltb, inl, inr, arith, length, All-split, Bool-cases,
}
use operating_system_challen.Osmem.Memory.{
  Ptr, null, alloc, Status, is_free, is_mapped, block_meta, Kernel, State,
}
use operating_system_challen.Osmem.Blocks.{Block, end_of, grow, merge, merge_from}
use operating_system_challen.Osmem.Blocks.Layout.{Sized, live}
use operating_system_challen.Osmem.Blocks.Middle.{last_or-append}
use operating_system_challen.Osmem.Chain.{ChainTo-split, load-ok}
use operating_system_challen.Osmem.Coalesce.{Readable}
use operating_system_challen.Osmem.Returns
use operating_system_challen.Osmem.Returns.{Returns}
use operating_system_challen.Osmem.Heap.{IsHeap, IsHeap-Readable, coalesce-IsHeap}
use operating_system_challen.Osmem.Free.{header-payload}
use operating_system_challen.Osmem.Malloc.{aligned, aligned_bounds}
use operating_system_challen.Osmem.Unix.{Unix}
use operating_system_challen.Osmem.Extend.{extended, extend_last_block-Extended, Tiles-last}
use operating_system_challen.Osmem.Obtained.{live-snoc}
use operating_system_challen.Osmem.Code.{payload}
use operating_system_challen.Osmem.Realloc.{after_coalesce, os_realloc}

merge_from-last :
    (c : Block) (xs : List Block) (b : Block)
    → is_free b.status ≡ false
    → (ys : List Block) × (merge_from c (xs ++ b ∷ []) ≡ ys ++ b ∷ [])
unfolding merge_from
merge_from-last c [] b e = (
  c ∷ [],
  elim (Bool-cases (is_free c.status)) [
    | inl f ↦ rw (merge_from, f, e) refl
    | inr f ↦ rw (merge_from, f) refl
  ],
)
merge_from-last c (d ∷ ds) b e = elim (Bool-cases (is_free c.status && is_free d.status)) [
  | inl f ↦ let (ys, p) = merge_from-last (grow c d) ds b e in (ys, rw (merge_from, f) p)
  | inr f ↦
      let (ys, p) = merge_from-last d ds b e in (c ∷ ys, rw (merge_from, f) (ap (λ l. c ∷ l) p))
]

-- Coalescing leaves a last block that is in use.
merge-last :
    (xs : List Block) (b : Block)
    → is_free b.status ≡ false
    → (ys : List Block) × (merge (xs ++ b ∷ []) ≡ ys ++ b ∷ [])
unfolding merge merge_from
merge-last [] b e = ([], refl)
merge-last (x ∷ xs) b e = merge_from-last x xs b e

equal_addr : (p q : Ptr) → p ≡ q → (p == q) ≡ true
equal_addr p q e = ground arith

less_lem : (m n : ℕ) → m < n → ltb m n ≡ true
less_lem m n l = ground arith

-- The last block `b` stays where it is and now has `n` bytes; the other blocks in use and all
-- payload bytes are as they were.
pub record Resized {W : Type 0} (k : Kernel W) (start stop : ℕ) (s : State W) (bs : List Block)
    (b : Block) (n : ℕ) (p : Ptr) (t : State W) : Type 0 where
  pub result : p ≡ payload b.addr
  pub blocks : List Block
  pub heap : IsHeap k start stop t blocks
  pub bytes : t.byte ≡ s.byte
  pub before : List (Ptr × ℕ × Status)
  pub was : live bs ≡ before ++ (b.addr, b.size, b.status) ∷ []
  pub now : live blocks ≡ before ++ (b.addr, n, alloc) ∷ []

module _ {W : Type 0} (k : Kernel W) {start limit : ℕ} (u : Unix k limit) where
  grown_at :
      (fuel size : ℕ) (s : State W) (xs : List Block) (b : Block)
      → IsHeap k start (u.brk s.world) s (xs ++ b ∷ [])
      → b.status ≡ alloc
      → size < 2 ^ 62
      → b.size < aligned size
      → u.brk s.world + aligned size ≤ limit
      → Returns
          (λ p t. Resized k start (u.brk t.world) s (xs ++ b ∷ []) b (aligned size) p t)
          (after_coalesce k fuel (payload b.addr) size s)
  unfolding after_coalesce aligned
  grown_at fuel size s xs b h used small more space =
      let (w, grant, g, brk) = u.grows (aligned size - b.size) s.world (omega arith) in
      let (_, back) = ChainTo-split s.cell null xs (b ∷ []) h.chain in
      let (_, (own, _)) =
        All-split (Readable k s.world) xs (b ∷ []) (IsHeap-Readable k s (xs ++ b ∷ []) h) in
      let (_, (sized, _)) = All-split Sized xs (b ∷ []) h.layout.sized in
      let (same, _) = header-payload b.addr (omega (arith, sized)) in
      let (even, _, _) = aligned_bounds size (omega arith) in
      let here : s.cell b.addr ≡ block_meta b.size alloc b.prev null =
        back.0 ∙ ap (λ x. block_meta b.size x b.prev null) used in
      let at_tail : (b.addr == s.list_tail) ≡ true =
        equal_addr b.addr s.list_tail (sym (h.tail ∙ last_or-append null xs b [])) in
      let longer : ltb b.size (aligned size) ≡ true = less_lem b.size (aligned size) more in
      let at : end_of b ≡ u.brk s.world =
        (Tiles-last start (u.brk s.world) xs b (ap is_mapped used) h.layout.tiles).0 in
      let end : end_of (extended b (aligned size)) ≡ u.brk w = omega arith in
      rw (same, load-ok k s own.0, here, at_tail, longer)
        (Returns.mono
          (extend_last_block-Extended k false (aligned size) s xs b w h (ap is_mapped used) even
            more g grant)
          λ p t r. record {
            result = r.result;
            blocks = xs ++ extended b (aligned size) ∷ [];
            heap =
                subst (λ e. IsHeap k start e t (xs ++ extended b (aligned size) ∷ []))
                  (end ∙ sym (ap u.brk r.world)) r.heap;
            bytes = r.bytes;
            before = live xs;
            was = live-snoc xs b (ap is_free used);
            now = live-snoc xs (extended b (aligned size)) refl;
          })

  -- `os_realloc` to a size below 2 ^ 62 that is not 0 and needs more than the block has, of a
  -- block in use that is the last one of a well-formed heap of fewer blocks than `fuel`, whose
  -- segment ends at the program break, with room for the break below the limit up to which the
  -- kernel grants memory: it returns the same pointer, the heap is well formed and its segment
  -- ends at the new break, the block has the size asked for, rounded up to a multiple of 8, the
  -- other blocks in use are as they were, and no payload byte changes.
  pub os_realloc-Resized :
      (fuel size : ℕ) (s : State W) (xs : List Block) (b : Block)
      → IsHeap k start (u.brk s.world) s (xs ++ b ∷ [])
      → b.status ≡ alloc
      → size ≢ 0
      → size < 2 ^ 62
      → b.size < aligned size
      → length (xs ++ b ∷ []) < fuel
      → u.brk s.world + aligned size ≤ limit
      → Returns
          (λ p t. Resized k start (u.brk t.world) s (xs ++ b ∷ []) b (aligned size) p t)
          (os_realloc k fuel (payload b.addr) size s)
  unfolding os_realloc
  os_realloc-Resized fuel size s xs b h used nonzero small more enough space =
      let (_, (sized, _)) = All-split Sized xs (b ∷ []) h.layout.sized in
      let (_, some_payload) = header-payload b.addr (omega (arith, sized)) in
      let not_null : (payload b.addr == null) ≡ false = ground arith in
      let some_bytes : (size == 0) ≡ false = ground arith in
      let (ys, merged) = merge-last xs b (ap is_free used) in
      rw (not_null, some_bytes)
        (Returns.bind (coalesce-IsHeap k fuel s (xs ++ b ∷ []) h enough)
          λ _ t (heap, bytes, world, same).
            let same_brk = ap u.brk world in
            Returns.mono
              (grown_at fuel size t ys b
                (subst (λ e. IsHeap k start e t (ys ++ b ∷ [])) (sym same_brk)
                  (subst (λ l. IsHeap k start (u.brk s.world) t l) merged heap))
                used small more (omega arith))
              λ p v r. record {
                result = r.result;
                blocks = r.blocks;
                heap = r.heap;
                bytes = r.bytes ∙ bytes;
                before = r.before;
                was = sym same ∙ ap live merged ∙ r.was;
                now = r.now;
              })
