-- ===== src/Osmem/Serve.antt =====
-- `os_malloc` and `os_calloc` of mem-allocator/src/osmem.c below their thresholds, on every branch:
-- the first call, a free block that fits, a last block that grows, a new block.
use operating_system_challen.Base.{
  ℕ, ◌+◌, ◌*◌, ◌%◌, ◌^◌, ◌≤◌, ◌<◌, ◌≡◌, ◌≢◌, refl, sym, subst, ap, Bool, true, false, Option, none,
  some, List, [], ◌∷◌, ◌++◌, ◌==◌, ltb, arith, All, All-split, length, if◌then◌else◌,
}
use native.Mathlib.Decide.{dec_lt}
use operating_system_challen.Base.Word.{add64, mul64, add64-eq-add}
use operating_system_challen.Osmem.Memory.{null, is_mapped, meta_size, Kernel, State}
use operating_system_challen.Osmem.Blocks.{Block, merge}
use operating_system_challen.Osmem.Blocks.Merge.{length-merge}
use operating_system_challen.Osmem.Blocks.Layout.{Sized}
use operating_system_challen.Osmem.Blocks.BestFit.{best_fit, best_fit-some, best_fit-none, Fits}
use operating_system_challen.Osmem.Returns
use operating_system_challen.Osmem.Returns.{Returns, returns}
use operating_system_challen.Osmem.BestFit.{addr_of, find_best_block-best_fit}
use operating_system_challen.Osmem.Heap.{IsHeap, IsHeap-Readable, coalesce-IsHeap}
use operating_system_challen.Osmem.Take.{use_best-Taken}
use operating_system_challen.Osmem.Malloc.{
  aligned, aligned_bounds, all_mapped, check_prealloc-all_mapped, Taken-Allocated,
}
use operating_system_challen.Osmem.Unix.{Unix}
use operating_system_challen.Osmem.Append.{LastView, empty, snoc, snoc_view}
use operating_system_challen.Osmem.Extend.{Tiles-last}
use operating_system_challen.Osmem.Grow.{AtBrk, Obtained-AtBrk, grow_heap-AtBrk}
use operating_system_challen.Osmem.Obtained.{Obtained-before, Allocated-Obtained}
use operating_system_challen.Osmem.Code.{
  mmap_threshold, n_max, use_best, grow_heap, take_block, os_malloc, os_calloc,
}
use operating_system_challen.Osmem.Ready.{prepare-Ready, eq-null}

module _ {W : Type 0} (k : Kernel W) {start limit : ℕ} (u : Unix k limit) where
  module _ (fuel size : ℕ) (is_calloc : Bool) (s : State W) (small : size < 2 ^ 62)
      (space : u.brk s.world + size + 40 ≤ limit) (reach : u.brk s.world < start + n_max) where
    -- The search found `b`.
    use_best-AtBrk :
        (xs : List Block) (b : Block) (ys : List Block)
        → IsHeap k start (u.brk s.world) s (xs ++ b ∷ ys)
        → Fits (aligned size) b
        → Returns
            (AtBrk u start is_calloc size s (xs ++ b ∷ ys))
            (use_best k b.addr (aligned size) is_calloc s)
    use_best-AtBrk xs b ys h (is, le, _) =
        let (even, enough, _) = aligned_bounds size (omega arith) in
        Returns.mono (use_best-Taken k is_calloc s xs b (aligned size) ys h is even le) (λ p t r.
          Obtained-AtBrk k u is_calloc size s (xs ++ b ∷ ys) p t (ap u.brk r.world) (
            Allocated-Obtained k is_calloc size s (xs ++ b ∷ ys) p t
              (Taken-Allocated k is_calloc size s xs b (aligned size) ys p t is le enough r)))

    -- The search found none.
    no_best-AtBrk :
        {bs : List Block}
        → LastView bs
        → IsHeap k start (u.brk s.world) s bs
        → all_mapped bs ≡ false
        → All (λ c. ¬ Fits (aligned size) c) bs
        → Returns (AtBrk u start is_calloc size s bs) (grow_heap k (aligned size) is_calloc s)
    no_best-AtBrk empty h some_heap none_fits = absurd cc
    no_best-AtBrk (snoc xs b) h some_heap none_fits =
        let (even, enough, bound) = aligned_bounds size (omega arith) in
        let (_, (misfit, _)) = All-split (λ c. ¬ Fits (aligned size) c) xs (b ∷ []) none_fits in
        grow_heap-AtBrk k u is_calloc size (aligned size) s xs b h even enough (omega arith) (λ is.
          let (at, from) = Tiles-last start (u.brk s.world) xs b (ap is_mapped is) h.layout.tiles in
          elim (dec_lt b.size (aligned size)) [
            | yes l ↦ l
            | no m ↦ absurd (misfit (is, omega arith, omega arith))
          ])

    searched :
        (bs : List Block) (r : Option Block)
        → best_fit (aligned size) none bs ≡ r
        → IsHeap k start (u.brk s.world) s bs
        → all_mapped bs ≡ false
        → Returns (AtBrk u start is_calloc size s bs) (
            (if addr_of r == null
                then grow_heap k (aligned size) is_calloc
                else use_best k (addr_of r) (aligned size) is_calloc)
              s)
    searched bs none e h some_heap =
        no_best-AtBrk (snoc_view bs) h some_heap (best_fit-none (aligned size) bs e)
    searched bs (some b) e h some_heap =
        let (w, fits, _) = best_fit-some (aligned size) bs e in
        let h' : IsHeap k start (u.brk s.world) s (w.before ++ b ∷ w.after) =
          subst (λ l. IsHeap k start (u.brk s.world) s l) w.split h in
        let (_, ((_, _, not_null), _)) = All-split Sized w.before (b ∷ w.after) h'.layout.sized in
        let found : (b.addr == null) ≡ false = eq-null b.addr not_null in
        rw found (
          subst
            (λ l.
              Returns (AtBrk u start is_calloc size s l)
                (use_best k b.addr (aligned size) is_calloc s))
            (sym w.split) (use_best-AtBrk w.before b w.after h' fits))

  take_block-AtBrk :
      (fuel size : ℕ) (is_calloc : Bool) (s : State W) (bs : List Block)
      → IsHeap k start (u.brk s.world) s bs
      → size < 2 ^ 62
      → length bs + 1 < fuel
      → u.brk s.world + mmap_threshold + size + 40 ≤ limit
      → u.brk s.world + mmap_threshold < start + n_max
      → Returns (AtBrk u start is_calloc size s bs) (take_block k fuel size is_calloc s)
  unfolding take_block aligned
  take_block-AtBrk fuel size is_calloc s bs h small more space reach =
      rw
        (check_prealloc-all_mapped k fuel bs s h.chain h.head (IsHeap-Readable k s bs h)
          (omega arith))
        (Returns.bind (prepare-Ready k u s bs h (omega arith)) λ _ t r.
          let brk = r.brk in
          let count = r.count in
          rw
            (find_best_block-best_fit k fuel (aligned size) r.blocks t r.heap.chain r.heap.head
              (IsHeap-Readable k t r.blocks r.heap) (omega arith))
            (Returns.mono
              (searched fuel size is_calloc t small (omega arith) (omega arith) r.blocks
                (best_fit (aligned size) none r.blocks) refl r.heap r.some_heap)
              (λ p t' o. Obtained-before k is_calloc 0 size s t bs r.blocks r.bytes r.same p t' o)))

  -- `os_malloc` of a size that is not 0 and, with a header, below the threshold, on a well-formed
  -- heap of fewer than `fuel - 1` blocks whose segment ends at the program break, with room for
  -- the break below the limit up to which the kernel grants memory, and a segment shorter than
  -- 2 ^ 31 - 1 bytes: it returns the payload of a block of at least that size, whether the list
  -- was empty or all mapped, a free block fitted, the last block was free, or none of these. The
  -- heap is well formed and its segment ends at the new break, exactly that block is added to those
  -- in use, the others are as they were, and no payload byte changes.
  pub os_malloc-AtBrk :
      (fuel size : ℕ) (s : State W) (bs : List Block)
      → IsHeap k start (u.brk s.world) s bs
      → size ≢ 0
      → size + 32 < mmap_threshold
      → length bs + 1 < fuel
      → u.brk s.world + mmap_threshold + size + 40 ≤ limit
      → u.brk s.world + mmap_threshold < start + n_max
      → Returns (AtBrk u start false size s bs) (os_malloc k fuel size s)
  unfolding os_malloc
  os_malloc-AtBrk fuel size s bs h nonzero small more space reach =
      let some_bytes : (size == 0) ≡ false = eq-null size nonzero in
      let below : ltb (add64 size meta_size) mmap_threshold ≡ true =
        ground (arith, add64-eq-add size meta_size) in
      rw some_bytes (
        Returns.bind (coalesce-IsHeap k fuel s bs h (omega arith)) λ _ t (heap, bytes, world, same).
          rw below (
            Returns.mono
              (take_block-AtBrk fuel size false t (merge bs)
                (subst (λ x. IsHeap k start x t (merge bs)) (sym (ap u.brk world)) heap)
                (omega arith) (omega (arith, length-merge bs)) (rw world space) (rw world reach))
              (λ p t' o. Obtained-before k false 0 size s t bs (merge bs) bytes same p t' o)))

  -- `os_calloc` of a product that is not 0 and, with a header, smaller than a page (a page is at
  -- most 2 ^ 62), on a well-formed heap of fewer than `fuel - 1` blocks whose segment ends at the
  -- program break, with room for the break below the limit up to which the kernel grants memory,
  -- and a segment shorter than 2 ^ 31 - 1 bytes: it returns the payload of a block of at least
  -- that size, whether the list was empty or all mapped, a free block fitted, the last block was
  -- free, or none of these. The heap is well formed and its segment ends at the new break, exactly
  -- that block is added to those in use, and the payload bytes are those that a `memset` of that
  -- block to 0 leaves.
  pub os_calloc-AtBrk :
      (fuel nmemb size : ℕ) (s : State W) (bs : List Block)
      → IsHeap k start (u.brk s.world) s bs
      → size * nmemb ≢ 0
      → size * nmemb + 32 < k.getpagesize
      → k.getpagesize ≤ 2 ^ 62
      → length bs + 1 < fuel
      → u.brk s.world + mmap_threshold + size * nmemb + 40 ≤ limit
      → u.brk s.world + mmap_threshold < start + n_max
      → Returns (AtBrk u start true (size * nmemb) s bs) (os_calloc k fuel nmemb size s)
  unfolding os_calloc mul64
  os_calloc-AtBrk fuel nmemb size s bs h nonzero small page more space reach =
      let total : (size * nmemb) % 2 ^ 64 ≡ size * nmemb = omega arith in
      let some_bytes : (size * nmemb == 0) ≡ false = eq-null (size * nmemb) nonzero in
      let below : ltb (add64 (size * nmemb) meta_size) k.getpagesize ≡ true =
        ground (arith, add64-eq-add (size * nmemb) meta_size) in
      rw (total, some_bytes)
        (Returns.bind (coalesce-IsHeap k fuel s bs h (omega arith))
          λ _ t (heap, bytes, world, same). rw below (
            Returns.mono
              (take_block-AtBrk fuel (size * nmemb) true t (merge bs)
                (subst (λ x. IsHeap k start x t (merge bs)) (sym (ap u.brk world)) heap)
                (omega arith) (omega (arith, length-merge bs)) (rw world space) (rw world reach))
              (λ p t' o.
                Obtained-before k true 0 (size * nmemb) s t bs (merge bs) bytes same p t' o)))
