-- ===== src/Osmem/Malloc.antt =====
-- `os_malloc` and `os_calloc` where the heap has a free block that is large enough.
use operating_system_challen.Base.{
  ℕ, zero, suc, ◌+◌, ◌*◌, ◌%◌, ◌^◌, ◌≤◌, ◌<◌, ◌≡◌, ◌≢◌, refl, sym, subst, ap, ◌∙◌, Bool, true,
  false, none, some, List, [], ◌∷◌, ◌++◌, ◌==◌, arith, All, All-split, length, Bool-cases, inl, inr,
  if◌then◌else◌, ltb,
}
use operating_system_challen.Base.Word.{add64, mul64, add64-eq-add}
use operating_system_challen.Osmem.Memory.{
  Ptr, null, Status, free, alloc, is_mapped, Kernel, State, ok, padding, meta_size,
}
use operating_system_challen.Osmem.Blocks.{Block, first, merge}
use operating_system_challen.Osmem.Blocks.Merge.{length-merge}
use operating_system_challen.Osmem.Blocks.Layout.{live, live-merge}
use operating_system_challen.Osmem.Blocks.BestFit.{best_fit, best_fit-some}
use operating_system_challen.Osmem.Blocks.Carve.{carve, carved, live-carve}
use operating_system_challen.Osmem.Chain.{Chain, load-ok}
use operating_system_challen.Osmem.Returns
use operating_system_challen.Osmem.Returns.{Returns, returns}
use operating_system_challen.Osmem.Coalesce.{Readable}
use operating_system_challen.Osmem.BestFit.{find_best_block-best_fit}
use operating_system_challen.Osmem.Heap.{IsHeap, IsHeap-Readable, coalesce-IsHeap}
use operating_system_challen.Osmem.Take.{Taken, use_best-Taken}
use operating_system_challen.Osmem.Clear.{zeroed}
use operating_system_challen.Osmem.Code.{
  mmap_threshold, payload, check_prealloc_loop, check_prealloc, take_block, os_malloc, os_calloc,
}

-- `size + padding(size)`
unfoldable pub aligned : ℕ → ℕ
aligned size = add64 size (padding size)

pub aligned_bounds :
    (size : ℕ)
    → size < 2 ^ 63
    → (aligned size % 8 ≡ 0) × (size ≤ aligned size) × (aligned size < size + 8)
unfolding aligned padding add64
aligned_bounds size h = ground arith

abbrev pub all_mapped : List Block → Bool
all_mapped [] = true
all_mapped (b ∷ bs) = if is_mapped b.status then all_mapped bs else false

module _ {W : Type 0} (k : Kernel W) where
  check_prealloc_loop-all_mapped :
      (fuel : ℕ) (bs : List Block) (s : State W)
      → Chain s.cell bs
      → All (Readable k s.world) bs
      → length bs < fuel
      → check_prealloc_loop k fuel (first bs) s ≡ ok (all_mapped bs) s
  unfolding check_prealloc_loop
  check_prealloc_loop-all_mapped zero bs s c own more = absurd (omega arith)
  check_prealloc_loop-all_mapped (suc n) [] s c own more = refl
  check_prealloc_loop-all_mapped (suc n) (b ∷ bs) s c own more =
      let ne : (b.addr == null) ≡ false = ground arith in
      rw (ne, load-ok k s own.0.0, c.0)
        (elim (Bool-cases (is_mapped b.status)) [
          | inl e ↦ rw e (check_prealloc_loop-all_mapped n bs s c.1 own.1 (omega arith))
          | inr e ↦ rw e refl
        ])

  -- `checkPrealloc` says whether every block of the list is mapped.
  pub check_prealloc-all_mapped :
      (fuel : ℕ) (bs : List Block) (s : State W)
      → Chain s.cell bs
      → s.list_head ≡ first bs
      → All (Readable k s.world) bs
      → length bs < fuel
      → check_prealloc k fuel s ≡ ok (all_mapped bs) s
  unfolding check_prealloc
  check_prealloc-all_mapped fuel bs s c head own more =
      subst (λ p. check_prealloc_loop k fuel p s ≡ ok (all_mapped bs) s) (sym head)
        (check_prealloc_loop-all_mapped fuel bs s c own more)

pub not_all_mapped :
    (xs : List Block) (b : Block) (ys : List Block)
    → b.status ≡ free
    → all_mapped (xs ++ b ∷ ys) ≡ false
not_all_mapped [] b ys e = rw e
not_all_mapped (x ∷ xs) b ys e = ground (arith, not_all_mapped xs b ys e)

-- One block more is in use: `m` bytes behind the header at `a`; the others are as they were.
pub record Allocated {W : Type 0} (k : Kernel W) (start stop : ℕ) (is_calloc : Bool) (size : ℕ)
    (s : State W) (bs : List Block) (p : Ptr) (t : State W) : Type 0 where
  pub blocks : List Block
  pub heap : IsHeap k start stop t blocks
  pub addr : Ptr
  pub room : ℕ
  pub result : p ≡ payload addr
  pub enough : size ≤ room
  pub bytes : t.byte ≡ zeroed k is_calloc addr room s.byte
  pub before : List (Ptr × ℕ × Status)
  pub after : List (Ptr × ℕ × Status)
  pub was : live bs ≡ before ++ after
  pub now : live blocks ≡ before ++ (addr, room, alloc) ∷ after

module _ {W : Type 0} (k : Kernel W) {start stop : ℕ} where
  pub Taken-Allocated :
      (is_calloc : Bool) (size : ℕ) (s : State W) (xs : List Block) (b : Block) (n : ℕ)
      (ys : List Block) (p : Ptr) (t : State W)
      → b.status ≡ free
      → n ≤ b.size
      → size ≤ n
      → Taken k start stop is_calloc s xs b n ys p t
      → Allocated k start stop is_calloc size s (xs ++ b ∷ ys) p t
  Taken-Allocated is_calloc size s xs b n ys p t e le enough r = record {
    blocks = xs ++ carve b n ys;
    heap = r.heap;
    addr = b.addr;
    room = carved b n;
    result = r.result;
    enough = ground arith;
    bytes = r.bytes;
    before = live xs;
    after = live ys;
    was = (live-carve xs b n ys e).0;
    now = (live-carve xs b n ys e).1;
  }

  take_at :
      (fuel size : ℕ) (is_calloc : Bool) (s : State W) (xs : List Block) (b : Block)
      (ys : List Block)
      → IsHeap k start stop s (xs ++ b ∷ ys)
      → size < 2 ^ 63
      → length (xs ++ b ∷ ys) < fuel
      → best_fit (aligned size) none (xs ++ b ∷ ys) ≡ some b
      → b.status ≡ free
      → aligned size ≤ b.size
      → Returns
          (Allocated k start stop is_calloc size s (xs ++ b ∷ ys))
          (take_block k fuel size is_calloc s)
  unfolding take_block aligned
  take_at fuel size is_calloc s xs b ys h small more fit e le =
      let own = IsHeap-Readable k s (xs ++ b ∷ ys) h in
      let (_, (here, _)) = All-split (Readable k s.world) xs (b ∷ ys) own in
      let found : (b.addr == null) ≡ false = ground arith in
      let (even, enough, _) = aligned_bounds size small in
      rw
        (
          check_prealloc-all_mapped k fuel (xs ++ b ∷ ys) s h.chain h.head own more,
          not_all_mapped xs b ys e,
          find_best_block-best_fit k fuel (aligned size) (xs ++ b ∷ ys) s h.chain h.head own more,
          fit,
          found,
        )
        (Returns.mono (use_best-Taken k is_calloc s xs b (aligned size) ys h e even le)
          (λ p t. Taken-Allocated is_calloc size s xs b (aligned size) ys p t e le enough))

  -- The branch below the threshold, on a heap that has a block for the request.
  pub take_block-Allocated :
      (fuel size : ℕ) (is_calloc : Bool) (s : State W) (bs : List Block) {b : Block}
      → IsHeap k start stop s bs
      → size < 2 ^ 63
      → length bs < fuel
      → best_fit (aligned size) none bs ≡ some b
      → Returns (Allocated k start stop is_calloc size s bs) (take_block k fuel size is_calloc s)
  take_block-Allocated fuel size is_calloc s bs {b} h small more fit =
      let (w, (e, le, _), _) = best_fit-some (aligned size) bs fit in
      subst
        (λ l.
          IsHeap k start stop s l
          → length l < fuel
          → best_fit (aligned size) none l ≡ some b
          → Returns (Allocated k start stop is_calloc size s l)
              (take_block k fuel size is_calloc s))
        (sym w.split)
        (λ h' more' fit'. take_at fuel size is_calloc s w.before b w.after h' small more' fit' e le)
        h more fit

  -- ... for the callers, whose list is merged first.
  merged_Allocated :
      (is_calloc : Bool) (size : ℕ) (s s' : State W) (bs : List Block)
      → IsHeap k start stop s bs
      → s'.byte ≡ s.byte
      → (p : Ptr) (t : State W) → Allocated k start stop is_calloc size s' (merge bs) p t
      → Allocated k start stop is_calloc size s bs p t
  merged_Allocated is_calloc size s s' bs h same p t r = record {
    blocks = r.blocks;
    heap = r.heap;
    addr = r.addr;
    room = r.room;
    result = r.result;
    enough = r.enough;
    bytes = r.bytes ∙ ap (zeroed k is_calloc r.addr r.room) same;
    before = r.before;
    after = r.after;
    was = sym (live-merge start stop bs h.layout) ∙ r.was;
    now = r.now;
  }

  -- `os_malloc` of a size that is not 0 and, with a header, below the threshold, on a well-formed
  -- heap of fewer blocks than `fuel` that has a free block for it after coalescing: it returns the
  -- payload of a block of at least that size, the heap stays well formed, exactly that block is
  -- added to those in use, the others are as they were, and no payload byte changes.
  pub os_malloc-Allocated :
      (fuel size : ℕ) (s : State W) (bs : List Block) (b : Block)
      → IsHeap k start stop s bs
      → size ≢ 0
      → size + 32 < mmap_threshold
      → length bs < fuel
      → best_fit (aligned size) none (merge bs) ≡ some b
      → Returns (Allocated k start stop false size s bs) (os_malloc k fuel size s)
  unfolding os_malloc
  os_malloc-Allocated fuel size s bs b h nonzero small more fit =
      let some_bytes : (size == 0) ≡ false = ground arith in
      let below : ltb (add64 size meta_size) mmap_threshold ≡ true =
        ground (arith, add64-eq-add size meta_size) in
      rw some_bytes (
        Returns.bind (coalesce-IsHeap k fuel s bs h more) λ _ t (heap, bytes, _, _). rw below (
          Returns.mono
            (take_block-Allocated fuel size false t (merge bs) heap (omega arith)
              (omega (arith, length-merge bs)) fit)
            (merged_Allocated false size s t bs h bytes)))

  -- `os_calloc` of a product that is not 0 and, with a header, smaller than a page (a page is at
  -- most 2 ^ 62), on a well-formed heap of fewer blocks than `fuel` that has a free block for it
  -- after coalescing: it returns the payload of a block of at
  -- least that size, the heap stays well formed, exactly that block is added to those in use, and
  -- the payload bytes are those that a `memset` of that block's payload to 0 leaves.
  pub os_calloc-Allocated :
      (fuel nmemb size : ℕ) (s : State W) (bs : List Block) (b : Block)
      → IsHeap k start stop s bs
      → size * nmemb ≢ 0
      → size * nmemb + 32 < k.getpagesize
      → k.getpagesize ≤ 2 ^ 62
      → length bs < fuel
      → best_fit (aligned (size * nmemb)) none (merge bs) ≡ some b
      → Returns (Allocated k start stop true (size * nmemb) s bs) (os_calloc k fuel nmemb size s)
  unfolding os_calloc mul64
  os_calloc-Allocated fuel nmemb size s bs b h nonzero small page more fit =
      let total : (size * nmemb) % 2 ^ 64 ≡ size * nmemb = omega arith in
      let some_bytes : (size * nmemb == 0) ≡ false = ground arith in
      let below : ltb (add64 (size * nmemb) meta_size) k.getpagesize ≡ true =
        ground (arith, add64-eq-add (size * nmemb) meta_size) in
      rw (total, some_bytes)
        (Returns.bind (coalesce-IsHeap k fuel s bs h more) λ _ t (heap, bytes, _, _). rw below (
          Returns.mono
            (take_block-Allocated fuel (size * nmemb) true t (merge bs) heap (omega arith)
              (omega (arith, length-merge bs)) fit)
            (merged_Allocated true (size * nmemb) s t bs h bytes)))
