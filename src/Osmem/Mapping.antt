-- ===== src/Osmem/Mapping.antt =====
-- The branch of `os_malloc` and `os_calloc` for large sizes: a mapping of its own.
use operating_system_challen.Base.{
  ℕ, ◌+◌, ◌*◌, ◌%◌, ◌^◌, ◌≤◌, ◌<◌, ◌≡◌, ◌≢◌, refl, sym, ◌∙◌, Bool, true, false, some, List, [], ◌∷◌,
  ◌++◌, ◌==◌, ltb, inl, arith, length, All, All-append, All-mono,
}
use operating_system_challen.Base.Word.{add64, mul64, add64-eq-add}
use operating_system_challen.Osmem.Memory.{
  null, mapped, padding, meta_size, Kernel, State, map_failed, edit, mmap, modify, set_size,
  set_status, set_prev, set_next,
}
use operating_system_challen.Osmem.Blocks.{Block, merge}
use operating_system_challen.Osmem.Returns.{Returns, returns}
use operating_system_challen.Osmem.Returns
use operating_system_challen.Osmem.Heap.{IsHeap, coalesce-IsHeap}
use operating_system_challen.Osmem.Clear.{
  wiped, reachable, zero_payload_lem, payload-eq-add, reachable-true, wiped-IsHeap, Beside,
}
use operating_system_challen.Osmem.Blocks.Layout.{Covered}
use operating_system_challen.Osmem.Unix.{Grants, all_outside_grant, stop_with}
use operating_system_challen.Osmem.Append.{
  LastView, empty, snoc, snoc_view, new_block, Chain-append, first-snoc, Ends, Served,
}
use operating_system_challen.Osmem.Obtained.{
  Obtained, Ends-IsHeap, Served-Obtained, head_not_null, Obtained-before,
}
use operating_system_challen.Osmem.Code.{
  mmap_threshold, payload, memory_mapping, os_malloc, os_calloc,
}

-- `total_size` of `memory_mapping`, and the size that it records.
abbrev pub mapped_size : ℕ → ℕ
mapped_size size = add64 size (padding size)

abbrev pub total_size : ℕ → ℕ
total_size size = add64 (add64 (meta_size + padding meta_size) size) (padding size)

module _ {W : Type 0} (k : Kernel W) where
  memory_mapping-Served :
      (is_calloc : Bool) (size p : ℕ) (s : State W) (xs : List Block) (b : Block) (w : W)
      → Ends k s xs b p w
      → s.list_head ≢ null
      → k.mmap (total_size size) s.world ≡ (some p, w)
      → reachable k is_calloc p (total_size size) w ≡ true
      → Returns
          (Served k s
            (xs ++ b ∷ [])
            (new_block p (mapped_size size) mapped b.addr)
            w
            is_calloc
            (total_size size))
          (memory_mapping k size is_calloc s)
  unfolding memory_mapping mmap set_size set_status set_prev set_next modify edit
  memory_mapping-Served is_calloc size p s xs b w h some_head grant own_bytes =
      let valid' : (p == map_failed) ≡ false = let v : p ≢ map_failed = h.valid in ground arith in
      let d : p ≢ b.addr = h.apart in
      let e : (s.list_head == null) ≡ false = ground arith in
      simp
        (
          grant,
          valid',
          h.own,
          h.own_tail,
          h.tail,
          e,
          zero_payload_lem k is_calloc p (total_size size),
          own_bytes,
        )
        (returns (
          _,
          record {
            chain =
                Chain-append s.cell _ xs b p (mapped_size size) mapped h.chain h.avoids h.avoids_new
                  (ground arith) (ground arith) (λ a x y. ground arith);
            head =
                h.head ∙ sym (first-snoc xs b (new_block p (mapped_size size) mapped b.addr ∷ []));
            tail = refl;
            world = refl;
          },
          refl,
          refl,
          refl,
        ))

  memory_mapping-first :
      (is_calloc : Bool) (size p : ℕ) (s : State W) (w : W)
      → s.list_head ≡ null
      → s.list_tail ≡ null
      → k.mmap (total_size size) s.world ≡ (some p, w)
      → p ≢ map_failed
      → k.allocated w p ≡ true
      → reachable k is_calloc p (total_size size) w ≡ true
      → Returns
          (Served k s [] (new_block p (mapped_size size) mapped null) w is_calloc (total_size size))
          (memory_mapping k size is_calloc s)
  unfolding memory_mapping mmap set_size set_status set_prev set_next modify edit
  memory_mapping-first is_calloc size p s w no_head no_tail grant valid own own_bytes =
      let valid' : (p == map_failed) ≡ false = ground arith in
      simp
        (
          grant,
          valid',
          own,
          no_head,
          no_tail,
          zero_payload_lem k is_calloc p (total_size size),
          own_bytes,
        )
        (returns (
          _,
          record { chain = (ground arith, tt); head = refl; tail = refl; world = refl },
          refl,
          refl,
          refl,
        ))

pub mapped_bounds :
    (size : ℕ)
    → size < 2 ^ 63
    → (mapped_size size % 8 ≡ 0)
      × (size ≤ mapped_size size)
      × (total_size size ≡ 32 + mapped_size size)
unfolding padding add64
mapped_bounds size h = ground arith

module _ {W : Type 0} (k : Kernel W) where
  Grants-less : {p n : ℕ} {w w' : W} → Grants k p (n + 32) w w' → Grants k p n w w'
  Grants-less {p} {n} g =
      let low : p + (n + 32) ≤ 2 ^ 62 = g.low in
      record {
        fresh = λ a l h. g.fresh a l (omega arith);
        owned = λ a l h. g.owned a l (omega arith);
        kept = g.kept;
        low = omega arith;
        not_null = g.not_null;
      }

  -- What the clear of a mapping needs: the kernel has granted 32 bytes more than asked for.
  abbrev Wide : Bool → (p size : ℕ) → (w w' : W) → Type 0
  Wide is_calloc p size w w' = is_calloc ≡ true → Grants k p (total_size size + 32) w w'

  Wide-reachable :
      (is_calloc : Bool) (p size : ℕ) (w w' : W)
      → Wide is_calloc p size w w'
      → reachable k is_calloc p (total_size size) w' ≡ true
  Wide-reachable false p size w w' wide = refl
  Wide-reachable true p size w w' wide =
      let g = wide refl in
      let low : p + (total_size size + 32) ≤ 2 ^ 62 = g.low in
      reachable-true k true p (total_size size) w' (omega arith)
        (λ a l m. g.owned a (omega arith) (omega arith))

  -- It reaches into no header of the list.
  Wide-wiped :
      {start : ℕ} (stop : ℕ) (is_calloc : Bool) (p size : ℕ) (s : State W) (w : W) (bs : List Block)
      (c : Block)
      → c.addr ≡ p
      → Wide is_calloc p size s.world w
      → All (Covered (k.allocated s.world)) bs
      → (t : State W) → IsHeap k start (stop_with stop c) t (bs ++ c ∷ [])
      → IsHeap k start
          (stop_with stop c)
          (wiped k is_calloc c.addr (total_size size) t)
          (bs ++ c ∷ [])
  Wide-wiped stop false p size s w bs c at wide own t h = h
  Wide-wiped stop true p size s w bs c at wide own t h =
      let g = wide refl in
      let low : p + (total_size size + 32) ≤ 2 ^ 62 = g.low in
      let place = payload-eq-add c.addr (omega arith) in
      wiped-IsHeap k true c.addr (total_size size) t (bs ++ c ∷ [])
        (All-append (λ b. Beside (payload c.addr) (total_size size) b.addr) bs (c ∷ [])
          (All-mono _ _ bs (λ b o. omega (arith, place, at, o))
            (all_outside_grant k p (total_size size + 32) s.world w g bs (omega arith) own))
          (omega (arith, place), tt))
        h

module _ {W : Type 0} (k : Kernel W) {start stop : ℕ} where
  memory_mapping_at :
      (is_calloc : Bool) (size p : ℕ) (s : State W) (w : W) {bs : List Block}
      → LastView bs
      → IsHeap k start stop s bs
      → size < 2 ^ 63
      → k.mmap (total_size size) s.world ≡ (some p, w)
      → Grants k p (total_size size) s.world w
      → Wide k is_calloc p size s.world w
      → Returns (Obtained k start stop is_calloc 32 size s bs) (memory_mapping k size is_calloc s)
  memory_mapping_at is_calloc size p s w empty h small grant g wide =
      let (even, enough, total) = mapped_bounds size small in
      let c = new_block p (mapped_size size) mapped null in
      let low : p + total_size size ≤ 2 ^ 62 = g.low in
      Returns.mono
        (memory_mapping-first k is_calloc size p s w h.head h.tail grant (omega arith)
          (g.owned p (omega arith) (omega arith))
          (Wide-reachable k is_calloc p size s.world w wide))
        (Served-Obtained k is_calloc 32 size (total_size size) s [] c w h (rw (← total) g) even refl
          (inl refl) enough (omega arith)
          (Wide-wiped k stop is_calloc p size s w [] c refl wide h.owned))
  memory_mapping_at is_calloc size p s w (snoc xs b) h small grant g wide =
      let (even, enough, total) = mapped_bounds size small in
      let c = new_block p (mapped_size size) mapped b.addr in
      Returns.mono
        (memory_mapping-Served k is_calloc size p s xs b w
          (Ends-IsHeap k s xs b p (total_size size) w h (omega arith) g) (head_not_null k s xs b h)
          grant (Wide-reachable k is_calloc p size s.world w wide))
        (Served-Obtained k is_calloc 32 size (total_size size) s (xs ++ b ∷ []) c w h
          (rw (← total) g) even refl (inl refl) enough (omega arith)
          (Wide-wiped k stop is_calloc p size s w (xs ++ b ∷ []) c refl wide h.owned))

  -- `os_malloc` of a size below 2 ^ 63 that, with a header, is not below the threshold, on a
  -- well-formed heap of fewer blocks than `fuel`, where `mmap` grants the bytes asked for: it
  -- returns the payload of a new block of at least that size, the heap stays well formed and its
  -- segment as it was, exactly that block is added to those in use, the others are as they were,
  -- and no payload byte changes.
  pub os_malloc-mapped :
      (fuel size p : ℕ) (s : State W) (bs : List Block) (w : W)
      → IsHeap k start stop s bs
      → size < 2 ^ 63
      → mmap_threshold ≤ size + 32
      → length bs < fuel
      → k.mmap (total_size size) s.world ≡ (some p, w)
      → Grants k p (total_size size) s.world w
      → Returns (Obtained k start stop false 32 size s bs) (os_malloc k fuel size s)
  unfolding os_malloc
  os_malloc-mapped fuel size p s bs w h small large more grant g =
      let some_bytes : (size == 0) ≡ false = ground arith in
      let above : ltb (add64 size meta_size) mmap_threshold ≡ false =
        ground (arith, add64-eq-add size meta_size) in
      rw some_bytes (
        Returns.bind (coalesce-IsHeap k fuel s bs h more) λ _ t (heap, bytes, world, same).
          rw above (
            Returns.mono
              (memory_mapping_at false size p t w (snoc_view (merge bs)) heap small (rw world grant)
                (rw world g) (λ e. absurd cc))
              (Obtained-before k false 32 size s t bs (merge bs) bytes same)))

  -- `os_calloc` of a product below 2 ^ 63 that is not 0 and, with a header, at least a page, on a
  -- well-formed heap of fewer blocks than `fuel`, where `mmap` grants the bytes asked for and, since
  -- it maps whole pages, at least 32 more: it returns the payload of a new block of at least that
  -- size, the heap stays well formed and its segment as it was, exactly that block is added to those
  -- in use, the others are as they were, and the payload bytes are those that a `memset` to 0 of
  -- that block and of the 32 bytes behind it leaves.
  pub os_calloc-mapped :
      (fuel nmemb size p : ℕ) (s : State W) (bs : List Block) (w : W)
      → IsHeap k start stop s bs
      → size * nmemb ≢ 0
      → size * nmemb < 2 ^ 63
      → k.getpagesize ≤ size * nmemb + 32
      → length bs < fuel
      → k.mmap (total_size (size * nmemb)) s.world ≡ (some p, w)
      → Grants k p (total_size (size * nmemb) + 32) s.world w
      → Returns (Obtained k start stop true 32 (size * nmemb) s bs) (os_calloc k fuel nmemb size s)
  unfolding os_calloc mul64
  os_calloc-mapped fuel nmemb size p s bs w h nonzero small large more grant g =
      let total : (size * nmemb) % 2 ^ 64 ≡ size * nmemb = omega arith in
      let some_bytes : (size * nmemb == 0) ≡ false = ground arith in
      let above : ltb (add64 (size * nmemb) meta_size) k.getpagesize ≡ false =
        ground (arith, add64-eq-add (size * nmemb) meta_size) in
      rw (total, some_bytes)
        (Returns.bind (coalesce-IsHeap k fuel s bs h more) λ _ t (heap, bytes, world, same).
          rw above (
            Returns.mono
              (memory_mapping_at true (size * nmemb) p t w (snoc_view (merge bs)) heap small
                (rw world grant) (rw world (Grants-less k g)) (λ _. rw world g))
              (Obtained-before k true 32 (size * nmemb) s t bs (merge bs) bytes same)))
