-- ===== src/Osmem/Overrun.antt =====
-- `memory_mapping` of mem-allocator/src/osmem.c clears 32 bytes behind the mapping that it asked for
-- where `os_calloc` calls it: what that does where they are not the process's.
use operating_system_challen.Base.{
  ℕ, ◌+◌, ◌*◌, ◌%◌, ◌^◌, ◌≤◌, ◌<◌, ◌≡◌, ◌≢◌, true, false, some, List, ◌==◌, ltb, arith, length,
}
use operating_system_challen.Base.Word.{add64, mul64, add64-eq-add}
use operating_system_challen.Osmem.Memory.{
  null, meta_size, Kernel, State, map_failed, edit, mmap, modify, set_size, set_status, set_prev,
  set_next, fault,
}
use operating_system_challen.Osmem.Blocks.{Block, merge}
use operating_system_challen.Osmem.Returns.{Returns, returns}
use operating_system_challen.Osmem.Returns
use operating_system_challen.Osmem.Heap.{IsHeap, coalesce-IsHeap}
use operating_system_challen.Osmem.Clear.{
  reachable, zero_payload_lem, payload-eq-add, all_allocated-false,
}
use operating_system_challen.Osmem.Unix.{Grants}
use operating_system_challen.Osmem.Append.{LastView, empty, snoc, snoc_view, Ends}
use operating_system_challen.Osmem.Obtained.{Ends-IsHeap, head_not_null}
use operating_system_challen.Osmem.Code.{memory_mapping, os_calloc}
use operating_system_challen.Osmem.Mapping.{total_size, mapped_bounds}

module _ {W : Type 0} (k : Kernel W) where
  -- The clear reaches memory that the process does not own.
  memory_mapping-fault :
      (size p : ℕ) (s : State W) (xs : List Block) (b : Block) (w : W)
      → Ends k s xs b p w
      → s.list_head ≢ null
      → k.mmap (total_size size) s.world ≡ (some p, w)
      → reachable k true p (total_size size) w ≡ false
      → memory_mapping k size true s ≡ fault
  unfolding memory_mapping mmap set_size set_status set_prev set_next modify edit
  memory_mapping-fault size p s xs b w h some_head grant gone =
      let valid' : (p == map_failed) ≡ false = let v : p ≢ map_failed = h.valid in ground arith in
      let e : (s.list_head == null) ≡ false = ground arith in
      simp (
        grant,
        valid',
        h.own,
        h.own_tail,
        h.tail,
        e,
        zero_payload_lem k true p (total_size size),
        gone,
      )

  memory_mapping-first_fault :
      (size p : ℕ) (s : State W) (w : W)
      → s.list_head ≡ null
      → s.list_tail ≡ null
      → k.mmap (total_size size) s.world ≡ (some p, w)
      → p ≢ map_failed
      → k.allocated w p ≡ true
      → reachable k true p (total_size size) w ≡ false
      → memory_mapping k size true s ≡ fault
  unfolding memory_mapping mmap set_size set_status set_prev set_next modify edit
  memory_mapping-first_fault size p s w no_head no_tail grant valid own gone =
      let valid' : (p == map_failed) ≡ false = ground arith in
      simp (grant, valid', own, no_head, no_tail, zero_payload_lem k true p (total_size size), gone)

module _ {W : Type 0} (k : Kernel W) {start stop : ℕ} where
  memory_mapping_fault_at :
      (size p a : ℕ) (s : State W) (w : W) {bs : List Block}
      → LastView bs
      → IsHeap k start stop s bs
      → size < 2 ^ 63
      → k.mmap (total_size size) s.world ≡ (some p, w)
      → Grants k p (total_size size) s.world w
      → p + total_size size ≤ a
      → a < p + total_size size + 32
      → k.allocated w a ≡ false
      → memory_mapping k size true s ≡ fault
  memory_mapping_fault_at size p a s w view h small grant g low high gone =
      let (_, _, total) = mapped_bounds size small in
      let fits : p + total_size size ≤ 2 ^ 62 = g.low in
      let unreachable : reachable k true p (total_size size) w ≡ false =
        rw (payload-eq-add p (omega arith)) (
          all_allocated-false (k.allocated w) (p + 32) (total_size size) a (omega arith)
            (omega arith) gone) in
      at view h unreachable
    where
      at :
          {cs : List Block}
          → LastView cs
          → IsHeap k start stop s cs
          → reachable k true p (total_size size) w ≡ false
          → memory_mapping k size true s ≡ fault
      at empty h unreachable =
          let (_, _, total) = mapped_bounds size small in
          let fits : p + total_size size ≤ 2 ^ 62 = g.low in
          memory_mapping-first_fault k size p s w h.head h.tail grant (omega arith)
            (g.owned p (omega arith) (omega arith)) unreachable
      at (snoc xs b) h unreachable =
          let (_, _, total) = mapped_bounds size small in
          memory_mapping-fault k size p s xs b w
            (Ends-IsHeap k s xs b p (total_size size) w h (omega arith) g)
            (head_not_null k s xs b h) grant unreachable

  -- `os_calloc` of a product below 2 ^ 63 that is not 0 and, with a header, at least a page, on a
  -- well-formed heap of fewer blocks than `fuel`, where `mmap` grants the bytes asked for, but one of
  -- the 32 behind them does not belong to the process, ends in an access to memory that the process
  -- does not own.
  pub os_calloc-mapped-fault :
      (fuel nmemb size p a : ℕ) (s : State W) (bs : List Block) (w : W)
      → IsHeap k start stop s bs
      → size * nmemb ≢ 0
      → size * nmemb < 2 ^ 63
      → k.getpagesize ≤ size * nmemb + 32
      → length bs < fuel
      → k.mmap (total_size (size * nmemb)) s.world ≡ (some p, w)
      → Grants k p (total_size (size * nmemb)) s.world w
      → p + total_size (size * nmemb) ≤ a
      → a < p + total_size (size * nmemb) + 32
      → k.allocated w a ≡ false
      → os_calloc k fuel nmemb size s ≡ fault
  unfolding os_calloc mul64
  os_calloc-mapped-fault fuel nmemb size p a s bs w h nonzero small large more grant g low high
        gone =
      let total : (size * nmemb) % 2 ^ 64 ≡ size * nmemb = omega arith in
      let some_bytes : (size * nmemb == 0) ≡ false = ground arith in
      let above : ltb (add64 (size * nmemb) meta_size) k.getpagesize ≡ false =
        ground (arith, add64-eq-add (size * nmemb) meta_size) in
      let (_, t, run, (heap, _, world, _)) =
        Returns.returned (coalesce-IsHeap k fuel s bs h more) in
      rw (total, some_bytes, run, above)
        (memory_mapping_fault_at (size * nmemb) p a t w (snoc_view (merge bs)) heap small
          (rw world grant) (rw world g) low high gone)
