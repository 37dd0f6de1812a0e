-- ===== src/Osmem/Overlap.antt =====
-- `os_realloc` of a block before the last one, where the last one is free and the two together are
-- too small: the free block is absorbed and, through the stale `list_tail`, handed out as well.
use operating_system_challen.Base.{
  ℕ, suc, ◌+◌, ◌-◌, ◌^◌, ◌<◌, ◌≤◌, ◌≡◌, ◌≢◌, refl, sym, ap, subst, ◌∙◌, true, false, some, [], ◌∷◌,
  ◌==◌, leb, arith,
}
use operating_system_challen.Base.Word.{add64, sub64, add64-eq-add, sub64-eq-sub}
use operating_system_challen.Osmem.Memory.{
  Ptr, null, map_failed, is_free, free, alloc, BlockMeta, block_meta, with_size, with_status,
  with_next, Bytes, Kernel, State, all_allocated, overlay, memcpy, edit, load, modify, sbrk,
  set_size, set_status, set_next, padding,
}
use operating_system_challen.Osmem.Blocks.{Block, end_of, merge, merge_from}
use operating_system_challen.Osmem.Blocks.Layout.{Tiles}
use operating_system_challen.Osmem.Chain.{load-ok, edit_self, edit_other}
use operating_system_challen.Osmem.Returns
use operating_system_challen.Osmem.Returns.{Returns, returns}
use operating_system_challen.Osmem.Heap.{IsHeap, IsHeap-Readable, coalesce-IsHeap}
use operating_system_challen.Osmem.Free.{header-payload}
use operating_system_challen.Osmem.Malloc.{aligned}
use native.Mathlib.Decide.{dec_lt}
use operating_system_challen.Osmem.Unix.{Grants}
use operating_system_challen.Osmem.Clear.{
  Beside, overlay-Beside, payload-eq-add, all_allocated-true,
}
use operating_system_challen.Osmem.Code.{
  payload, mmap_threshold, find_best_block, find_best_loop, os_free,
}
use operating_system_challen.Osmem.Realloc.{
  find_last_loop, find_last_brk_free, merge_next, relocate, after_coalesce, os_realloc,
}

differ : (p q : Ptr) → p ≢ q → (p == q) ≡ false
differ p q d = ground arith

-- The headers behind the writes of `relocate` and of `merge_next`. `g` is what a copy leaves of
-- them, which reaches into neither header.
released :
    (h g : Ptr → BlockMeta) (a f n x : ℕ) (q : Ptr)
    → h a ≡ block_meta n alloc q null
    → a ≢ f
    → g a ≡ edit (edit h f (with_size x)) f (with_status alloc) a
    → edit g a (with_status free) a ≡ block_meta n free q null
released h g a f n x q e d same =
    edit_self g a (with_status free)
    ∙ ap (with_status free) (
        same
        ∙ edit_other (edit h f (with_size x)) f a (with_status alloc) d
        ∙ edit_other h f a (with_size x) d
        ∙ e)

handed_out :
    (h g : Ptr → BlockMeta) (a f m x : ℕ) (r : Ptr)
    → h f ≡ block_meta m free r null
    → f ≢ a
    → g f ≡ edit (edit h f (with_size x)) f (with_status alloc) f
    → edit g a (with_status free) f ≡ block_meta x alloc r null
handed_out h g a f m x r e d same =
    edit_other g a f (with_status free) d
    ∙ same
    ∙ edit_self (edit h f (with_size x)) f (with_status alloc)
    ∙ ap (with_status alloc) (edit_self h f (with_size x) ∙ ap (with_size x) e)

absorbing :
    (h : Ptr → BlockMeta) (a f n x : ℕ) (q : Ptr)
    → h a ≡ block_meta n alloc q f
    → edit (edit h a (with_size x)) a (with_next null) a ≡ block_meta x alloc q null
absorbing h a f n x q e =
    edit_self (edit h a (with_size x)) a (with_next null)
    ∙ ap (with_next null) (edit_self h a (with_size x) ∙ ap (with_size x) e)

left_alone :
    (h : Ptr → BlockMeta) (a f x : ℕ)
    → f ≢ a
    → edit (edit h a (with_size x)) a (with_next null) f ≡ h f
left_alone h a f x d =
    edit_other (edit h a (with_size x)) a f (with_next null) d ∙ edit_other h a f (with_size x) d

-- The block `c` is handed out with `n` bytes, and the list is one free block, from `b` to the old end
-- of `c`.
abbrev pub Overlaps : {W : Type 0} → (b c : Block) (n : ℕ) → Ptr → State W → Type 0
Overlaps b c n r t =
    (r ≡ payload c.addr)
    × (t.cell c.addr ≡ block_meta n alloc c.prev null)
    × (t.list_head ≡ b.addr)
    × (t.cell b.addr ≡ block_meta (b.size + c.size + 32) free b.prev null)
    × (b.addr + 32 ≤ c.addr)
    × (c.addr + 32 + c.size ≤ b.addr + 32 + (b.size + c.size + 32))
    × (c.size < n)

module _ {W : Type 0} (k : Kernel W) where
  -- The state that `merge_next` leaves when it absorbs the last block: `list_tail` still points to
  -- the header at `f`.
  record Stale (s : State W) (a f n m : ℕ) (q r : Ptr) : Type 0 where
    here : s.cell a ≡ block_meta n alloc q null
    last : s.cell f ≡ block_meta m free r null
    head : s.list_head ≡ a
    tail : s.list_tail ≡ f
    apart : a ≢ f
    a_some : a ≢ null
    f_some : f ≢ null
    a_low : a < 2 ^ 63
    own_a : k.allocated s.world a ≡ true
    own_f : k.allocated s.world f ≡ true

  relocate-Stale :
      (fuel size : ℕ) (s : State W) (a f n m : ℕ) (q r p : Ptr) (w : W)
      → Stale s a f n m q r
      → k.sbrk (sub64 (aligned size) m) s.world ≡ (some p, w)
      → p ≢ map_failed
      → k.allocated w a ≡ true
      → k.allocated w f ≡ true
      → all_allocated (k.allocated w) (payload a) n ≡ true
      → all_allocated (k.allocated w) (payload f) n ≡ true
      → Beside (payload f) n a
      → Beside (payload f) n f
      → Returns
          (λ p t.
            (p ≡ payload f)
            × (t.cell f ≡ block_meta (aligned size) alloc r null)
            × (t.cell a ≡ block_meta n free q null)
            × (t.list_head ≡ a)
            × (t.world ≡ w))
          (relocate k (suc (suc fuel)) (payload a) size s)
  unfolding relocate find_best_block find_best_loop find_last_brk_free find_last_loop sbrk set_size
      set_status modify load os_free edit aligned memcpy
  relocate-Stale fuel size s a f n m q r p w h grant valid own_a own_f source target out_a out_f =
      let (same, some_payload) = header-payload a h.a_low in
      let not_null : (payload a == null) ≡ false = ground arith in
      let a1 : (a == null) ≡ false = (let d : a ≢ null = h.a_some in ground arith) in
      let f1 : (f == null) ≡ false = (let d : f ≢ null = h.f_some in ground arith) in
      let g1 : (p == map_failed) ≡ false = ground arith in
      let af : (a == f) ≡ false = (let d : a ≢ f = h.apart in ground arith) in
      let bytes = k.memcpy (payload f) (payload a) n s.byte in
      let cells =
        edit (edit s.cell f (with_size (add64 size (padding size)))) f (with_status alloc) in
      let kept : (bytes : Bytes) (cells : Ptr → BlockMeta)
          → overlay k (payload f) n bytes cells a ≡ cells a =
        λ bytes cells. overlay-Beside k (payload f) n bytes cells a out_a in
      simp
        (
          h.head, h.tail, h.own_a, h.own_f, h.here, h.last, a1, f1, grant, g1, same, own_a, own_f,
          not_null, af, source, target, kept,
        )
        (returns (
          refl,
          handed_out s.cell (overlay k (payload f) n bytes cells) a f m (add64 size (padding size))
              r h.last (λ e. h.apart (sym e)) (overlay-Beside k (payload f) n bytes cells f out_f),
          released s.cell (overlay k (payload f) n bytes cells) a f n (add64 size (padding size)) q
              h.here h.apart (overlay-Beside k (payload f) n bytes cells a out_a),
          refl,
          refl,
        ))

  merge_next-Stale :
      (s : State W) (a f n m : ℕ) (q r : Ptr)
      → s.cell a ≡ block_meta n alloc q f
      → s.cell f ≡ block_meta m free r null
      → s.list_head ≡ a
      → s.list_tail ≡ f
      → a ≢ f
      → a ≢ null
      → f ≢ null
      → a < 2 ^ 63
      → k.allocated s.world a ≡ true
      → k.allocated s.world f ≡ true
      → n + m + 32 < 2 ^ 64
      → Returns (λ _ t. Stale t a f (n + m + 32) m q r × (t.world ≡ s.world)) (merge_next k a s)
  unfolding merge_next set_size set_next modify load edit padding
  merge_next-Stale s a f n m q r here last head tail apart a_some f_some low own_a own_f small =
      let sum : add64 n (m + 32 + 0) ≡ n + m + 32 =
        add64-eq-add n (m + 32 + 0) (omega arith) ∙ omega arith in
      let fa : f ≢ a = (λ p. apart (sym p)) in
      simp (own_a, own_f, here, last)
        (returns (
          record {
            here =
                absorbing s.cell a f n (add64 n (m + 32 + 0)) q here
                ∙ ap (λ x. block_meta x alloc q null) sum;
            last = left_alone s.cell a f (add64 n (m + 32 + 0)) fa ∙ last;
            head = head;
            tail = tail;
            apart = apart;
            a_some = a_some;
            f_some = f_some;
            a_low = low;
            own_a = own_a;
            own_f = own_f;
          },
          refl,
        ))

  merge_two : (b c : Block) → b.status ≡ alloc → merge (b ∷ c ∷ []) ≡ b ∷ c ∷ []
  unfolding merge merge_from
  merge_two b c e = rw (merge_from, ap is_free e) refl

  behind :
      (start stop : ℕ) (b c : Block)
      → b.status ≡ alloc
      → c.status ≡ free
      → Tiles start stop (b ∷ c ∷ [])
      → (c.addr ≡ end_of b) × (end_of c ≡ stop)
  behind start stop b c used is h = ground arith

  -- What the process owns once `sbrk` has answered.
  owned_after :
      {start stop : ℕ} (s : State W) (b c : Block) {n : ℕ} (w : W)
      → IsHeap k start stop s (b ∷ c ∷ [])
      → c.addr ≡ end_of b
      → end_of c ≡ stop
      → Grants k stop n s.world w
      → (a : Ptr) → b.addr ≤ a
      → a < stop + n
      → k.allocated w a ≡ true
  owned_after {stop} s b c w h at ends g a low high = elim (dec_lt a (end_of b)) [
    | yes l ↦ g.kept a (h.owned.0 a low l)
    | no past ↦ elim (dec_lt a stop) [
      | yes l ↦ g.kept a (h.owned.1.0 a (omega arith) (omega arith))
      | no past' ↦ g.owned a (omega arith) high
    ]
  ]

  -- ... behind the coalescing, which changes nothing.
  overlap_at :
      {start stop : ℕ} (fuel size : ℕ) (s : State W) (b c : Block) (w : W)
      → IsHeap k start stop s (b ∷ c ∷ [])
      → b.status ≡ alloc
      → c.status ≡ free
      → b.size + c.size + 32 < aligned size
      → aligned size < mmap_threshold
      → k.sbrk (aligned size - c.size) s.world ≡ (some stop, w)
      → Grants k stop (aligned size - c.size) s.world w
      → Returns
          (Overlaps b c (aligned size))
          (after_coalesce k (suc (suc (suc fuel))) (payload b.addr) size s)
  unfolding after_coalesce aligned
  overlap_at {start} {stop} fuel size s b c w h used is small below grant g =
      let (same, _) = header-payload b.addr (omega (arith, h.layout.sized.0)) in
      let own = IsHeap-Readable k s (b ∷ c ∷ []) h in
      let (at, ends) = behind start stop b c used is h.layout.tiles in
      let low : stop + (aligned size - c.size) ≤ 2 ^ 62 = g.low in
      let (sized_b, (sized_c, _)) = h.layout.sized in
      let less : sub64 (aligned size) c.size ≡ aligned size - c.size =
        sub64-eq-sub (aligned size) c.size (omega arith) (omega arith) in
      let payload_b = payload-eq-add b.addr (omega (arith, sized_b)) in
      let payload_c = payload-eq-add c.addr (omega (arith, sized_c)) in
      let owned = owned_after s b c w h at ends g in
      let source : all_allocated (k.allocated w) (payload b.addr) (b.size + c.size + 32) ≡ true =
        rw payload_b (
          all_allocated-true (k.allocated w) (b.addr + 32) (b.size + c.size + 32)
            (λ a l m. owned a (omega arith) (omega arith))) in
      let target : all_allocated (k.allocated w) (payload c.addr) (b.size + c.size + 32) ≡ true =
        rw payload_c (
          all_allocated-true (k.allocated w) (c.addr + 32) (b.size + c.size + 32)
            (λ a l m. owned a (omega arith) (omega arith))) in
      let here : s.cell b.addr ≡ block_meta b.size alloc b.prev c.addr =
        h.chain.0 ∙ ap (λ x. block_meta b.size x b.prev c.addr) used in
      let last : s.cell c.addr ≡ block_meta c.size free c.prev null =
        h.chain.1.0 ∙ ap (λ x. block_meta c.size x c.prev null) is in
      let inner : (b.addr == s.list_tail) ≡ false =
        ap (λ x. b.addr == x) h.tail ∙ differ b.addr c.addr (omega arith) in
      rw (same, load-ok k s own.0.0, here, inner)
        (Returns.bind
          (merge_next-Stale s b.addr c.addr b.size c.size b.prev c.prev here last h.head h.tail
            (omega arith) h.layout.sized.0.2 h.layout.sized.1.0.2 (omega arith) own.0.0 own.1.0.0
            (omega (arith, h.layout.sized.1.0)))
          λ _ t (stale, world).
            let long : leb (aligned size) (b.size + c.size + 32) ≡ false = ground arith in
            let short : leb mmap_threshold (aligned size) ≡ false = ground arith in
            rw (load-ok k t stale.own_a, stale.here, long, short)
              (Returns.mono
                (relocate-Stale (suc fuel) size t b.addr c.addr (b.size + c.size + 32) c.size b.prev
                  c.prev stop w stale
                  (ap (λ x. k.sbrk x t.world) less ∙ ap (k.sbrk _) world ∙ grant) (omega arith)
                  (owned b.addr (omega arith) (omega arith))
                  (owned c.addr (omega arith) (omega arith)) source target
                  (omega (arith, payload_c)) (omega (arith, payload_c)))
                λ r u (result, last, cell, head, _).
                  (result, last, head, cell, omega arith, omega arith, omega arith)))

  -- A well-formed heap of a block `b` in use and a free block `c` behind it, together too small
  -- for the request, which is not 0 and below the threshold: with fuel for three rounds, and where
  -- `sbrk` grants what is missing at the end of the heap segment, `os_realloc` of `b` returns the
  -- payload of `c`, whose header says that it is in use with the size asked for, rounded up to a
  -- multiple of 8. The list then holds one block, which is free and starts at `b`: the pointer
  -- returned and the `c.size` bytes behind it lie in the free block's bytes, and the block returned
  -- goes on behind them.
  pub os_realloc_overlap :
      {start stop : ℕ} (fuel size : ℕ) (s : State W) (b c : Block) (w : W)
      → IsHeap k start stop s (b ∷ c ∷ [])
      → b.status ≡ alloc
      → c.status ≡ free
      → size ≢ 0
      → b.size + c.size + 32 < aligned size
      → aligned size < mmap_threshold
      → k.sbrk (aligned size - c.size) s.world ≡ (some stop, w)
      → Grants k stop (aligned size - c.size) s.world w
      → Returns
          (Overlaps b c (aligned size))
          (os_realloc k (suc (suc (suc fuel))) (payload b.addr) size s)
  unfolding os_realloc after_coalesce aligned
  os_realloc_overlap {start} {stop} fuel size s b c w h used is nonzero small below grant g =
      let (same, some_payload) = header-payload b.addr (omega (arith, h.layout.sized.0)) in
      let not_null : (payload b.addr == null) ≡ false = ground arith in
      let some_bytes : (size == 0) ≡ false = ground arith in
      rw (not_null, some_bytes)
        (Returns.bind (coalesce-IsHeap k (suc (suc (suc fuel))) s (b ∷ c ∷ []) h (omega arith))
          λ _ t (heap, _, world, _).
            overlap_at fuel size t b c w
              (subst (λ l. IsHeap k start stop t l) (merge_two b c used) heap) used is small below
              (ap (k.sbrk _) world ∙ grant) (rw world g))
