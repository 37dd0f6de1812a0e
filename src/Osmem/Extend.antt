-- ===== src/Osmem/Extend.antt =====
-- `extend_last_block` of mem-allocator/src/osmem.c: the block at the end of the heap segment, which
-- `os_malloc` and `os_calloc` find free and `os_realloc` in use, grows in place.
use operating_system_challen.Base.{
  ℕ, ◌+◌, ◌-◌, ◌%◌, ◌^◌, ◌≤◌, ◌<◌, ◌≡◌, refl, sym, ap, ◌∙◌, Bool, true, false, some, List, [], ◌∷◌,
  ◌++◌, ◌==◌, ◌⊎◌, arith, All, All-split, All-append, All-mono,
}
use native.Mathlib.Decide.{dec_lt}
use operating_system_challen.Base.Word.{sub64, sub64-eq-sub}
use operating_system_challen.Osmem.Memory.{
  Ptr, null, map_failed, alloc, is_mapped, with_size, with_status, Kernel, State, edit, sbrk,
  modify, set_size, set_status,
}
use operating_system_challen.Osmem.Blocks.{Block, end_of}
use operating_system_challen.Osmem.Blocks.Layout.{
  Apart, AllApart, Sized, Covered, Tiles, next_start,
}
use operating_system_challen.Osmem.Blocks.Middle.{AllApart-cross, Avoids-Before, last_or-append}
use operating_system_challen.Osmem.Chain.{
  Chain, ChainTo-split, ChainTo-join, frame-edit, first_or-append, edit_self, load-ok,
}
use operating_system_challen.Osmem.Returns.{Returns, returns}
use operating_system_challen.Osmem.Heap.{IsHeap}
use operating_system_challen.Osmem.Clear.{
  zeroed, zero_payload_lem, wiped-byte, wiped-world, wiped_block,
}
use operating_system_challen.Osmem.Unix.{Grants, all_outside_grant, all_kept}
use operating_system_challen.Osmem.Code.{payload, extend_last_block}

-- A last block that is not mapped ends where the heap segment ends, and lies in it.
pub Tiles-last :
    (start stop : ℕ) (xs : List Block) (b : Block)
    → is_mapped b.status ≡ false
    → Tiles start stop (xs ++ b ∷ [])
    → (end_of b ≡ stop) × (start ≤ b.addr)
Tiles-last start stop [] b e h = ground arith
Tiles-last start stop (x ∷ xs) b e h =
    let (p, q) = Tiles-last (next_start start x) stop xs b e h.1 in (p, ground arith)

abbrev pub extended : Block → ℕ → Block
extended b n = record b { size = n; status = alloc }

Tiles-extend :
    (start stop : ℕ) (xs : List Block) (b : Block) (n : ℕ)
    → is_mapped b.status ≡ false
    → Tiles start stop (xs ++ b ∷ [])
    → Tiles start (end_of (extended b n)) (xs ++ extended b n ∷ [])
Tiles-extend start stop [] b n e h = ground arith
Tiles-extend start stop (x ∷ xs) b n e h =
    (h.0, Tiles-extend (next_start start x) stop xs b n e h.1)

AllApart-extend :
    (xs : List Block) (b : Block) (n : ℕ)
    → All (λ x. (end_of x ≤ end_of b) ⊎ (end_of (extended b n) ≤ x.addr)) xs
    → AllApart (xs ++ b ∷ [])
    → AllApart (xs ++ extended b n ∷ [])
AllApart-extend [] b n out h = (tt, tt)
AllApart-extend (x ∷ xs) b n out h =
    let (before, at) = All-split (Apart x) xs (b ∷ []) h.0 in
    (
      All-append (Apart x) xs (extended b n ∷ []) before (omega (arith, out.0, at.0), tt),
      AllApart-extend xs b n out.1 h.1,
    )

module _ {W : Type 0} (k : Kernel W) {start stop : ℕ} (is_calloc : Bool) (n : ℕ) (s : State W)
    (xs : List Block) (b : Block) (w : W) (h : IsHeap k start stop s (xs ++ b ∷ []))
    (unmapped : is_mapped b.status ≡ false) (even : n % 8 ≡ 0) (more : b.size < n)
    (g : Grants k stop (n - b.size) s.world w)
    (grant : k.sbrk (n - b.size) s.world ≡ (some stop, w)) where
  at_stop : end_of b ≡ stop
  at_stop = (Tiles-last start stop xs b unmapped h.layout.tiles).0

  -- The bytes of the block and those behind it belong to the process.
  Covered-extended : Covered (k.allocated s.world) b → Covered (k.allocated w) (extended b n)
  Covered-extended own a low high = elim (dec_lt a (end_of b)) [
    | yes l ↦ g.kept a (own a low l)
    | no m ↦ g.owned a (omega (arith, at_stop)) (omega (arith, at_stop))
  ]

  -- No other block lies there.
  others_outside : All (λ x. (end_of x ≤ end_of b) ⊎ (end_of (extended b n) ≤ x.addr)) xs
  others_outside =
      let (owned, _) = All-split (Covered (k.allocated s.world)) xs (b ∷ []) h.owned in
      All-mono _ _ xs (λ x o. omega (arith, o, at_stop))
        (all_outside_grant k stop (n - b.size) s.world w g xs (omega arith) owned)

  -- What `extend_last_block` returns.
  pub record Extended (p : Ptr) (t : State W) : Type 0 where
    pub result : p ≡ payload b.addr
    pub heap : IsHeap k start (end_of (extended b n)) t (xs ++ extended b n ∷ [])
    pub bytes : t.byte ≡ zeroed k is_calloc b.addr n s.byte
    pub world : t.world ≡ w

  grown : State W
  grown = record s {
    cell = edit (edit s.cell b.addr (with_size n)) b.addr (with_status alloc);
    list_tail = b.addr;
    world = w;
  }

  Chain-grown : Chain grown.cell (xs ++ extended b n ∷ [])
  unfolding grown
  Chain-grown =
      let (front, back) = ChainTo-split s.cell null xs (b ∷ []) h.chain in
      let (before, _) = AllApart-cross xs (b ∷ []) h.layout.apart in
      let out = Avoids-Before b b.addr xs (omega arith) (omega arith) before.0 in
      ChainTo-join _ null xs (extended b n ∷ [])
        (frame-edit _ b.addr b.addr _ xs out (frame-edit s.cell b.addr b.addr _ xs out front))
        (
          edit_self _ b.addr _
              ∙ ap (with_status alloc) (edit_self s.cell b.addr _ ∙ ap (with_size n) back.0),
          tt,
        )

  grown-IsHeap : IsHeap k start (end_of (extended b n)) grown (xs ++ extended b n ∷ [])
  unfolding grown
  grown-IsHeap =
      let low : stop + (n - b.size) ≤ 2 ^ 62 = g.low in
      let (owned, owned') = All-split (Covered (k.allocated s.world)) xs (b ∷ []) h.owned in
      let (sized, sized') = All-split Sized xs (b ∷ []) h.layout.sized in
      record {
        chain = Chain-grown;
        head =
            h.head
            ∙ first_or-append null xs (b ∷ [])
            ∙ sym (first_or-append null xs (extended b n ∷ []));
        tail = sym (last_or-append null xs (extended b n) []);
        layout = record {
          tiles = Tiles-extend start stop xs b n unmapped h.layout.tiles;
          apart = AllApart-extend xs b n others_outside h.layout.apart;
          sized =
              All-append Sized xs (extended b n ∷ []) sized
                ((even, omega (arith, at_stop), sized'.0.2), tt);
        };
        owned =
            All-append (Covered (k.allocated w)) xs (extended b n ∷ [])
              (all_kept k stop (n - b.size) s.world w g xs owned) (Covered-extended owned'.0, tt);
      }

  pub extend_last_block-Extended : Returns Extended (extend_last_block k n is_calloc s)
  unfolding extend_last_block sbrk set_size set_status modify grown
  extend_last_block-Extended =
      let low : stop + (n - b.size) ≤ 2 ^ 62 = g.low in
      let (_, back) = ChainTo-split s.cell null xs (b ∷ []) h.chain in
      let own : k.allocated s.world b.addr ≡ true =
        (All-split (Covered (k.allocated s.world)) xs (b ∷ []) h.owned).1.0 b.addr (omega arith)
          (omega arith) in
      let tail : s.list_tail ≡ b.addr = h.tail ∙ last_or-append null xs b [] in
      let less : sub64 n b.size ≡ n - b.size =
        sub64-eq-sub n b.size (omega arith) (omega (arith, at_stop)) in
      let valid : (stop == map_failed) ≡ false = ground arith in
      let own' : k.allocated w b.addr ≡ true = g.kept b.addr own in
      let (own_bytes, heap) =
        wiped_block k is_calloc n grown xs (extended b n) [] (omega arith) grown-IsHeap in
      simp
        (
          tail,
          load-ok k s own,
          back.0,
          less,
          grant,
          valid,
          own',
          zero_payload_lem k is_calloc b.addr n,
          own_bytes,
        )
        (returns (record {
          result = refl;
          heap = heap;
          bytes = wiped-byte k is_calloc b.addr n grown;
          world = wiped-world k is_calloc b.addr n grown;
        }))
