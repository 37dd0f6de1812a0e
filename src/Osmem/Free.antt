-- ===== src/Osmem/Free.antt =====
-- `os_free` on a block that `os_malloc` handed out, and on the only block of the list where that
-- block is mapped.
use operating_system_challen.Base.{
  ℕ, ◌^◌, ◌<◌, ◌≡◌, ◌≢◌, refl, sym, ap, ◌∙◌, false, List, ◌∷◌, ◌++◌, ◌==◌, arith, All-split,
  All-append,
}
use operating_system_challen.Osmem.Memory.{
  Ptr, null, free, alloc, Kernel, State, ok, edit, with_status,
}
use operating_system_challen.Osmem.Blocks.{Block}
use operating_system_challen.Osmem.Blocks.Layout.{Sized, Layout, Covered, live, live-append}
use operating_system_challen.Osmem.Blocks.Carve.{Layout-replace}
use operating_system_challen.Osmem.Blocks.Middle.{
  AllApart-cross, Avoids-Before, Avoids-ApartFrom, last_or-append,
}
use operating_system_challen.Osmem.Chain.{
  load-ok, set_status-ok, frame-edit, edit_self, ChainTo-split, ChainTo-join, first_or-append,
}
use operating_system_challen.Osmem.Coalesce.{Readable}
use operating_system_challen.Osmem.Heap.{IsHeap, IsHeap-Readable}
use operating_system_challen.Osmem.Code.{payload, header, os_free}

-- The header of a payload pointer, and a pointer that is not `NULL`.
pub header-payload : (a : Ptr) → a < 2 ^ 63 → (header (payload a) ≡ a) × (payload a ≢ null)
unfolding header payload
header-payload a h = omega arith

Layout-unmark :
    (start stop : ℕ) (xs : List Block) (b : Block) (ys : List Block)
    → b.status ≡ alloc
    → Layout start stop (xs ++ b ∷ ys)
    → Layout start stop (xs ++ (record b { status = free }) ∷ ys)
Layout-unmark start stop xs b ys e =
    Layout-replace start stop xs (b ∷ ys) ((record b { status = free }) ∷ ys) (λ x hx p. p)
      λ s l. record { tiles = rw e at l.tiles; apart = l.apart; sized = l.sized }

-- The state behind `current->status = STATUS_FREE`.
freed : {W : Type 0} → State W → Block → State W
freed s b = record s { cell = edit s.cell b.addr (with_status free) }

module _ {W : Type 0} (k : Kernel W) {start stop : ℕ} where
  freed-IsHeap :
      (s : State W) (xs : List Block) (b : Block) (ys : List Block)
      → IsHeap k start stop s (xs ++ b ∷ ys)
      → b.status ≡ alloc
      → IsHeap k start stop (freed s b) (xs ++ (record b { status = free }) ∷ ys)
  unfolding freed
  freed-IsHeap s xs b ys h e =
      let b' : Block = record b { status = free } in
      let (front, back) = ChainTo-split s.cell 0 xs (b ∷ ys) h.chain in
      let (before, (after, _)) = AllApart-cross xs (b ∷ ys) h.layout.apart in
      let (owned, owned') = All-split (Covered (k.allocated s.world)) xs (b ∷ ys) h.owned in
      record {
        chain =
            ChainTo-join _ 0 xs (b' ∷ ys)
              (frame-edit s.cell b.addr b.addr _ xs
                (Avoids-Before b b.addr xs (omega arith) (omega arith) before.0) front)
              (
                edit_self s.cell b.addr _ ∙ ap (with_status free) back.0,
                frame-edit s.cell 0 b.addr _ ys
                    (Avoids-ApartFrom b b.addr ys (omega arith) (omega arith) after) back.1,
              );
        head = h.head ∙ first_or-append 0 xs (b ∷ ys) ∙ sym (first_or-append 0 xs (b' ∷ ys));
        tail = h.tail ∙ last_or-append null xs b ys ∙ sym (last_or-append null xs b' ys);
        layout = Layout-unmark start stop xs b ys e h.layout;
        owned = All-append (Covered (k.allocated s.world)) xs (b' ∷ ys) owned owned';
      }

  -- `os_free` of a block of a well-formed heap that came from the heap segment and is in use
  -- returns, the heap stays well formed with that block free, the blocks in use are the others, and
  -- the payload bytes and the kernel's state are unchanged.
  pub os_free-IsHeap :
      (s : State W) (xs : List Block) (b : Block) (ys : List Block)
      → IsHeap k start stop s (xs ++ b ∷ ys)
      → b.status ≡ alloc
      → (t : State W) × (os_free k (payload b.addr) s ≡ ok tt t)
        × IsHeap k start stop t (xs ++ (record b { status = free }) ∷ ys)
        × (live (xs ++ b ∷ ys) ≡ live xs ++ (b.addr, b.size, alloc) ∷ live ys)
        × (live (xs ++ (record b { status = free }) ∷ ys) ≡ live xs ++ live ys)
        × (t.byte ≡ s.byte)
        × (t.world ≡ s.world)
  unfolding os_free freed
  os_free-IsHeap s xs b ys h e =
      let own = (All-split (Readable k s.world) xs (b ∷ ys) (IsHeap-Readable k s _ h)).1.0 in
      let sized = (All-split Sized xs (b ∷ ys) h.layout.sized).1.0 in
      let back = (ChainTo-split s.cell 0 xs (b ∷ ys) h.chain).1 in
      let (here, ne) = header-payload b.addr (omega arith) in
      let not_null : (payload b.addr == null) ≡ false = ground arith in
      (
        freed s b,
        rw (not_null, here, load-ok k s own.0, back.0, e, set_status-ok k s own.0 free) refl,
        freed-IsHeap s xs b ys h e,
        rw (live-append xs (b ∷ ys), e) refl,
        live-append xs ((record b { status = free }) ∷ ys),
        refl,
        refl,
      )
