-- ===== src/Osmem/Obtained.antt =====
-- A block of memory that mem-allocator/src/osmem.c hands out: what the functions that append one
-- to the list mean for the heap.
use operating_system_challen.Base.{
  ℕ, ◌+◌, ◌%◌, ◌^◌, ◌≤◌, ◌<◌, ◌≡◌, ◌≢◌, refl, sym, subst, ap, ◌∙◌, Bool, true, false, List, [], ◌∷◌,
  ◌++◌, ◌⊎◌, arith, All-split, All-mono,
}
use mathlib.Core.List.{append-nil}
use operating_system_challen.Osmem.Memory.{
  Ptr, null, Status, alloc, is_free, is_mapped, Kernel, State,
}
use operating_system_challen.Osmem.Blocks.{Block, end_of}
use operating_system_challen.Osmem.Blocks.Layout.{Covered, live, live-append}
use operating_system_challen.Osmem.Blocks.Middle.{AllApart-cross, Avoids-Before, last_or-append}
use operating_system_challen.Osmem.Heap.{IsHeap}
use operating_system_challen.Osmem.Clear.{zeroed, wiped, wiped-byte, wiped-world}
use operating_system_challen.Osmem.Malloc.{Allocated}
use operating_system_challen.Osmem.Unix.{Grants, all_outside_grant, stop_with}
use operating_system_challen.Osmem.Append.{Appended-IsHeap, Ends, Served}
use operating_system_challen.Osmem.Code.{payload}

-- One block more is in use, of `room` bytes behind the header at `addr`, and the others are as they
-- were; the heap segment now ends at `stop`. `os_calloc` has cleared these bytes and the `extra`
-- behind them, and no others.
pub record Obtained {W : Type 0} (k : Kernel W) (start stop : ℕ) (is_calloc : Bool) (extra size : ℕ)
    (s : State W) (bs : List Block) (p : Ptr) (t : State W) : Type 0 where
  pub blocks : List Block
  pub heap : IsHeap k start stop t blocks
  pub addr : Ptr
  pub room : ℕ
  pub status : Status
  pub result : p ≡ payload addr
  pub enough : size ≤ room
  pub used : is_free status ≡ false
  pub bytes : t.byte ≡ zeroed k is_calloc addr (room + extra) s.byte
  pub before : List (Ptr × ℕ × Status)
  pub after : List (Ptr × ℕ × Status)
  pub was : live bs ≡ before ++ after
  pub now : live blocks ≡ before ++ (addr, room, status) ∷ after

pub live-snoc :
    (bs : List Block) (c : Block)
    → is_free c.status ≡ false
    → live (bs ++ c ∷ []) ≡ live bs ++ (c.addr, c.size, c.status) ∷ []
live-snoc bs c e = live-append bs (c ∷ []) ∙ rw e refl

pub live-snoc_free :
    (bs : List Block) (c : Block) → is_free c.status ≡ true → live (bs ++ c ∷ []) ≡ live bs
live-snoc_free bs c e = live-append bs (c ∷ []) ∙ rw e (append-nil (live bs))

module _ {W : Type 0} (k : Kernel W) where
  pub Served-world :
      (is_calloc : Bool) (cleared : ℕ) (s : State W) (bs : List Block) (c : Block) (w : W) (p : Ptr)
      (t : State W)
      → Served k s bs c w is_calloc cleared p t
      → t.world ≡ w
  Served-world is_calloc cleared s bs c w p t (t', a, _, _, e) =
      ap (λ x. x.world) e ∙ wiped-world k is_calloc c.addr cleared t' ∙ a.world

module _ {W : Type 0} (k : Kernel W) {start stop : ℕ} where
  pub Ends-IsHeap :
      (s : State W) (xs : List Block) (b : Block) (p m : ℕ) (w : W)
      → IsHeap k start stop s (xs ++ b ∷ [])
      → 0 < m
      → Grants k p m s.world w
      → Ends k s xs b p w
  Ends-IsHeap s xs b p m w h more g =
      let (_, here) = All-split (Covered (k.allocated s.world)) xs (b ∷ []) h.owned in
      let own = here.0 b.addr (omega arith) (omega arith) in
      let (out, out') =
        All-split (λ x. (end_of x ≤ p) ⊎ (p + m ≤ x.addr)) xs (b ∷ [])
          (all_outside_grant k p m s.world w g (xs ++ b ∷ []) more h.owned) in
      let (before, _) = AllApart-cross xs (b ∷ []) h.layout.apart in
      let low : p + m ≤ 2 ^ 62 = g.low in
      record {
        chain = h.chain;
        head = h.head;
        tail = h.tail ∙ last_or-append 0 xs b [];
        apart = omega (arith, out'.0);
        avoids = Avoids-Before b b.addr xs (omega arith) (omega arith) before.0;
        avoids_new = All-mono _ _ xs (λ x o. omega (arith, o)) out;
        valid = omega arith;
        own = g.owned p (omega arith) (omega arith);
        own_tail = g.kept b.addr own;
      }

  pub Served-Obtained :
      (is_calloc : Bool) (extra size cleared : ℕ) (s : State W) (bs : List Block) (c : Block)
      (w : W)
      → IsHeap k start stop s bs
      → Grants k c.addr (32 + c.size) s.world w
      → c.size % 8 ≡ 0
      → is_free c.status ≡ false
      → (is_mapped c.status ≡ true) ⊎ (c.addr ≡ stop)
      → size ≤ c.size
      → cleared ≡ c.size + extra
      → ((t' : State W)
          → IsHeap k start (stop_with stop c) t' (bs ++ c ∷ [])
          → IsHeap k start (stop_with stop c) (wiped k is_calloc c.addr cleared t') (bs ++ c ∷ []))
      → (p : Ptr) (t : State W) → Served k s bs c w is_calloc cleared p t
      → Obtained k start (stop_with stop c) is_calloc extra size s bs p t
  Served-Obtained is_calloc extra size cleared s bs c w h g even used here enough clears clean p t
        (t', a, result, bytes, e) =
      record {
        blocks = bs ++ c ∷ [];
        heap =
            subst (λ x. IsHeap k start (stop_with stop c) x (bs ++ c ∷ [])) (sym e)
              (clean t' (Appended-IsHeap k s bs c w t' h a g even here));
        addr = c.addr;
        room = c.size;
        status = c.status;
        result = result;
        enough = enough;
        used = used;
        bytes =
            ap (λ x. x.byte) e
            ∙ wiped-byte k is_calloc c.addr cleared t'
            ∙ ap (zeroed k is_calloc c.addr cleared) bytes
            ∙ ap (λ n. zeroed k is_calloc c.addr n s.byte) clears;
        before = live bs;
        after = [];
        was = sym (append-nil (live bs));
        now = live-snoc bs c used;
      }

  -- A block of the list that was free.
  pub Allocated-Obtained :
      (is_calloc : Bool) (size : ℕ) (s : State W) (bs : List Block) (p : Ptr) (t : State W)
      → Allocated k start stop is_calloc size s bs p t
      → Obtained k start stop is_calloc 0 size s bs p t
  Allocated-Obtained is_calloc size s bs p t r = record {
    blocks = r.blocks;
    heap = r.heap;
    addr = r.addr;
    room = r.room;
    status = alloc;
    result = r.result;
    enough = r.enough;
    used = refl;
    bytes = r.bytes ∙ ap (λ n. zeroed k is_calloc r.addr n s.byte) (omega arith);
    before = r.before;
    after = r.after;
    was = r.was;
    now = r.now;
  }

  pub head_not_null :
      (s : State W) (xs : List Block) (b : Block)
      → IsHeap k start stop s (xs ++ b ∷ [])
      → s.list_head ≢ null
  head_not_null s [] b h = let e = h.head in let ne = h.layout.sized.0.2 in omega arith
  head_not_null s (x ∷ xs) b h = let e = h.head in let ne = h.layout.sized.0.2 in omega arith

  -- A state with the same bytes and the same blocks in use is as good to compare with.
  pub Obtained-before :
      (is_calloc : Bool) (extra size : ℕ) (s s' : State W) (bs bs' : List Block)
      → s'.byte ≡ s.byte
      → live bs' ≡ live bs
      → (p : Ptr) (t : State W) → Obtained k start stop is_calloc extra size s' bs' p t
      → Obtained k start stop is_calloc extra size s bs p t
  Obtained-before is_calloc extra size s s' bs bs' same same' p t r = record {
    blocks = r.blocks;
    heap = r.heap;
    addr = r.addr;
    room = r.room;
    status = r.status;
    result = r.result;
    enough = r.enough;
    used = r.used;
    bytes = r.bytes ∙ ap (zeroed k is_calloc r.addr (r.room + extra)) same;
    before = r.before;
    after = r.after;
    was = sym same' ∙ r.was;
    now = r.now;
  }
