-- ===== src/Osmem/Append.antt =====
-- A block from the kernel at the end of the list of mem-allocator/src/osmem.c, and `add_new_block`.
use operating_system_challen.Base.{
  ℕ, ◌+◌, ◌%◌, ◌≡◌, ◌≢◌, refl, sym, ap, ◌∙◌, Bool, true, false, some, List, [], ◌∷◌, ◌++◌, ◌==◌,
  ◌⊎◌, arith, All, All-append, All-mono,
}
use mathlib.Core.List.{append_assoc}
use operating_system_challen.Base.Word.{add64}
use operating_system_challen.Osmem.Memory.{
  is_mapped, Ptr, null, map_failed, Status, alloc, BlockMeta, block_meta, with_next, Kernel, State,
  edit, sbrk, modify, set_size, set_status, set_prev, set_next, meta_size, padding,
}
use operating_system_challen.Osmem.Blocks.{Block, first, Avoids}
use operating_system_challen.Osmem.Blocks.Layout.{Covered}
use operating_system_challen.Osmem.Blocks.Middle.{last_or-append}
use operating_system_challen.Osmem.Chain.{Chain, ChainTo-split, ChainTo-join, frame}
use operating_system_challen.Osmem.Returns.{Returns, returns}
use operating_system_challen.Osmem.Heap.{IsHeap}
use operating_system_challen.Osmem.Clear.{wiped, reachable, zero_payload_lem}
use operating_system_challen.Osmem.Unix.{
  Grants, all_outside_grant, all_kept, stop_with, Layout-append,
}
use operating_system_challen.Osmem.Code.{payload, add_new_block}

-- A list is empty or has a last block.
pub data LastView : List Block → Type 0 where
  empty : LastView []
  snoc : (xs : List Block) (b : Block) → LastView (xs ++ b ∷ [])

pub snoc_view : (bs : List Block) → LastView bs
snoc_view [] = empty
snoc_view (b ∷ bs) = behind (snoc_view bs)
  where
    behind : {cs : List Block} → LastView cs → LastView (b ∷ cs)
    behind empty = snoc [] b
    behind (snoc xs c) = snoc (b ∷ xs) c

module _ {W : Type 0} (k : Kernel W) where
  -- The block `c` now stands behind the list `bs`.
  pub record Appended (s : State W) (bs : List Block) (c : Block) (w : W) (t : State W)
      : Type 0 where
    pub chain : Chain t.cell (bs ++ c ∷ [])
    pub head : t.list_head ≡ first (bs ++ c ∷ [])
    pub tail : t.list_tail ≡ c.addr
    pub world : t.world ≡ w

  pub Appended-IsHeap :
      {start stop : ℕ} (s : State W) (bs : List Block) (c : Block) (w : W) (t : State W)
      → IsHeap k start stop s bs
      → Appended s bs c w t
      → Grants k c.addr (32 + c.size) s.world w
      → c.size % 8 ≡ 0
      → (is_mapped c.status ≡ true) ⊎ (c.addr ≡ stop)
      → IsHeap k start (stop_with stop c) t (bs ++ c ∷ [])
  Appended-IsHeap {start} {stop} s bs c w t h a g even here = record {
    chain = a.chain;
    head = a.head;
    tail = a.tail ∙ sym (last_or-append null bs c []);
    layout =
        Layout-append start stop bs c here
          (All-mono _ _ bs (λ b o. omega (arith, o))
            (all_outside_grant k c.addr (32 + c.size) s.world w g bs (omega arith) h.owned))
          (even, omega (arith, g.low), g.not_null) h.layout;
    owned = rw a.world (
        All-append (Covered (k.allocated w)) bs (c ∷ [])
          (all_kept k c.addr (32 + c.size) s.world w g bs h.owned)
          ((λ a l h. g.owned a l (omega arith)), tt));
  }

pub first-snoc :
    (xs : List Block) (b : Block) (ys : List Block)
    → first ((xs ++ b ∷ []) ++ ys) ≡ first (xs ++ b ∷ [])
first-snoc [] b ys = refl
first-snoc (x ∷ xs) b ys = refl

abbrev pub new_block : Ptr → ℕ → Status → Ptr → Block
new_block p n status prev = record { addr = p; size = n; status = status; prev = prev }

-- Headers that differ at most at `p` and at `q`.
abbrev SameBut : Ptr → Ptr → (h g : Ptr → BlockMeta) → Type 0
SameBut p q h g = (a : Ptr) → a ≢ p → a ≢ q → g a ≡ h a

same_cells :
    (h g : Ptr → BlockMeta) (p q : Ptr) (xs : List Block)
    → SameBut p q h g
    → Avoids p xs
    → Avoids q xs
    → All (λ x. g x.addr ≡ h x.addr) xs
same_cells h g p q [] same o o' = tt
same_cells h g p q (x ∷ xs) same o o' = (same x.addr o.0 o'.0, same_cells h g p q xs same o.1 o'.1)

-- The headers of a list with one block more: the new one points back to the last one, which points
-- to it, and all others are as they were.
pub Chain-append :
    (h g : Ptr → BlockMeta) (xs : List Block) (b : Block) (p n : ℕ) (status : Status)
    → Chain h (xs ++ b ∷ [])
    → Avoids b.addr xs
    → Avoids p xs
    → (g p ≡ block_meta n status b.addr null)
    → (g b.addr ≡ with_next p (h b.addr))
    → SameBut p b.addr h g
    → Chain g ((xs ++ b ∷ []) ++ new_block p n status b.addr ∷ [])
Chain-append h g xs b p n status ch out out' new old same =
    let (front, back) = ChainTo-split h null xs (b ∷ []) ch in
    rw (append_assoc xs (b ∷ []) (new_block p n status b.addr ∷ [])) (
      ChainTo-join g null xs (b ∷ new_block p n status b.addr ∷ [])
        (frame h g b.addr xs (same_cells h g p b.addr xs same out' out) front)
        (old ∙ ap (with_next p) back.0, (new, tt)))

module _ {W : Type 0} (k : Kernel W) where
  -- A list in memory that ends in `b`, and an address that it does not use.
  pub record Ends (s : State W) (xs : List Block) (b : Block) (p : Ptr) (w : W) : Type 0 where
    pub chain : Chain s.cell (xs ++ b ∷ [])
    pub head : s.list_head ≡ first (xs ++ b ∷ [])
    pub tail : s.list_tail ≡ b.addr
    pub apart : p ≢ b.addr
    pub avoids : Avoids b.addr xs
    pub avoids_new : Avoids p xs
    pub valid : p ≢ map_failed
    pub own : k.allocated w p ≡ true
    pub own_tail : k.allocated w b.addr ≡ true

  -- What a function returns that appends the block, in the state `t'`, and then clears `cleared`
  -- bytes for `os_calloc`.
  abbrev pub Served :
      (s : State W) (bs : List Block) (c : Block) (w : W) (is_calloc : Bool) (cleared : ℕ)
      → Ptr
      → State W
      → Type 0
  Served s bs c w is_calloc cleared p t =
      (t' : State W) × Appended k s bs c w t'
      × (p ≡ payload c.addr)
      × (t'.byte ≡ s.byte)
      × (t ≡ wiped k is_calloc c.addr cleared t')

  pub add_new_block-Served :
      (is_calloc : Bool) (n p : ℕ) (s : State W) (xs : List Block) (b : Block) (w : W)
      → Ends s xs b p w
      → k.sbrk (add64 n (meta_size + padding meta_size)) s.world ≡ (some p, w)
      → reachable k is_calloc p n w ≡ true
      → Returns
          (Served s (xs ++ b ∷ []) (new_block p n alloc b.addr) w is_calloc n)
          (add_new_block k n is_calloc s)
  unfolding add_new_block sbrk set_size set_status set_prev set_next modify edit
  add_new_block-Served is_calloc n p s xs b w h grant own_bytes =
      let valid' : (p == map_failed) ≡ false = let v : p ≢ map_failed = h.valid in ground arith in
      let d : p ≢ b.addr = h.apart in
      simp (grant, valid', h.own, h.own_tail, h.tail, zero_payload_lem k is_calloc p n, own_bytes)
        (returns (
          _,
          record {
            chain =
                Chain-append s.cell _ xs b p n alloc h.chain h.avoids h.avoids_new (ground arith)
                  (ground arith) (λ a x y. ground arith);
            head = h.head ∙ sym (first-snoc xs b (new_block p n alloc b.addr ∷ []));
            tail = refl;
            world = refl;
          },
          refl,
          refl,
          refl,
        ))
