-- ===== src/Osmem/Clear.antt =====
-- The clearing of a payload for `os_calloc` of mem-allocator/src/osmem.c: what it needs, and what it
-- leaves of a well-formed heap.
use operating_system_challen.Base.{
  ℕ, zero, suc, ◌+◌, ◌^◌, ◌≤◌, ◌<◌, ◌≡◌, refl, Bool, true, false, List, [], ◌∷◌, ◌++◌, ◌⊎◌, ltb,
  ◌&&◌, arith, All, All-split, All-append, All-mono, if◌then◌else◌,
}
use native.Mathlib.Decide.{ℕ_discrete}
use operating_system_challen.Base.Word.{add64-eq-add}
use operating_system_challen.Osmem.Memory.{
  Ptr, Bytes, BlockMeta, Kernel, State, ok, fault, padding, all_allocated, overlay, write_bytes,
  memset,
}
use operating_system_challen.Osmem.Blocks.{Block}
use operating_system_challen.Osmem.Blocks.Layout.{Sized, Covered}
use operating_system_challen.Osmem.Blocks.Middle.{AllApart-cross}
use operating_system_challen.Osmem.Chain.{frame}
use operating_system_challen.Osmem.Heap.{IsHeap}
use operating_system_challen.Osmem.Code.{payload, zero_payload}

-- The payload bytes afterwards: zero if the caller is `os_calloc`.
abbrev pub zeroed : {W : Type 0} → Kernel W → Bool → Ptr → ℕ → Bytes → Bytes
zeroed k true p n bytes = k.memset (payload p) 0 n bytes
zeroed k false p n bytes = bytes

-- The state afterwards.
abbrev pub wiped : {W : Type 0} → Kernel W → Bool → Ptr → ℕ → State W → State W
wiped k true p n s = write_bytes k (payload p) n (k.memset (payload p) 0 n s.byte) s
wiped k false p n s = s

-- The process owns the bytes that are cleared.
abbrev pub reachable : {W : Type 0} → Kernel W → Bool → Ptr → ℕ → W → Bool
reachable k true p n w = all_allocated (k.allocated w) (payload p) n
reachable k false p n w = true

pub all_allocated-true :
    (allocated : Ptr → Bool) (p n : ℕ)
    → ((a : Ptr) → p ≤ a → a < p + n → allocated a ≡ true)
    → all_allocated allocated p n ≡ true
unfolding all_allocated
all_allocated-true allocated p zero own = refl
all_allocated-true allocated p (suc n) own =
    rw (own p (omega arith) (omega arith))
      (all_allocated-true allocated (suc p) n (λ a l h. own a (omega arith) (omega arith)))

pub all_allocated-false :
    (allocated : Ptr → Bool) (p n a : ℕ)
    → p ≤ a
    → a < p + n
    → allocated a ≡ false
    → all_allocated allocated p n ≡ false
unfolding all_allocated
all_allocated-false allocated p zero a low high gone = absurd (omega arith)
all_allocated-false allocated p (suc n) a low high gone = elim (ℕ_discrete p a) [
  | yes e ↦ rw (e, gone) refl
  | no d ↦
      let rest = all_allocated-false allocated (suc p) n a (omega arith) (omega arith) gone in
      ground arith
]

pub payload-eq-add : (p : Ptr) → p + 32 < 2 ^ 64 → payload p ≡ p + 32
unfolding payload padding
payload-eq-add p small = add64-eq-add p 32 small

-- No byte of the header at `a` is among the `n` from `q` on.
abbrev pub Beside : Ptr → ℕ → Ptr → Type 0
Beside q n a = (a + 32 ≤ q) ⊎ (q + n ≤ a)

pub overlay-Beside :
    {W : Type 0} (k : Kernel W) (q n : ℕ) (m : Bytes) (h : Ptr → BlockMeta) (a : Ptr)
    → Beside q n a
    → overlay k q n m h a ≡ h a
unfolding overlay
overlay-Beside k q n m h a out =
    let outside : (ltb 0 n && ltb a (q + n) && ltb q (a + 32)) ≡ false = ground arith in
    rw outside refl

module _ {W : Type 0} (k : Kernel W) where
  pub zero_payload_lem :
      (is_calloc : Bool) (p : Ptr) (n : ℕ) (s : State W)
      → zero_payload k is_calloc p n s
        ≡ (if reachable k is_calloc p n s.world then ok tt (wiped k is_calloc p n s) else fault)
  unfolding zero_payload memset
  zero_payload_lem true p n s = refl
  zero_payload_lem false p n s = refl

  pub reachable-true :
      (is_calloc : Bool) (p n : ℕ) (w : W)
      → p + 32 < 2 ^ 64
      → ((a : Ptr) → p + 32 ≤ a → a < p + 32 + n → k.allocated w a ≡ true)
      → reachable k is_calloc p n w ≡ true
  reachable-true true p n w small own =
      rw (payload-eq-add p small) (all_allocated-true (k.allocated w) (p + 32) n own)
  reachable-true false p n w small own = refl

  pub wiped-byte :
      (is_calloc : Bool) (p n : ℕ) (s : State W)
      → (wiped k is_calloc p n s).byte ≡ zeroed k is_calloc p n s.byte
  wiped-byte true p n s = refl
  wiped-byte false p n s = refl

  pub wiped-world :
      (is_calloc : Bool) (p n : ℕ) (s : State W) → (wiped k is_calloc p n s).world ≡ s.world
  wiped-world true p n s = refl
  wiped-world false p n s = refl

  all_overlay :
      (q n : ℕ) (m : Bytes) (h : Ptr → BlockMeta) (bs : List Block)
      → All (λ b. Beside q n b.addr) bs
      → All (λ b. overlay k q n m h b.addr ≡ h b.addr) bs
  all_overlay q n m h [] out = tt
  all_overlay q n m h (b ∷ bs) out =
      (overlay-Beside k q n m h b.addr out.0, all_overlay q n m h bs out.1)

  -- A clear that reaches into no header of the list.
  pub wiped-IsHeap :
      {start stop : ℕ} (is_calloc : Bool) (p n : ℕ) (s : State W) (bs : List Block)
      → All (λ b. Beside (payload p) n b.addr) bs
      → IsHeap k start stop s bs
      → IsHeap k start stop (wiped k is_calloc p n s) bs
  wiped-IsHeap false p n s bs out h = h
  wiped-IsHeap true p n s bs out h = record {
    chain = frame s.cell _ 0 bs (all_overlay (payload p) n _ s.cell bs out) h.chain;
    head = h.head;
    tail = h.tail;
    layout = h.layout;
    owned = h.owned;
  }

  -- A clear of a part of a block's own payload.
  pub wiped_block :
      {start stop : ℕ} (is_calloc : Bool) (n : ℕ) (s : State W) (xs : List Block) (c : Block)
      (ys : List Block)
      → n ≤ c.size
      → IsHeap k start stop s (xs ++ c ∷ ys)
      → (reachable k is_calloc c.addr n s.world ≡ true)
        × IsHeap k start stop (wiped k is_calloc c.addr n s) (xs ++ c ∷ ys)
  wiped_block is_calloc n s xs c ys le h =
      let (_, (own, _)) = All-split (Covered (k.allocated s.world)) xs (c ∷ ys) h.owned in
      let (_, (sized, _)) = All-split Sized xs (c ∷ ys) h.layout.sized in
      let (before, (after, _)) = AllApart-cross xs (c ∷ ys) h.layout.apart in
      let at = payload-eq-add c.addr (omega (arith, sized)) in
      (
        reachable-true is_calloc c.addr n s.world (omega (arith, sized))
            (λ a low high. own a (omega arith) (omega arith)),
        wiped-IsHeap is_calloc c.addr n s (xs ++ c ∷ ys)
            (All-append (λ b. Beside (payload c.addr) n b.addr) xs (c ∷ ys)
              (All-mono _ _ xs (λ x o. omega (arith, at, o)) before.0)
              (omega (arith, at), All-mono _ _ ys (λ y o. omega (arith, at, o)) after))
            h,
      )
