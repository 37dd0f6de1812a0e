-- ===== src/Osmem/Take.antt =====
-- `use_best`: a free block of a well-formed heap is taken, and split if that leaves room.
use operating_system_challen.Base.{
  ℕ, ◌+◌, ◌%◌, ◌≤◌, ◌≡◌, refl, sym, ap, ◌∙◌, Bool, true, false, not, ◌&&◌, List, [], ◌∷◌, ◌++◌,
  arith, All, All-split, All-append, Bool-cases, inl, inr, if◌then◌else◌,
}
use operating_system_challen.Osmem.Memory.{
  Ptr, null, free, alloc, BlockMeta, Kernel, State, edit, with_status, pure,
}
use operating_system_challen.Osmem.Blocks.{Block, first_or, last, last_or}
use operating_system_challen.Osmem.Blocks.Layout.{Sized, AllApart, Covered}
use operating_system_challen.Osmem.Blocks.Carve.{
  remainder, relink, pieces, splits, carve, carved, carve_split, carve_whole, splits_room,
  remainder_place, Layout-carve, Covered-carve, first-carve, Layout-mark,
}
use operating_system_challen.Osmem.Blocks.Middle.{
  AllApart-cross, Avoids-Before, Avoids-ApartFrom, last_or-append,
}
use operating_system_challen.Osmem.Chain.{
  Chain, load-ok, set_status-ok, frame-edit, edit_self, ChainTo-split, ChainTo-join,
  first_or-append,
}
use operating_system_challen.Osmem.Splice.{Split, split_block_last, split_block_inner}
use operating_system_challen.Osmem.Returns
use operating_system_challen.Osmem.Returns.{Returns, returns}
use operating_system_challen.Osmem.Coalesce.{Readable, SameRest}
use operating_system_challen.Osmem.Heap.{IsHeap, IsHeap-Readable}
use operating_system_challen.Osmem.Clear.{
  zeroed, wiped, reachable, zero_payload_lem, wiped-byte, wiped-world, wiped_block,
}
use operating_system_challen.Osmem.Code.{payload, split_block, use_best}

nested_if {ℓ} :
    {A : Type ℓ} (p q : Bool) (x y : A)
    → (if p then y else (if q then x else y)) ≡ (if not p && q then x else y)
nested_if true q x y = refl
nested_if false q x y = refl

module _ {W : Type 0} (k : Kernel W) where
  -- The list's facts that `split_block` rests on.
  split_block-pieces :
      (s : State W) (xs : List Block) (b : Block) (n : ℕ) (ys : List Block)
      → Chain s.cell (xs ++ b ∷ ys)
      → AllApart (xs ++ b ∷ ys)
      → Sized b
      → n + 32 ≤ b.size
      → All (Readable k s.world) (b ∷ ys)
      → Readable k s.world (remainder b n)
      → Returns (λ _. Split k s xs b n ys) (split_block k b.addr n s)
  split_block-pieces s xs b n [] c apart hb room own own' =
      let (front, back) = ChainTo-split s.cell 0 xs (b ∷ []) c in
      let (before, _) = AllApart-cross xs (b ∷ []) apart in
      let place = remainder_place b n hb room in
      split_block_last k s xs b n front back
        (Avoids-Before b b.addr xs (omega arith) (omega arith) before.0)
        (Avoids-Before b (remainder b n).addr xs (omega arith) (omega arith) before.0) (omega arith)
        own.0 own'
  split_block-pieces s xs b n (d ∷ ds) c apart hb room own own' =
      let q = (remainder b n).addr in
      let (front, back) = ChainTo-split s.cell 0 xs (b ∷ d ∷ ds) c in
      let (before, (after, rest)) = AllApart-cross xs (b ∷ d ∷ ds) apart in
      let place = remainder_place b n hb room in
      split_block_inner k s xs b n d ds front back
        (Avoids-Before b b.addr xs (omega arith) (omega arith) before.0)
        (Avoids-Before b q xs (omega arith) (omega arith) before.0)
        (Avoids-Before d d.addr xs (omega arith) (omega arith) before.1.0) (omega arith)
        (Avoids-ApartFrom b b.addr (d ∷ ds) (omega arith) (omega arith) after)
        (Avoids-ApartFrom b q (d ∷ ds) (omega arith) (omega arith) after)
        (Avoids-ApartFrom d d.addr ds (omega arith) (omega arith) rest.0) own.0 own' own.1.0

  -- The heap behind the front part `xs` now reads `carve b n ys`.
  abbrev Carved : State W → List Block → Block → ℕ → List Block → State W → Type 0
  Carved s xs b n ys t =
      Chain t.cell (xs ++ carve b n ys) × (t.list_tail ≡ last (xs ++ carve b n ys)) × SameRest s t

  tail_whole :
      (s : State W) (xs : List Block) (b b' : Block) (ys : List Block)
      → b.addr ≡ b'.addr
      → s.list_tail ≡ last (xs ++ b ∷ ys)
      → s.list_tail ≡ last (xs ++ b' ∷ ys)
  tail_whole s xs b b' ys e h =
      h
      ∙ last_or-append null xs b ys
      ∙ ap (λ p. last_or p ys) e
      ∙ sym (last_or-append null xs b' ys)

  tail_pieces :
      (s t : State W) (xs : List Block) (b : Block) (n : ℕ) (ys : List Block)
      → s.list_tail ≡ last (xs ++ b ∷ ys)
      → t.list_tail ≡ (elim ys [ [] ↦ (remainder b n).addr | _ ∷ _ ↦ s.list_tail ])
      → t.list_tail ≡ last (xs ++ pieces b n ys)
  tail_pieces s t xs b n [] h e =
      e ∙ sym (last_or-append null xs (record b { size = n }) (remainder b n ∷ []))
  tail_pieces s t xs b n (d ∷ ds) h e =
      e
      ∙ h
      ∙ last_or-append null xs b (d ∷ ds)
      ∙ sym (
          last_or-append null xs (record b { size = n })
            (remainder b n ∷ relink (remainder b n).addr (d ∷ ds)))

  split_or_not :
      (s : State W) (xs : List Block) (b : Block) (n : ℕ) (ys : List Block)
      → Chain s.cell (xs ++ (record b { status = alloc }) ∷ ys)
      → s.list_tail ≡ last (xs ++ (record b { status = alloc }) ∷ ys)
      → AllApart (xs ++ (record b { status = alloc }) ∷ ys)
      → Sized b
      → n ≤ b.size
      → All (Readable k s.world) (b ∷ ys)
      → Covered (k.allocated s.world) b
      → Returns
          (λ _. Carved s xs b n ys)
          ((if splits b n then split_block k b.addr n else pure tt) s)
  split_or_not s xs b n ys c tail apart hb le own cover = elim (Bool-cases (splits b n)) [
    | inr e ↦ rw (e) (
        returns
          (rw (carve_whole b n ys e) (c, tail, record { head = refl; bytes = refl; world = refl })))
    | inl e ↦
        let b' : Block = record b { status = alloc } in
        let room = splits_room b n e le hb in
        let place = remainder_place b n hb room in
        rw (e) (
          Returns.mono
            (split_block-pieces s xs b' n ys c apart hb room own
              (cover (remainder b n).addr (omega arith) (omega arith), omega arith))
            λ _ t (chain, tail', rest).
              rw (carve_split b n ys e) (chain, tail_pieces s t xs b' n ys tail tail', rest))
  ]

  carved_front :
      (h : Ptr → BlockMeta) (xs : List Block) (b : Block) (n : ℕ) (ys : List Block)
      → Chain h (xs ++ carve b n ys)
      → (h b.addr).size ≡ carved b n
  carved_front h xs b n ys c =
      let (_, back) = ChainTo-split h 0 xs (carve b n ys) c in
      elim (Bool-cases (splits b n)) [
        | inl e ↦ rw (e) (ap (λ m. m.size) (rw (carve_split b n ys e) at back).0)
        | inr e ↦ rw (e) (ap (λ m. m.size) (rw (carve_whole b n ys e) at back).0)
      ]

  -- What `use_best` does with `n` bytes of the free block `b`.
  pub record Taken (start stop : ℕ) (is_calloc : Bool) (s : State W) (xs : List Block) (b : Block)
      (n : ℕ) (ys : List Block) (p : Ptr) (t : State W) : Type 0 where
    pub result : p ≡ payload b.addr
    pub heap : IsHeap k start stop t (xs ++ carve b n ys)
    pub bytes : t.byte ≡ zeroed k is_calloc b.addr (carved b n) s.byte
    pub world : t.world ≡ s.world

  module _ {start stop : ℕ} (is_calloc : Bool) (s : State W) (xs : List Block) (b : Block) (n : ℕ)
      (ys : List Block) (h : IsHeap k start stop s (xs ++ b ∷ ys)) (is : b.status ≡ free)
      (even : n % 8 ≡ 0) (le : n ≤ b.size) where
    Sized-b : Sized b
    Sized-b = (All-split Sized xs (b ∷ ys) h.layout.sized).1.0

    -- The state behind `best_block->status = STATUS_ALLOC`.
    marked : State W
    marked = record s { cell = edit s.cell b.addr (with_status alloc) }

    Chain-marked : Chain marked.cell (xs ++ (record b { status = alloc }) ∷ ys)
    unfolding marked
    Chain-marked =
        let (front, back) = ChainTo-split s.cell 0 xs (b ∷ ys) h.chain in
        let (before, (after, _)) = AllApart-cross xs (b ∷ ys) h.layout.apart in
        ChainTo-join _ 0 xs ((record b { status = alloc }) ∷ ys)
          (frame-edit s.cell b.addr b.addr _ xs
            (Avoids-Before b b.addr xs (omega arith) (omega arith) before.0) front)
          (
            edit_self s.cell b.addr _ ∙ ap (with_status alloc) back.0,
            frame-edit s.cell 0 b.addr _ ys
                (Avoids-ApartFrom b b.addr ys (omega arith) (omega arith) after) back.1,
          )

    Carved-IsHeap :
        (t : State W) → Carved marked xs b n ys t → IsHeap k start stop t (xs ++ carve b n ys)
    unfolding marked
    Carved-IsHeap t (chain, tail, rest) = record {
      chain = chain;
      head =
          rest.head
          ∙ h.head
          ∙ first_or-append 0 xs (b ∷ ys)
          ∙ ap (first_or xs) (sym (first-carve b n ys))
          ∙ sym (first_or-append 0 xs (carve b n ys));
      tail = tail;
      layout = Layout-carve start stop xs b n ys is even le h.layout;
      owned =
          let used = k.allocated s.world in
          let (before, after) = All-split (Covered used) xs (b ∷ ys) h.owned in
          rw rest.world (
            All-append (Covered used) xs (carve b n ys) before
              (Covered-carve used b n ys Sized-b le after));
    }

    -- The clear stays in the block taken.
    wiped-carved :
        (t : State W)
        → IsHeap k start stop t (xs ++ carve b n ys)
        → (reachable k is_calloc b.addr (carved b n) t.world ≡ true)
          × IsHeap k start stop (wiped k is_calloc b.addr (carved b n) t) (xs ++ carve b n ys)
    wiped-carved t heap = elim (Bool-cases (splits b n)) [
      | inl e ↦
          rw (carve_split b n ys e, e)
            (wiped_block k is_calloc n t xs (record b { size = n; status = alloc }) _ (omega arith)
              (rw (carve_split b n ys e) at heap))
      | inr e ↦
          rw (carve_whole b n ys e, e)
            (wiped_block k is_calloc b.size t xs (record b { status = alloc }) ys (omega arith)
              (rw (carve_whole b n ys e) at heap))
    ]

    finish :
        (t : State W)
        → Carved marked xs b n ys t
        → Taken start stop is_calloc s xs b n ys
            (payload b.addr)
            (wiped k is_calloc b.addr (carved b n) t)
    unfolding marked
    finish t (chain, tail, rest) = record {
      result = refl;
      heap = (wiped-carved t (Carved-IsHeap t (chain, tail, rest))).1;
      bytes =
          wiped-byte k is_calloc b.addr (carved b n) t
          ∙ ap (zeroed k is_calloc b.addr (carved b n)) rest.bytes;
      world = wiped-world k is_calloc b.addr (carved b n) t ∙ rest.world;
    }

    pub use_best-Taken :
        Returns (Taken start stop is_calloc s xs b n ys) (use_best k b.addr n is_calloc s)
    unfolding use_best marked
    use_best-Taken =
        let own = (All-split (Readable k s.world) xs (b ∷ ys) (IsHeap-Readable k s _ h)).1 in
        let cover = (All-split (Covered (k.allocated s.world)) xs (b ∷ ys) h.owned).1.0 in
        let (front, back) = ChainTo-split s.cell 0 xs (b ∷ ys) h.chain in
        rw (load-ok k s own.0.0, back.0, set_status-ok k s own.0.0 alloc, nested_if)
          (Returns.bind
            (split_or_not marked xs b n ys Chain-marked
              (tail_whole s xs b (record b { status = alloc }) ys refl h.tail)
              (Layout-mark start stop xs b ys is h.layout).apart Sized-b le own cover)
            λ _ t r.
              let own_t : k.allocated t.world b.addr ≡ true = rw r.2.world own.0.0 in
              rw
                (
                  load-ok k t own_t,
                  carved_front t.cell xs b n ys r.0,
                  zero_payload_lem k is_calloc b.addr (carved b n) t,
                  (wiped-carved t (Carved-IsHeap t r)).0,
                )
                (returns (finish t r)))
