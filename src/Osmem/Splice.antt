-- ===== src/Osmem/Splice.antt =====
-- The functions of mem-allocator/src/osmem.c that change the list around one block.
use operating_system_challen.Base.{ℕ, ◌≡◌, ◌≢◌, refl, false, List, [], ◌∷◌, ◌++◌, ◌==◌, arith}
use operating_system_challen.Osmem.Memory.{
  Ptr, null, free, BlockMeta, Kernel, State, edit, with_size, with_status, with_prev, with_next,
  modify, load, set_size, set_status, set_prev, set_next,
}
use operating_system_challen.Osmem.Blocks.{Block, Avoids}
use operating_system_challen.Osmem.Blocks.Carve.{remainder, pieces}
use operating_system_challen.Osmem.Chain.{ChainTo, Chain, ChainTo-join, frame-edit}
use operating_system_challen.Osmem.Returns.{Returns, returns}
use operating_system_challen.Osmem.Coalesce.{Readable, SameRest}
use operating_system_challen.Osmem.Code.{split_block}

module _ {W : Type 0} (k : Kernel W) where
  -- The tail pointer moves only if the split block was the last one.
  abbrev pub Split : State W → List Block → Block → ℕ → List Block → State W → Type 0
  Split s xs b n ys t =
      Chain t.cell (xs ++ pieces b n ys)
      × (t.list_tail ≡ elim ys [ [] ↦ (remainder b n).addr | _ ∷ _ ↦ s.list_tail ])
      × SameRest s t

  -- The writes of `split_block` before and behind the one to the next block.
  new_cells : (Ptr → BlockMeta) → Block → ℕ → Ptr → Ptr → BlockMeta
  new_cells h b n next =
      let q = (remainder b n).addr in
      edit (edit (edit h q (with_status free)) q (with_size (remainder b n).size)) q
        (with_next next)

  link_cells : (Ptr → BlockMeta) → Block → ℕ → Ptr → BlockMeta
  link_cells h b n =
      let q = (remainder b n).addr in
      edit (edit (edit h b.addr (with_next q)) q (with_prev b.addr)) b.addr (with_size n)

  frame-new_cells :
      (h : Ptr → BlockMeta) (stop : Ptr) (b : Block) (n next : ℕ) (xs : List Block)
      → Avoids (remainder b n).addr xs
      → ChainTo h stop xs
      → ChainTo (new_cells h b n next) stop xs
  unfolding new_cells
  frame-new_cells h stop b n next xs out c =
      let q = (remainder b n).addr in
      frame-edit _ stop q _ xs out (frame-edit _ stop q _ xs out (frame-edit _ stop q _ xs out c))

  frame-link_cells :
      (h : Ptr → BlockMeta) (stop : Ptr) (b : Block) (n : ℕ) (xs : List Block)
      → Avoids b.addr xs
      → Avoids (remainder b n).addr xs
      → ChainTo h stop xs
      → ChainTo (link_cells h b n) stop xs
  unfolding link_cells
  frame-link_cells h stop b n xs out out' c =
      let p = b.addr in
      frame-edit _ stop p _ xs out
        (frame-edit _ stop (remainder b n).addr _ xs out' (frame-edit _ stop p _ xs out c))

  pub split_block_last :
      (s : State W) (xs : List Block) (b : Block) (n : ℕ)
      → ChainTo s.cell b.addr xs
      → Chain s.cell (b ∷ [])
      → Avoids b.addr xs
      → Avoids (remainder b n).addr xs
      → (remainder b n).addr ≢ b.addr
      → Readable k s.world b
      → Readable k s.world (remainder b n)
      → Returns (λ _. Split s xs b n []) (split_block k b.addr n s)
  unfolding split_block set_size set_status set_prev set_next load modify new_cells link_cells edit
  split_block_last s xs b n c d out out' ne own own' =
      simp (own.0, own'.0, d.0)
        (returns (
          ChainTo-join _ null xs (pieces b n [])
              (frame-link_cells _ b.addr b n xs out out'
                (frame-new_cells s.cell b.addr b n null xs out' c))
              (ground arith, (ground arith, tt)),
          refl,
          record { head = refl; bytes = refl; world = refl },
        ))

  pub split_block_inner :
      (s : State W) (xs : List Block) (b : Block) (n : ℕ) (c : Block) (cs : List Block)
      → ChainTo s.cell b.addr xs
      → Chain s.cell (b ∷ c ∷ cs)
      → Avoids b.addr xs
      → Avoids (remainder b n).addr xs
      → Avoids c.addr xs
      → (remainder b n).addr ≢ b.addr
      → Avoids b.addr (c ∷ cs)
      → Avoids (remainder b n).addr (c ∷ cs)
      → Avoids c.addr cs
      → Readable k s.world b
      → Readable k s.world (remainder b n)
      → Readable k s.world c
      → Returns (λ _. Split s xs b n (c ∷ cs)) (split_block k b.addr n s)
  unfolding split_block set_size set_status set_prev set_next load modify new_cells link_cells edit
  split_block_inner s xs b n c cs front d out out' out'' ne later later' later'' own own' next =
      let more : (c.addr == null) ≡ false = ground arith in
      let q = (remainder b n).addr in
      simp (own.0, own'.0, next.0, d.0, more)
        (returns (
          ChainTo-join _ null xs (pieces b n (c ∷ cs))
              (frame-link_cells _ b.addr b n xs out out' (
                frame-edit _ b.addr c.addr (with_prev q) xs out''
                  (frame-new_cells s.cell b.addr b n c.addr xs out' front)))
              (
                ground arith,
                (
                  ground arith,
                  (
                    ground arith,
                    frame-link_cells _ null b n cs later.1 later'.1 (
                        frame-edit _ null c.addr (with_prev q) cs later''
                          (frame-new_cells s.cell null b n c.addr cs later'.1 d.1.1)),
                  ),
                ),
              ),
          refl,
          record { head = refl; bytes = refl; world = refl },
        ))
