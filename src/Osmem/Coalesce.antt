-- ===== src/Osmem/Coalesce.antt =====
-- `coalesce_free_blocks` makes one block of each run of free blocks.
use operating_system_challen.Base.{
  ℕ, zero, suc, ◌<◌, ◌≡◌, ◌≢◌, refl, ◌∙◌, sym, subst, true, false, List, [], ◌∷◌, ◌==◌, arith, All,
  length, Bool-cases, inl, inr, if◌then◌else◌,
}
use operating_system_challen.Osmem.Memory.{
  Ptr, null, is_free, BlockMeta, Kernel, State, Run, edit, with_size, with_next, set_tail, pure,
  ◌>>=◌, ◌>>◌, load,
}
use operating_system_challen.Osmem.Blocks.{
  Block, first, last_or, Avoids, Distinct, grow, absorbed, merge,
}
use operating_system_challen.Osmem.Blocks.Merge.{
  absorbed_free, absorbed_used, merge-absorbed, merge_used, first-merge, All-absorbed,
  absorbed_rest, last_or-merge_from,
}
use operating_system_challen.Osmem.Chain.{
  Chain, SameOutside, load-ok, set_size-ok, set_next-ok, edit_self, edit_other, frame-edit,
}
use operating_system_challen.Osmem.Returns
use operating_system_challen.Osmem.Returns.{Returns, returns}
use operating_system_challen.Osmem.Code.{absorb, coalesce_loop, coalesce_free_blocks}

-- The header of `b` can be read, and its address is not `NULL`.
abbrev pub Readable : {W : Type 0} → Kernel W → W → Block → Type 0
Readable k w b = (k.allocated w b.addr ≡ true) × (b.addr ≢ null)

module _ {W : Type 0} where
  -- Two states differ at most in headers and in `list_tail`.
  pub record SameRest (s t : State W) : Type 0 where
    pub head : t.list_head ≡ s.list_head
    pub bytes : t.byte ≡ s.byte
    pub world : t.world ≡ s.world

  pub SameRest-refl : (s : State W) → SameRest s s
  SameRest-refl s = record { head = refl; bytes = refl; world = refl }

  pub SameRest-trans : {s t u : State W} → SameRest s t → SameRest t u → SameRest s u
  SameRest-trans p q = record {
    head = q.head ∙ p.head;
    bytes = q.bytes ∙ p.bytes;
    world = q.world ∙ p.world;
  }

  abbrev Absorbed : State W → Block → List Block → State W → Type 0
  Absorbed s b bs t =
      Chain t.cell ((absorbed b bs).0 ∷ (absorbed b bs).1)
      × SameOutside (b ∷ []) s.cell t.cell
      × (t.list_tail ≡ s.list_tail)
      × SameRest s t

module _ {W : Type 0} (k : Kernel W) where
  -- The two writes of one round of the inner loop.
  grow_cell : (Ptr → BlockMeta) → Block → Block → Ptr → Ptr → BlockMeta
  grow_cell h b d next = edit (edit h b.addr (with_size (grow b d).size)) b.addr (with_next next)

  Chain-grow_cell :
      (h : Ptr → BlockMeta) (b d : Block) (ds : List Block)
      → Chain h (b ∷ d ∷ ds)
      → Avoids b.addr (d ∷ ds)
      → Chain (grow_cell h b d (first ds)) (grow b d ∷ ds)
  unfolding grow_cell
  Chain-grow_cell h b d ds c out = (
    edit_self _ b.addr _ ∙ rw (edit_self, c.0) refl,
    frame-edit _ null b.addr _ ds out.1 (frame-edit _ null b.addr _ ds out.1 c.1.1),
  )

  grow_cell_other :
      (h : Ptr → BlockMeta) (b d : Block) (next a : Ptr) → a ≢ b.addr → grow_cell h b d next a ≡ h a
  unfolding grow_cell
  grow_cell_other h b d next a ne = edit_other _ b.addr a _ ne ∙ edit_other h b.addr a _ ne

  absorb-Absorbed :
      (fuel : ℕ) (b : Block) (bs : List Block) (s : State W)
      → Chain s.cell (b ∷ bs)
      → Avoids b.addr bs
      → Readable k s.world b
      → All (Readable k s.world) bs
      → length bs < fuel
      → Returns (λ _. Absorbed s b bs) (absorb k fuel b.addr s)
  unfolding absorb grow_cell
  absorb-Absorbed zero b bs s c out own all fuel = absurd (omega arith)
  absorb-Absorbed (suc n) b [] s c out own all fuel =
      rw (load-ok k s own.0, c.0)
        (unfold absorbed in returns (c, λ a o. refl, refl, SameRest-refl s))
  absorb-Absorbed (suc n) b (d ∷ ds) s c out own all fuel =
      let more : (d.addr == null) ≡ false = ground arith in
      rw (load-ok k s own.0, c.0, more, load-ok k s all.0.0, c.1.0)
        (elim (Bool-cases (is_free d.status)) [
          | inr e ↦
              rw e (returns (rw (absorbed_used b d ds e) (c, λ a o. refl, refl, SameRest-refl s)))
          | inl e ↦
              let s' = record s { cell = edit s.cell b.addr (with_size (grow b d).size) } in
              let t = record s { cell = grow_cell s.cell b d (first ds) } in
              rw (e, set_size-ok k s own.0 _, set_next-ok k s' own.0 _)
                (Returns.mono
                  (absorb-Absorbed n (grow b d) ds t (Chain-grow_cell s.cell b d ds c out) out.1 own
                    all.1 (omega arith))
                  λ _ u (chain, same, tail, rest). rw (absorbed_free b d ds e) (
                    chain,
                    λ a o. same a o ∙ grow_cell_other s.cell b d (first ds) a (λ q. o.0 (sym q)),
                    tail,
                    ground arith,
                  ))
        ])

module _ {W : Type 0} where
  -- `t` is `s` with the headers of `bs` replaced by those of `cs`, which `list_tail` ends.
  pub record Becomes (s : State W) (bs cs : List Block) (t : State W) : Type 0 where
    pub chain : Chain t.cell cs
    pub outside : SameOutside bs s.cell t.cell
    pub tail : t.list_tail ≡ last_or s.list_tail cs
    pub rest : SameRest s t

module _ {W : Type 0} (k : Kernel W) where
  abbrev Looped : ℕ → Type 0
  Looped n =
      (bs : List Block) (s : State W)
      → Chain s.cell bs
      → Distinct bs
      → All (Readable k s.world) bs
      → length bs < n
      → Returns (λ _. Becomes s bs (merge bs)) (coalesce_loop k n (first bs) s)

  -- The part of a round behind the inner loop, and the later rounds.
  finish_round : ℕ → Ptr → State W → Run W (Unit {0})
  finish_round n current = do
    m' ← load k current
    if m'.next == null then set_tail current else pure tt
    coalesce_loop k n m'.next

  finish_round_lem :
      (n : ℕ)
      → Looped n
      → (b : Block) (bs : List Block) (s : State W) → Chain s.cell (b ∷ bs)
      → Avoids b.addr bs
      → Distinct bs
      → Readable k s.world b
      → All (Readable k s.world) bs
      → length bs < n
      → Returns (λ _. Becomes s (b ∷ bs) (b ∷ merge bs)) (finish_round n b.addr s)
  unfolding finish_round merge
  finish_round_lem n loop b [] s c out dis own all fuel =
      rw (load-ok k s own.0, c.0)
        (Returns.mono (loop [] (record s { list_tail = b.addr }) tt tt tt fuel) λ _ t r. record {
          chain = (r.outside b.addr tt ∙ c.0, r.chain);
          outside = λ a o. r.outside a tt;
          tail = r.tail;
          rest = SameRest-trans (record { head = refl; bytes = refl; world = refl }) r.rest;
        })
  finish_round_lem n loop b (d ∷ ds) s c out dis own all fuel =
      let more : (d.addr == null) ≡ false = ground arith in
      rw (load-ok k s own.0, c.0, more)
        (Returns.mono (loop (d ∷ ds) s c.1 dis all fuel) λ _ t r. record {
          chain = (rw (first-merge (d ∷ ds)) (r.outside b.addr out ∙ c.0), r.chain);
          outside = λ a o. r.outside a o.1;
          tail = r.tail ∙ last_or-merge_from s.list_tail b.addr d ds;
          rest = r.rest;
        })

  -- The rounds behind an inner loop that has merged `b` with what follows it.
  later_rounds :
      (n : ℕ)
      → Looped n
      → (b : Block) (bs : List Block) (s : State W) → Distinct (b ∷ bs)
      → All (Readable k s.world) (b ∷ bs)
      → is_free b.status ≡ true
      → length bs < n
      → (u : Unit {0}) (t : State W) → Absorbed s b bs t
      → Returns (λ _. Becomes s (b ∷ bs) (merge (b ∷ bs))) (finish_round n b.addr t)
  later_rounds n loop b bs s dis all e fuel _ t (chain, same, tail, rest) =
      let (dis', len, at) = absorbed_rest b bs dis.1 in
      let own = All-absorbed (Readable k s.world) b bs all.1 in
      let out = All-absorbed (λ x. x.addr ≢ b.addr) b bs dis.0 in
      subst (λ a. Returns (λ _. Becomes s (b ∷ bs) (merge (b ∷ bs))) (finish_round n a t)) at
        (Returns.mono
          (finish_round_lem n loop (absorbed b bs).0 (absorbed b bs).1 t chain (rw at out) dis'
            (rw (rest.world, at) all.0) (rw rest.world own) (omega arith))
          λ _ u r. record {
            chain = rw (merge-absorbed b bs e) r.chain;
            outside = λ a o.
                r.outside a (rw at o.0, All-absorbed (λ x. x.addr ≢ a) b bs o.1) ∙ same a (o.0, tt);
            tail = rw (merge-absorbed b bs e) r.tail;
            rest = SameRest-trans rest r.rest;
          })

  coalesce_loop-merge : (n : ℕ) → Looped n
  unfolding coalesce_loop finish_round
  coalesce_loop-merge zero bs s c dis all fuel = absurd (omega arith)
  coalesce_loop-merge (suc n) [] s c dis all fuel =
      unfold merge in
      returns (record { chain = tt; outside = λ a o. refl; tail = refl; rest = SameRest-refl s })
  coalesce_loop-merge (suc n) (b ∷ bs) s c dis all fuel =
      let more : (b.addr == null) ≡ false = ground arith in
      rw (more, load-ok k s all.0.0, c.0)
        (elim (Bool-cases (is_free b.status)) [
          | inr e ↦
              rw (e, merge_used b bs e)
                (finish_round_lem n (coalesce_loop-merge n) b bs s c dis.0 dis.1 all.0 all.1
                  (omega arith))
          | inl e ↦ rw e (
              Returns.bind (absorb-Absorbed k n b bs s c dis.0 all.0 all.1 (omega arith))
                (later_rounds n (coalesce_loop-merge n) b bs s dis all e (omega arith)))
        ])

-- `coalesce_free_blocks` replaces the list by its merged list, and `list_tail` is its last block.
pub coalesce-merge :
    {W : Type 0} (k : Kernel W) (fuel : ℕ) (bs : List Block) (s : State W)
    → Chain s.cell bs
    → s.list_head ≡ first bs
    → Distinct bs
    → All (Readable k s.world) bs
    → length bs < fuel
    → Returns (λ _. Becomes s bs (merge bs)) (coalesce_free_blocks k fuel s)
unfolding coalesce_free_blocks
coalesce-merge k fuel bs s c head dis all more =
    subst (λ p. Returns (λ _. Becomes s bs (merge bs)) (coalesce_loop k fuel p s)) (sym head)
      (coalesce_loop-merge k fuel bs s c dis all more)
