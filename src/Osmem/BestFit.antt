-- ===== src/Osmem/BestFit.antt =====
-- `find_best_block` computes the best fit of the block list.
use operating_system_challen.Base.{
  ℕ, zero, suc, ◌-◌, ◌≤◌, ◌<◌, ◌≡◌, refl, sym, subst, false, Option, none, some, List, [], ◌∷◌,
  ◌==◌, arith, All, length, Bool-cases, inl, inr,
}
use operating_system_challen.Osmem.Memory.{Ptr, null, Kernel, State, ok}
use operating_system_challen.Osmem.Blocks.{Block, first}
use operating_system_challen.Osmem.Blocks.BestFit.{
  slack, improves, best_fit, best_fit-none, best_fit-some, Fits, Within,
}
use operating_system_challen.Osmem.Chain.{Chain, load-ok}
use operating_system_challen.Osmem.Coalesce.{Readable}
use operating_system_challen.Osmem.Code.{n_max, find_best_loop, find_best_block}

abbrev pub addr_of : Option Block → Ptr
addr_of none = null
addr_of (some b) = b.addr

module _ {W : Type 0} (k : Kernel W) where
  find_best_loop-best_fit :
      (fuel size : ℕ) (o : Option Block) (bs : List Block) (s : State W)
      → Chain s.cell bs
      → All (Readable k s.world) bs
      → length bs < fuel
      → find_best_loop k fuel size (first bs) (addr_of o) (slack size o) s
        ≡ ok (addr_of (best_fit size o bs)) s
  unfolding find_best_loop best_fit
  find_best_loop-best_fit zero size o bs s c all fuel = absurd (omega arith)
  find_best_loop-best_fit (suc n) size o [] s c all fuel = refl
  find_best_loop-best_fit (suc n) size o (b ∷ bs) s c all fuel =
      let more : (b.addr == null) ≡ false = ground arith in
      rw (more, load-ok k s all.0.0, c.0)
        (elim (Bool-cases (improves size o b)) [
          | inl e ↦ rw e (find_best_loop-best_fit n size (some b) bs s c.1 all.1 (omega arith))
          | inr e ↦ rw e (find_best_loop-best_fit n size o bs s c.1 all.1 (omega arith))
        ])

  -- `find_best_block` returns the address of the best fit, or `NULL`, and changes nothing.
  pub find_best_block-best_fit :
      (fuel size : ℕ) (bs : List Block) (s : State W)
      → Chain s.cell bs
      → s.list_head ≡ first bs
      → All (Readable k s.world) bs
      → length bs < fuel
      → find_best_block k fuel size s ≡ ok (addr_of (best_fit size none bs)) s
  unfolding find_best_block
  find_best_block-best_fit fuel size bs s c head all more =
      subst
        (λ p. find_best_loop k fuel size p null n_max s ≡ ok (addr_of (best_fit size none bs)) s)
        (sym head) (find_best_loop-best_fit fuel size none bs s c all more)

-- No block of the list fits; or the block is one that fits, and none that fits is smaller.
abbrev pub IsBest : ℕ → List Block → Option Block → Type 0
IsBest size bs none = All (λ c. ¬ Fits size c) bs
IsBest size bs (some b) =
    Within b bs × Fits size b × All (λ c. Fits size c → b.size - size ≤ c.size - size) bs

best_fit-IsBest :
    (size : ℕ) (bs : List Block) (r : Option Block) → best_fit size none bs ≡ r → IsBest size bs r
best_fit-IsBest size bs none e = best_fit-none size bs e
best_fit-IsBest size bs (some b) e = best_fit-some size bs e

-- On a list of fewer headers than `fuel` that the process can read, `find_best_block` ends without
-- a change, with the address of a free block of at least the size asked for, leaving less than
-- 2 ^ 31 - 1 bytes over, that no other such block undercuts, or with `NULL` where no free block is
-- large enough and leaves less than 2 ^ 31 - 1 bytes over.
pub find_best_block-IsBest :
    {W : Type 0} (k : Kernel W) (fuel size : ℕ) (bs : List Block) (s : State W)
    → Chain s.cell bs
    → s.list_head ≡ first bs
    → All (Readable k s.world) bs
    → length bs < fuel
    → (r : Option Block) × (find_best_block k fuel size s ≡ ok (addr_of r) s) × IsBest size bs r
find_best_block-IsBest k fuel size bs s c head own more = (
  best_fit size none bs,
  find_best_block-best_fit k fuel size bs s c head own more,
  best_fit-IsBest size bs (best_fit size none bs) refl,
)
