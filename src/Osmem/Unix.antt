-- ===== src/Osmem/Unix.antt =====
-- What mem-allocator/src/osmem.c relies on of `sbrk` and `mmap`, and what a block at a place that
-- they grant does to the layout of the list.
use operating_system_challen.Base.{
  ℕ, ◌+◌, ◌^◌, ◌≤◌, ◌<◌, ◌≡◌, ◌≢◌, sym, ◌∙◌, true, false, some, List, [], ◌∷◌, ◌++◌, ◌⊎◌, inl, inr,
  arith, All, All-append, if◌then◌else◌,
}
use native.Mathlib.Decide.{dec_lt}
use operating_system_challen.Osmem.Memory.{null, is_mapped, Kernel}
use operating_system_challen.Osmem.Blocks.{Block, end_of}
use operating_system_challen.Osmem.Blocks.Layout.{
  Apart, AllApart, next_start, Tiles, Sized, Layout, Covered,
}

-- `n` bytes from `p` on, which belonged to nobody, now belong to the process; it keeps what it had.
pub record Grants {W : Type 0} (k : Kernel W) (p n : ℕ) (w w' : W) : Type 0 where
  pub fresh : (a : ℕ) → p ≤ a → a < p + n → k.allocated w a ≡ false
  pub owned : (a : ℕ) → p ≤ a → a < p + n → k.allocated w' a ≡ true
  pub kept : (a : ℕ) → k.allocated w a ≡ true → k.allocated w' a ≡ true
  pub low : p + n ≤ 2 ^ 62
  pub not_null : p ≢ null

-- `sbrk` moves the program break as long as it stays below a limit.
pub record Unix {W : Type 0} (k : Kernel W) (limit : ℕ) : Type 0 where
  pub brk : W → ℕ
  pub grows :
      (n : ℕ) (w : W)
      → brk w + n ≤ limit
      → (w' : W) × (k.sbrk n w ≡ (some (brk w), w'))
        × Grants k (brk w) n w w'
        × (brk w' ≡ brk w + n)

module _ {W : Type 0} (k : Kernel W) (p n : ℕ) (w w' : W) (g : Grants k p n w w') where
  -- A block of the process does not reach into what was granted.
  outside_grant :
      (b : Block) → 0 < n → Covered (k.allocated w) b → (end_of b ≤ p) ⊎ (p + n ≤ b.addr)
  outside_grant b more own = elim (dec_lt p (end_of b)) [
    | no l ↦ inl (omega arith)
    | yes l ↦ elim (dec_lt b.addr (p + n)) [
      | no m ↦ inr (omega arith)
      | yes m ↦ elim (dec_lt p b.addr) [
        | yes q ↦
            let e = sym (own b.addr (omega arith) (omega arith)) ∙ g.fresh b.addr (omega arith) m in
            absurd cc
        | no q ↦
            let e = sym (own p (omega arith) l) ∙ g.fresh p (omega arith) (omega arith) in absurd cc
      ]
    ]
  ]

  pub all_outside_grant :
      (bs : List Block)
      → 0 < n
      → All (Covered (k.allocated w)) bs
      → All (λ b. (end_of b ≤ p) ⊎ (p + n ≤ b.addr)) bs
  all_outside_grant [] more own = tt
  all_outside_grant (b ∷ bs) more own =
      (outside_grant b more own.0, all_outside_grant bs more own.1)

  pub all_kept :
      (bs : List Block) → All (Covered (k.allocated w)) bs → All (Covered (k.allocated w')) bs
  all_kept [] own = tt
  all_kept (b ∷ bs) own = ((λ a l h. g.kept a (own.0 a l h)), all_kept bs own.1)

-- Where the heap segment ends once the block stands behind the list.
abbrev pub stop_with : ℕ → Block → ℕ
stop_with stop c = if is_mapped c.status then stop else end_of c

Tiles-append :
    (start stop : ℕ) (bs : List Block) (c : Block)
    → (is_mapped c.status ≡ true) ⊎ (c.addr ≡ stop)
    → Tiles start stop bs
    → Tiles start (stop_with stop c) (bs ++ c ∷ [])
Tiles-append start stop [] c here h = ground arith
Tiles-append start stop (b ∷ bs) c here h =
    (h.0, Tiles-append (next_start start b) stop bs c here h.1)

AllApart-append :
    (bs : List Block) (c : Block)
    → All (λ b. (end_of b ≤ c.addr) ⊎ (end_of c ≤ b.addr)) bs
    → AllApart bs
    → AllApart (bs ++ c ∷ [])
AllApart-append [] c out h = (tt, tt)
AllApart-append (b ∷ bs) c out h =
    (All-append (Apart b) bs (c ∷ []) h.0 (out.0, tt), AllApart-append bs c out.1 h.1)

-- A block apart from the others may stand behind them: anywhere if it is mapped, else at the end of
-- the heap segment.
pub Layout-append :
    (start stop : ℕ) (bs : List Block) (c : Block)
    → (is_mapped c.status ≡ true) ⊎ (c.addr ≡ stop)
    → All (λ b. (end_of b ≤ c.addr) ⊎ (end_of c ≤ b.addr)) bs
    → Sized c
    → Layout start stop bs
    → Layout start (stop_with stop c) (bs ++ c ∷ [])
Layout-append start stop bs c here out hc h = record {
  tiles = Tiles-append start stop bs c here h.tiles;
  apart = AllApart-append bs c out h.apart;
  sized = All-append Sized bs (c ∷ []) h.sized (hc, tt);
}
