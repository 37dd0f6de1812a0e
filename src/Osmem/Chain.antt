-- ===== src/Osmem/Chain.antt =====
-- Headers in memory that form the list `bs`, linked by their `next` fields.
use operating_system_challen.Base.{
  ℕ, ◌≡◌, ◌≢◌, refl, true, false, List, [], ◌∷◌, ◌++◌, ◌∙◌, ◌==◌, arith, All,
}
use operating_system_challen.Osmem.Memory.{
  Ptr, null, Status, BlockMeta, block_meta, Kernel, State, ok, load, modify, edit, with_size,
  with_status, with_prev, with_next, set_size, set_status, set_prev, set_next,
}
use operating_system_challen.Osmem.Blocks.{Block, first_or, Avoids}

-- The headers of `bs`, of which the last one points to `stop`.
abbrev pub ChainTo : (Ptr → BlockMeta) → Ptr → List Block → Type 0
ChainTo h stop [] = Unit
ChainTo h stop (b ∷ bs) =
    (h b.addr ≡ block_meta b.size b.status b.prev (first_or bs stop)) × ChainTo h stop bs

abbrev pub Chain : (Ptr → BlockMeta) → List Block → Type 0
Chain h bs = ChainTo h null bs

-- Two memories agree at every address that `bs` does not use.
abbrev pub SameOutside : List Block → (h g : Ptr → BlockMeta) → Type 0
SameOutside bs h g = (a : Ptr) → Avoids a bs → g a ≡ h a

module _ {W : Type 0} (k : Kernel W) (s : State W) {p : Ptr}
    (own : k.allocated s.world p ≡ true) where
  pub load-ok : load k p s ≡ ok (s.cell p) s
  unfolding load
  load-ok = rw own

  modify-ok :
      (f : BlockMeta → BlockMeta) → modify k p f s ≡ ok tt (record s { cell = edit s.cell p f })
  unfolding modify
  modify-ok f = rw own

  pub set_size-ok :
      (n : ℕ) → set_size k p n s ≡ ok tt (record s { cell = edit s.cell p (with_size n) })
  unfolding set_size
  set_size-ok n = modify-ok _

  pub set_status-ok :
      (t : Status) → set_status k p t s ≡ ok tt (record s { cell = edit s.cell p (with_status t) })
  unfolding set_status
  set_status-ok t = modify-ok _

  pub set_prev-ok :
      (q : Ptr) → set_prev k p q s ≡ ok tt (record s { cell = edit s.cell p (with_prev q) })
  unfolding set_prev
  set_prev-ok q = modify-ok _

  pub set_next-ok :
      (q : Ptr) → set_next k p q s ≡ ok tt (record s { cell = edit s.cell p (with_next q) })
  unfolding set_next
  set_next-ok q = modify-ok _

pub edit_self : (h : Ptr → BlockMeta) (p : Ptr) (f : BlockMeta → BlockMeta) → edit h p f p ≡ f (h p)
unfolding edit
edit_self h p f = let e : (p == p) ≡ true = ground arith in rw e

pub edit_other :
    (h : Ptr → BlockMeta) (p a : Ptr) (f : BlockMeta → BlockMeta) → a ≢ p → edit h p f a ≡ h a
unfolding edit
edit_other h p a f ne = let e : (a == p) ≡ false = ground arith in rw e

-- A chain survives what happens elsewhere.
pub frame :
    (h g : Ptr → BlockMeta) (stop : Ptr) (bs : List Block)
    → All (λ b. g b.addr ≡ h b.addr) bs
    → ChainTo h stop bs
    → ChainTo g stop bs
frame h g stop [] same c = tt
frame h g stop (b ∷ bs) same c = (same.0 ∙ c.0, frame h g stop bs same.1 c.1)

pub frame-edit :
    (h : Ptr → BlockMeta) (stop p : Ptr) (f : BlockMeta → BlockMeta) (bs : List Block)
    → Avoids p bs
    → ChainTo h stop bs
    → ChainTo (edit h p f) stop bs
frame-edit h stop p f [] out c = tt
frame-edit h stop p f (b ∷ bs) out c =
    (edit_other h p b.addr f out.0 ∙ c.0, frame-edit h stop p f bs out.1 c.1)

pub Avoids-same :
    (h g : Ptr → BlockMeta) (bs cs : List Block)
    → All (λ b. Avoids b.addr cs) bs
    → SameOutside cs h g
    → All (λ b. g b.addr ≡ h b.addr) bs
Avoids-same h g [] cs out same = tt
Avoids-same h g (b ∷ bs) cs out same = (same b.addr out.0, Avoids-same h g bs cs out.1 same)

pub first_or-append :
    (stop : Ptr) (xs ys : List Block) → first_or (xs ++ ys) stop ≡ first_or xs (first_or ys stop)
first_or-append stop [] ys = refl
first_or-append stop (x ∷ xs) ys = refl

pub ChainTo-split :
    (h : Ptr → BlockMeta) (stop : Ptr) (xs ys : List Block)
    → ChainTo h stop (xs ++ ys)
    → ChainTo h (first_or ys stop) xs × ChainTo h stop ys
ChainTo-split h stop [] ys c = (tt, c)
ChainTo-split h stop (x ∷ xs) ys c =
    let (p, q) = ChainTo-split h stop xs ys c.1 in ((rw (← first_or-append stop xs ys) c.0, p), q)

pub ChainTo-join :
    (h : Ptr → BlockMeta) (stop : Ptr) (xs ys : List Block)
    → ChainTo h (first_or ys stop) xs
    → ChainTo h stop ys
    → ChainTo h stop (xs ++ ys)
ChainTo-join h stop [] ys c d = d
ChainTo-join h stop (x ∷ xs) ys c d =
    (rw (first_or-append stop xs ys) c.0, ChainTo-join h stop xs ys c.1 d)
