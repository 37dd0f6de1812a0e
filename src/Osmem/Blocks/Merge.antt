-- ===== src/Osmem/Blocks/Merge.antt =====
-- What merging does to a block list, one block at a time.
use operating_system_challen.Base.{
  suc, ◌≤◌, ◌≡◌, refl, true, false, List, [], ◌∷◌, arith, All, length, Bool-cases, inl, inr, ◌&&◌,
}
use operating_system_challen.Osmem.Memory.{Ptr, null, is_free}
use operating_system_challen.Osmem.Blocks.{
  Block, first, last_or, Distinct, grow, absorbed, merge_from, merge,
}

pub absorbed_free :
    (b d : Block) (ds : List Block)
    → is_free d.status ≡ true
    → absorbed b (d ∷ ds) ≡ absorbed (grow b d) ds
unfolding absorbed
absorbed_free b d ds e = rw (e, absorbed)

pub absorbed_used :
    (b d : Block) (ds : List Block) → is_free d.status ≡ false → absorbed b (d ∷ ds) ≡ (b, d ∷ ds)
unfolding absorbed
absorbed_used b d ds e = rw (e, absorbed)

-- The rest of the list after one round of the outer loop.
pub merge-absorbed :
    (b : Block) (bs : List Block)
    → is_free b.status ≡ true
    → merge (b ∷ bs) ≡ (absorbed b bs).0 ∷ merge (absorbed b bs).1
unfolding merge absorbed
merge-absorbed b [] e = refl
merge-absorbed b (d ∷ ds) e = elim (Bool-cases (is_free d.status)) [
  | inl f ↦ rw (e, f, merge_from, absorbed) (merge-absorbed (grow b d) ds e)
  | inr f ↦ rw (e, f, merge_from, absorbed) refl
]

pub merge_used :
    (b : Block) (bs : List Block) → is_free b.status ≡ false → merge (b ∷ bs) ≡ b ∷ merge bs
unfolding merge
merge_used b [] e = refl
merge_used b (d ∷ ds) e = rw (e, merge_from) refl

pub first-merge : (bs : List Block) → first (merge bs) ≡ first bs
unfolding merge
first-merge [] = refl
first-merge (b ∷ bs) = first-merge_from b bs
  where
    first-merge_from : (b : Block) (bs : List Block) → first (merge_from b bs) ≡ b.addr
    first-merge_from b [] = refl
    first-merge_from b (d ∷ ds) = ground (arith, first-merge_from (grow b d) ds)

-- Whatever holds of the rest of the list holds of what `absorb` leaves of it.
pub All-absorbed :
    (P : Block → Type 0) (b : Block) (bs : List Block) → All P bs → All P (absorbed b bs).1
unfolding absorbed
All-absorbed P b [] h = tt
All-absorbed P b (d ∷ ds) h = elim (Bool-cases (is_free d.status)) [
  | inl f ↦ rw (f, absorbed) (All-absorbed P (grow b d) ds h.1)
  | inr f ↦ rw (f, absorbed) h
]

pub absorbed_rest :
    (b : Block) (bs : List Block)
    → Distinct bs
    → Distinct (absorbed b bs).1
      × (length (absorbed b bs).1 ≤ length bs)
      × ((absorbed b bs).0.addr ≡ b.addr)
unfolding absorbed
absorbed_rest b [] h = (tt, omega arith, refl)
absorbed_rest b (d ∷ ds) h = elim (Bool-cases (is_free d.status)) [
  | inl f ↦ let (x, y, z) = absorbed_rest (grow b d) ds h.1 in rw (f, absorbed) (x, omega arith, z)
  | inr f ↦ rw (f, absorbed) (h, omega arith, refl)
]

pub last_or-merge_from :
    (p q : Ptr) (b : Block) (bs : List Block)
    → last_or p (merge_from b bs) ≡ last_or q (merge_from b bs)
unfolding merge_from
last_or-merge_from p q b [] = refl
last_or-merge_from p q b (d ∷ ds) = elim (Bool-cases (is_free b.status && is_free d.status)) [
  | inl e ↦ rw (e, merge_from) (last_or-merge_from p q (grow b d) ds)
  | inr e ↦ rw (e, merge_from) refl
]

pub length-merge : (bs : List Block) → length (merge bs) ≤ length bs
unfolding merge
length-merge [] = omega arith
length-merge (b ∷ bs) = length-merge_from b bs
  where
    length-merge_from : (b : Block) (bs : List Block) → length (merge_from b bs) ≤ suc (length bs)
    length-merge_from b [] = omega arith
    length-merge_from b (d ∷ ds) = elim (Bool-cases (is_free b.status && is_free d.status)) [
      | inl e ↦ rw (e, merge_from) (omega (arith, length-merge_from (grow b d) ds))
      | inr e ↦ rw (e, merge_from) (omega (arith, length-merge_from d ds))
    ]

-- An empty list stays empty, and the last address of another does not depend on what is before.
pub last-merge :
    (p : Ptr) (bs : List Block)
    → p ≡ last_or null bs
    → last_or p (merge bs) ≡ last_or null (merge bs)
unfolding merge
last-merge p [] e = e
last-merge p (b ∷ bs) e = last_or-merge_from p null b bs
