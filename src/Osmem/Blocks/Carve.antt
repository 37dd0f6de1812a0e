-- ===== src/Osmem/Blocks/Carve.antt =====
-- Taking a free block: whole, or its front with the rest split off as a free block.
use operating_system_challen.Base.{
  ℕ, ◌+◌, ◌-◌, ◌%◌, ◌≤◌, ◌≡◌, refl, sym, subst, Bool, true, false, not, ◌&&◌, List, [], ◌∷◌, ◌++◌,
  ◌==◌, ltb, inl, inr, arith, All, All-split, Bool-cases, if◌then◌else◌,
}
use operating_system_challen.Base.Word.{add64, sub64, sub64-eq-sub}
use operating_system_challen.Osmem.Memory.{Ptr, free, alloc, is_mapped, meta_size, padding}
use operating_system_challen.Osmem.Blocks.{Block, end_of, first_or}
use operating_system_challen.Osmem.Blocks.Layout.{
  ApartFrom, next_start, Tiles, Sized, Layout, Layout-tail, Covered, live, live-append,
}

-- `new_block` of `split_block`: what is left behind the first `n` bytes of `b`.
abbrev pub remainder : Block → ℕ → Block
remainder b n = record {
  addr = add64 (add64 b.addr n) (meta_size + padding meta_size);
  size = sub64 (sub64 b.size n) (meta_size + padding meta_size);
  status = free;
  prev = b.addr;
}

-- The list with its first `prev` pointer set to `q`.
abbrev pub relink : Ptr → List Block → List Block
relink q [] = []
relink q (c ∷ cs) = (record c { prev = q }) ∷ cs

abbrev pub pieces : Block → ℕ → List Block → List Block
pieces b n ys = (record b { size = n }) ∷ remainder b n ∷ relink (remainder b n).addr ys

-- `use_best` splits the block `b`.
abbrev pub splits : Block → ℕ → Bool
splits b n = not (n == b.size) && ltb (meta_size + padding meta_size) (sub64 b.size n)

-- The list from the free block `b` on, when `n` bytes of it are taken.
abbrev pub carve : Block → ℕ → List Block → List Block
carve b n ys = elim (splits b n) [
  | true ↦ pieces (record b { status = alloc }) n ys
  | false ↦ (record b { status = alloc }) ∷ ys
]

-- The size of the block taken.
abbrev pub carved : Block → ℕ → ℕ
carved b n = if splits b n then n else b.size

-- A list may be changed behind `xs` if what replaces it lies where it lay.
pub Layout-replace :
    (start stop : ℕ) (xs ys zs : List Block)
    → ((x : Block) → Sized x → ApartFrom x ys → ApartFrom x zs)
    → ((s : ℕ) → Layout s stop ys → Layout s stop zs)
    → Layout start stop (xs ++ ys)
    → Layout start stop (xs ++ zs)
Layout-replace start stop [] ys zs apart lay h = lay start h
Layout-replace start stop (x ∷ xs) ys zs apart lay h =
    let r =
      Layout-replace (next_start start x) stop xs ys zs apart lay (Layout-tail x (xs ++ ys) h) in
    record {
      tiles = (h.tiles.0, r.tiles);
      apart = (replace_from xs h.apart.0, r.apart);
      sized = (h.sized.0, r.sized);
    }
  where
    replace_from : (vs : List Block) → ApartFrom x (vs ++ ys) → ApartFrom x (vs ++ zs)
    replace_from [] p = apart x h.sized.0 p
    replace_from (v ∷ vs) p = (p.0, replace_from vs p.1)

ApartFrom-relink :
    (x : Block) (q : Ptr) (ys : List Block) → ApartFrom x ys → ApartFrom x (relink q ys)
ApartFrom-relink x q [] h = tt
ApartFrom-relink x q (c ∷ cs) h = h

Layout-relink :
    (start stop : ℕ) (q : Ptr) (ys : List Block)
    → Layout start stop ys
    → Layout start stop (relink q ys)
Layout-relink start stop q [] h = h
Layout-relink start stop q (c ∷ cs) h = record { tiles = h.tiles; apart = h.apart; sized = h.sized }

pub remainder_place :
    (b : Block) (n : ℕ)
    → Sized b
    → n + 32 ≤ b.size
    → ((remainder b n).addr ≡ b.addr + 32 + n)
      × (end_of (remainder b n) ≡ end_of b)
      × ((remainder b n).size ≡ b.size - n - 32)
unfolding padding add64 sub64
remainder_place b n h le = omega arith

ApartFrom-pieces :
    (b : Block) (n : ℕ) (ys : List Block)
    → Sized b
    → n + 32 ≤ b.size
    → (x : Block) → Sized x
    → ApartFrom x (b ∷ ys)
    → ApartFrom x (pieces b n ys)
ApartFrom-pieces b n ys hb le x hx h =
    let place = remainder_place b n hb le in
    (omega (arith, h.0), (omega (arith, h.0), ApartFrom-relink x (remainder b n).addr ys h.1))

inside :
    (b c : Block) (ys : List Block)
    → b.addr ≤ c.addr
    → end_of c ≤ end_of b
    → ApartFrom b ys
    → ApartFrom c ys
inside b c [] p q h = tt
inside b c (y ∷ ys) p q h = (omega (arith, h.0), inside b c ys p q h.1)

Layout-pieces :
    (stop : ℕ) (b : Block) (n : ℕ) (ys : List Block)
    → is_mapped b.status ≡ false
    → n % 8 ≡ 0
    → n + 32 ≤ b.size
    → (start : ℕ) → Layout start stop (b ∷ ys)
    → Layout start stop (pieces b n ys)
Layout-pieces stop b n ys brk even le start h =
    let place = remainder_place b n h.sized.0 le in
    let q = (remainder b n).addr in
    let b' : Block = record b { size = n } in
    let rest : Layout (end_of b) stop (relink q ys) =
      Layout-relink (end_of b) stop q ys (rw brk at (Layout-tail b ys h)) in
    record {
      tiles = rw brk (
        rw brk at h.tiles.0,
        (inr place.0, subst (λ e. Tiles e stop (relink q ys)) (sym place.1) rest.tiles),
      );
      apart = (
        (
          omega arith,
          ApartFrom-relink b' q ys (inside b b' ys (omega arith) (omega arith) h.apart.0),
        ),
        (
          ApartFrom-relink (remainder b n) q ys
              (inside b (remainder b n) ys (omega arith) (omega arith) h.apart.0),
          rest.apart,
        ),
      );
      sized = (omega arith, (omega arith, rest.sized));
    }

free_not_mapped : (b : Block) → b.status ≡ free → is_mapped b.status ≡ false
free_not_mapped b e = rw e

Layout-alloc :
    (start stop : ℕ) (b : Block) (ys : List Block)
    → b.status ≡ free
    → Layout start stop (b ∷ ys)
    → Layout start stop ((record b { status = alloc }) ∷ ys)
Layout-alloc start stop b ys e h = record {
  tiles = rw (free_not_mapped b e) at h.tiles;
  apart = h.apart;
  sized = h.sized;
}

pub carve_split :
    (b : Block) (n : ℕ) (ys : List Block)
    → splits b n ≡ true
    → carve b n ys ≡ pieces (record b { status = alloc }) n ys
carve_split b n ys e = rw (e, carve)

pub carve_whole :
    (b : Block) (n : ℕ) (ys : List Block)
    → splits b n ≡ false
    → carve b n ys ≡ (record b { status = alloc }) ∷ ys
carve_whole b n ys e = rw (e, carve)

pub splits_room : (b : Block) (n : ℕ) → splits b n ≡ true → n ≤ b.size → Sized b → n + 32 ≤ b.size
unfolding padding
splits_room b n e le h = ground (arith, sub64-eq-sub b.size n)

-- Taking `n` bytes of a free block keeps the layout ...
pub Layout-carve :
    (start stop : ℕ) (xs : List Block) (b : Block) (n : ℕ) (ys : List Block)
    → b.status ≡ free
    → n % 8 ≡ 0
    → n ≤ b.size
    → Layout start stop (xs ++ b ∷ ys)
    → Layout start stop (xs ++ carve b n ys)
Layout-carve start stop xs b n ys e even le h =
    let hb : Sized b = (All-split Sized xs (b ∷ ys) h.sized).1.0 in
    let b' : Block = record b { status = alloc } in
    elim (Bool-cases (splits b n)) [
      | inl s ↦
          let room = splits_room b n s le hb in
          rw (carve_split b n ys s) (
            Layout-replace start stop xs (b ∷ ys) (pieces b' n ys)
              (ApartFrom-pieces b' n ys hb room)
              (λ start' l.
                Layout-pieces stop b' n ys refl even room start'
                  (Layout-alloc start' stop b ys e l))
              h)
      | inr s ↦ rw (carve_whole b n ys s) (
          Layout-replace start stop xs (b ∷ ys) (b' ∷ ys) (λ x hx p. p)
            (λ start' l. Layout-alloc start' stop b ys e l) h)
    ]

live-relink : (q : Ptr) (ys : List Block) → live (relink q ys) ≡ live ys
live-relink q [] = refl
live-relink q (c ∷ cs) = refl

-- ... and adds one block to those in use.
pub live-carve :
    (xs : List Block) (b : Block) (n : ℕ) (ys : List Block)
    → b.status ≡ free
    → (live (xs ++ b ∷ ys) ≡ live xs ++ live ys)
      × (live (xs ++ carve b n ys) ≡ live xs ++ (b.addr, carved b n, alloc) ∷ live ys)
live-carve xs b n ys e = (
  rw (live-append xs (b ∷ ys), e) refl,
  rw (live-append xs (carve b n ys)) (elim (Bool-cases (splits b n)) [
    | inl s ↦ rw (carve_split b n ys s, s, live-relink (remainder b n).addr ys) refl
    | inr s ↦ rw (carve_whole b n ys s, s) refl
  ]),
)

Covered-inside :
    (used : ℕ → Bool) (b c : Block)
    → b.addr ≤ c.addr
    → end_of c ≤ end_of b
    → Covered used b
    → Covered used c
Covered-inside used b c low high h a p q = h a (omega arith) (omega arith)

-- What is carved out of a block lies inside it.
pub Covered-carve :
    (used : ℕ → Bool) (b : Block) (n : ℕ) (ys : List Block)
    → Sized b
    → n ≤ b.size
    → All (Covered used) (b ∷ ys)
    → All (Covered used) (carve b n ys)
Covered-carve used b n ys hb le h = elim (Bool-cases (splits b n)) [
  | inr s ↦ rw (carve_whole b n ys s) h
  | inl s ↦
      let place = remainder_place b n hb (splits_room b n s le hb) in
      rw (carve_split b n ys s) (
        Covered-inside used b (record b { size = n }) (omega arith) (omega arith) h.0,
        (Covered-inside used b (remainder b n) (omega arith) (omega arith) h.0, relinked ys h.1),
      )
]
  where
    relinked :
        (zs : List Block)
        → All (Covered used) zs
        → All (Covered used) (relink (remainder b n).addr zs)
    relinked [] p = tt
    relinked (z ∷ zs) p = p

pub first-carve : (b : Block) (n : ℕ) (ys : List Block) → first_or (carve b n ys) 0 ≡ b.addr
first-carve b n ys = elim (Bool-cases (splits b n)) [
  | inl s ↦ rw (carve_split b n ys s) refl
  | inr s ↦ rw (carve_whole b n ys s) refl
]

pub Layout-mark :
    (start stop : ℕ) (xs : List Block) (b : Block) (ys : List Block)
    → b.status ≡ free
    → Layout start stop (xs ++ b ∷ ys)
    → Layout start stop (xs ++ (record b { status = alloc }) ∷ ys)
Layout-mark start stop xs b ys e =
    Layout-replace start stop xs (b ∷ ys) ((record b { status = alloc }) ∷ ys) (λ x hx p. p)
      (λ s l. Layout-alloc s stop b ys e l)
