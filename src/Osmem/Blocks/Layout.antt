-- ===== src/Osmem/Blocks/Layout.antt =====
-- Where the blocks of a list lie: apart from one another, and the blocks that came from `sbrk`
-- fill the heap segment without a gap.
use operating_system_challen.Base.{
  ℕ, ◌+◌, ◌%◌, ◌^◌, ◌≤◌, ◌<◌, ◌≡◌, ◌≢◌, refl, Bool, true, List, [], ◌∷◌, ◌++◌, ◌⊎◌, inl, inr, ◌∙◌,
  arith, All, Bool-cases, ◌&&◌, if◌then◌else◌,
}
use native.Mathlib.Decide.{dec_lt}
use operating_system_challen.Base.Word.{add64-eq-add}
use operating_system_challen.Osmem.Memory.{Ptr, null, Status, is_free, is_mapped, padding}
use operating_system_challen.Osmem.Blocks.{Block, end_of, Avoids, Distinct, grow, merge_from, merge}

abbrev pub Apart : Block → Block → Type 0
Apart b c = (end_of b ≤ c.addr) ⊎ (end_of c ≤ b.addr)

abbrev pub ApartFrom : Block → List Block → Type 0
ApartFrom b bs = All (Apart b) bs

abbrev pub AllApart : List Block → Type 0
AllApart [] = Unit
AllApart (b ∷ bs) = ApartFrom b bs × AllApart bs

-- Where the next block of the heap segment starts.
abbrev pub next_start : ℕ → Block → ℕ
next_start start b = if is_mapped b.status then start else end_of b

-- The blocks that are not mapped fill the addresses from `start` to `stop`, in this order.
abbrev pub Tiles : ℕ → ℕ → List Block → Type 0
Tiles start stop [] = start ≡ stop
Tiles start stop (b ∷ bs) =
    ((is_mapped b.status ≡ true) ⊎ (b.addr ≡ start)) × Tiles (next_start start b) stop bs

-- A block's size is a multiple of 8, and it lies in the user's half of the address space.
abbrev pub Sized : Block → Type 0
Sized b = (b.size % 8 ≡ 0) × (end_of b ≤ 2 ^ 62) × (b.addr ≢ null)

pub record Layout (start stop : ℕ) (bs : List Block) : Type 0 where
  pub tiles : Tiles start stop bs
  pub apart : AllApart bs
  pub sized : All Sized bs

-- What a client owns: address, size and status of each block that is not free.
abbrev pub live : List Block → List (Ptr × ℕ × Status)
live [] = []
live (b ∷ bs) = if is_free b.status then live bs else (b.addr, b.size, b.status) ∷ live bs

pub live-append : (xs ys : List Block) → live (xs ++ ys) ≡ live xs ++ live ys
live-append [] ys = refl
live-append (x ∷ xs) ys = ground (arith, live-append xs ys)

pub Distinct-AllApart : (bs : List Block) → AllApart bs → Distinct bs
Distinct-AllApart [] h = tt
Distinct-AllApart (b ∷ bs) h = (avoid bs h.0, Distinct-AllApart bs h.1)
  where
    avoid : (cs : List Block) → ApartFrom b cs → Avoids b.addr cs
    avoid [] h = tt
    avoid (c ∷ cs) h = (omega (arith, h.0), avoid cs h.1)

-- Merging two neighbours.
pub grow_size : (b c : Block) → Sized b → Sized c → end_of b ≡ c.addr → end_of (grow b c) ≡ end_of c
unfolding padding
grow_size b c hb hc e = omega (arith, add64-eq-add b.size (c.size + 32 + 0))

grow-Sized : (b c : Block) → Sized b → Sized c → end_of b ≡ c.addr → Sized (grow b c)
unfolding padding
grow-Sized b c hb hc e = omega (arith, add64-eq-add b.size (c.size + 32 + 0))

grow_apart :
    (b c : Block) (ds : List Block)
    → Sized b
    → Sized c
    → end_of b ≡ c.addr
    → ApartFrom b ds
    → ApartFrom c ds
    → ApartFrom (grow b c) ds
grow_apart b c [] hb hc e p q = tt
grow_apart b c (d ∷ ds) hb hc e p q =
    (omega (arith, grow_size b c hb hc e, p.0, q.0), grow_apart b c ds hb hc e p.1 q.1)

Apart-grow :
    (x b c : Block)
    → Sized b
    → Sized c
    → end_of b ≡ c.addr
    → Apart x b
    → Apart x c
    → Apart x (grow b c)
Apart-grow x b c hb hc e p q = omega (arith, grow_size b c hb hc e)

adjacent :
    (start stop : ℕ) (b c : Block) (cs : List Block)
    → (is_free b.status && is_free c.status) ≡ true
    → Tiles start stop (b ∷ c ∷ cs)
    → end_of b ≡ c.addr
adjacent start stop b c cs e h = ground arith

Tiles-grow :
    (start stop : ℕ) (b c : Block) (cs : List Block)
    → (is_free b.status && is_free c.status) ≡ true
    → end_of (grow b c) ≡ end_of c
    → Tiles start stop (b ∷ c ∷ cs)
    → Tiles start stop (grow b c ∷ cs)
Tiles-grow start stop b c cs e same h = ground arith

grow-Layout :
    (start stop : ℕ) (b c : Block) (cs : List Block)
    → (is_free b.status && is_free c.status) ≡ true
    → Layout start stop (b ∷ c ∷ cs)
    → Layout start stop (grow b c ∷ cs)
grow-Layout start stop b c cs e h =
    let (hb, (hc, rest)) = h.sized in
    let ((_, from_b), (from_c, others)) = h.apart in
    let next = adjacent start stop b c cs e h.tiles in
    record {
      tiles = Tiles-grow start stop b c cs e (grow_size b c hb hc next) h.tiles;
      apart = (grow_apart b c cs hb hc next from_b from_c, others);
      sized = (grow-Sized b c hb hc next, rest);
    }

-- The layout of the list behind its first block.
pub Layout-tail :
    {start stop : ℕ} (b : Block) (bs : List Block)
    → Layout start stop (b ∷ bs)
    → Layout (next_start start b) stop bs
Layout-tail b bs h = record { tiles = h.tiles.1; apart = h.apart.1; sized = h.sized.1 }

-- What holds of the blocks of a list, and of two neighbours joined, holds after merging.
pub All-merge_from :
    (P : Block → Type 0)
    → ((b c : Block) → Sized b → Sized c → end_of b ≡ c.addr → P b → P c → P (grow b c))
    → (start stop : ℕ) (b : Block) (bs : List Block) → Layout start stop (b ∷ bs)
    → All P (b ∷ bs)
    → All P (merge_from b bs)
unfolding merge_from
All-merge_from P join start stop b [] h p = p
All-merge_from P join start stop b (c ∷ cs) h p =
    elim (Bool-cases (is_free b.status && is_free c.status)) [
      | inl e ↦
          let next = adjacent start stop b c cs e h.tiles in
          rw (e, merge_from)
            (All-merge_from P join start stop (grow b c) cs (grow-Layout start stop b c cs e h)
              (join b c h.sized.0 h.sized.1.0 next p.0 p.1.0, p.1.1))
      | inr e ↦
          rw (e, merge_from)
            (
              p.0,
              All-merge_from P join (next_start start b) stop c cs (Layout-tail b (c ∷ cs) h) p.1,
            )
    ]

pub Layout-merge_from :
    (start stop : ℕ) (b : Block) (bs : List Block)
    → Layout start stop (b ∷ bs)
    → Layout start stop (merge_from b bs)
unfolding merge_from
Layout-merge_from start stop b [] h = h
Layout-merge_from start stop b (c ∷ cs) h =
    elim (Bool-cases (is_free b.status && is_free c.status)) [
      | inl e ↦
          rw (e, merge_from)
            (Layout-merge_from start stop (grow b c) cs (grow-Layout start stop b c cs e h))
      | inr e ↦
          let t = Layout-tail b (c ∷ cs) h in
          let r = Layout-merge_from (next_start start b) stop c cs t in
          rw (e, merge_from)
            (record {
              tiles = (h.tiles.0, r.tiles);
              apart = (
                All-merge_from (Apart b) (Apart-grow b) (next_start start b) stop c cs t h.apart.0,
                r.apart,
              );
              sized = (h.sized.0, r.sized);
            })
    ]

live-merge_from : (b : Block) (bs : List Block) → live (merge_from b bs) ≡ live (b ∷ bs)
unfolding merge_from
live-merge_from b [] = refl
live-merge_from b (c ∷ cs) = elim (Bool-cases (is_free b.status && is_free c.status)) [
  | inl e ↦ rw (e, merge_from) (live-merge_from (grow b c) cs ∙ ground arith)
  | inr e ↦ rw (e, merge_from) (ground (arith, live-merge_from c cs))
]

-- Coalescing keeps the layout and every block in use.
pub Layout-merge :
    (start stop : ℕ) (bs : List Block)
    → Layout start stop bs
    → Layout start stop (merge bs) × (live (merge bs) ≡ live bs)
unfolding merge
Layout-merge start stop [] h = (h, refl)
Layout-merge start stop (b ∷ bs) h = (Layout-merge_from start stop b bs h, live-merge_from b bs)

-- Every address of the block belongs to the process, as `used` says.
abbrev pub Covered : (ℕ → Bool) → Block → Type 0
Covered used b = (a : ℕ) → b.addr ≤ a → a < end_of b → used a ≡ true

Covered-grow :
    (used : ℕ → Bool) (b c : Block)
    → Sized b
    → Sized c
    → end_of b ≡ c.addr
    → Covered used b
    → Covered used c
    → Covered used (grow b c)
Covered-grow used b c hb hc e p q a low high =
    let top : a < end_of c = omega (arith, grow_size b c hb hc e) in
    elim (dec_lt a (end_of b)) [ yes l ↦ p a low l | no g ↦ q a (omega arith) top ]

pub Covered-merge :
    (used : ℕ → Bool) (start stop : ℕ) (bs : List Block)
    → Layout start stop bs
    → All (Covered used) bs
    → All (Covered used) (merge bs)
unfolding merge
Covered-merge used start stop [] h p = tt
Covered-merge used start stop (b ∷ bs) h p =
    All-merge_from (Covered used) (Covered-grow used) start stop b bs h p

pub live-merge :
    (start stop : ℕ) (bs : List Block) → Layout start stop bs → live (merge bs) ≡ live bs
live-merge start stop bs h = (Layout-merge start stop bs h).1
