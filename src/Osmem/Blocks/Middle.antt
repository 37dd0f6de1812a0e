-- ===== src/Osmem/Blocks/Middle.antt =====
-- A block in the middle of a list: no other block uses an address of it.
use operating_system_challen.Base.{◌≤◌, ◌<◌, ◌≡◌, refl, List, [], ◌∷◌, ◌++◌, arith, All}
use operating_system_challen.Osmem.Memory.{Ptr}
use operating_system_challen.Osmem.Blocks.{Block, end_of, last_or, Avoids}
use operating_system_challen.Osmem.Blocks.Layout.{Apart, ApartFrom, AllApart}

abbrev pub Before : Block → List Block → Type 0
Before b xs = All (λ x. Apart x b) xs

pub AllApart-cross :
    (xs ys : List Block) → AllApart (xs ++ ys) → All (λ y. Before y xs) ys × AllApart ys
AllApart-cross [] ys h = (none_before ys, h)
  where
    none_before : (zs : List Block) → All (λ y. Before y []) zs
    none_before [] = tt
    none_before (z ∷ zs) = (tt, none_before zs)
AllApart-cross (x ∷ xs) ys h = let (p, q) = AllApart-cross xs ys h.1 in (add xs ys h.0 p, q)
  where
    add :
        (us zs : List Block)
        → ApartFrom x (us ++ zs)
        → All (λ y. Before y xs) zs
        → All (λ y. Before y (x ∷ xs)) zs
    add (u ∷ us) zs a b = add us zs a.1 b
    add [] [] a b = tt
    add [] (z ∷ zs) a b = ((a.0, b.0), add [] zs a.1 b.1)

pub Avoids-Before :
    (b : Block) (q : Ptr) (xs : List Block) → b.addr ≤ q → q < end_of b → Before b xs → Avoids q xs
Avoids-Before b q [] low high h = tt
Avoids-Before b q (x ∷ xs) low high h = (omega (arith, h.0), Avoids-Before b q xs low high h.1)

pub Avoids-ApartFrom :
    (b : Block) (q : Ptr) (ys : List Block)
    → b.addr ≤ q
    → q < end_of b
    → ApartFrom b ys
    → Avoids q ys
Avoids-ApartFrom b q [] low high h = tt
Avoids-ApartFrom b q (y ∷ ys) low high h =
    (omega (arith, h.0), Avoids-ApartFrom b q ys low high h.1)

pub last_or-append :
    (p : Ptr) (xs : List Block) (y : Block) (ys : List Block)
    → last_or p (xs ++ y ∷ ys) ≡ last_or y.addr ys
last_or-append p [] y ys = refl
last_or-append p (x ∷ xs) y ys = last_or-append x.addr xs y ys
