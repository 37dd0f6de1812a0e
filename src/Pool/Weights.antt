-- ===== src/Pool/Weights.antt =====
-- Sums over the threads and over the queue.
use operating_system_challen.Base.{
  ℕ, zero, suc, ◌+◌, ◌≤◌, ◌<◌, ◌≡◌, ◌≢◌, refl, ap, some, List, [], ◌∷◌, ◌++◌, ◌==◌, arith,
  get_elem?, set, if◌then◌else◌,
}
use mathlib.Core.List.{Memᴰ}
use mathlib.Core.Option.{some-injective}
use mathlib.Core.List.Memᴰ
use native.Mathlib.Decide.{ℕ_discrete}
use operating_system_challen.Pool.Code.{
  Thread, waiting, running, exited, checking, summing, marking, scanning,
}

abbrev pub over : {A : Type 0} → (A → ℕ) → List A → ℕ
over f [] = 0
over f (x ∷ xs) = f x + over f xs

abbrev pub at : ℕ → ℕ → ℕ
at v w = if w == v then 1 else 0

abbrev pub count : ℕ → List ℕ → ℕ
count v xs = over (at v) xs

-- Whether the thread has the task of `v` and has not marked the node.
abbrev pub held : ℕ → Thread → ℕ
held v waiting = 0
held v running = 0
held v exited = 0
held v (checking w) = at v w
held v (summing w) = at v w
held v (marking w) = at v w
held v (scanning w ws) = 0

-- The value that the thread is going to add.
abbrev pub unsummed : (ℕ → ℕ) → Thread → ℕ
unsummed info waiting = 0
unsummed info running = 0
unsummed info exited = 0
unsummed info (checking w) = info w
unsummed info (summing w) = info w
unsummed info (marking w) = 0
unsummed info (scanning w ws) = 0

-- How often the thread is going to look at `w` as a neighbour of `v`.
abbrev pub to_scan : (v w : ℕ) → Thread → ℕ
to_scan v w waiting = 0
to_scan v w running = 0
to_scan v w exited = 0
to_scan v w (checking u) = 0
to_scan v w (summing u) = 0
to_scan v w (marking u) = 0
to_scan v w (scanning u ws) = if u == v then count w ws else 0

abbrev pub alive : Thread → ℕ
alive waiting = 1
alive running = 1
alive exited = 0
alive (checking v) = 1
alive (summing v) = 1
alive (marking v) = 1
alive (scanning v ws) = 1

pub over-set :
    {A : Type 0} (f : A → ℕ) (xs : List A) (i : ℕ) (x y : A)
    → get_elem? xs i ≡ some x
    → over f (set xs i y) + f x ≡ over f xs + f y
over-set f [] i x y e = cc
over-set f (z ∷ zs) zero x y e = omega (arith, ap f (some-injective z x e))
over-set f (z ∷ zs) (suc i) x y e = omega (arith, over-set f zs i x y e)

pub over-append :
    {A : Type 0} (f : A → ℕ) (xs ys : List A) → over f (xs ++ ys) ≡ over f xs + over f ys
over-append f [] ys = omega arith
over-append f (x ∷ xs) ys = omega (arith, over-append f xs ys)

-- Where every thread has ended nothing is left to do.
pub over-alive :
    (f : Thread → ℕ) (ts : List Thread) → f exited ≡ 0 → over alive ts ≡ 0 → over f ts ≡ 0
over-alive f [] e h = refl
over-alive f (exited ∷ ts) e h = omega (arith, e, over-alive f ts e (omega arith))
over-alive f (waiting ∷ ts) e h = absurd (omega arith)
over-alive f (running ∷ ts) e h = absurd (omega arith)
over-alive f (checking v ∷ ts) e h = absurd (omega arith)
over-alive f (summing v ∷ ts) e h = absurd (omega arith)
over-alive f (marking v ∷ ts) e h = absurd (omega arith)
over-alive f (scanning v ws ∷ ts) e h = absurd (omega arith)

pub count-Memᴰ : (v : ℕ) (xs : List ℕ) → Memᴰ v xs → 0 < count v xs
count-Memᴰ v [] m = absurd (Memᴰ.not-nil m)
count-Memᴰ v (x ∷ xs) (Memᴰ.head e) = ground arith
count-Memᴰ v (x ∷ xs) (Memᴰ.tail m) = omega (arith, count-Memᴰ v xs m)

pub at_same : (u v : ℕ) → u ≡ v → at u v ≡ 1
at_same u v e = ground arith

pub at_elsewhere : (u v : ℕ) → u ≢ v → at u v ≡ 0
at_elsewhere u v d = ground arith

pub Memᴰ-count : (v : ℕ) (xs : List ℕ) → 0 < count v xs → Memᴰ v xs
Memᴰ-count v [] h = absurd (omega arith)
Memᴰ-count v (x ∷ xs) h = elim (ℕ_discrete v x) [
  | yes e ↦ Memᴰ.head e
  | no d ↦ Memᴰ.tail (Memᴰ-count v xs (omega (arith, at_elsewhere v x d)))
]

-- The weight of one thread is part of the sum.
pub over-get :
    {A : Type 0} (f : A → ℕ) (xs : List A) (i : ℕ) (x : A)
    → get_elem? xs i ≡ some x
    → f x ≤ over f xs
over-get f [] i x e = cc
over-get f (z ∷ zs) zero x e = omega (arith, ap f (some-injective z x e))
over-get f (z ∷ zs) (suc i) x e = omega (arith, over-get f zs i x e)

pub to_scan_own : (u w v : ℕ) (ws : List ℕ) → u ≡ v → to_scan u w (scanning v ws) ≡ count w ws
to_scan_own u w v ws e = ground arith

pub to_scan-count : (u w v : ℕ) (ws : List ℕ) → to_scan u w (scanning v ws) ≤ count w ws
to_scan-count u w v ws = ground arith

-- A round of the loop over the neighbours.
pub to_scan_cons :
    (u x v w : ℕ) (ws : List ℕ)
    → (to_scan u x (scanning v ws) ≤ to_scan u x (scanning v (w ∷ ws)))
      × (x ≢ w → to_scan u x (scanning v ws) ≡ to_scan u x (scanning v (w ∷ ws)))
to_scan_cons u x v w ws = ground arith
