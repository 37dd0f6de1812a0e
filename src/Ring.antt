-- ===== src/Ring.antt =====
-- Doubly linked rings of addresses: the `next` and the `prev` fields of mem_list.c of mini-libc and
-- of os_list.h of parallel-graph, and how a path keeps its items under a write.
pub mod Splice
use operating_system_challen.Base.{
  ℕ, ◌==◌, if◌then◌else◌, ◌≡◌, ◌≢◌, refl, sym, Bool-cases, inl, inr, ◌∙◌, List, [], ◌∷◌, ◌++◌, All,
  All-split, All-append, arith,
}

abbrev pub Ptr : Type 0
Ptr = ℕ

-- `a[p] = x`
unfoldable pub put : (Ptr → ℕ) → Ptr → ℕ → Ptr → ℕ
put f p x a = if a == p then x else f a

pub put_same : (f : Ptr → ℕ) (p x : ℕ) → put f p x p ≡ x
unfolding put
put_same f p x = ground arith

pub put_other : (f : Ptr → ℕ) (p x a : ℕ) → a ≢ p → put f p x a ≡ f a
unfolding put
put_other f p x a e = ground arith

-- From `p` the `next` pointers lead over `xs` to `q`, and the `prev` pointers lead back.
unfoldable pub Linked : (next prev : Ptr → Ptr) → Ptr → List Ptr → Ptr → Type 0
Linked n b p [] q = (n p ≡ q) × (b q ≡ p)
Linked n b p (x ∷ xs) q = (n p ≡ x) × (b x ≡ p) × Linked n b x xs q

abbrev pub Other : Ptr → Ptr → Type 0
Other r x = x ≢ r

unfoldable pub Distinct : List Ptr → Type 0
Distinct [] = Unit
Distinct (x ∷ xs) = All (Other x) xs × Distinct xs

-- The last item of a path from `p`.
unfoldable pub last_from : Ptr → List Ptr → Ptr
last_from p [] = p
last_from p (x ∷ xs) = last_from x xs

pub Linked-append :
    (n b : Ptr → Ptr) (p : Ptr) (xs : List Ptr) (y : Ptr) (ys : List Ptr) (q : Ptr)
    → Linked n b p xs y
    → Linked n b y ys q
    → Linked n b p (xs ++ y ∷ ys) q
unfolding Linked
Linked-append n b p [] y ys q h k = (h.0, h.1, k)
Linked-append n b p (x ∷ xs) y ys q (e, f, h) k = (e, f, Linked-append n b x xs y ys q h k)

pub Linked-split :
    (n b : Ptr → Ptr) (p : Ptr) (xs : List Ptr) (y : Ptr) (ys : List Ptr) (q : Ptr)
    → Linked n b p (xs ++ y ∷ ys) q
    → Linked n b p xs y × Linked n b y ys q
unfolding Linked
Linked-split n b p [] y ys q (e, f, k) = ((e, f), k)
Linked-split n b p (x ∷ xs) y ys q (e, f, h) =
    let (l, r) = Linked-split n b x xs y ys q h in ((e, f, l), r)

-- The ends point to each other's neighbours.
pub Linked-next_last :
    (n b : Ptr → Ptr) (p : Ptr) (xs : List Ptr) (q : Ptr)
    → Linked n b p xs q
    → n (last_from p xs) ≡ q
unfolding Linked last_from
Linked-next_last n b p [] q h = h.0
Linked-next_last n b p (x ∷ xs) q (e, f, h) = Linked-next_last n b x xs q h

pub Linked-prev_end :
    (n b : Ptr → Ptr) (p : Ptr) (xs : List Ptr) (q : Ptr) → Linked n b p xs q → b q ≡ last_from p xs
unfolding Linked last_from
Linked-prev_end n b p [] q h = h.1
Linked-prev_end n b p (x ∷ xs) q (e, f, h) = Linked-prev_end n b x xs q h

pub All-last_from :
    (P : Ptr → Type 0) (p : Ptr) (xs : List Ptr) → P p → All P xs → P (last_from p xs)
unfolding last_from
All-last_from P p [] h k = h
All-last_from P p (x ∷ xs) h k = All-last_from P x xs k.0 k.1

-- A write to the `next` field of an address that is neither the start nor an item.
pub Linked-put_next :
    (n b : Ptr → Ptr) (r v p : Ptr) (xs : List Ptr) (q : Ptr)
    → p ≢ r
    → All (Other r) xs
    → Linked n b p xs q
    → Linked (put n r v) b p xs q
unfolding Linked
Linked-put_next n b r v p [] q d a (e, f) = (put_other n r v p d ∙ e, f)
Linked-put_next n b r v p (x ∷ xs) q d a (e, f, h) =
    (put_other n r v p d ∙ e, f, Linked-put_next n b r v x xs q a.0 a.1 h)

-- A write to the `prev` field of an address that is neither an item nor the end.
pub Linked-put_prev :
    (n b : Ptr → Ptr) (r v p : Ptr) (xs : List Ptr) (q : Ptr)
    → q ≢ r
    → All (Other r) xs
    → Linked n b p xs q
    → Linked n (put b r v) p xs q
unfolding Linked
Linked-put_prev n b r v p [] q d a (e, f) = (e, put_other b r v q d ∙ f)
Linked-put_prev n b r v p (x ∷ xs) q d a (e, f, h) =
    (e, put_other b r v x a.0 ∙ f, Linked-put_prev n b r v x xs q d a.1 h)

-- A value that is read behind the write of it to a field.
pub put_own : (f : Ptr → ℕ) (p q : Ptr) → put f q (f p) p ≡ f p
unfolding put
put_own f p q = elim (Bool-cases (p == q)) [ inl e ↦ rw e refl | inr e ↦ rw e refl ]

pub other_sym : (x y : Ptr) → x ≢ y → y ≢ x
other_sym x y d e = d (sym e)

-- A path that leads to `y` is turned to `q`: its last item points to `q`, and `q` back to it.
pub Linked-turn :
    (n b : Ptr → Ptr) (p : Ptr) (xs : List Ptr) (y q : Ptr)
    → All (Other p) xs
    → Distinct xs
    → All (Other q) xs
    → Linked n b p xs y
    → Linked (put n (last_from p xs) q) (put b q (last_from p xs)) p xs q
unfolding Linked last_from Distinct
Linked-turn n b p [] y q d a c h = (put_same n p q, put_same b q p)
Linked-turn n b p (x ∷ xs) y q d (a, as') c (e, f, h) = (
  put_other n _ q p (other_sym _ _ (All-last_from (Other p) x xs d.0 d.1)) ∙ e,
  put_other b q _ x c.0 ∙ f,
  Linked-turn n b x xs y q a as' c.1 h,
)

-- Parts of a list of distinct addresses.
pub Distinct-split :
    (xs : List Ptr) (y : Ptr) (ys : List Ptr)
    → Distinct (xs ++ y ∷ ys)
    → Distinct xs × Distinct (xs ++ ys) × All (Other y) xs × All (Other y) ys
unfolding Distinct
Distinct-split [] y ys h = (tt, h.1, tt, h.0)
Distinct-split (x ∷ xs) y ys (a, h) =
    let (d, d', o, o') = Distinct-split xs y ys h in
    let (l, r) = All-split (Other x) xs (y ∷ ys) a in
    ((l, d), (All-append (Other x) xs ys l r.1, d'), (other_sym y x r.0, o), o')
