-- ===== src/Ring/Splice.antt =====
-- Putting an item at the end of a ring, and taking one out: the assignments of `mem_list_add` and
-- `mem_list_extract` of mini-libc/src/mm/mem_list.c, and of `list_add_tail` and `list_del` of
-- parallel-graph/src/os_list.h, on the two fields.
use operating_system_challen.Base.{
  ◌≡◌, ◌≢◌, sym, ◌∙◌, subst, List, [], ◌∷◌, ◌++◌, All, All-split, All-append, All-mono,
}
use mathlib.Core.List.{append-nil}
use operating_system_challen.Ring.{
  Ptr, put, put_same, put_other, other_sym, Linked, Linked-append, Linked-split, Linked-prev_end,
  All-last_from, Linked-put_next, Linked-put_prev, Linked-turn, Other, Distinct, Distinct-split,
  last_from,
}

-- A ring through `head`, whose items are distinct from each other and from `head`.
unfoldable pub IsRing : (next prev : Ptr → Ptr) → Ptr → List Ptr → Type 0
IsRing n b head xs = Linked n b head xs head × Distinct (head ∷ xs)

-- The items in front are distinct from those behind.
pub Distinct-apart : (ws vs : List Ptr) → Distinct (ws ++ vs) → All (λ r. All (Other r) vs) ws
unfolding Distinct
Distinct-apart [] vs h = tt
Distinct-apart (w ∷ ws) vs h = ((All-split (Other w) ws vs h.0).1, Distinct-apart ws vs h.1)

pub Distinct-snoc :
    (xs : List Ptr) (y : Ptr) → Distinct xs → All (Other y) xs → Distinct (xs ++ y ∷ [])
unfolding Distinct
Distinct-snoc [] y h a = (tt, tt)
Distinct-snoc (x ∷ xs) y h a =
    (All-append (Other x) xs (y ∷ []) h.0 (other_sym _ _ a.0, tt), Distinct-snoc xs y h.1 a.1)

pub attach-IsRing :
    (n b : Ptr → Ptr) (head : Ptr) (xs : List Ptr) (y l : Ptr)
    → y ≢ head
    → All (Other y) xs
    → b head ≡ l
    → IsRing n b head xs
    → IsRing (put (put n y head) l y) (put (put b y l) head y) head (xs ++ y ∷ [])
unfolding IsRing Distinct Linked
attach-IsRing n b head xs y l d a e (h, (o, u)) = (
  Linked-append _ _ head xs y [] head
      (Linked-put_prev _ _ head y head xs y d o (
        subst (λ l. Linked (put (put n y head) l y) (put b y l) head xs y) back
          (Linked-turn (put n y head) b head xs head y o u a
            (Linked-put_next n b y head head xs head (other_sym _ _ d) a h))))
      (
        put_other (put n y head) l y y (λ p. fresh (p ∙ sym back)) ∙ put_same n y head,
        put_same (put b y l) head y,
      ),
  (All-append (Other head) xs (y ∷ []) o (d, tt), Distinct-snoc xs y u a),
)
  where
    back : last_from head xs ≡ l
    back = sym (Linked-prev_end n b head xs head h) ∙ e

    fresh : y ≢ last_from head xs
    fresh = All-last_from (λ r. y ≢ r) head xs d (All-mono _ _ xs (λ r. other_sym r y) a)

detach_last :
    (n b : Ptr → Ptr) (head : Ptr) (xs : List Ptr) (y : Ptr)
    → head ≢ y
    → All (Other head) xs
    → Distinct xs
    → All (Other y) xs
    → Linked n b head xs y
    → Linked
        (put (put n (last_from head xs) head) y y)
        (put (put b head (last_from head xs)) y y)
        head
        xs
        head
detach_last n b head xs y d o u a h =
    Linked-put_next _ _ y y head xs head d a
      (Linked-put_prev _ _ y y head xs head d a (Linked-turn n b head xs y head o u o h))

detach_middle :
    (n b : Ptr → Ptr) (head : Ptr) (xs : List Ptr) (y z : Ptr) (zs : List Ptr)
    → Distinct (head ∷ xs ++ y ∷ z ∷ zs)
    → Linked n b head xs y
    → Linked n b z zs head
    → Linked
        (put (put n (last_from head xs) z) y y)
        (put (put b z (last_from head xs)) y y)
        head
        (xs ++ z ∷ zs)
        head
unfolding Distinct
detach_middle n b head xs y z zs (o, d) h k =
    let (u, u', a, a') = Distinct-split xs y (z ∷ zs) d in
    let (_, _, c, c') = Distinct-split xs z zs u' in
    let (hy, (hz, hzs)) = (All-split (Other head) xs (y ∷ z ∷ zs) o).1 in
    let from_head = Distinct-apart (head ∷ xs) (y ∷ z ∷ zs) (o, d) in
    let (lz, lzs) =
      (All-last_from (λ r. All (Other r) (y ∷ z ∷ zs)) head xs from_head.0 from_head.1).1 in
    Linked-append _ _ head xs z zs head
      (Linked-put_next _ _ y y head xs z (other_sym _ _ hy) a (
        Linked-put_prev _ _ y y head xs z a'.0 a
          (Linked-turn n b head xs y z (All-split (Other head) xs (y ∷ z ∷ zs) o).0 u c h)))
      (Linked-put_next _ _ y y z zs head a'.0 a'.1 (
        Linked-put_prev _ _ y y z zs head (other_sym _ _ hy) a'.1 (
          Linked-put_next _ _ _ z z zs head lz lzs
            (Linked-put_prev n b z _ z zs head (other_sym _ _ hz) c' k))))

detach :
    (n b : Ptr → Ptr) (head : Ptr) (xs : List Ptr) (y : Ptr) (ys : List Ptr) (q : Ptr)
    → n y ≡ q
    → Distinct (head ∷ xs ++ y ∷ ys)
    → Linked n b head xs y
    → Linked n b y ys head
    → Linked
        (put (put n (last_from head xs) q) y y)
        (put (put b q (last_from head xs)) y y)
        head
        (xs ++ ys)
        head
unfolding Linked Distinct
detach n b head xs y [] q f (o, d) h k =
    let (u, _, a, _) = Distinct-split xs y [] d in
    let (o', (hy, _)) = All-split (Other head) xs (y ∷ []) o in
    subst
      (λ q.
        Linked (put (put n (last_from head xs) q) y y) (put (put b q (last_from head xs)) y y) head
          (xs ++ []) head)
      (sym k.0 ∙ f)
      (subst
        (λ ws.
          Linked (put (put n (last_from head xs) head) y y)
            (put (put b head (last_from head xs)) y y) head ws head)
        (sym (append-nil xs)) (detach_last n b head xs y (other_sym _ _ hy) o' u a h))
detach n b head xs y (z ∷ zs) q f d h k =
    subst
      (λ q.
        Linked (put (put n (last_from head xs) q) y y) (put (put b q (last_from head xs)) y y) head
          (xs ++ z ∷ zs) head)
      (sym k.0 ∙ f) (detach_middle n b head xs y z zs d h k.2)

-- The ring without `y`, whose neighbours are `l` and `q`.
pub detach-IsRing :
    (n b : Ptr → Ptr) (head : Ptr) (xs : List Ptr) (y : Ptr) (ys : List Ptr) (l q : Ptr)
    → b y ≡ l
    → n y ≡ q
    → IsRing n b head (xs ++ y ∷ ys)
    → IsRing (put (put n l q) y y) (put (put b q l) y y) head (xs ++ ys)
unfolding IsRing
detach-IsRing n b head xs y ys l q e f (h, d) =
    let (left, right) = Linked-split n b head xs y ys head h in
    (
      subst (λ l. Linked (put (put n l q) y y) (put (put b q l) y y) head (xs ++ ys) head)
          (sym (Linked-prev_end n b head xs y left) ∙ e) (detach n b head xs y ys q f d left right),
      (Distinct-split (head ∷ xs) y ys d).1,
    )
