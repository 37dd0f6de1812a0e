-- ===== src/Pool/OsList.antt =====
-- The intrusive list of parallel-graph/src/os_list.h: the `next` and `prev` fields as functions of
-- the address of an `os_list_node_t`.
use operating_system_challen.Base.{
  ◌≡◌, ◌≢◌, refl, sym, subst, ◌∙◌, Bool, true, false, ◌==◌, arith, List, [], ◌∷◌, ◌++◌, All,
}
use operating_system_challen.Ring.{
  Ptr, put, put_own, put_same, put_other, other_sym, Linked, Linked-put_next, Linked-put_prev,
  Other, Distinct,
}
use operating_system_challen.Ring.Splice.{IsRing, attach-IsRing, detach-IsRing}

-- `os_list_node_t`
pub record Links : Type 0 where
  pub next : Ptr → Ptr
  pub prev : Ptr → Ptr

abbrev pub set_next : Ptr → Ptr → Links → Links
set_next p q l = record l { next = put l.next p q }

abbrev pub set_prev : Ptr → Ptr → Links → Links
set_prev p q l = record l { prev = put l.prev p q }

unfoldable pub list_init : Ptr → Links → Links
unfolding put
list_init head l = let l = set_prev head head l in set_next head head l

unfoldable pub list_add : (head node : Ptr) → Links → Links
unfolding put
list_add head node l =
    let l = set_next node (l.next head) l in
    let l = set_prev node head l in let l = set_prev (l.next head) node l in set_next head node l

unfoldable pub list_add_tail : (head node : Ptr) → Links → Links
unfolding put
list_add_tail head node l =
    let l = set_prev node (l.prev head) l in
    let l = set_next node head l in let l = set_next (l.prev head) node l in set_prev head node l

unfoldable pub list_del : Ptr → Links → Links
unfolding put
list_del node l =
    let l = set_next (l.prev node) (l.next node) l in
    let l = set_prev (l.next node) (l.prev node) l in
    let l = set_next node node l in set_prev node node l

unfoldable pub list_empty : Ptr → Links → Bool
list_empty head l = l.next head == head

-- The nodes of the list behind `head`, in their order.
abbrev pub IsList : Links → Ptr → List Ptr → Type 0
IsList l head xs = IsRing l.next l.prev head xs

pub list_init-IsList : (head : Ptr) (l : Links) → IsList (list_init head l) head []
unfolding list_init IsRing Linked Distinct
list_init-IsList head l = ((put_same l.next head head, put_same l.prev head head), (tt, tt))

pub list_add_tail-IsList :
    (head node : Ptr) (l : Links) (xs : List Ptr)
    → node ≢ head
    → All (Other node) xs
    → IsList l head xs
    → IsList (list_add_tail head node l) head (xs ++ node ∷ [])
unfolding list_add_tail
list_add_tail-IsList head node l xs d a h =
    rw (put_other l.prev node (l.prev head) head (other_sym node head d))
      (attach-IsRing l.next l.prev head xs node (l.prev head) d a refl h)

pub list_del-IsList :
    (head node : Ptr) (l : Links) (xs ys : List Ptr)
    → IsList l head (xs ++ node ∷ ys)
    → IsList (list_del node l) head (xs ++ ys)
unfolding list_del
list_del-IsList head node l xs ys h =
    rw (put_own l.next node (l.prev node))
      (detach-IsRing l.next l.prev head xs node ys (l.prev node) (l.next node) refl refl h)

-- The two fields behind `list_add`, where `q` is the old first node.
Linked-front :
    (n b : Ptr → Ptr) (head y : Ptr) (xs : List Ptr)
    → y ≢ head
    → All (Other y) xs
    → IsRing n b head xs
    → Linked (put (put n y (n head)) head y) (put (put b y head) (n head) y) head (y ∷ xs) head
unfolding IsRing Linked Distinct
Linked-front n b head y [] d a ((e, f), _) = rw e (
  put_same _ head y,
  put_other _ head y y d ∙ put_same b y head,
  (put_other _ head y y d ∙ put_same n y head, put_same _ head y),
)
Linked-front n b head y (x ∷ xs) d (dx, a) ((e, f, h), ((hx, o), (u, _))) =
    subst (λ q. Linked (put (put n y q) head y) (put (put b y head) q y) head (y ∷ x ∷ xs) head)
      (sym e)
      (
        put_same _ head y,
        put_other _ x y y (other_sym x y dx) ∙ put_same b y head,
        (
          put_other _ head y y d ∙ put_same n y x,
          put_same _ x y,
          Linked-put_next _ _ head y x xs head hx o (
              Linked-put_prev _ _ x y x xs head (other_sym x head hx) u (
                Linked-put_next n _ y x x xs head dx a
                  (Linked-put_prev n b y head x xs head (other_sym y head d) a h))),
        ),
      )

pub list_add-IsList :
    (head node : Ptr) (l : Links) (xs : List Ptr)
    → node ≢ head
    → All (Other node) xs
    → IsList l head xs
    → IsList (list_add head node l) head (node ∷ xs)
unfolding list_add IsRing Distinct
list_add-IsList head node l xs d a h =
    rw (put_own l.next head node)
      (Linked-front l.next l.prev head node xs d a h, ((d, h.1.0), (a, h.1.1)))

-- `list_empty` tells whether there is no node.
pub list_empty-IsList :
    (head : Ptr) (l : Links) (xs : List Ptr)
    → IsList l head xs
    → list_empty head l ≡ (elim xs [ [] ↦ true | _ ∷ _ ↦ false ])
unfolding list_empty IsRing Linked Distinct
list_empty-IsList head l [] ((e, _), _) = ground arith
list_empty-IsList head l (x ∷ xs) ((e, _, _), ((d, _), _)) = ground arith
