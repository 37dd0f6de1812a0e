-- ===== src/Mm/Holds.antt =====
-- What the operations of mini-libc/src/mm/mem_list.c do to the list of mappings.
use operating_system_challen.Base.{
  ℕ, ◌^◌, ◌-◌, ◌%◌, ◌<◌, ◌==◌, ◌≡◌, ◌≢◌, refl, sym, ◌∙◌, ap, subst, true, false, List, [], ◌∷◌,
  ◌++◌, map, length, All, All-split, All-append, arith, if◌then◌else◌, Bool-cases, inl, inr,
}
use operating_system_challen.Mm.State.{Ptr, null, map_failed, Kernel, State, ok}
use operating_system_challen.Ring.{
  Linked, Linked-split, Linked-prev_end, All-last_from, Other, put_same, put_other,
}
use operating_system_challen.Ring.Splice.{IsRing, attach-IsRing, detach-IsRing}
use operating_system_challen.Mm.Find.{IsList, mapping, first_with, mem_list_find-first_with}
use operating_system_challen.Mm.Update.{
  Returns, added, mem_list_add-added, unlinked, unlink-unlinked,
}
use operating_system_challen.Mm.Mappings.{
  Mapping, is_mapped, remove_first, absent, found, place, is_mapped-absent, remove_first-absent,
  is_mapped-found, remove_first-found,
}
use operating_system_challen.Mm.Code.{
  private_anonymous, munmap, mem_list_free, mem_list_add, mem_list_find, unlink, mem_list_extract,
  mem_list_del,
}

Linked-next_not_null :
    (n b : Ptr → Ptr) (p : Ptr) (xs : List Ptr) (q : Ptr)
    → Linked n b p xs q
    → q ≢ null
    → All (Other null) xs
    → n p ≢ null
unfolding Linked
Linked-next_not_null n b p [] q h z o e = z (sym h.0 ∙ e)
Linked-next_not_null n b p (x ∷ xs) q h z o e = o.0 (sym h.0 ∙ e)

-- An address that the list does not use.
abbrev pub Fresh : Ptr → List Ptr → Ptr → Type 0
Fresh head xs item = (item ≢ map_failed) × (item ≢ null) × (item ≢ head) × All (Other item) xs

module _ {W : Type 0} where
  -- The list through `head` has the mappings `ms`, in their order.
  abbrev pub Holds : Ptr → List Mapping → State W → Type 0
  Holds head ms s = (xs : List Ptr) × IsList head xs s × (map (mapping s) xs ≡ ms)

  pub IsList-items :
      (head : Ptr) (xs : List Ptr) (s : State W) → IsList head xs s → All (Other null) xs
  unfolding IsList
  IsList-items head xs s h = h.2

  IsList-prev_not_null :
      (head : Ptr) (xs : List Ptr) (s : State W) → IsList head xs s → s.prev head ≢ null
  unfolding IsList IsRing
  IsList-prev_not_null head xs s ((h, d), z, zs) e =
      All-last_from (Other null) head xs z zs
        (sym (Linked-prev_end s.next s.prev head xs head h) ∙ e)

  map-mapping-added :
      (head item start : Ptr) (len : ℕ) (w : W) (s : State W) (xs : List Ptr)
      → All (Other item) xs
      → map (mapping (added head item start len w s)) (xs ++ item ∷ [])
        ≡ map (mapping s) xs ++ (start, len) ∷ []
  map-mapping-added head item start len w s [] o =
      ap (λ m. m ∷ []) (rw (put_same s.start item start, put_same s.len item len) refl)
  map-mapping-added head item start len w s (x ∷ xs) o =
      rw (put_other s.start item start x o.0, put_other s.len item len x o.0)
        (ap (λ ms. mapping s x ∷ ms) (map-mapping-added head item start len w s xs o.1))

  added-IsList :
      (head item start : Ptr) (len : ℕ) (w : W) (s : State W) (xs : List Ptr)
      → Fresh head xs item
      → IsList head xs s
      → IsList head (xs ++ item ∷ []) (added head item start len w s)
  unfolding IsList
  added-IsList head item start len w s xs (_, i, d, o) (r, z, zs) = (
    attach-IsRing s.next s.prev head xs item (s.prev head) d o refl r,
    z,
    All-append (Other null) xs (item ∷ []) zs (i, tt),
  )

  module _ (k : Kernel W) (head : Ptr) where
    -- Where the kernel grants an item that the list does not use, `mem_list_add` succeeds, and the
    -- mapping is the last one of the list.
    pub mem_list_add-Holds :
        (start : Ptr) (len : ℕ) (xs : List Ptr) (s : State W) (item : Ptr) (w : W)
        → IsList head xs s
        → k.sys_mmap null 32 3 private_anonymous (2 ^ 32 - 1) 0 s.world ≡ (item, w)
        → Fresh head xs item
        → Returns
            (mem_list_add k head start len s)
            λ status t. (status ≡ 0) × Holds head (map (mapping s) xs ++ (start, len) ∷ []) t
    unfolding Returns IsList
    mem_list_add-Holds start len xs s item w h e f =
        rw
          (mem_list_add-added k head start len s item w h.1 (IsList-prev_not_null head xs s h) e f.0
            f.1)
          (
            refl,
            (
              xs ++ item ∷ [],
              added-IsList head item start len w s xs f h,
              map-mapping-added head item start len w s xs f.3,
            ),
          )

    pub unlinked-IsList :
        (xs : List Ptr) (y : Ptr) (ys : List Ptr) (s : State W)
        → IsList head (xs ++ y ∷ ys) s
        → IsList head (xs ++ ys) (unlinked y s)
    unfolding IsList
    unlinked-IsList xs y ys s (r, z, zs) =
        let (l, m) = All-split (Other null) xs (y ∷ ys) zs in
        (
          detach-IsRing s.next s.prev head xs y ys _ _ refl refl r,
          z,
          All-append (Other null) xs ys l m.1,
        )

    pub unlink-ok :
        (xs : List Ptr) (y : Ptr) (ys : List Ptr) (s : State W)
        → IsList head (xs ++ y ∷ ys) s
        → unlink k head y s ≡ ok tt (unlinked y s)
    unfolding IsList IsRing
    unlink-ok xs y ys s ((h, d), z, zs) =
        let (l, m) = All-split (Other null) xs (y ∷ ys) zs in
        let (left, right) = Linked-split s.next s.prev head xs y ys head h in
        unlink-unlinked k head y s m.0 (Linked-next_not_null s.next s.prev y ys head right z m.1)
          λ e.
            All-last_from (Other null) head xs z l
              (sym (Linked-prev_end s.next s.prev head xs y left) ∙ e)

    -- `munmap` touches `errno` and the kernel alone.
    pub munmap-ok :
        (p : Ptr) (len : ℕ) (s : State W)
        → (r e : ℕ) × (munmap k p len s
            ≡ ok r (record s { errno = e; world = (k.sys_munmap p len s.world).1 }))
    unfolding munmap
    munmap-ok p len s =
        let r = (k.sys_munmap p len s.world).0 % 2 ^ 32 in
        elim (Bool-cases (r == 0)) [
          | inl e ↦ (2 ^ 32 - 1, 0, rw e refl)
          | inr e ↦ (r, s.errno, rw e refl)
        ]

    -- The end of `mem_list_del`, for the mappings of `xs`.
    abbrev pub Deleted : ℕ → Ptr → State W → List Ptr → Type 0
    Deleted fuel a s xs = Returns (mem_list_del k head fuel a s) λ status t.
        (status ≡ (if is_mapped a (map (mapping s) xs) then 0 else 2 ^ 32 - 1))
        × Holds head (remove_first a (map (mapping s) xs)) t
        × (t.world ≡ (
            if is_mapped a (map (mapping s) xs)
            then (k.sys_munmap (first_with s.start a xs) 32 s.world).1
            else s.world))

    mem_list_del-found :
        (fuel : ℕ) (a : Ptr) (ys : List Ptr) (x : Ptr) (zs : List Ptr) (s : State W)
        → IsList head (ys ++ x ∷ zs) s
        → mem_list_find k head fuel a s ≡ ok x s
        → first_with s.start a (ys ++ x ∷ zs) ≡ x
        → (s.start x == a) ≡ true
        → All (λ y. (s.start y == a) ≡ false) ys
        → Deleted fuel a s (ys ++ x ∷ zs)
    unfolding mem_list_del mem_list_extract Returns mem_list_free IsList
    mem_list_del-found fuel a ys x zs s h e g t o =
        let d : x ≢ null =
          (All-split (Other null) ys (x ∷ zs) (IsList-items head (ys ++ x ∷ zs) s h)).1.0 in
        let c : (x == null) ≡ false = ground arith in
        let (r, i, m) = munmap-ok x 32 (unlinked x s) in
        rw (e, c, unlink-ok ys x zs s h, c, m)
          (
            rw (is_mapped-found s a x zs t ys o) refl,
            (ys ++ zs, unlinked-IsList ys x zs s h, sym (remove_first-found s a x zs t ys o)),
            rw (is_mapped-found s a x zs t ys o, g) refl,
          )

    -- On a well-formed list that is shorter than the fuel, `mem_list_del` takes the first mapping
    -- at the address out of the list, unmaps its item and returns 0; if there is none it returns
    -- -1, and unmaps nothing, and the mappings stay. The list is well-formed after it.
    pub mem_list_del-Holds :
        (fuel : ℕ) (a : Ptr) (xs : List Ptr) (s : State W)
        → IsList head xs s
        → length xs < fuel
        → Deleted fuel a s xs
    unfolding mem_list_del mem_list_extract Returns
    mem_list_del-Holds fuel a xs s h more = elim (place s.start a xs) [
      | absent n o ↦
          rw (mem_list_find-first_with k head fuel a xs s h more, n)
            (
              rw (is_mapped-absent s a xs o) refl,
              (xs, h, sym (remove_first-absent s a xs o)),
              rw (is_mapped-absent s a xs o) refl,
            )
      | found ys x zs p g t o ↦ subst (Deleted fuel a s) (sym p) (
          mem_list_del-found fuel a ys x zs s (subst (λ ws. IsList head ws s) p h)
            (mem_list_find-first_with k head fuel a xs s h more ∙ ap (λ q. ok q s) g)
            (subst (λ ws. first_with s.start a ws ≡ x) p g) t o)
    ]
