-- ===== src/Mm/Malloc.antt =====
-- `malloc` and `free` of mini-libc/src/mm/malloc.c on the list of mappings.
use operating_system_challen.Base.{
  ℕ, suc, ◌^◌, ◌-◌, ◌<◌, ◌==◌, ◌≡◌, ◌≢◌, refl, sym, ◌∙◌, ap, subst, true, false, List, [], ◌∷◌,
  ◌++◌, map, length, All, All-split, arith, Bool-cases, inl, inr, length-append,
}
use operating_system_challen.Mm.State.{
  Ptr, null, map_failed, Kernel, State, Run, Cmd, ok, fault, out_of_fuel, and_then, ◌>>=◌, get_len,
}
use operating_system_challen.Ring.{Other}
use operating_system_challen.Mm.Find.{
  IsList, mapping, first_with, mem_list_find-first_with, get_start-ok, get_len-ok,
}
use operating_system_challen.Mm.Update.{Returns, mmap_private-ok}
use operating_system_challen.Mm.Mappings.{
  Mapping, is_mapped, length_at, remove_first, absent, found, place, is_mapped-absent,
  is_mapped-found, length_at-found,
}
use operating_system_challen.Mm.Holds.{
  Holds, Fresh, mem_list_add-Holds, mem_list_del-Holds, munmap-ok,
}
use operating_system_challen.Mm.Code.{private_anonymous, mem_list_add, mem_list_del, malloc, free}

module _ {W : Type 0} where
  pub Returns-and_then :
      {A B : Type 0} (r : Run W A) (f : A → Cmd W B) (P : A → State W → Type 0)
      (Q : B → State W → Type 0)
      → Returns r P
      → ((a : A) (s : State W) → P a s → Returns (f a s) Q)
      → Returns (and_then r f) Q
  unfolding Returns
  Returns-and_then (ok a s) f P Q h g = g a s h
  Returns-and_then fault f P Q h g = absurd h
  Returns-and_then out_of_fuel f P Q h g = absurd h

  Returns-mono :
      {A : Type 0} (r : Run W A) (P Q : A → State W → Type 0)
      → Returns r P
      → ((a : A) (s : State W) → P a s → Q a s)
      → Returns r Q
  unfolding Returns
  Returns-mono (ok a s) P Q h g = g a s h
  Returns-mono fault P Q h g = absurd h
  Returns-mono out_of_fuel P Q h g = absurd h

  length-map-mapping : (s : State W) (xs : List Ptr) → length (map (mapping s) xs) ≡ length xs
  length-map-mapping s [] = refl
  length-map-mapping s (x ∷ xs) = ap suc (length-map-mapping s xs)

  module _ (k : Kernel W) (head : Ptr) where
    -- The kernel grants a mapping of `size` bytes at `p`, and then an item for the list that is in
    -- nobody's use.
    pub record Grants (size : ℕ) (p : Ptr) (xs : List Ptr) (s : State W) : Type 0 where
      pub item : Ptr
      pub world : W
      pub world' : W
      pub block : k.sys_mmap null size 3 private_anonymous (2 ^ 32 - 1) 0 s.world ≡ (p, world)
      pub block_valid : p ≢ map_failed
      pub item_given : k.sys_mmap null 32 3 private_anonymous (2 ^ 32 - 1) 0 world ≡ (item, world')
      pub item_fresh : Fresh head xs item

    -- For a size that is not 0, where the kernel grants the memory and an item for the list, `malloc`
    -- returns the kernel's address, and the block is the last mapping of the list.
    pub malloc-Holds :
        (size : ℕ) (p : Ptr) (xs : List Ptr) (s : State W)
        → IsList head xs s
        → size ≢ 0
        → Grants size p xs s
        → Returns
            (malloc k head size s)
            λ q t. (q ≡ p) × Holds head (map (mapping s) xs ++ (p, size) ∷ []) t
    unfolding malloc IsList Returns
    malloc-Holds size p xs s h n g =
        let c : (size == 0) ≡ false = ground arith in
        let v : p ≢ map_failed = g.block_valid in
        let d : (p == map_failed) ≡ false = ground arith in
        rw (c, mmap_private-ok k size s p g.world g.block v, d)
          (Returns-and_then (mem_list_add k head p size (record s { world = g.world })) _ _ _
            (mem_list_add-Holds k head p size xs (record s { world = g.world }) g.item g.world' h
              g.item_given g.item_fresh)
            λ status t q. (refl, q.1))

    -- What `free` leaves.
    abbrev pub Freed : ℕ → Ptr → State W → List Ptr → Type 0
    Freed fuel ptr s xs = Returns (free k head fuel ptr s) λ _ t.
        Holds head (remove_first ptr (map (mapping s) xs)) t
        × (t.world
            ≡ (k.sys_munmap (first_with s.start ptr xs) 32
                (k.sys_munmap ptr (length_at ptr (map (mapping s) xs)) s.world).1).1)

    free-found :
        (fuel : ℕ) (a : Ptr) (ys : List Ptr) (x : Ptr) (zs : List Ptr) (s : State W)
        → IsList head (ys ++ x ∷ zs) s
        → length (ys ++ x ∷ zs) < fuel
        → first_with s.start a (ys ++ x ∷ zs) ≡ x
        → (s.start x == a) ≡ true
        → All (λ y. (s.start y == a) ≡ false) ys
        → Freed fuel a s (ys ++ x ∷ zs)
    unfolding free IsList Returns
    free-found fuel a ys x zs s h more g t o =
        let d = (All-split (Other null) ys (x ∷ zs) h.2).1.0 in
        let e : s.start x ≡ a = ground arith in
        let (r, i, m) = munmap-ok k head a (s.len x) s in
        let s' = record s { errno = i; world = (k.sys_munmap a (s.len x) s.world).1 } in
        rw
          (
            mem_list_find-first_with k head fuel a (ys ++ x ∷ zs) s h more,
            g,
            get_len-ok x s d,
            m,
            get_start-ok x s' d,
            e,
          )
          (Returns-and_then (mem_list_del k head fuel a s') _ _ _
            (mem_list_del-Holds k head fuel a (ys ++ x ∷ zs) s' h more)
            λ status u q. (
              q.1,
              rw (length_at-found s a x zs t ys o)
                  (q.2 ∙ rw (is_mapped-found s' a x zs t ys o, g) refl),
            ))

    -- On a well-formed list that is shorter than the fuel, `free` of the address of a mapping
    -- unmaps the whole block and the item of the list, in this order, and the list is well-formed
    -- and has lost the first mapping at the address and no other.
    pub free-Holds :
        (fuel : ℕ) (ptr : Ptr) (xs : List Ptr) (s : State W)
        → IsList head xs s
        → length xs < fuel
        → is_mapped ptr (map (mapping s) xs) ≡ true
        → Freed fuel ptr s xs
    free-Holds fuel ptr xs s h more b = elim (place s.start ptr xs) [
      | absent n o ↦ let e = sym b ∙ is_mapped-absent s ptr xs o in absurd cc
      | found ys x zs p g t o ↦ subst (Freed fuel ptr s) (sym p) (
          free-found fuel ptr ys x zs s (subst (λ ws. IsList head ws s) p h)
            (subst (λ ws. length ws < fuel) p more)
            (subst (λ ws. first_with s.start ptr ws ≡ x) p g) t o)
    ]

    -- On a well-formed list that is shorter than the fuel, `free` of an address at which there is
    -- no mapping reads through NULL.
    pub free-fault :
        (fuel : ℕ) (ptr : Ptr) (xs : List Ptr) (s : State W)
        → IsList head xs s
        → length xs < fuel
        → is_mapped ptr (map (mapping s) xs) ≡ false
        → free k head fuel ptr s ≡ fault
    unfolding free get_len
    free-fault fuel ptr xs s h more b = elim (place s.start ptr xs) [
      | absent n o ↦ rw (mem_list_find-first_with k head fuel ptr xs s h more, n) refl
      | found ys x zs p g t o ↦
          let e =
            sym (subst (λ ws. is_mapped ptr (map (mapping s) ws) ≡ false) p b)
            ∙ is_mapped-found s ptr x zs t ys o in
          absurd cc
    ]

    remove_first-last :
        (p : Ptr) (size : ℕ) (ms : List Mapping)
        → is_mapped p ms ≡ false
        → remove_first p (ms ++ (p, size) ∷ []) ≡ ms
    unfolding remove_first is_mapped
    remove_first-last p size [] b = let c : (p == p) ≡ true = ground arith in rw c refl
    remove_first-last p size (m ∷ ms) b = elim (Bool-cases (m.0 == p)) [
      | inl e ↦ let f : true ≡ false = rw e at b in absurd cc
      | inr e ↦
          let f : is_mapped p ms ≡ false = rw e at b in
          rw e (ap (λ ns. m ∷ ns) (remove_first-last p size ms f))
    ]

    is_mapped-last :
        (p : Ptr) (size : ℕ) (ms : List Mapping) → is_mapped p (ms ++ (p, size) ∷ []) ≡ true
    unfolding is_mapped
    is_mapped-last p size [] = let c : (p == p) ≡ true = ground arith in rw c refl
    is_mapped-last p size (m ∷ ms) = elim (Bool-cases (m.0 == p)) [
      | inl e ↦ rw e refl
      | inr e ↦ rw e (is_mapped-last p size ms)
    ]

    -- On a well-formed list: where the kernel grants the memory at an address that is not on the
    -- list, and an item that the list does not use, and the fuel is above the length of the list
    -- by more than one, `malloc` of a size that is not 0 and `free` of its result leave the
    -- mappings as they were.
    pub malloc-free :
        (fuel size : ℕ) (p : Ptr) (xs : List Ptr) (s : State W)
        → IsList head xs s
        → suc (length xs) < fuel
        → size ≢ 0
        → Grants size p xs s
        → is_mapped p (map (mapping s) xs) ≡ false
        → Returns
            ((malloc k head size >>= λ q. free k head fuel q) s)
            λ _ t. Holds head (map (mapping s) xs) t
    malloc-free fuel size p xs s h more n g b =
        Returns-and_then (malloc k head size s) _ _ _ (malloc-Holds size p xs s h n g)
          λ q t (e, (ys, l, m)).
            subst (λ q. Returns (free k head fuel q t) λ _ u. Holds head (map (mapping s) xs) u)
              (sym e)
              (Returns-mono (free k head fuel p t) _ _
                (free-Holds fuel p ys t l (longer ys t m)
                  (ap (is_mapped p) m ∙ is_mapped-last p size (map (mapping s) xs)))
                λ _ u (held, _). same ys t u m held)
      where
        longer :
            (ys : List Ptr) (t : State W)
            → map (mapping t) ys ≡ map (mapping s) xs ++ (p, size) ∷ []
            → length ys < fuel
        longer ys t m =
            let e =
              sym (length-map-mapping t ys)
              ∙ ap length m
              ∙ length-append (map (mapping s) xs) ((p, size) ∷ []) in
            let f = length-map-mapping s xs in omega arith

        same :
            (ys : List Ptr) (t u : State W)
            → map (mapping t) ys ≡ map (mapping s) xs ++ (p, size) ∷ []
            → Holds head (remove_first p (map (mapping t) ys)) u
            → Holds head (map (mapping s) xs) u
        same ys t u m (zs, l, e) =
            (zs, l, e ∙ ap (remove_first p) m ∙ remove_first-last p size (map (mapping s) xs) b)
