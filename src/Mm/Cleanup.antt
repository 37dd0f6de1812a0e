-- ===== src/Mm/Cleanup.antt =====
-- `mem_list_init` and `mem_list_cleanup` of mini-libc/src/mm/mem_list.c, and the program between
-- them in mini-libc/src/crt/__libc_start_main.c.
use operating_system_challen.Base.{
  ℕ, zero, suc, ◌<◌, ◌==◌, ◌≡◌, ◌≢◌, refl, sym, ◌∙◌, true, false, List, [], ◌∷◌, length, arith,
}
use operating_system_challen.Mm.State.{Ptr, null, Kernel, State, Cmd}
use operating_system_challen.Ring.{put, Linked, Distinct, put_same}
use operating_system_challen.Ring.Splice.{IsRing}
use operating_system_challen.Mm.Find.{
  IsList, set_start-ok, set_len-ok, set_prev-ok, set_next-ok, get_next-ok,
}
use operating_system_challen.Mm.Update.{Returns, unlinked}
use operating_system_challen.Mm.Holds.{unlink-ok, unlinked-IsList, munmap-ok, IsList-items}
use operating_system_challen.Mm.Malloc.{Returns-and_then}
use operating_system_challen.Mm.Code.{
  mem_list_free, mem_list_init, cleanup_loop, mem_list_cleanup, libc_start_main,
}

-- The first item, or the head.
abbrev pub first_of : Ptr → List Ptr → Ptr
first_of head [] = head
first_of head (x ∷ xs) = x

module _ {W : Type 0} (k : Kernel W) (head : Ptr) where
  IsList-head : (xs : List Ptr) (s : State W) → IsList head xs s → head ≢ null
  unfolding IsList
  IsList-head xs s h = h.1

  IsList-first : (xs : List Ptr) (s : State W) → IsList head xs s → s.next head ≡ first_of head xs
  unfolding IsList IsRing Linked
  IsList-first [] s h = h.0.0.0
  IsList-first (x ∷ xs) s h = h.0.0.0

  IsList-second :
      (x : Ptr) (xs : List Ptr) (s : State W) → IsList head (x ∷ xs) s → s.next x ≡ first_of head xs
  unfolding IsList IsRing Linked
  IsList-second x [] s h = h.0.0.2.0
  IsList-second x (y ∷ xs) s h = h.0.0.2.0

  IsList-other : (x : Ptr) (xs : List Ptr) (s : State W) → IsList head (x ∷ xs) s → x ≢ head
  unfolding IsList IsRing Distinct
  IsList-other x xs s h = h.0.1.0.0

  first_of_not_null : (xs : List Ptr) (s : State W) → IsList head xs s → first_of head xs ≢ null
  first_of_not_null [] s h = IsList-head [] s h
  first_of_not_null (x ∷ xs) s h = (IsList-items head (x ∷ xs) s h).0

  same_lists :
      (xs : List Ptr) (s : State W) (e : ℕ) (w : W)
      → IsList head xs s
      → IsList head xs (record s { errno = e; world = w })
  unfolding IsList
  same_lists xs s e w h = h

  cleanup_loop-empty :
      (fuel : ℕ) (xs : List Ptr) (s : State W)
      → IsList head xs s
      → length xs < fuel
      → (tmp : Ptr) → s.next (first_of head xs) ≡ tmp
      → Returns (cleanup_loop k head fuel (first_of head xs) tmp s) λ _ t. IsList head [] t
  unfolding cleanup_loop Returns mem_list_free
  cleanup_loop-empty zero xs s h more tmp n = absurd (omega arith)
  cleanup_loop-empty (suc fuel) [] s h more tmp n =
      let e : (head == head) ≡ true = ground arith in rw e h
  cleanup_loop-empty (suc fuel) (x ∷ xs) s h more tmp n =
      let d : x ≢ head = IsList-other x xs s h in
      let e : (x == head) ≡ false = ground arith in
      let (r, i, m) = munmap-ok k head x 32 (unlinked x s) in
      let u = unlinked-IsList k head [] x xs s h in
      let v = same_lists xs (unlinked x s) i (k.sys_munmap x 32 s.world).1 u in
      let f = sym n ∙ IsList-second x xs s h in
      rw
        (
          e,
          unlink-ok k head [] x xs s h,
          m,
          f,
          get_next-ok (first_of head xs) _ (first_of_not_null xs _ u),
        )
        (cleanup_loop-empty fuel xs _ v (omega arith) _ refl)

  -- Where the fuel is above the length of the list, `mem_list_cleanup` ends with the empty list.
  pub mem_list_cleanup-empty :
      (fuel : ℕ) (xs : List Ptr) (s : State W)
      → IsList head xs s
      → length xs < fuel
      → Returns (mem_list_cleanup k head fuel s) λ _ t. IsList head [] t
  unfolding mem_list_cleanup
  mem_list_cleanup-empty fuel xs s h more =
      rw
        (
          get_next-ok head s (IsList-head xs s h),
          IsList-first xs s h,
          get_next-ok (first_of head xs) s (first_of_not_null xs s h),
        )
        (cleanup_loop-empty fuel xs s h more _ refl)

  -- The state behind `mem_list_init`.
  abbrev pub initial : State W → State W
  initial s = record s {
    start = put s.start head null;
    len = put s.len head 0;
    prev = put s.prev head head;
    next = put s.next head head;
  }

  pub initial-IsList : (s : State W) → head ≢ null → IsList head [] (initial s)
  unfolding IsList IsRing Linked Distinct
  initial-IsList s z = (((put_same s.next head head, put_same s.prev head head), (tt, tt)), z, tt)

  -- `__libc_start_main` returns what the program returns, with an empty list, if the address of
  -- the list's head is not NULL, and the program, started with the empty list, returns with a
  -- well-formed one that is shorter than the fuel.
  pub libc_start_main-empty :
      (fuel code : ℕ) (main_fn : Cmd W ℕ) (s : State W)
      → head ≢ null
      → ((t : State W)
          → IsList head [] t
          → Returns
              (main_fn t)
              λ c u. (c ≡ code) × ((xs : List Ptr) × IsList head xs u × (length xs < fuel)))
      → Returns (libc_start_main k head fuel main_fn s) λ c t. (c ≡ code) × IsList head [] t
  unfolding libc_start_main mem_list_init Returns
  libc_start_main-empty fuel code main_fn s z runs =
      rw
        (
          set_start-ok head null s z,
          set_len-ok head 0 _ z,
          set_prev-ok head head _ z,
          set_next-ok head head _ z,
        )
        (Returns-and_then (main_fn (initial s)) _ _ _ (runs (initial s) (initial-IsList s z))
          λ c u (e, (xs, h, more)).
            Returns-and_then (mem_list_cleanup k head fuel u) _ _ _
              (mem_list_cleanup-empty fuel xs u h more) λ _ t l. (e, l))
