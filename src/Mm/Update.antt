-- ===== src/Mm/Update.antt =====
-- The operations that change the list of mappings: `mem_list_add`, `mem_list_extract`,
-- `mem_list_del` and `mem_list_cleanup` of mini-libc/src/mm/mem_list.c.
use operating_system_challen.Base.{ℕ, ◌^◌, ◌-◌, ◌==◌, ◌≡◌, ◌≢◌, refl, false, arith}
use operating_system_challen.Ring.{put, put_own}
use operating_system_challen.Mm.State.{
  Ptr, null, map_failed, Kernel, State, Run, ok, fault, out_of_fuel,
}
use operating_system_challen.Mm.Find.{
  set_start-ok, set_len-ok, set_prev-ok, set_next-ok, get_prev-ok, get_next-ok,
}
use operating_system_challen.Mm.Code.{
  private_anonymous, mmap, mmap_private, mem_list_alloc, mem_list_add, unlink,
}

module _ {W : Type 0} where
  -- A run that returns, with what its value and its state satisfy.
  unfoldable pub Returns : {A : Type 0} → Run W A → (A → State W → Type 0) → Type 0
  Returns (ok a s) P = P a s
  Returns fault P = ⊥
  Returns out_of_fuel P = ⊥

  -- The state behind `mem_list_add`.
  abbrev pub added : (head item start : Ptr) → (len : ℕ) → W → State W → State W
  added head item start len w s = record s {
    start = put s.start item start;
    len = put s.len item len;
    next = put (put s.next item head) (s.prev head) item;
    prev = put (put s.prev item (s.prev head)) head item;
    world = w;
  }

  abbrev pub unlinked : Ptr → State W → State W
  unlinked y s = record s {
    next = put (put s.next (s.prev y) (s.next y)) y y;
    prev = put (put s.prev (s.next y) (s.prev y)) y y;
  }

  module _ (k : Kernel W) where
    pub mmap_private-ok :
        (len : ℕ) (s : State W) (p : Ptr) (w : W)
        → k.sys_mmap null len 3 private_anonymous (2 ^ 32 - 1) 0 s.world ≡ (p, w)
        → p ≢ map_failed
        → mmap_private k len s ≡ ok p (record s { world = w })
    unfolding mmap
    mmap_private-ok len s p w e d =
        let c : (p == map_failed) ≡ false = ground arith in rw (e, c) refl

    pub mem_list_add-added :
        (head start : Ptr) (len : ℕ) (s : State W) (item : Ptr) (w : W)
        → head ≢ null
        → s.prev head ≢ null
        → k.sys_mmap null 32 3 private_anonymous (2 ^ 32 - 1) 0 s.world ≡ (item, w)
        → item ≢ map_failed
        → item ≢ null
        → mem_list_add k head start len s ≡ ok 0 (added head item start len w s)
    unfolding mem_list_add mem_list_alloc
    mem_list_add-added head start len s item w z l e d i =
        let c : (item == null) ≡ false = ground arith in
        rw
          (
            mmap_private-ok 32 s item w e d,
            c,
            set_start-ok item start _ i,
            set_len-ok item len _ i,
            set_next-ok item head _ i,
            get_prev-ok head _ z,
            set_prev-ok item _ _ i,
            set_next-ok _ item _ l,
            set_prev-ok head item _ z,
          )
          refl

    pub unlink-unlinked :
        (head y : Ptr) (s : State W)
        → y ≢ null
        → s.next y ≢ null
        → s.prev y ≢ null
        → unlink k head y s ≡ ok tt (unlinked y s)
    unfolding unlink
    unlink-unlinked head y s z n p =
        rw
          (
            get_next-ok y _ z,
            get_prev-ok y _ z,
            set_prev-ok (s.next y) (s.prev y) s n,
            get_prev-ok y _ z,
            put_own s.prev y (s.next y),
            get_next-ok y _ z,
            set_next-ok (s.prev y) _ _ p,
            set_next-ok y _ _ z,
            set_prev-ok y _ _ z,
          )
          refl
