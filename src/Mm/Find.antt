-- ===== src/Mm/Find.antt =====
-- The list of mappings in memory, and the walks over it: `mem_list_find` and `mem_list_num_items` of
-- mini-libc/src/mm/mem_list.c.
use operating_system_challen.Base.{
  ℕ, zero, suc, ◌+◌, ◌<◌, ◌==◌, ◌≡◌, ◌≢◌, refl, ◌∙◌, ap, true, false, List, [], ◌∷◌, length, All,
  arith, if◌then◌else◌, Bool-cases, inl, inr,
}
use operating_system_challen.Mm.State.{
  Ptr, null, Kernel, State, ok, set_start, set_len, set_prev, set_next, get_start, get_len,
  get_prev, get_next,
}
use operating_system_challen.Ring.{put, Linked, Other, Distinct}
use operating_system_challen.Ring.Splice.{IsRing}
use operating_system_challen.Mm.Code.{find_loop, mem_list_find, count_loop, mem_list_num_items}

-- The first of the items that holds the address, or NULL.
unfoldable pub first_with : (start : Ptr → Ptr) → Ptr → List Ptr → Ptr
first_with start a [] = null
first_with start a (x ∷ xs) = if start x == a then x else first_with start a xs

module _ {W : Type 0} where
  -- The items `xs`, in the order of the list.
  unfoldable pub IsList : Ptr → List Ptr → State W → Type 0
  IsList head xs s = IsRing s.next s.prev head xs × (head ≢ null) × All (Other null) xs

  -- The mapping that an item describes: its address and its length.
  abbrev pub mapping : State W → Ptr → Ptr × ℕ
  mapping s x = (s.start x, s.len x)

  pub set_start-ok :
      (p x : Ptr) (s : State W)
      → p ≢ null
      → set_start p x s ≡ ok tt (record s { start = put s.start p x })
  unfolding set_start
  set_start-ok p x s d = let e : (p == null) ≡ false = ground arith in rw e refl

  pub set_len-ok :
      (p x : Ptr) (s : State W)
      → p ≢ null
      → set_len p x s ≡ ok tt (record s { len = put s.len p x })
  unfolding set_len
  set_len-ok p x s d = let e : (p == null) ≡ false = ground arith in rw e refl

  pub set_prev-ok :
      (p x : Ptr) (s : State W)
      → p ≢ null
      → set_prev p x s ≡ ok tt (record s { prev = put s.prev p x })
  unfolding set_prev
  set_prev-ok p x s d = let e : (p == null) ≡ false = ground arith in rw e refl

  pub set_next-ok :
      (p x : Ptr) (s : State W)
      → p ≢ null
      → set_next p x s ≡ ok tt (record s { next = put s.next p x })
  unfolding set_next
  set_next-ok p x s d = let e : (p == null) ≡ false = ground arith in rw e refl

  pub get_start-ok : (p : Ptr) (s : State W) → p ≢ null → get_start p s ≡ ok (s.start p) s
  unfolding get_start
  get_start-ok p s d = let e : (p == null) ≡ false = ground arith in rw e refl

  pub get_len-ok : (p : Ptr) (s : State W) → p ≢ null → get_len p s ≡ ok (s.len p) s
  unfolding get_len
  get_len-ok p s d = let e : (p == null) ≡ false = ground arith in rw e refl

  pub get_prev-ok : (p : Ptr) (s : State W) → p ≢ null → get_prev p s ≡ ok (s.prev p) s
  unfolding get_prev
  get_prev-ok p s d = let e : (p == null) ≡ false = ground arith in rw e refl

  pub get_next-ok : (p : Ptr) (s : State W) → p ≢ null → get_next p s ≡ ok (s.next p) s
  unfolding get_next
  get_next-ok p s d = let e : (p == null) ≡ false = ground arith in rw e refl

  module _ (k : Kernel W) (head : Ptr) where
    find_loop-first_with :
        (fuel : ℕ) (a p : Ptr) (xs : List Ptr) (s : State W)
        → Linked s.next s.prev p xs head
        → All (Other head) xs
        → All (Other null) xs
        → length xs < fuel
        → find_loop k head fuel a (s.next p) s ≡ ok (first_with s.start a xs) s
    unfolding Linked find_loop first_with
    find_loop-first_with zero a p xs s h o z more = absurd (omega arith)
    find_loop-first_with (suc fuel) a p [] s h o z more =
        let e : (head == head) ≡ true = ground arith in rw (h.0, e) refl
    find_loop-first_with (suc fuel) a p (x ∷ xs) s h o z more =
        let e : (x == head) ≡ false = let d : x ≢ head = o.0 in ground arith in
        let rest = find_loop-first_with fuel a x xs s h.2 o.1 z.1 (omega arith) in
        rw (h.0, e, get_start-ok x s z.0, get_next-ok x s z.0)
          (elim (Bool-cases (s.start x == a)) [ inl t ↦ rw t refl | inr t ↦ rw t rest ])

    -- `mem_list_find` returns the first item of the list that holds the address, or NULL, and changes
    -- nothing.
    pub mem_list_find-first_with :
        (fuel : ℕ) (a : Ptr) (xs : List Ptr) (s : State W)
        → IsList head xs s
        → length xs < fuel
        → mem_list_find k head fuel a s ≡ ok (first_with s.start a xs) s
    unfolding IsList IsRing mem_list_find Distinct
    mem_list_find-first_with fuel a xs s ((h, d), z, zs) more =
        rw (get_next-ok head s z) (find_loop-first_with fuel a head xs s h d.0 zs more)

    count_loop-length :
        (fuel : ℕ) (p : Ptr) (n : ℕ) (xs : List Ptr) (s : State W)
        → Linked s.next s.prev p xs head
        → All (Other head) xs
        → All (Other null) xs
        → length xs < fuel
        → count_loop k head fuel (s.next p) n s ≡ ok (n + length xs) s
    unfolding Linked count_loop
    count_loop-length zero p n xs s h o z more = absurd (omega arith)
    count_loop-length (suc fuel) p n [] s h o z more =
        let e : (head == head) ≡ true = ground arith in rw (h.0, e) (ap (λ m. ok m s) (omega arith))
    count_loop-length (suc fuel) p n (x ∷ xs) s h o z more =
        let e : (x == head) ≡ false = let d : x ≢ head = o.0 in ground arith in
        let rest = count_loop-length fuel x (suc n) xs s h.2 o.1 z.1 (omega arith) in
        rw (h.0, e, get_next-ok x s z.0) (rest ∙ ap (λ m. ok m s) (omega arith))

    -- `mem_list_num_items` counts the items of the list.
    pub mem_list_num_items-length :
        (fuel : ℕ) (xs : List Ptr) (s : State W)
        → IsList head xs s
        → length xs < fuel
        → mem_list_num_items k head fuel s ≡ ok (length xs) s
    unfolding IsList IsRing mem_list_num_items Distinct
    mem_list_num_items-length fuel xs s ((h, d), z, zs) more =
        rw (get_next-ok head s z)
          (count_loop-length fuel head 0 xs s h d.0 zs more ∙ ap (λ m. ok m s) (omega arith))
