-- ===== src/CString/Compare.antt =====
-- `strcmp`, `strncmp` and `memcmp`.
use operating_system_challen.Base.{
  ℕ, zero, suc, ◌+◌, ◌-◌, ◌^◌, ◌<◌, ◌≤◌, ◌≡◌, ◌↔◌, ◌⊎◌, inl, inr, refl, sym, ap, ◌∙◌, some, List,
  [], ◌∷◌, ◌++◌, arith, All, length,
}
use operating_system_challen.CString.Code.{
  Ptr, Bytes, Flag, minus, nought, plus, int_value, char_lt, flag_of, strcmp, strncmp, memcmp,
}
use operating_system_challen.CString.Str.{Str}

-- What `strcmp` computes, on the lists of bytes.
unfoldable cmp : List ℕ → List ℕ → Flag
cmp [] [] = nought
cmp [] (y ∷ ys) = minus
cmp (x ∷ xs) [] = plus
cmp (x ∷ xs) (y ∷ ys) =
    let rest = cmp xs ys in elim (flag_of x y) [ minus ↦ minus | nought ↦ rest | plus ↦ plus ]

abbrev pub opposite : Flag → Flag
opposite minus = plus
opposite nought = nought
opposite plus = minus

strcmp-cmp :
    (fuel : ℕ) (m : Bytes) (p q : Ptr) (xs ys : List ℕ)
    → Str m p xs
    → Str m q ys
    → length xs < fuel
    → strcmp fuel m p q ≡ some (cmp xs ys)
unfolding strcmp cmp
strcmp-cmp zero m p q xs ys s t more = absurd (omega arith)
strcmp-cmp (suc n) m p q [] [] s t more = ground arith
strcmp-cmp (suc n) m p q [] (y ∷ ys) s t more = ground arith
strcmp-cmp (suc n) m p q (x ∷ xs) [] s t more = ground arith
strcmp-cmp (suc n) m p q (x ∷ xs) (y ∷ ys) s t more =
    ground (arith, strcmp-cmp n m (suc p) (suc q) xs ys s.2 t.2)

flag_of-nought : (a b : ℕ) → a < 256 → b < 256 → (flag_of a b ≡ nought) ↔ (a ≡ b)
unfolding flag_of
flag_of-nought a b ha hb = ground arith

flag_of-opposite : (a b : ℕ) → flag_of b a ≡ opposite (flag_of a b)
unfolding flag_of
flag_of-opposite a b = ground arith

cmp-opposite : (xs ys : List ℕ) → cmp ys xs ≡ opposite (cmp xs ys)
unfolding cmp
cmp-opposite [] [] = refl
cmp-opposite [] (y ∷ ys) = refl
cmp-opposite (x ∷ xs) [] = refl
cmp-opposite (x ∷ xs) (y ∷ ys) = ground (arith, flag_of-opposite x y, cmp-opposite xs ys)

-- `a` is less than `b`, both as signed bytes: those from 128 on are negative.
abbrev pub Below : ℕ → ℕ → Type 0
Below a b = ((a < b) × (b < 128)) ⊎ ((a < b) × (128 ≤ a)) ⊎ ((128 ≤ a) × (b < 128))

-- The lexicographic order by signed bytes: a proper prefix comes first.
abbrev pub Less : List ℕ → List ℕ → Type 0
Less [] [] = ⊥
Less [] (y ∷ ys) = Unit
Less (x ∷ xs) [] = ⊥
Less (x ∷ xs) (y ∷ ys) = Below x y ⊎ ((x ≡ y) × Less xs ys)

-- The `int` returned is -1, 0 or 1, and says how the two are ordered.
abbrev pub Orders : Flag → List ℕ → List ℕ → Type 0
Orders r xs ys =
    ((int_value r ≡ 2 ^ 32 - 1) × Less xs ys)
    ⊎ ((int_value r ≡ 0) × (xs ≡ ys))
    ⊎ ((int_value r ≡ 1) × Less ys xs)

flag_of-Below :
    (a b : ℕ)
    → a < 256
    → b < 256
    → ((flag_of a b ≡ minus) × Below a b)
      ⊎ ((flag_of a b ≡ nought) × (a ≡ b))
      ⊎ ((flag_of a b ≡ plus) × Below b a)
unfolding flag_of char_lt
flag_of-Below a b ha hb = ground arith

cmp-Orders :
    (xs ys : List ℕ) → All (λ c. c < 256) xs → All (λ c. c < 256) ys → Orders (cmp xs ys) xs ys
unfolding cmp int_value
cmp-Orders [] [] hx hy = inr (inl (refl, refl))
cmp-Orders [] (y ∷ ys) hx hy = inl (refl, tt)
cmp-Orders (x ∷ xs) [] hx hy = inr (inr (refl, tt))
cmp-Orders (x ∷ xs) (y ∷ ys) hx hy = elim (flag_of-Below x y hx.0 hy.0) [
  | inl (e, b) ↦ rw (cmp, e) (inl (refl, inl b))
  | inr (inr (e, b)) ↦ rw (cmp, e) (inr (inr (refl, inl b)))
  | inr (inl (e, same)) ↦
      rw (cmp, e)
        (elim (cmp-Orders xs ys hx.1 hy.1) [
          | inl (v, l) ↦ inl (v, inr (same, l))
          | inr (inl (v, p)) ↦ inr (inl (v, ap (λ z. z ∷ xs) same ∙ ap (λ zs. y ∷ zs) p))
          | inr (inr (v, l)) ↦ inr (inr (v, inr (sym same, l)))
        ])
]

-- `strcmp` of two strings of bytes, with more fuel than either has bytes, returns -1 where the first
-- one comes first in the lexicographic order by signed bytes, 0 where they are equal, and 1 where the
-- second one comes first; with the arguments exchanged it returns the opposite.
pub strcmp_correct :
    (fuel : ℕ) (m : Bytes) (p q : Ptr) (xs ys : List ℕ)
    → Str m p xs
    → Str m q ys
    → All (λ c. c < 256) xs
    → All (λ c. c < 256) ys
    → length xs < fuel
    → length ys < fuel
    → (r : Flag) × (strcmp fuel m p q ≡ some r)
      × Orders r xs ys
      × (strcmp fuel m q p ≡ some (opposite r))
strcmp_correct fuel m p q xs ys s t hx hy more more' = (
  cmp xs ys,
  strcmp-cmp fuel m p q xs ys s t more,
  cmp-Orders xs ys hx hy,
  strcmp-cmp fuel m q p ys xs t s more' ∙ ap some (cmp-opposite xs ys),
)

flag_of_self : (a : ℕ) → flag_of a a ≡ nought
unfolding flag_of
flag_of_self a = ground arith

-- `strncmp` of a string and one that begins with it is 0 for every length, also where the second
-- string goes on behind the first one's end.
pub strncmp_prefix :
    (m : Bytes) (p q : Ptr) (xs ys : List ℕ) (n : ℕ)
    → Str m p xs
    → Str m q (xs ++ ys)
    → strncmp m p q n ≡ nought
unfolding strncmp
strncmp_prefix m p q xs ys zero s t = refl
strncmp_prefix m p q [] ys (suc n) s t = ground arith
strncmp_prefix m p q (x ∷ xs) ys (suc n) s t =
    ground (arith, flag_of_self x, strncmp_prefix m (suc p) (suc q) xs ys n s.2 t.2)

-- In a memory of bytes `memcmp` is 0 exactly if the two areas hold the same bytes.
pub memcmp-nought :
    (m : Bytes) (p q n : ℕ)
    → ((a : Ptr) → m a < 256)
    → (memcmp m p q n ≡ nought) ↔ ((i : ℕ) → i < n → m (p + i) ≡ m (q + i))
unfolding memcmp
memcmp-nought m p q zero byte = (λ e i h. absurd (omega arith), λ h. refl)
memcmp-nought m p q (suc n) byte =
    let same = flag_of-nought (m p) (m q) (byte p) (byte q) in
    let later = memcmp-nought m (suc p) (suc q) n byte in
    (
      λ e. let (here, rest) = both e in each (same.0 here) (later.0 rest),
      λ h.
          let here : m p ≡ m q = ap m (omega arith) ∙ h 0 (omega arith) ∙ ap m (omega arith) in
          rw (same.1 here, memcmp)
            (later.1 λ i l. ap m (omega arith) ∙ h (suc i) (omega arith) ∙ ap m (omega arith)),
    )
  where
    both :
        memcmp m p q (suc n) ≡ nought
        → (flag_of (m p) (m q) ≡ nought) × (memcmp m (suc p) (suc q) n ≡ nought)
    both e = ground arith

    each :
        m p ≡ m q
        → ((i : ℕ) → i < n → m (suc p + i) ≡ m (suc q + i))
        → (i : ℕ) → i < suc n
        → m (p + i) ≡ m (q + i)
    each e h zero l = ap m (omega arith) ∙ e ∙ ap m (omega arith)
    each e h (suc i) l = ap m (omega arith) ∙ h i (omega arith) ∙ ap m (omega arith)
