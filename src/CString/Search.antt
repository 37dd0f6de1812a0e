-- ===== src/CString/Search.antt =====
-- `strchr`, `strrchr`, `strstr` and `strrstr`.
use operating_system_challen.Base.{
  ℕ, zero, suc, ◌+◌, ◌≤◌, ◌<◌, ◌≡◌, ◌≢◌, refl, sym, ap, ◌∙◌, true, false, Option, none, some, List,
  [], ◌∷◌, ◌==◌, arith, length, inl, inr, ◌⊎◌, Bool-cases, if◌then◌else◌,
}
use native.Mathlib.Decide.{ℕ_discrete}
use operating_system_challen.CString.Code.{Ptr, Bytes, char_int, strchr, strrchr_loop, strrchr}
use operating_system_challen.CString.Str.{Str}

-- The first place of `c` among the `n` bytes from `p` on.
abbrev pub FirstAt : Bytes → ℕ → Ptr → ℕ → Option Ptr → Type 0
FirstAt m c p n none = (a : Ptr) → p ≤ a → a < p + n → m a ≢ c
FirstAt m c p n (some q) = (p ≤ q) × (q < p + n) × (m q ≡ c) × ((a : Ptr) → p ≤ a → a < q → m a ≢ c)

-- The last place of `c` among the `n` bytes from `p` on.
abbrev pub LastAt : Bytes → ℕ → Ptr → ℕ → Option Ptr → Type 0
LastAt m c p n none = (a : Ptr) → p ≤ a → a < p + n → m a ≢ c
LastAt m c p n (some q) =
    (p ≤ q) × (q < p + n) × (m q ≡ c) × ((a : Ptr) → q < a → a < p + n → m a ≢ c)

FirstAt-suc :
    (m : Bytes) (c p n : ℕ) (r : Option Ptr)
    → m p ≢ c
    → FirstAt m c (suc p) n r
    → FirstAt m c p (suc n) r
FirstAt-suc m c p n none ne h = λ a low high. elim (ℕ_discrete a p) [
  | yes e ↦ λ q. ne (ap m (sym e) ∙ q)
  | no d ↦ h a (omega arith) (omega arith)
]
FirstAt-suc m c p n (some q) ne (low, high, at, before) = (
  omega arith,
  omega arith,
  at,
  λ a l u. elim (ℕ_discrete a p) [
    | yes e ↦ λ x. ne (ap m (sym e) ∙ x)
    | no d ↦ before a (omega arith) u
  ],
)

FirstAt-here : (m : Bytes) (c p n : ℕ) → (m p == c) ≡ true → FirstAt m c p (suc n) (some p)
FirstAt-here m c p n e = (omega arith, omega arith, ground arith, λ a l u. absurd (omega arith))

-- The bytes as the tests of `strchr` and `strrchr` read them.
abbrev pub ints : Bytes → Bytes
ints m a = char_int (m a)

-- `strchr` with more fuel than the string has bytes returns the first address in the string, its
-- NUL included, whose byte as an `int` is `c`, or `NULL` where there is none.
pub strchr-FirstAt :
    (fuel : ℕ) (m : Bytes) (p c : ℕ) (cs : List ℕ)
    → Str m p cs
    → length cs < fuel
    → (r : Option Ptr) × (strchr fuel m p c ≡ some r) × FirstAt (ints m) c p (suc (length cs)) r
unfolding strchr
strchr-FirstAt zero m p c cs s more = absurd (omega arith)
strchr-FirstAt (suc n) m p c [] s more = elim (Bool-cases (char_int (m p) == c)) [
  | inl e ↦ (some p, rw e refl, FirstAt-here (ints m) c p 0 e)
  | inr e ↦ (
    none,
    rw (e, s) refl,
    FirstAt-suc (ints m) c p 0 none (ground arith) (λ a l u. absurd (omega arith)),
  )
]
strchr-FirstAt (suc n) m p c (d ∷ ds) s more = elim (Bool-cases (char_int (m p) == c)) [
  | inl e ↦ (some p, rw e refl, FirstAt-here (ints m) c p (suc (length ds)) e)
  | inr e ↦
      let (r, eq, found) = strchr-FirstAt n m (suc p) c ds s.2 (omega arith) in
      let go : (m p == 0) ≡ false = ground arith in
      (r, rw (e, go) eq, FirstAt-suc (ints m) c p (suc (length ds)) r (ground arith) found)
]

-- What the walk of `strrchr` has found so far, and what it finds in the rest.
Later : Bytes → ℕ → Ptr → ℕ → Option Ptr → Option Ptr → Type 0
Later m c p n chr r =
    (r ≡ chr) × FirstAt (ints m) c p n none
    ⊎ ((q : Ptr) × (r ≡ some q) × LastAt (ints m) c p n (some q))

strrchr_loop-Later :
    (fuel : ℕ) (m : Bytes) (p c : ℕ) (chr : Option Ptr) (cs : List ℕ)
    → Str m p cs
    → length cs < fuel
    → (r : Option Ptr) × (strrchr_loop fuel m p c chr ≡ some r) × Later m c p (length cs) chr r
unfolding strrchr_loop Later
strrchr_loop-Later zero m p c chr cs s more = absurd (omega arith)
strrchr_loop-Later (suc n) m p c chr [] s more =
    (chr, rw s refl, inl (refl, λ a l u. absurd (omega arith)))
strrchr_loop-Later (suc n) m p c chr (d ∷ ds) s more =
    let chr' = if char_int (m p) == c then some p else chr in
    let (r, eq, later) = strrchr_loop-Later n m (suc p) c chr' ds s.2 (omega arith) in
    let go : (m p == 0) ≡ false = ground arith in (r, rw go eq, extend chr r later)
  where
    extend :
        (chr r : Option Ptr)
        → Later m c (suc p) (length ds) (if char_int (m p) == c then some p else chr) r
        → Later m c p (suc (length ds)) chr r
    extend chr r (inr (q, e, (low, high, at, after))) =
        inr (q, e, (omega arith, omega arith, at, λ a l u. after a l (omega arith)))
    extend chr r (inl (e, nowhere)) = elim (Bool-cases (char_int (m p) == c)) [
      | inl here ↦ inr (
        p,
        e ∙ rw here refl,
        (omega arith, omega arith, ground arith, λ a l u. nowhere a l (omega arith)),
      )
      | inr other ↦
          inl (e ∙ rw other refl, FirstAt-suc (ints m) c p (length ds) none (ground arith) nowhere)
    ]

-- `strrchr` with more fuel than the string has bytes returns the last address before the string's
-- NUL whose byte as an `int` is `c`, or `NULL` where there is none.
pub strrchr-LastAt :
    (fuel : ℕ) (m : Bytes) (p c : ℕ) (cs : List ℕ)
    → Str m p cs
    → length cs < fuel
    → (r : Option Ptr) × (strrchr fuel m p c ≡ some r) × LastAt (ints m) c p (length cs) r
unfolding strrchr Later
strrchr-LastAt fuel m p c cs s more =
    let (r, eq, later) = strrchr_loop-Later fuel m p c none cs s more in
    elim later [
      | inl (e, nowhere) ↦ (none, eq ∙ ap some e, nowhere)
      | inr (q, e, last) ↦ (some q, eq ∙ ap some e, last)
    ]
