-- ===== src/CString/Find.antt =====
-- `strstr` and `strrstr`: the first and the last place of the needle among those that the loops
-- try, which leave out the one at the end of the haystack.
use operating_system_challen.Base.{
  ℕ, zero, suc, ◌+◌, ◌-◌, ◌^◌, ◌≤◌, ◌<◌, ◌≡◌, ◌≢◌, ◌↔◌, refl, ap, ◌∙◌, subst, true, false, Option,
  none, some, List, [], ◌∷◌, ◌==◌, arith, length, inl, inr, ◌⊎◌, Bool-cases, if◌then◌else◌,
}
use native.Mathlib.Decide.{ℕ_discrete}
use operating_system_challen.CString.Code.{
  Ptr, Bytes, int_of, int_sub, rounds, match_loop, matches, strstr_loop, strstr, strrstr_loop,
  strrstr,
}
use operating_system_challen.CString.Str.{Str, strlen-length}

-- The `k` bytes of the needle stand at `a`.
abbrev pub Occurs : Bytes → Ptr → ℕ → Ptr → Type 0
Occurs m needle k a = (i : ℕ) → i < k → m (a + i) ≡ m (needle + i)

-- The first place among the `n` from `p` on where the needle occurs.
abbrev pub FirstMatch : Bytes → Ptr → ℕ → Ptr → ℕ → Option Ptr → Type 0
FirstMatch m needle k p n none = (a : Ptr) → p ≤ a → a < p + n → ¬ Occurs m needle k a
FirstMatch m needle k p n (some q) =
    (p ≤ q)
    × (q < p + n)
    × Occurs m needle k q
    × ((a : Ptr) → p ≤ a → a < q → ¬ Occurs m needle k a)

-- The last one.
abbrev pub LastMatch : Bytes → Ptr → ℕ → Ptr → ℕ → Option Ptr → Type 0
LastMatch m needle k p n none = (a : Ptr) → p ≤ a → a < p + n → ¬ Occurs m needle k a
LastMatch m needle k p n (some q) =
    (p ≤ q)
    × (q < p + n)
    × Occurs m needle k q
    × ((a : Ptr) → q < a → a < p + n → ¬ Occurs m needle k a)

match_loop-Occurs :
    (m : Bytes) (hay needle left count : ℕ)
    → (match_loop m hay needle left count ≡ count + left) ↔ Occurs m needle left hay
unfolding match_loop
match_loop-Occurs m hay needle zero count = (λ e i h. absurd (omega arith), λ h. omega arith)
match_loop-Occurs m hay needle (suc left) count = elim (Bool-cases (m hay == m needle)) [
  | inl e ↦
      let ih = match_loop-Occurs m (suc hay) (suc needle) left (suc count) in
      let here : m hay ≡ m needle = ground arith in
      rw e (
        λ q. each here (ih.0 (q ∙ omega arith)),
        λ h.
            ih.1 (λ i l. ap m (omega arith) ∙ h (suc i) (omega arith) ∙ ap m (omega arith))
            ∙ omega arith,
      )
  | inr e ↦ rw e (
    λ q. absurd (omega arith),
    λ h.
        let here : m hay ≡ m needle = ap m (omega arith) ∙ h 0 (omega arith) ∙ ap m (omega arith) in
        absurd (ground arith),
  )
]
  where
    each : m hay ≡ m needle → Occurs m (suc needle) left (suc hay) → Occurs m needle (suc left) hay
    each e h zero l = ap m (omega arith) ∙ e ∙ ap m (omega arith)
    each e h (suc i) l = ap m (omega arith) ∙ h i (omega arith) ∙ ap m (omega arith)

rounds-small : (n : ℕ) → n < 2 ^ 31 → rounds n ≡ n
unfolding rounds
rounds-small n h = ground arith

int_of-small : (n : ℕ) → n < 2 ^ 31 → int_of n ≡ n
unfolding int_of
int_of-small n h = omega arith

-- The places that the loops try, for lengths that an `int` holds.
rounds-int_sub :
    (a b : ℕ) → a < 2 ^ 31 → b < 2 ^ 31 → rounds (int_sub (int_of a) (int_of b)) ≡ a - b
unfolding rounds int_sub int_of
rounds-int_sub a b h l = ground arith

matches-Occurs :
    (m : Bytes) (hay needle k : ℕ)
    → 0 < k
    → k < 2 ^ 31
    → (matches m hay needle k ≡ true) ↔ Occurs m needle k hay
unfolding matches
matches-Occurs m hay needle k pos small =
    let all : rounds k ≡ k = rounds-small k small in
    rw all (
      let loop = match_loop-Occurs m hay needle k 0 in
      (
        λ e. let full : match_loop m hay needle k 0 ≡ 0 + k = ground arith in loop.0 full,
        λ h.
            let here : m hay ≡ m needle = ap m (omega arith) ∙ h 0 pos ∙ ap m (omega arith) in
            let full = loop.1 h in ground arith,
      ))

matches_not :
    (m : Bytes) (hay needle k : ℕ)
    → 0 < k
    → k < 2 ^ 31
    → matches m hay needle k ≡ false
    → ¬ Occurs m needle k hay
matches_not m hay needle k pos small e h = cc ((matches-Occurs m hay needle k pos small).1 h)

module _ (m : Bytes) (needle k : ℕ) (pos : 0 < k) (small : k < 2 ^ 31) where
  not_here :
      (p n : ℕ)
      → ¬ Occurs m needle k p
      → FirstMatch m needle k (suc p) n none
      → FirstMatch m needle k p (suc n) none
  not_here p n ne h a low high = elim (ℕ_discrete a p) [
    | yes e ↦ λ q. ne (subst (Occurs m needle k) e q)
    | no d ↦ h a (omega arith) (omega arith)
  ]

  strstr_loop-FirstMatch :
      (p left : ℕ) → FirstMatch m needle k p left (strstr_loop m p needle left k)
  unfolding strstr_loop
  strstr_loop-FirstMatch p zero = λ a l u. absurd (omega arith)
  strstr_loop-FirstMatch p (suc left) = elim (Bool-cases (matches m p needle k)) [
    | inl e ↦ rw e (
      omega arith,
      omega arith,
      (matches-Occurs m p needle k pos small).0 e,
      λ a l u. absurd (omega arith),
    )
    | inr e ↦ rw e (
        shift (strstr_loop m (suc p) needle left k) (matches_not m p needle k pos small e)
          (strstr_loop-FirstMatch (suc p) left))
  ]
    where
      shift :
          (r : Option Ptr)
          → ¬ Occurs m needle k p
          → FirstMatch m needle k (suc p) left r
          → FirstMatch m needle k p (suc left) r
      shift none ne h = not_here p left ne h
      shift (some q) ne (low, high, at, before) = (
        omega arith,
        omega arith,
        at,
        λ a l u. elim (ℕ_discrete a p) [
          | yes e ↦ λ o. ne (subst (Occurs m needle k) e o)
          | no d ↦ before a (omega arith) u
        ],
      )

positive : (cs : List ℕ) → cs ≢ [] → 0 < length cs
positive [] h = absurd (h refl)
positive (c ∷ cs) h = omega arith

-- `strstr` of two strings shorter than 2 ^ 31 bytes, with more fuel than either has bytes, returns
-- the first place where the needle, which is not empty, occurs among those whose distance from the
-- haystack's start is less than the difference of the lengths, or `NULL`. The very end of the
-- haystack is not among them.
pub strstr-FirstMatch :
    (fuel : ℕ) (m : Bytes) (haystack needle : Ptr) (hs ns : List ℕ)
    → Str m haystack hs
    → Str m needle ns
    → ns ≢ []
    → length hs < fuel
    → length ns < fuel
    → length hs < 2 ^ 31
    → length ns < 2 ^ 31
    → (r : Option Ptr) × (strstr fuel m haystack needle ≡ some r)
      × FirstMatch m needle (length ns) haystack (length hs - length ns) r
unfolding strstr
strstr-FirstMatch fuel m haystack needle hs ns s t ne more more' small small' = (
  strstr_loop m haystack needle (length hs - length ns) (length ns),
  rw
      (
        strlen-length fuel m haystack hs s more,
        strlen-length fuel m needle ns t more',
        rounds-int_sub (length hs) (length ns) small small',
        int_of-small (length ns) small',
      )
      refl,
  strstr_loop-FirstMatch m needle (length ns) (positive ns ne) small' haystack
      (length hs - length ns),
)

-- What the walk of `strrstr` had found before, and what it finds among the `n` places from `p` on.
LaterMatch : Bytes → ℕ → ℕ → Ptr → ℕ → (point r : Option Ptr) → Type 0
LaterMatch m needle k p n point r =
    ((r ≡ point) × LastMatch m needle k p n none)
    ⊎ ((q : Ptr) × (r ≡ some q) × LastMatch m needle k p n (some q))

module _ (m : Bytes) (needle k : ℕ) (pos : 0 < k) (small : k < 2 ^ 31) where
  strrstr_loop-LaterMatch :
      (p left : ℕ) (point : Option Ptr)
      → LaterMatch m needle k p left point (strrstr_loop m p needle left k point)
  unfolding strrstr_loop LaterMatch
  strrstr_loop-LaterMatch p zero point = inl (refl, λ a l u. absurd (omega arith))
  strrstr_loop-LaterMatch p (suc left) point =
      let point' = if matches m p needle k then some p else point in
      extend (strrstr_loop m (suc p) needle left k point')
        (strrstr_loop-LaterMatch (suc p) left point')
    where
      extend :
          (r : Option Ptr)
          → LaterMatch m needle k (suc p) left (if matches m p needle k then some p else point) r
          → LaterMatch m needle k p (suc left) point r
      extend r (inr (q, e, (low, high, at, after))) =
          inr (q, e, (omega arith, omega arith, at, λ a l u. after a l (omega arith)))
      extend r (inl (e, nowhere)) = elim (Bool-cases (matches m p needle k)) [
        | inl here ↦ inr (
          p,
          e ∙ rw here refl,
          (
            omega arith,
            omega arith,
            (matches-Occurs m p needle k pos small).0 here,
            λ a l u. nowhere a l (omega arith),
          ),
        )
        | inr other ↦ inl (
          e ∙ rw other refl,
          not_here m needle k pos small p left (matches_not m p needle k pos small other) nowhere,
        )
      ]

-- `strrstr` of two strings shorter than 2 ^ 31 bytes, with more fuel than either has bytes, returns
-- the last place where the needle, which is not empty, occurs among those whose distance from the
-- haystack's start is less than the difference of the lengths, or `NULL`. The very end of the
-- haystack is not among them.
pub strrstr-LastMatch :
    (fuel : ℕ) (m : Bytes) (haystack needle : Ptr) (hs ns : List ℕ)
    → Str m haystack hs
    → Str m needle ns
    → ns ≢ []
    → length hs < fuel
    → length ns < fuel
    → length hs < 2 ^ 31
    → length ns < 2 ^ 31
    → (r : Option Ptr) × (strrstr fuel m haystack needle ≡ some r)
      × LastMatch m needle (length ns) haystack (length hs - length ns) r
unfolding strrstr LaterMatch
strrstr-LastMatch fuel m haystack needle hs ns s t ne more more' small small' =
    let found = strrstr_loop m haystack needle (length hs - length ns) (length ns) none in
    let run : strrstr fuel m haystack needle ≡ some found =
      rw
        (
          strlen-length fuel m haystack hs s more,
          strlen-length fuel m needle ns t more',
          rounds-int_sub (length hs) (length ns) small small',
          int_of-small (length ns) small',
        )
        refl in
    elim (strrstr_loop-LaterMatch m needle (length ns) (positive ns ne) small' haystack
      (length hs - length ns) none) [
        | inl (e, nowhere) ↦ (none, run ∙ ap some e, nowhere)
        | inr (q, e, last) ↦ (some q, run ∙ ap some e, last)
      ]
