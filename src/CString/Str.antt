-- ===== src/CString/Str.antt =====
-- NUL-terminated strings in memory, and `strlen`.
use operating_system_challen.Base.{
  ℕ, zero, suc, ◌+◌, ◌≤◌, ◌<◌, ◌≡◌, ◌≢◌, ◌∙◌, some, List, [], ◌∷◌, ◌⊎◌, arith, length,
}
use operating_system_challen.CString.Code.{Ptr, Bytes, put, strlen_loop, strlen}

-- The bytes of `cs`, none of them NUL, stand at `p`, and a NUL behind them.
abbrev pub Str : Bytes → Ptr → List ℕ → Type 0
Str m p [] = m p ≡ 0
Str m p (c ∷ cs) = (m p ≡ c) × (c ≢ 0) × Str m (suc p) cs

-- The address is not one of the `n` from `p` on.
abbrev pub Outside : Ptr → ℕ → Ptr → Type 0
Outside p n a = (a < p) ⊎ (p + n ≤ a)

-- Two memories agree outside the `n` addresses from `p` on.
abbrev pub SameOutside : Ptr → ℕ → (m m' : Bytes) → Type 0
SameOutside p n m m' = (a : Ptr) → Outside p n a → m' a ≡ m a

-- The `n` addresses from `p` on and the `k` from `q` on have none in common.
abbrev pub Disjoint : Ptr → ℕ → Ptr → ℕ → Type 0
Disjoint p n q k = (p + n ≤ q) ⊎ (q + k ≤ p)

pub put_same : (m : Bytes) (p : Ptr) (c : ℕ) → put m p c p ≡ c
unfolding put
put_same m p c = ground arith

pub put_other : (m : Bytes) (p : Ptr) (c : ℕ) (a : Ptr) → a ≢ p → put m p c a ≡ m a
unfolding put
put_other m p c a h = ground arith

pub Str-frame :
    (m m' : Bytes) (p : Ptr) (cs : List ℕ)
    → ((a : Ptr) → p ≤ a → a ≤ p + length cs → m' a ≡ m a)
    → Str m p cs
    → Str m' p cs
Str-frame m m' p [] same s = same p (omega arith) (omega arith) ∙ s
Str-frame m m' p (c ∷ cs) same (at, ne, rest) = (
  same p (omega arith) (omega arith) ∙ at,
  ne,
  Str-frame m m' (suc p) cs (λ a low high. same a (omega arith) (omega arith)) rest,
)

strlen_loop-length :
    (fuel : ℕ) (m : Bytes) (p : Ptr) (cs : List ℕ) (i : ℕ)
    → Str m p cs
    → length cs < fuel
    → strlen_loop fuel m p i ≡ some (i + length cs)
unfolding strlen_loop
strlen_loop-length zero m p cs i s more = absurd (omega arith)
strlen_loop-length (suc n) m p [] i s more = ground arith
strlen_loop-length (suc n) m p (c ∷ cs) i (at, ne, rest) more =
    ground (arith, strlen_loop-length n m (suc p) cs (suc i) rest)

-- `strlen` of a string returns the number of its bytes, with more fuel than there are bytes.
pub strlen-length :
    (fuel : ℕ) (m : Bytes) (p : Ptr) (cs : List ℕ)
    → Str m p cs
    → length cs < fuel
    → strlen fuel m p ≡ some (length cs)
unfolding strlen
strlen-length fuel m p cs s more = ground (arith, strlen_loop-length fuel m p cs 0 s)
