-- ===== src/Osmem/Blocks/BestFit.antt =====
-- The best fit that `find_best_block` looks for: the smallest free block that is large enough.
use operating_system_challen.Base.{
  ℕ, ◌-◌, ◌≤◌, ◌<◌, ◌≡◌, refl, Bool, true, Option, none, some, List, [], ◌∷◌, ◌++◌, ◌⊎◌, inl, inr,
  arith, All, Bool-cases, ◌&&◌, if◌then◌else◌, ltb, leb, ap, subst, All-mono,
}
use operating_system_challen.Osmem.Memory.{free, is_free}
use operating_system_challen.Osmem.Code.{n_max}
use operating_system_challen.Osmem.Blocks.{Block}

-- `best_size`: what the best block so far leaves over
abbrev pub slack : ℕ → Option Block → ℕ
slack size none = n_max
slack size (some b) = b.size - size

abbrev pub improves : ℕ → Option Block → Block → Bool
improves size o b = is_free b.status && leb size b.size && ltb (b.size - size) (slack size o)

unfoldable pub best_fit : ℕ → Option Block → List Block → Option Block
best_fit size o [] = o
best_fit size o (b ∷ bs) = best_fit size (if improves size o b then some b else o) bs

abbrev pub Fits : ℕ → Block → Type 0
Fits size b = (b.status ≡ free) × (size ≤ b.size) × (b.size - size < n_max)

-- The block stands in the list between `before` and `after`.
pub record Within (b : Block) (bs : List Block) : Type 0 where
  pub before : List Block
  pub after : List Block
  pub split : bs ≡ before ++ b ∷ after

Within-cons : (x b : Block) (bs : List Block) → Within b bs → Within b (x ∷ bs)
Within-cons x b bs w = record {
  before = x ∷ w.before;
  after = w.after;
  split = ap (λ l. x ∷ l) w.split;
}

-- The result is the block begun with, or a block of the list that fits.
abbrev Chosen : ℕ → Option Block → List Block → Option Block → Type 0
Chosen size o bs r = (r ≡ o) ⊎ ((b : Block) × (r ≡ some b) × Fits size b × Within b bs)

slack_le :
    (size : ℕ) (o : Option Block) (b : Block)
    → improves size o b ≡ true
    → slack size o ≤ n_max
    → Fits size b × (slack size (some b) ≤ n_max)
slack_le size o b e h = ground arith

best_fit-Chosen :
    (size : ℕ) (o : Option Block) (bs : List Block)
    → slack size o ≤ n_max
    → Chosen size o bs (best_fit size o bs)
unfolding best_fit
best_fit-Chosen size o [] h = inl refl
best_fit-Chosen size o (b ∷ bs) h = elim (Bool-cases (improves size o b)) [
  | inr e ↦ rw (e) (elim (best_fit-Chosen size o bs h) [
    | inl p ↦ inl p
    | inr (c, p, f, w) ↦ inr (c, p, f, Within-cons b c bs w)
  ])
  | inl e ↦
      let (fits, le) = slack_le size o b e h in
      rw (e) (elim (best_fit-Chosen size (some b) bs le) [
        | inl p ↦ inr (b, p, fits, record { before = []; after = bs; split = refl })
        | inr (c, p, f, w) ↦ inr (c, p, f, Within-cons b c bs w)
      ])
]

-- No block that fits leaves less over.
best_fit-le :
    (size : ℕ) (o r : Option Block) (bs : List Block)
    → best_fit size o bs ≡ r
    → (slack size r ≤ slack size o) × All (λ c. Fits size c → slack size r ≤ c.size - size) bs
unfolding best_fit
best_fit-le size o r [] h = (ground arith, tt)
best_fit-le size o r (b ∷ bs) h = elim (Bool-cases (improves size o b)) [
  | inl e ↦ let (p, q) = best_fit-le size (some b) r bs (rw e at h) in (ground arith, (λ f. p, q))
  | inr e ↦ let (p, q) = best_fit-le size o r bs (rw e at h) in (p, (λ f. ground arith, q))
]

-- The best fit stands in the list, is free and large enough, and no block that fits is smaller.
pub best_fit-some :
    (size : ℕ) (bs : List Block) {b : Block}
    → best_fit size none bs ≡ some b
    → Within b bs × Fits size b × All (λ c. Fits size c → b.size - size ≤ c.size - size) bs
best_fit-some size bs {b} h = elim (best_fit-Chosen size none bs (omega arith)) [
  | inl p ↦ cc
  | inr (c, p, f, w) ↦
      let e : c ≡ b = cc in
      (
        subst (λ x. Within x bs) e w,
        subst (λ x. Fits size x) e f,
        (best_fit-le size none (some b) bs h).1,
      )
]

-- If there is no best fit, no block of the list fits.
pub best_fit-none :
    (size : ℕ) (bs : List Block) → best_fit size none bs ≡ none → All (λ c. ¬ Fits size c) bs
best_fit-none size bs h =
    All-mono (λ c. Fits size c → n_max ≤ c.size - size) (λ c. ¬ Fits size c) bs
      (λ c p f. omega (arith, p f)) (best_fit-le size none none bs h).1
