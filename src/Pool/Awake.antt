-- ===== src/Pool/Awake.antt =====
-- The start of the worker threads of parallel-graph where no worker was between its test of the flag
-- and its wait when the main thread broadcast.
use operating_system_challen.Base.{
  ℕ, zero, suc, ◌+◌, ◌<◌, ◌≤◌, ◌≡◌, ◌≢◌, refl, sym, ap, subst, ◌∙◌, true, Option, none, some, arith,
  ◌⊎◌, inl, inr,
}
use native.Mathlib.Decide.{ℕ_discrete}
use operating_system_challen.Pool.Startup.{
  Worker, starting, testing, sleepy, asleep, woken, leaving, looping, joining, Startup, moved,
  moved_self, moved_other, Transition, lock, test_set, test_unset, wait, reacquire, unlock,
  set_flag, broadcast,
}

abbrev pub Awakened : Worker → Type 0
Awakened w = (w ≢ sleepy) × (w ≢ asleep)

abbrev pub Holding : Worker → Type 0
Holding w = (w ≡ testing) ⊎ (w ≡ leaving)

-- The main thread has broadcast, no worker waits or is about to, and whoever owns the mutex is at
-- the test or at the unlock.
pub record Awake (n : ℕ) (s : Startup) : Type 0 where
  pub main : s.main ≡ joining
  pub flag : s.task_available ≡ true
  pub awakened : (i : ℕ) → i < n → Awakened (s.worker i)
  pub owner : (i : ℕ) → s.owner ≡ some i → (i < n) × Holding (s.worker i)

-- How many steps a worker is from its loop.
abbrev pub rank : Worker → ℕ
rank starting = 3
rank testing = 2
rank sleepy = 0
rank asleep = 0
rank woken = 2
rank leaving = 1
rank looping = 0

abbrev pub ranks : ℕ → (ℕ → Worker) → ℕ
ranks zero w = 0
ranks (suc n) w = ranks n w + rank (w n)

ranks_above :
    (n : ℕ) (w : ℕ → Worker) (i : ℕ) (x : Worker) → n ≤ i → ranks n (moved w i x) ≡ ranks n w
ranks_above zero w i x h = refl
ranks_above (suc n) w i x h =
    let e = ranks_above n w i x (omega arith) in
    let f = ap rank (moved_other w i x n (omega arith)) in omega arith

ranks-moved :
    (n : ℕ) (w : ℕ → Worker) (i : ℕ) (x y : Worker)
    → i < n
    → w i ≡ y
    → rank x < rank y
    → ranks n (moved w i x) < ranks n w
ranks-moved zero w i x y l e h = absurd (omega arith)
ranks-moved (suc n) w i x y l e h = elim (ℕ_discrete n i) [
  | yes p ↦
      let a = ranks_above n w i x (omega arith) in
      let b : rank (moved w i x n) ≡ rank x =
        ap (λ j. rank (moved w i x j)) p ∙ ap rank (moved_self w i x) in
      let c : rank (w n) ≡ rank y = ap (λ j. rank (w j)) p ∙ ap rank e in omega arith
  | no d ↦
      let a = ranks-moved n w i x y (omega arith) e h in
      let b = ap rank (moved_other w i x n d) in omega arith
]

module _ {n : ℕ} where
  -- A worker moves on; `o` owns the mutex then.
  Awake-moved :
      (s : Startup) (i : ℕ) (x : Worker) (o : Option ℕ)
      → Awake n s
      → Awakened x
      → ((j : ℕ) → o ≡ some j → (j < n) × Holding (moved s.worker i x j))
      → Awake n (record s { worker = moved s.worker i x; owner = o })
  Awake-moved s i x o h a own = record {
    main = h.main;
    flag = h.flag;
    awakened = λ j l. elim (ℕ_discrete j i) [
      | yes p ↦
          subst (λ k. Awakened (moved s.worker i x k)) (sym p)
            (subst Awakened (sym (moved_self s.worker i x)) a)
      | no d ↦ subst Awakened (sym (moved_other s.worker i x j d)) (h.awakened j l)
    ];
    owner = own;
  }

  -- ... who takes it,
  owner_self :
      (w : ℕ → Worker) (i : ℕ) (x : Worker)
      → i < n
      → Holding x
      → (j : ℕ) → some i ≡ some j
      → (j < n) × Holding (moved w i x j)
  owner_self w i x l a j e =
      let p : i ≡ j = cc in
      subst (λ k. (k < n) × Holding (moved w i x k)) p (l, subst Holding (sym (moved_self w i x)) a)

  -- ... or keeps it.
  owner_kept :
      (s : Startup) (i : ℕ) (x : Worker)
      → Awake n s
      → Holding x
      → (j : ℕ) → s.owner ≡ some j
      → (j < n) × Holding (moved s.worker i x j)
  owner_kept s i x h a j e = (
    (h.owner j e).0,
    elim (ℕ_discrete j i) [
      | yes p ↦
          subst (λ k. Holding (moved s.worker i x k)) (sym p)
            (subst Holding (sym (moved_self s.worker i x)) a)
      | no d ↦ subst Holding (sym (moved_other s.worker i x j d)) (h.owner j e).1
    ],
  )

  pub Transition-Awake :
      {s t : Startup}
      → Transition n s t
      → Awake n s
      → Awake n t × (ranks n t.worker < ranks n s.worker)
  Transition-Awake (lock s i l e o) h = (
    Awake-moved s i testing (some i) h ((λ p. cc), (λ p. cc))
        (owner_self s.worker i testing l (inl refl)),
    ranks-moved n s.worker i testing starting l e (omega arith),
  )
  Transition-Awake (test_set s i l e f) h = (
    Awake-moved s i leaving s.owner h ((λ p. cc), (λ p. cc)) (owner_kept s i leaving h (inr refl)),
    ranks-moved n s.worker i leaving testing l e (omega arith),
  )
  Transition-Awake (test_unset s i l e f) h = let g = h.flag in absurd cc
  Transition-Awake (wait s i l e) h = absurd ((h.awakened i l).0 e)
  Transition-Awake (reacquire s i l e o) h = (
    Awake-moved s i leaving (some i) h ((λ p. cc), (λ p. cc))
        (owner_self s.worker i leaving l (inr refl)),
    ranks-moved n s.worker i leaving woken l e (omega arith),
  )
  Transition-Awake (unlock s i l e) h = (
    Awake-moved s i looping none h ((λ p. cc), (λ p. cc)) (λ j p. absurd cc),
    ranks-moved n s.worker i looping leaving l e (omega arith),
  )
  Transition-Awake (set_flag s e) h = let m = h.main in absurd cc
  Transition-Awake (broadcast s e) h = let m = h.main in absurd cc
