-- ===== src/Pool/Progress.antt =====
-- Where no worker waits behind the broadcast, all workers of the pool of parallel-graph come to their
-- loop.
use operating_system_challen.Base.{
  ℕ, zero, suc, ◌+◌, ◌*◌, ◌<◌, ◌≤◌, ◌≡◌, ◌≢◌, refl, ap, ◌∙◌, Option, none, some, arith, ◌⊎◌, inl,
  inr,
}
use native.Mathlib.Decide.{ℕ_discrete}
use operating_system_challen.Pool.Startup.{
  Worker, starting, testing, sleepy, asleep, woken, leaving, looping, Startup, Transition, lock,
  test_set, reacquire, unlock, Transitions, stay, more,
}
use operating_system_challen.Pool.Awake.{Awake, Holding, rank, ranks, Transition-Awake}

Started : ℕ → Startup → Type 0
Started n s = (i : ℕ) → i < n → s.worker i ≡ looping

is_looping : (w : Worker) → (w ≡ looping) ⊎ (w ≢ looping)
is_looping starting = inr (λ p. cc)
is_looping testing = inr (λ p. cc)
is_looping sleepy = inr (λ p. cc)
is_looping asleep = inr (λ p. cc)
is_looping woken = inr (λ p. cc)
is_looping leaving = inr (λ p. cc)
is_looping looping = inl refl

find_behind :
    (n : ℕ) (w : ℕ → Worker)
    → ((i : ℕ) → i < n → w i ≡ looping) ⊎ ((i : ℕ) × (i < n) × (w i ≢ looping))
find_behind zero w = inl (λ i l. absurd (omega arith))
find_behind (suc n) w = elim (is_looping (w n)) [
  | inr d ↦ inr (n, omega arith, d)
  | inl e ↦ elim (find_behind n w) [
    | inr (i, l, d) ↦ inr (i, omega arith, d)
    | inl all ↦
        inl (λ i l. elim (ℕ_discrete i n) [ yes p ↦ ap w p ∙ e | no d ↦ all i (omega arith) ])
  ]
]

module _ {n : ℕ} where
  -- The owner of the mutex can go on.
  owner_step :
      (s : Startup) (i : ℕ)
      → Awake n s
      → i < n
      → Holding (s.worker i)
      → (t : Startup) × Transition n s t
  owner_step s i h l (inl e) = (_, test_set s i l e h.flag)
  owner_step s i h l (inr e) = (_, unlock s i l e)

  -- While nobody owns the mutex, every worker short of its loop can.
  free_step :
      (s : Startup) (i : ℕ) (w : Worker)
      → Awake n s
      → i < n
      → s.owner ≡ none
      → s.worker i ≡ w
      → w ≢ looping
      → (t : Startup) × Transition n s t
  free_step s i starting h l o e d = (_, lock s i l e o)
  free_step s i testing h l o e d = (_, test_set s i l e h.flag)
  free_step s i sleepy h l o e d = absurd ((h.awakened i l).0 e)
  free_step s i asleep h l o e d = absurd ((h.awakened i l).1 e)
  free_step s i woken h l o e d = (_, reacquire s i l e o)
  free_step s i leaving h l o e d = (_, unlock s i l e)
  free_step s i looping h l o e d = absurd (d refl)

  next_step :
      (s : Startup) (i : ℕ) (o : Option ℕ)
      → Awake n s
      → i < n
      → s.worker i ≢ looping
      → s.owner ≡ o
      → (t : Startup) × Transition n s t
  next_step s i none h l d e = free_step s i (s.worker i) h l e refl d
  next_step s i (some j) h l d e = let (m, a) = h.owner j e in owner_step s j h m a

  Transitions-Awake :
      {m : ℕ} {s t : Startup}
      → Transitions n m s t
      → Awake n s
      → Awake n t × (m + ranks n t.worker ≤ ranks n s.worker)
  Transitions-Awake stay h = (h, omega arith)
  Transitions-Awake (more r rs) h =
      let (h', less) = Transition-Awake r h in
      let (h'', le) = Transitions-Awake rs h' in (h'', omega arith)

  stuck-Started : (s : Startup) → Awake n s → ((t : Startup) → ¬ Transition n s t) → Started n s
  unfolding Started
  stuck-Started s h stuck = elim (find_behind n s.worker) [
    | inl all ↦ all
    | inr (i, l, d) ↦ let (t, r) = next_step s i s.owner h l d refl in absurd (stuck t r)
  ]

  run_on :
      (bound : ℕ) (s : Startup)
      → Awake n s
      → ranks n s.worker < bound
      → (m : ℕ) × (t : Startup) × Transitions n m s t × Started n t
  unfolding Started
  run_on zero s h b = absurd (omega arith)
  run_on (suc bound) s h b = elim (find_behind n s.worker) [
    | inl all ↦ (0, s, stay, all)
    | inr (i, l, d) ↦
        let (t, r) = next_step s i s.owner h l d refl in
        let (h', less) = Transition-Awake r h in
        let (m, u, rs, done) = run_on bound t h' (omega arith) in (suc m, u, more r rs, done)
  ]

ranks_bound : (n : ℕ) (w : ℕ → Worker) → ranks n w ≤ 3 * n
ranks_bound zero w = omega arith
ranks_bound (suc n) w = let le = rank_bound (w n) in omega (arith, ranks_bound n w)
  where
    rank_bound : (x : Worker) → rank x ≤ 3
    rank_bound starting = omega arith
    rank_bound testing = omega arith
    rank_bound sleepy = omega arith
    rank_bound asleep = omega arith
    rank_bound woken = omega arith
    rank_bound leaving = omega arith
    rank_bound looping = omega arith

-- Where the main thread has broadcast with no worker between its test of the flag and its wait, all
-- n workers reach their loop: no run goes on for more than 3 * n steps, a state from which there is
-- no step has every worker in its loop, and such a state can be reached.
pub all_workers_start :
    (n : ℕ) (s : Startup)
    → Awake n s
    → ((m : ℕ) (t : Startup)
        → Transitions n m s t
        → (m ≤ 3 * n)
          × (((u : Startup) → ¬ Transition n t u) → (i : ℕ) → i < n → t.worker i ≡ looping))
      × ((m : ℕ) × (t : Startup) × Transitions n m s t × ((i : ℕ) → i < n → t.worker i ≡ looping))
unfolding Started
all_workers_start n s h = (
  (λ m t run.
      let (h', le) = Transitions-Awake run h in
      let bound = ranks_bound n s.worker in (omega arith, stuck-Started t h')),
  run_on (suc (ranks n s.worker)) s h (omega arith),
)
