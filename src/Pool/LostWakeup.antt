-- ===== src/Pool/LostWakeup.antt =====
-- The start of the worker threads of parallel-graph: a worker can sleep for ever.
use operating_system_challen.Base.{ℕ, ◌<◌, ◌≡◌, ◌≢◌, refl, sym, ap, ◌∙◌}
use operating_system_challen.Pool.Startup.{
  Worker, starting, testing, sleepy, asleep, woken, leaving, joining, Startup, moved, moved_self,
  moved_other, wake, Transition, lock, test_set, test_unset, wait, reacquire, unlock, set_flag,
  broadcast, Transitions, stay, more, start_up,
}

-- A step of another worker leaves this one asleep.
sleeps_on :
    (w : ℕ → Worker) (i j : ℕ) (x y : Worker)
    → w i ≡ asleep
    → w j ≡ y
    → y ≢ asleep
    → moved w j x i ≡ asleep
sleeps_on w i j x y a e d = moved_other w j x i (λ p. d (sym e ∙ ap w (sym p) ∙ a)) ∙ a

-- Behind the broadcast.
Transition-asleep :
    {n : ℕ} {s t : Startup} (i : ℕ)
    → Transition n s t
    → s.main ≡ joining
    → s.worker i ≡ asleep
    → (t.main ≡ joining) × (t.worker i ≡ asleep)
Transition-asleep i (lock s j l e o) m a = (m, sleeps_on s.worker i j _ starting a e (λ p. cc))
Transition-asleep i (test_set s j l e o) m a = (m, sleeps_on s.worker i j _ testing a e (λ p. cc))
Transition-asleep i (test_unset s j l e o) m a = (m, sleeps_on s.worker i j _ testing a e (λ p. cc))
Transition-asleep i (wait s j l e) m a = (m, sleeps_on s.worker i j _ sleepy a e (λ p. cc))
Transition-asleep i (reacquire s j l e o) m a = (m, sleeps_on s.worker i j _ woken a e (λ p. cc))
Transition-asleep i (unlock s j l e) m a = (m, sleeps_on s.worker i j _ leaving a e (λ p. cc))
Transition-asleep i (set_flag s e) m a = absurd cc
Transition-asleep i (broadcast s e) m a = absurd cc

Transitions-asleep :
    {n m : ℕ} {s t : Startup} (i : ℕ)
    → Transitions n m s t
    → s.main ≡ joining
    → s.worker i ≡ asleep
    → t.worker i ≡ asleep
Transitions-asleep i stay m a = a
Transitions-asleep i (more r rs) m a =
    let (m', a') = Transition-asleep i r m a in Transitions-asleep i rs m' a'

-- For every worker there is a run from the start in which it reads the flag before `process_node`
-- sets it and waits behind the broadcast: the main thread is in `wait_for_completion`, and in
-- whatever state a run goes on to, that worker is still asleep.
pub lost_wakeup :
    (n i : ℕ)
    → i < n
    → (m : ℕ) × (s : Startup) × Transitions n m start_up s
      × (s.main ≡ joining)
      × ((m' : ℕ) (t : Startup) → Transitions n m' s t → t.worker i ≡ asleep)
lost_wakeup n i l =
    let w = moved (moved start_up.worker i testing) i sleepy in
    let a : w i ≡ sleepy = moved_self _ i sleepy in
    (
      5,
      _,
      more (lock start_up i l refl refl) (
          more (test_unset _ i l (moved_self _ i testing) refl) (
            more (set_flag _ refl) (more (broadcast _ refl) (more (wait _ i l (ap wake a)) stay)))),
      refl,
      (λ m' t run. Transitions-asleep i run refl (moved_self _ i asleep)),
    )
