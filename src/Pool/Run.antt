-- ===== src/Pool/Run.antt =====
-- The invariant holds at the start and under every schedule.
use operating_system_challen.Base.{
  ℕ, zero, suc, ◌<◌, ◌≡◌, inl, inr, refl, sym, ap, ◌∙◌, subst, true, false, Option, none, some,
  List, [], ◌∷◌, arith, get_elem?, set, Bool-cases, Option-cases,
}
use native.Mathlib.Decide.{ℕ_discrete}
use operating_system_challen.Graph.Code.{Graph, not_visited, processing, done, is_not_visited}
use operating_system_challen.Graph.Update.{update_at, update_other}
use operating_system_challen.Graph.Reach.{Reach, here, Closed}
use operating_system_challen.Graph.Count.{total_fresh, total-update}
use operating_system_challen.Pool.Code.{
  Shared, Thread, Pool, waiting, running, exited, checking, summing, marking, scanning, mark,
  enqueue_task, visit_neighbour, dequeue_task, take_task, advance, step_thread, run_threads,
  start_pool, all_waiting,
}
use operating_system_challen.Pool.Weights.{over, held, to_scan, unsummed, at_same, at_elsewhere}
use operating_system_challen.Pool.Invariant.{one_if_processing, info, Inv, Inv-quiet}
use operating_system_challen.Pool.Steps.{dequeue-Inv, exit-Inv, sum-Inv}
use operating_system_challen.Pool.Marks.{held-processing, mark-Inv}
use operating_system_challen.Pool.Scan.{pass-Inv, enqueue-Inv}

module _ (g : Graph) (idx : ℕ) (all : Closed g) where
  abbrev Held : Pool → Type 0
  Held p = Inv g idx p.shared p.threads

  -- The state behind a step of a thread that stood at `t`.
  abbrev After : Shared → List Thread → ℕ → Option (Shared × Thread) → Type 0
  After s ts i none = Unit
  After s ts i (some (s', t')) = Inv g idx s' (set ts i t')

  dequeue_task-Inv :
      (s : Shared) (ts : List Thread) (i : ℕ) (q : List ℕ)
      → s.queue ≡ q
      → get_elem? ts i ≡ some running
      → Inv g idx s ts
      → After s ts i (some (dequeue_task s))
  unfolding dequeue_task
  dequeue_task-Inv s ts i [] q e inv =
      subst (λ o. After s ts i (some o)) (sym (ap (take_task s) q)) (exit-Inv g idx s ts i inv e q)
  dequeue_task-Inv s ts i (v ∷ vs) q e inv =
      subst (λ o. After s ts i (some o)) (sym (ap (take_task s) q))
        (dequeue-Inv g idx s ts i inv v vs e q)

  advance-Inv :
      (s : Shared) (ts : List Thread) (i : ℕ) (t : Thread)
      → get_elem? ts i ≡ some t
      → Inv g idx s ts
      → After s ts i (advance g s t)
  unfolding advance visit_neighbour
  advance-Inv s ts i waiting e inv =
      Inv-quiet ts i waiting running e g idx s (λ v. refl) refl (λ v w. refl) refl inv
  advance-Inv s ts i exited e inv = tt
  advance-Inv s ts i running e inv = dequeue_task-Inv s ts i s.queue refl e inv
  advance-Inv s ts i (checking v) e inv =
      let proc = held-processing g idx all s ts i inv v (checking v) e (at_same v v refl) in
      rw proc
        (Inv-quiet ts i (checking v) (summing v) e g idx s (λ u. refl) refl (λ u w. refl) refl inv)
  advance-Inv s ts i (summing v) e inv = sum-Inv g idx s ts i inv v e
  advance-Inv s ts i (marking v) e inv = mark-Inv g idx all s ts i inv v e
  advance-Inv s ts i (scanning v []) e inv =
      Inv-quiet ts i (scanning v []) running e g idx s (λ u. refl) refl (λ u w. ground arith) refl
        inv
  advance-Inv s ts i (scanning v (w ∷ ws)) e inv =
      elim (Bool-cases (is_not_visited (s.visited w))) [
        | inl fresh ↦ rw fresh (enqueue-Inv g idx s ts i inv v w ws e fresh)
        | inr seen ↦ rw seen (pass-Inv g idx s ts i inv v w ws e seen)
      ]

  pub step_thread-Inv : (i : ℕ) (p : Pool) → Held p → Held (step_thread g i p)
  unfolding step_thread
  step_thread-Inv i p inv = elim (Option-cases (get_elem? p.threads i)) [
    | inl e ↦ rw (step_thread, e) inv
    | inr (t, e) ↦
        let next = advance-Inv p.shared p.threads i t e inv in
        elim (Option-cases (advance g p.shared t)) [
          | inl n ↦ rw (step_thread, e, n) inv
          | inr ((s, t'), n) ↦ rw (step_thread, e, n) (rw n at next)
        ]
  ]

  pub run_threads-Inv : (is : List ℕ) (p : Pool) → Held p → Held (run_threads g is p)
  unfolding run_threads
  run_threads-Inv [] p inv = inv
  run_threads-Inv (i ∷ is) p inv = run_threads-Inv is (step_thread g i p) (step_thread-Inv i p inv)

-- Threads that wait have nothing to do.
over_waiting : (f : Thread → ℕ) (n : ℕ) → f waiting ≡ 0 → over f (all_waiting n) ≡ 0
over_waiting f zero h = refl
over_waiting f (suc n) h = omega (arith, h, over_waiting f n h)

pub start_pool-Inv :
    (g : Graph) (num_threads idx : ℕ)
    → idx < g.num_nodes
    → ((u : ℕ) → g.visited u ≡ not_visited)
    → 0 < num_threads
    → Inv g idx (start_pool g num_threads idx).shared (start_pool g num_threads idx).threads
unfolding start_pool mark enqueue_task
start_pool-Inv g zero idx inside fresh more = absurd (omega arith)
start_pool-Inv g (suc n) idx inside fresh more = record {
  tasks = λ v.
      let idle = over_waiting (held v) (suc n) refl in
      elim (ℕ_discrete v idx) [
        | yes d ↦ omega (
          arith,
          idle,
          at_same v idx d,
          ap one_if_processing (update_at g.visited idx processing v d),
        )
        | no d ↦ omega (
          arith,
          idle,
          at_elsewhere v idx d,
          ap one_if_processing (update_other g.visited idx processing v d ∙ fresh v),
        )
      ];
  summed = omega (
    arith,
    over_waiting (unsummed (info g)) (suc n) refl,
    total-update g.num_nodes (info g) g.visited idx processing inside
        (ap is_not_visited (fresh idx)) refl,
    total_fresh g.num_nodes (info g) g.visited (λ u. ap is_not_visited (fresh u)),
  );
  small = omega arith;
  sound = λ v h. elim (ℕ_discrete v idx) [
    | yes d ↦ (subst (Reach g idx) (sym d) here, subst (λ x. x < g.num_nodes) (sym d) inside)
    | no d ↦ absurd (
        unseen_clash
          (sym h ∙ ap is_not_visited (update_other g.visited idx processing v d ∙ fresh v)))
  ];
  scans = λ v w some_left. absurd (omega (arith, over_waiting (to_scan v w) (suc n) refl));
  closed = λ v w d m. elim (ℕ_discrete v idx) [
    | yes q ↦ absurd (processing_clash (sym (update_at g.visited idx processing v q) ∙ d))
    | no q ↦
        absurd (fresh_clash (sym (fresh v) ∙ sym (update_other g.visited idx processing v q) ∙ d))
  ];
  live = inr (omega arith);
  begun = ap is_not_visited (update_at g.visited idx processing idx refl);
}
  where
    unseen_clash : ¬ (false ≡ true)
    unseen_clash q = cc

    processing_clash : ¬ (processing ≡ done)
    processing_clash q = cc

    fresh_clash : ¬ (not_visited ≡ done)
    fresh_clash q = cc
