-- ===== src/Pool/Measure.antt =====
-- How many steps the threads can still take.
use operating_system_challen.Base.{
  ℕ, zero, suc, ◌+◌, ◌≤◌, ◌<◌, ◌≡◌, ◌≢◌, inl, inr, refl, sym, ap, ◌∙◌, Option, none, some, List, [],
  ◌∷◌, arith, get_elem?, length, Bool-cases, Option-cases, if◌then◌else◌,
}
use native.Mathlib.Decide.{ℕ_discrete}
use operating_system_challen.Graph.Code.{
  Graph, Visited, not_visited, processing, done, is_not_visited, update,
}
use operating_system_challen.Graph.Update.{update_at, update_other}
use operating_system_challen.Graph.Reach.{Closed}
use operating_system_challen.Pool.Code.{
  Shared, Thread, Pool, waiting, running, exited, checking, summing, marking, scanning, is_done,
  mark, enqueue_task, visit_neighbour, dequeue_task, take_task, advance, step_thread, run_threads,
  start_pool,
}
use operating_system_challen.Graph.Count.{total, total_seen, total-update}
use operating_system_challen.Pool.Weights.{over, over-set, over-append, at_same}
use operating_system_challen.Pool.Invariant.{Inv}
use operating_system_challen.Pool.Marks.{held-processing}
use operating_system_challen.Pool.Scan.{next_reached}
use operating_system_challen.Pool.Run.{step_thread-Inv, start_pool-Inv}

update_seen :
    (a : ℕ → Visited) (v : ℕ)
    → a v ≡ processing
    → (u : ℕ) → is_not_visited (update a v done u) ≡ is_not_visited (a u)
update_seen a v proc u = elim (ℕ_discrete u v) [
  | yes d ↦ ap is_not_visited (update_at a v done u d) ∙ sym (ap is_not_visited (ap a d ∙ proc))
  | no d ↦ ap is_not_visited (update_other a v done u d)
]

-- The steps that the task of a node takes, its way out of the queue included.
abbrev cost : Graph → ℕ → ℕ
cost g v = length (g.nodes v).neighbours + 5

-- The steps for the first `n` nodes that are not visited.
abbrev unvisited_cost : Graph → ℕ → (ℕ → Visited) → ℕ
unvisited_cost g zero visited = 0
unvisited_cost g (suc n) visited =
    unvisited_cost g n visited + (if is_not_visited (visited n) then cost g n else 0)

abbrev thread_steps : Graph → Thread → ℕ
thread_steps g waiting = 2
thread_steps g running = 1
thread_steps g exited = 0
thread_steps g (checking v) = length (g.nodes v).neighbours + 5
thread_steps g (summing v) = length (g.nodes v).neighbours + 4
thread_steps g (marking v) = length (g.nodes v).neighbours + 3
thread_steps g (scanning v ws) = length ws + 2

abbrev shared_steps : Graph → Shared → ℕ
shared_steps g s = unvisited_cost g g.num_nodes s.visited + over (cost g) s.queue

-- A bound on the steps that are left.
abbrev pub steps_left : Graph → Pool → ℕ
steps_left g p = shared_steps g p.shared + over (thread_steps g) p.threads

unvisited_cost-total :
    (g : Graph) (n : ℕ) (a : ℕ → Visited)
    → unvisited_cost g n a + total n (cost g) a ≡ total n (cost g) (λ u. done)
unvisited_cost-total g zero a = refl
unvisited_cost-total g (suc n) a = ground (arith, unvisited_cost-total g n a)

module _ (g : Graph) (idx : ℕ) (all : Closed g) (s : Shared) (ts : List Thread) (i : ℕ)
    (inv : Inv g idx s ts) where
  -- The step from `t` to `t'` leaves fewer steps.
  abbrev Fewer : Thread → Option (Shared × Thread) → Type 0
  Fewer t none = t ≡ exited
  Fewer t (some (s', t')) =
      shared_steps g s' + thread_steps g t' < shared_steps g s + thread_steps g t

  checking-Fewer :
      (v : ℕ)
      → get_elem? ts i ≡ some (checking v)
      → Fewer (checking v) (some (s, if is_done (s.visited v) then running else summing v))
  checking-Fewer v e = ground arith

  dequeue-Fewer : (q : List ℕ) → s.queue ≡ q → Fewer running (some (take_task s q))
  dequeue-Fewer [] q = omega arith
  dequeue-Fewer (v ∷ vs) q = omega (arith, ap (over (cost g)) q)

  mark-Fewer :
      (v : ℕ)
      → get_elem? ts i ≡ some (marking v)
      → Fewer (marking v) (some (mark s v done, scanning v (g.nodes v).neighbours))
  unfolding mark
  mark-Fewer v e =
      let n = g.num_nodes in
      let after = update s.visited v done in
      omega (
        arith,
        unvisited_cost-total g n s.visited,
        unvisited_cost-total g n after,
        total_seen n (cost g) after s.visited (
            update_seen s.visited v
              (held-processing g idx all s ts i inv v (marking v) e (at_same v v refl))),
      )

  scan-Fewer :
      (v w : ℕ) (ws : List ℕ)
      → get_elem? ts i ≡ some (scanning v (w ∷ ws))
      → Fewer (scanning v (w ∷ ws)) (some (visit_neighbour s w, scanning v ws))
  unfolding visit_neighbour mark enqueue_task
  scan-Fewer v w ws e = elim (Bool-cases (is_not_visited (s.visited w))) [
    | inr seen ↦ rw seen (omega arith)
    | inl fresh ↦
        let n = g.num_nodes in
        let after = update s.visited w processing in
        rw fresh (
          omega (
            arith,
            unvisited_cost-total g n s.visited,
            unvisited_cost-total g n after,
            total-update n (cost g) s.visited w processing
                (next_reached g idx s ts i inv v w ws e).1 fresh refl,
            over-append (cost g) s.queue (w ∷ []),
          ))
  ]

  advance-Fewer : (t : Thread) → get_elem? ts i ≡ some t → Fewer t (advance g s t)
  unfolding advance dequeue_task
  advance-Fewer waiting e = omega arith
  advance-Fewer exited e = refl
  advance-Fewer running e = dequeue-Fewer s.queue refl
  advance-Fewer (checking v) e = checking-Fewer v e
  advance-Fewer (summing v) e = omega arith
  advance-Fewer (marking v) e = mark-Fewer v e
  advance-Fewer (scanning v []) e = omega arith
  advance-Fewer (scanning v (w ∷ ws)) e = scan-Fewer v w ws e

step_thread-steps_left :
    (g : Graph) (idx : ℕ) (i : ℕ) (p : Pool) (t : Thread)
    → Closed g
    → Inv g idx p.shared p.threads
    → get_elem? p.threads i ≡ some t
    → t ≢ exited
    → steps_left g (step_thread g i p) < steps_left g p
unfolding step_thread
step_thread-steps_left g idx i p t all inv e lives =
    let fewer = advance-Fewer g idx all p.shared p.threads i inv t e in
    elim (Option-cases (advance g p.shared t)) [
      | inl n ↦ absurd (lives (rw n at fewer))
      | inr ((s, t'), n) ↦
          rw (step_thread, e, n)
            (omega (arith, rw n at fewer, over-set (thread_steps g) p.threads i t t' e))
    ]

-- Every entry of the schedule is a thread that has not ended.
abbrev pub Productive : Graph → List ℕ → Pool → Type 0
Productive g [] p = Unit
Productive g (i ∷ is) p =
    ((t : Thread) × (get_elem? p.threads i ≡ some t) × (t ≢ exited))
    × Productive g is (step_thread g i p)

run_threads-steps_left :
    (g : Graph) (idx : ℕ) (is : List ℕ) (p : Pool)
    → Closed g
    → Inv g idx p.shared p.threads
    → Productive g is p
    → length is + steps_left g (run_threads g is p) ≤ steps_left g p
unfolding run_threads
run_threads-steps_left g idx [] p all inv h = omega arith
run_threads-steps_left g idx (i ∷ is) p all inv ((t, e, lives), rest) =
    let less = step_thread-steps_left g idx i p t all inv e lives in
    let later =
      run_threads-steps_left g idx is (step_thread g i p) all (step_thread-Inv g idx all i p inv)
        rest in
    omega (arith, less, later)

-- On a graph whose neighbours are nodes, with no node visited and at least one thread: no run in
-- which every step is taken by a thread that has not ended is longer than `steps_left` of the
-- start, which counts for each node its neighbours and five, and for each thread two.
pub run_threads-terminates :
    (g : Graph) (num_threads idx : ℕ) (schedule : List ℕ)
    → Closed g
    → idx < g.num_nodes
    → ((u : ℕ) → g.visited u ≡ not_visited)
    → 0 < num_threads
    → Productive g schedule (start_pool g num_threads idx)
    → length schedule ≤ steps_left g (start_pool g num_threads idx)
run_threads-terminates g num_threads idx schedule closed inside fresh more h =
    let bound =
      run_threads-steps_left g idx schedule (start_pool g num_threads idx) closed
        (start_pool-Inv g num_threads idx inside fresh more) h in
    omega (arith, bound)
