-- ===== src/Pool/Tests.antt =====
-- The parallel traversal with two threads on a graph of three nodes, one of them apart.
use operating_system_challen.Base.{
  ℕ, zero, suc, ◌+◌, ◌%◌, ◌^◌, ◌≤◌, ◌≡◌, ◌↔◌, ◌⊎◌, some, refl, List, [], ◌∷◌, arith,
}
use operating_system_challen.Graph.Code.{Graph, Walk, process_node, not_visited, done, update}
use operating_system_challen.Graph.Reach.{Reach, Closed}
use operating_system_challen.Graph.Count.{total}
use operating_system_challen.Pool.Code.{
  exited, waiting, running, run_threads, start_pool, step_thread, advance, dequeue_task,
  visit_neighbour, enqueue_task, mark,
}
use operating_system_challen.Pool.Weights.{over, count, held}
use operating_system_challen.Pool.Invariant.{info}
use operating_system_challen.Pool.Measure.{Productive, steps_left, run_threads-terminates}
use operating_system_challen.Pool.Result.{
  Exited, run_threads-Reach, run_threads_once, run_threads-process_node,
}

abbrev neighbours : ℕ → List ℕ
neighbours zero = 1 ∷ []
neighbours (suc zero) = 0 ∷ []
neighbours (suc (suc n)) = []

abbrev pair : Graph
pair = record {
  num_nodes = 3;
  num_edges = 1;
  nodes = λ v. record { id = v; info = 10 + v; neighbours = neighbours v };
  visited = λ v. not_visited;
}

pair-Closed : Closed pair
pair-Closed zero h = (omega arith, tt)
pair-Closed (suc zero) h = (omega arith, tt)
pair-Closed (suc (suc n)) h = tt

-- The two threads take turns.
abbrev turns : ℕ → List ℕ
turns zero = []
turns (suc n) = 0 ∷ 1 ∷ turns n

pair-Exited : Exited (run_threads pair (turns 20) (start_pool pair 2 0)).threads
unfolding run_threads start_pool step_thread advance dequeue_task visit_neighbour enqueue_task mark
    update
pair-Exited = (refl, (refl, tt))

run_threads-Reach_example :
    ((run_threads pair (turns 20) (start_pool pair 2 0)).shared.queue ≡ [])
    × ((u : ℕ)
        → ((run_threads pair (turns 20) (start_pool pair 2 0)).shared.visited u ≡ done)
          ↔ Reach pair 0 u)
    × ((u : ℕ)
        → ((run_threads pair (turns 20) (start_pool pair 2 0)).shared.visited u ≡ not_visited)
          ⊎ ((run_threads pair (turns 20) (start_pool pair 2 0)).shared.visited u ≡ done))
    × ((run_threads pair (turns 20) (start_pool pair 2 0)).shared.sum
        ≡ total 3 (info pair) (run_threads pair (turns 20) (start_pool pair 2 0)).shared.visited
          % 2 ^ 32)
run_threads-Reach_example =
    run_threads-Reach pair 2 0 (turns 20) pair-Closed (omega arith) (λ u. refl) (omega arith)
      pair-Exited

run_threads_once_example :
    count 1 (run_threads pair (turns 7) (start_pool pair 2 0)).shared.queue
      + over (held 1) (run_threads pair (turns 7) (start_pool pair 2 0)).threads
    ≤ 1
run_threads_once_example =
    run_threads_once pair 2 0 (turns 7) 1 pair-Closed (omega arith) (λ u. refl) (omega arith)

waiting_lives : ¬ (waiting ≡ exited)
waiting_lives q = cc

running_lives : ¬ (running ≡ exited)
running_lives q = cc

first_steps : Productive pair (0 ∷ 1 ∷ 0 ∷ []) (start_pool pair 2 0)
unfolding start_pool step_thread advance dequeue_task enqueue_task mark
first_steps = (
  (waiting, refl, waiting_lives),
  ((waiting, refl, waiting_lives), ((running, refl, running_lives), tt)),
)

run_threads-terminates_example : 3 ≤ steps_left pair (start_pool pair 2 0)
run_threads-terminates_example =
    run_threads-terminates pair 2 0 (0 ∷ 1 ∷ 0 ∷ []) pair-Closed (omega arith) (λ u. refl)
      (omega arith) first_steps

run_threads-process_node_example :
    (w : Walk) × (process_node 3 pair 0 (record { sum = 0; visited = pair.visited }) ≡ some w)
    × ((run_threads pair (turns 20) (start_pool pair 2 0)).shared.sum ≡ w.sum)
    × ((u : ℕ) → (run_threads pair (turns 20) (start_pool pair 2 0)).shared.visited u ≡ w.visited u)
run_threads-process_node_example =
    run_threads-process_node pair 2 0 (turns 20) pair-Closed (omega arith) (λ u. refl) (omega arith)
      pair-Exited
