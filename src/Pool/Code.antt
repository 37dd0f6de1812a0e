-- ===== src/Pool/Code.antt =====
-- The threads of parallel-graph/src/os_threadpool.c that run `action` of parallel.c, from the
-- moment when `process_node` has put the first task into the queue. A task is the number of its
-- node. A step of a thread is the stretch up to the next lock: what it does there is atomic.
use operating_system_challen.Base.{
  ℕ, zero, suc, Bool, true, false, Option, none, some, List, [], ◌∷◌, ◌++◌, get_elem?, set,
  if◌then◌else◌,
}
use operating_system_challen.Graph.Code.{
  Graph, Visited, not_visited, processing, done, is_not_visited, update, add32,
}

abbrev pub is_done : Visited → Bool
is_done not_visited = false
is_done processing = false
is_done done = true

-- The variables that the threads share.
pub record Shared : Type 0 where
  pub sum : ℕ
  pub visited : ℕ → Visited
  pub queue : List ℕ

-- Where a thread stands: before the wait for the first task, at `dequeue_task`, in `action` at the
-- test of the node's state, at `sum +=`, at the mark, in the loop with the neighbours that are
-- left, or behind its loop.
pub data Thread : Type 0 where
  waiting running exited : Thread
  checking summing marking : ℕ → Thread
  scanning : ℕ → List ℕ → Thread

unfoldable pub enqueue_task : Shared → ℕ → Shared
enqueue_task s v = record s { queue = s.queue ++ v ∷ [] }

-- What follows the test of the queue: a NULL task ends the loop of `thread_loop_function`.
abbrev pub take_task : Shared → List ℕ → Shared × Thread
take_task s [] = (s, exited)
take_task s (v ∷ vs) = (record s { queue = vs }, checking v)

unfoldable pub dequeue_task : Shared → Shared × Thread
dequeue_task s = take_task s s.queue

unfoldable pub mark : Shared → ℕ → Visited → Shared
mark s v state = record s { visited = update s.visited v state }

-- One round of the loop over the neighbours in `action`, under `stateMutex`. The queue has a lock
-- of its own, but a `dequeue_task` between the mark and the `enqueue_task` does what it does before
-- both.
unfoldable pub visit_neighbour : Shared → ℕ → Shared
unfolding mark enqueue_task
visit_neighbour s w =
    if is_not_visited (s.visited w) then enqueue_task (mark s w processing) w else s

-- The next stretch of a thread; `none` behind its end.
unfoldable pub advance : Graph → Shared → Thread → Option (Shared × Thread)
advance g s waiting = some (s, running)
advance g s running = some (dequeue_task s)
advance g s exited = none
advance g s (checking v) = some (s, if is_done (s.visited v) then running else summing v)
advance g s (summing v) = some (record s { sum = add32 s.sum (g.nodes v).info }, marking v)
advance g s (marking v) = some (mark s v done, scanning v (g.nodes v).neighbours)
advance g s (scanning v []) = some (s, running)
advance g s (scanning v (w ∷ ws)) = some (visit_neighbour s w, scanning v ws)

pub record Pool : Type 0 where
  pub shared : Shared
  pub threads : List Thread

-- The thread `i` takes a step, if there is such a thread and it has not ended.
unfoldable pub step_thread : Graph → ℕ → Pool → Pool
unfolding advance
step_thread g i p = elim (get_elem? p.threads i) [
  | none ↦ p
  | some t ↦ elim (advance g p.shared t) [
    | none ↦ p
    | some (s, t') ↦ record { shared = s; threads = set p.threads i t' }
  ]
]

-- The threads take steps in the order of the schedule.
unfoldable pub run_threads : Graph → List ℕ → Pool → Pool
unfolding step_thread
run_threads g [] p = p
run_threads g (i ∷ is) p = run_threads g is (step_thread g i p)

abbrev pub all_waiting : ℕ → List Thread
all_waiting zero = []
all_waiting (suc n) = waiting ∷ all_waiting n

-- `create_threadpool` and `process_node`: every thread waits, the node is marked and its task is
-- in the queue.
unfoldable pub start_pool : Graph → (num_threads idx : ℕ) → Pool
unfolding mark enqueue_task
start_pool g num_threads idx =
    let empty : Shared = record { sum = 0; visited = g.visited; queue = [] } in
    record {
      shared = enqueue_task (mark empty idx processing) idx;
      threads = all_waiting num_threads;
    }
