-- ===== src/Pool/QueueTests.antt =====
-- A queue of one task in memory, and the start of two workers.
use operating_system_challen.Base.{
  ℕ, ◌+◌, ◌*◌, ◌<◌, ◌≤◌, ◌≡◌, refl, true, none, some, [], ◌∷◌, ◌==◌, map, if◌then◌else◌, arith,
}
use operating_system_challen.Ring.{Ptr, Linked, Distinct}
use operating_system_challen.Ring.Splice.{IsRing}
use operating_system_challen.Graph.Code.{not_visited}
use operating_system_challen.Pool.Code
use operating_system_challen.Pool.Code.{Shared}
use operating_system_challen.Pool.Tasks.{TaskMemory, create_task, enqueue_task, destroy_threadpool}
use operating_system_challen.Pool.Queue.{Holds}
use operating_system_challen.Pool.Destroy.{Freed, call_all, destroy_threadpool-Holds}
use operating_system_challen.Pool.Refine.{
  job, Implements, Agrees, enqueue_task-Implements, dequeue_task-Implements,
}
use operating_system_challen.Pool.Startup.{
  Startup, joining, starting, looping, Transition, Transitions, start_up,
}
use operating_system_challen.Pool.Startup
use operating_system_challen.Pool.LostWakeup.{lost_wakeup}
use operating_system_challen.Pool.Awake.{Awake}
use operating_system_challen.Pool.Progress.{all_workers_start}

-- The queue's head lies at 1016, the task at 2000, and the nodes of the graph at 3000, 3001 and so
-- on.
abbrev node_at : ℕ → Ptr
node_at v = 3000 + v

abbrev one_task : TaskMemory
one_task = record {
  links = record {
    next = λ a. if a == 1016 then 2024 else 1016;
    prev = λ a. if a == 1016 then 2024 else 1016;
  };
  task = λ a. job 1016 500 600 node_at 7;
  allocated = λ a. a == 2000;
  destroyed = [];
}

one_task-Holds : Holds 1016 one_task (2000 ∷ []) (map (job 1016 500 600 node_at) (7 ∷ []))
unfolding IsRing Linked Distinct
one_task-Holds = record {
  list = ((refl, refl, (refl, refl)), ((omega arith, tt), (tt, tt)));
  owned = (refl, tt);
  not_null = (omega arith, tt);
  tasks = refl;
}

abbrev one_left : Shared
one_left = record { sum = 0; visited = λ v. not_visited; queue = 7 ∷ [] }

one_task-Implements : Implements 1016 500 600 node_at one_task one_left
one_task-Implements = record { places = 2000 ∷ []; holds = one_task-Holds }

enqueue_task-Implements_example :
    (m' m'' : TaskMemory) × (create_task 4000 500 (node_at 8) 600 one_task ≡ some m')
    × (enqueue_task 1016 4000 m' ≡ some m'')
    × Implements 1016 500 600 node_at m'' (Code.enqueue_task one_left 8)
enqueue_task-Implements_example =
    enqueue_task-Implements 1016 500 600 node_at 4000 8 one_task one_left (omega arith)
      (omega arith) refl one_task-Implements

dequeue_task-Implements_example :
    Agrees 1016 500 600 node_at one_task one_left (Code.dequeue_task one_left)
dequeue_task-Implements_example =
    dequeue_task-Implements 1016 500 600 node_at one_task one_left one_task-Implements

destroy_threadpool-Holds_example :
    (m' : TaskMemory) × (destroy_threadpool 2 1016 one_task ≡ some m')
    × Holds 1016 m' [] []
    × Freed m' (2000 ∷ [])
    × (m'.destroyed ≡ call_all (map (job 1016 500 600 node_at) (7 ∷ [])) [])
destroy_threadpool-Holds_example =
    destroy_threadpool-Holds 2 1016 one_task (2000 ∷ []) (map (job 1016 500 600 node_at) (7 ∷ []))
      (omega arith) one_task-Holds

lost_wakeup_example :
    (m : ℕ) × (s : Startup) × Transitions 4 m start_up s
    × (s.main ≡ joining)
    × ((m' : ℕ) (t : Startup) → Transitions 4 m' s t → t.worker 3 ≡ Startup.asleep)
lost_wakeup_example = lost_wakeup 4 3 (omega arith)

-- The main thread has gone ahead of the workers.
abbrev early : Startup
early = record { worker = λ i. starting; main = joining; task_available = true; owner = none }

early-Awake : Awake 2 early
early-Awake = record {
  main = refl;
  flag = refl;
  awakened = λ i l. ((λ p. cc), (λ p. cc));
  owner = λ i p. absurd cc;
}

all_workers_start_example :
    ((m : ℕ) (t : Startup)
      → Transitions 2 m early t
      → (m ≤ 3 * 2)
        × (((u : Startup) → ¬ Transition 2 t u) → (i : ℕ) → i < 2 → t.worker i ≡ looping))
    × ((m : ℕ) × (t : Startup) × Transitions 2 m early t × ((i : ℕ) → i < 2 → t.worker i ≡ looping))
all_workers_start_example = all_workers_start 2 early early-Awake
