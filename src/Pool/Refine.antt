-- ===== src/Pool/Refine.antt =====
-- The queue of parallel-graph/src/os_threadpool.c in memory and the queue of the steps in
-- Pool/Code.antt: the functions on the one do what those on the other say.
use operating_system_challen.Base.{
  ℕ, zero, suc, ◌+◌, ◌==◌, Bool, arith, ◌≡◌, ◌≢◌, refl, sym, ap, subst, ◌∙◌, true, false, some,
  List, [], ◌∷◌, ◌++◌, map, ◌⊎◌, inl, inr,
}
use operating_system_challen.Ring.{Ptr}
use operating_system_challen.Graph.Code.{Graph}
use operating_system_challen.Pool.OsList.{list_init, list_init-IsList}
use operating_system_challen.Pool.Code
use operating_system_challen.Pool.Code.{Shared, Thread, take_task, exited, checking}
use operating_system_challen.Pool.Tasks.{
  null, OsTask, TaskMemory, OsThreadpool, node_of, create_threads, create_threadpool, create_task,
  enqueue_task, dequeue_task,
}
use operating_system_challen.Pool.Queue.{
  Holds, new_task, map-snoc, enqueue_task-Holds, dequeue_task-empty, dequeue_task-first,
}

module _ (head action destroy_arg : Ptr) (node_at : ℕ → Ptr) where
  -- The task of a node: `create_task(action, graph->nodes[v], destroy_arg)`.
  abbrev pub job : ℕ → OsTask
  job v = new_task action (node_at v) destroy_arg

  -- The queue in memory has the tasks of the nodes in the shared queue, in this order.
  pub record Implements (m : TaskMemory) (s : Shared) : Type 0 where
    pub places : List Ptr
    pub holds : Holds head m places (map job s.queue)

  -- Where the queue in memory is that of the steps, and a task is created at a free address that
  -- is not NULL and put into the queue: neither call fails, and the queue in memory is what
  -- `enqueue_task` of the steps makes of the shared one. (Its list node is not the head of the
  -- queue.)
  pub enqueue_task-Implements :
      (t v : ℕ) (m : TaskMemory) (s : Shared)
      → t ≢ null
      → node_of t ≢ head
      → m.allocated t ≡ false
      → Implements m s
      → (m' m'' : TaskMemory) × (create_task t action (node_at v) destroy_arg m ≡ some m')
        × (enqueue_task head t m' ≡ some m'')
        × Implements m'' (Code.enqueue_task s v)
  unfolding Code.enqueue_task
  enqueue_task-Implements t v m s nz d free h =
      let (m', m'', e, f, held, _) =
        enqueue_task-Holds head t action (node_at v) destroy_arg m h.places (map job s.queue) nz d
          free h.holds in
      (
        m',
        m'',
        e,
        f,
        record {
          places = h.places ++ t ∷ [];
          holds = subst (Holds head m'' (h.places ++ t ∷ [])) (sym (map-snoc job s.queue v)) held;
        },
      )

  -- `dequeue_task` in memory agrees with a step that gives `r`.
  abbrev pub Agrees : TaskMemory → Shared → Shared × Thread → Type 0
  Agrees m s r =
      ((dequeue_task head m ≡ (null, m)) × (r ≡ (s, exited)))
      ⊎ ((t v : ℕ) × (m' : TaskMemory) × (s' : Shared) × (dequeue_task head m ≡ (t, m'))
          × (t ≢ null)
          × (m'.allocated t ≡ true)
          × (m'.task t ≡ job v)
          × (r ≡ (s', checking v))
          × Implements m' s')

  taken-Agrees :
      (m : TaskMemory) (s : Shared) (ts : List Ptr) (vs : List ℕ)
      → Holds head m ts (map job vs)
      → Agrees m s (take_task s vs)
  taken-Agrees m s [] [] h = inl (dequeue_task-empty head m [] h, refl)
  taken-Agrees m s [] (v ∷ vs) h = let e = h.tasks in absurd cc
  taken-Agrees m s (t ∷ ts) [] h = let e = h.tasks in absurd cc
  taken-Agrees m s (t ∷ ts) (v ∷ vs) h =
      let (m', e, k, held, own, task, _) = dequeue_task-first head t m ts (job v) (map job vs) h in
      inr (
        t,
        v,
        m',
        record s { queue = vs },
        e,
        h.not_null.0,
        ap (λ f. f t) own ∙ h.owned.0,
        ap (λ f. f t) task ∙ k,
        refl,
        record { places = ts; holds = held },
      )

  -- Where the queue in memory is that of the steps, `dequeue_task` gives NULL and changes nothing
  -- if the step ends the thread, and else it gives a task in memory for the node with which the
  -- step goes on, and the queues still agree.
  pub dequeue_task-Implements :
      (m : TaskMemory) (s : Shared) → Implements m s → Agrees m s (Code.dequeue_task s)
  unfolding Code.dequeue_task
  dequeue_task-Implements m s h = taken-Agrees m s h.places s.queue h.holds

-- The numbers from `i` on, `n` of them.
abbrev pub count_from : ℕ → ℕ → List ℕ
count_from i zero = []
count_from i (suc n) = i ∷ count_from (suc i) n

counted :
    (fails : ℕ → Bool) (n i : ℕ)
    → ((j : ℕ) → fails j ≡ false)
    → create_threads fails n i ≡ some (count_from i n)
unfolding create_threads
counted fails zero i h = refl
counted fails (suc n) i h = rw (h i, counted fails n (suc i) h) refl

-- Where every call that it makes succeeds, `create_threadpool` starts each thread once, with no task
-- available and an empty queue.
pub create_threadpool-Implements :
    (tp threads : Ptr) (fails : ℕ → Bool) (num_threads : ℕ) (m : TaskMemory) (g : Graph)
    (action destroy_arg : Ptr) (node_at : ℕ → Ptr)
    → tp ≢ null
    → threads ≢ null
    → ((i : ℕ) → fails i ≡ false)
    → (pool : OsThreadpool) × (m' : TaskMemory) × (create_threadpool tp 0 0 0 threads fails
          num_threads m
        ≡ some (pool, m'))
      × (pool.task_available ≡ false)
      × (pool.started ≡ count_from 0 num_threads)
      × Implements pool.head action destroy_arg node_at m'
          (record { sum = 0; visited = g.visited; queue = [] })
unfolding create_threadpool
create_threadpool-Implements tp threads fails num_threads m g action destroy_arg node_at a b ok =
    let e : (tp == null) ≡ false = ground arith in
    let f : (threads == null) ≡ false = ground arith in
    (
      record { head = tp + 16; task_available = false; started = count_from 0 num_threads },
      record m { links = list_init (tp + 16) m.links },
      rw (e, f, counted fails num_threads 0 ok) refl,
      refl,
      refl,
      record {
        places = [];
        holds = record {
          list = list_init-IsList (tp + 16) m.links;
          owned = tt;
          not_null = tt;
          tasks = refl;
        };
      },
    )
