-- ===== src/Pool/Tasks.antt =====
-- The tasks of parallel-graph/src/os_threadpool.c in memory, and the queue of a thread pool. A task
-- at the address `t` has its list node at `t + 24`. Each function runs under its lock from start to
-- end, so it is one step. `none` is an access to memory that was not allocated or is freed, a failed
-- assertion, or `DIE`. The links of the nodes are checked so in the loop that destroys the tasks.
use operating_system_challen.Base.{
  ℕ, zero, suc, ◌+◌, ◌-◌, Bool, true, false, Option, none, some, List, [], ◌∷◌, ◌++◌, ◌==◌, ◌||◌,
  ◌&&◌, not, if◌then◌else◌,
}
use mathlib.Core.Option
use operating_system_challen.Ring.{Ptr}
use operating_system_challen.Pool.OsList.{Links, list_init, list_add_tail, list_del, list_empty}

abbrev pub null : Ptr
null = 0

-- `os_task_t` without its list node; functions are addresses
pub record OsTask : Type 0 where
  pub action : Ptr
  pub argument : Ptr
  pub destroy_arg : Ptr

-- `allocated t` says that a task lies at `t`; `destroyed` has the calls of `destroy_arg` with their
-- arguments, in their order.
pub record TaskMemory : Type 0 where
  pub links : Links
  pub task : Ptr → OsTask
  pub allocated : Ptr → Bool
  pub destroyed : List (Ptr × Ptr)

-- `&t->list`, and `list_entry(p, os_task_t, list)`
abbrev pub node_of : Ptr → Ptr
node_of t = t + 24

abbrev pub list_entry : Ptr → Ptr
list_entry p = p - 24

abbrev pub at {ℓ} : {A : Type ℓ} → (Ptr → A) → Ptr → A → Ptr → A
at f p x q = if q == p then x else f q

-- `t` is the result of `malloc`.
unfoldable pub create_task : (t action arg destroy_arg : Ptr) → TaskMemory → Option TaskMemory
create_task t action arg destroy_arg m =
    if t == null
    then none
    else some (record m {
      task = at m.task t (record { action = action; argument = arg; destroy_arg = destroy_arg });
      allocated = at m.allocated t true;
    })

-- `if (t->destroy_arg != NULL) t->destroy_arg(t->argument)`
abbrev pub call_destroy : OsTask → List (Ptr × Ptr) → List (Ptr × Ptr)
call_destroy k calls =
    if k.destroy_arg == null then calls else calls ++ (k.destroy_arg, k.argument) ∷ []

unfoldable pub destroy_task : Ptr → TaskMemory → Option TaskMemory
destroy_task t m =
    if m.allocated t
    then some (record m {
      destroyed = call_destroy (m.task t) m.destroyed;
      allocated = at m.allocated t false;
    })
    else none

-- `head` is `&tp->head`.
unfoldable pub enqueue_task : (head t : Ptr) → TaskMemory → Option TaskMemory
unfolding list_add_tail
enqueue_task head t m =
    if t == null
    then none
    else if m.allocated t
    then some (record m { links = list_add_tail head (node_of t) m.links })
    else none

unfoldable pub queue_is_empty : Ptr → TaskMemory → Bool
unfolding list_empty
queue_is_empty head m = list_empty head m.links

-- NULL where the queue is empty
unfoldable pub dequeue_task : Ptr → TaskMemory → Ptr × TaskMemory
unfolding queue_is_empty list_del
dequeue_task head m =
    if queue_is_empty head m
    then (null, m)
    else (list_entry (m.links.next head), record m { links = list_del (m.links.next head) m.links })

-- A node at `q` may be read and written: it is the head, or that of a task that is not freed.
unfoldable pub is_node : (head q : Ptr) → TaskMemory → Bool
is_node head q m = q == head || m.allocated (list_entry q)

-- `list_del(n)`, which reads and writes the node and its two neighbours.
unfoldable pub del_node : (head n : Ptr) → TaskMemory → Option TaskMemory
unfolding list_del is_node
del_node head n m =
    if is_node head n m && is_node head (m.links.prev n) m && is_node head (m.links.next n) m
    then some (record m { links = list_del n m.links })
    else none

-- The body of the loop of `destroy_threadpool`.
unfoldable pub destroy_node : (head n : Ptr) → TaskMemory → Option TaskMemory
unfolding del_node destroy_task
destroy_node head n m = elim (del_node head n m) [
  | none ↦ none
  | some m' ↦ destroy_task (list_entry n) m'
]

-- The loop: `p = n->next` is read before the test, and before `n` is destroyed.
unfoldable pub destroy_loop : ℕ → (head n : Ptr) → TaskMemory → Option TaskMemory
unfolding is_node destroy_node
destroy_loop zero head n m = none
destroy_loop (suc fuel) head n m =
    let p = m.links.next n in
    if not (is_node head n m)
    then none
    else if n == head
    then some m
    else elim (destroy_node head n m) [ none ↦ none | some m' ↦ destroy_loop fuel head p m' ]

-- `list_for_each_safe(n, p, &tp->head)`; the locks and the freeing of the pool are left out.
unfoldable pub destroy_threadpool : ℕ → Ptr → TaskMemory → Option TaskMemory
unfolding destroy_loop
destroy_threadpool fuel head m = destroy_loop fuel head (m.links.next head) m

-- `os_threadpool_t` behind `create_threadpool`: the head of its queue, `taskAvailable`, and the
-- threads that were started.
pub record OsThreadpool : Type 0 where
  pub head : Ptr
  pub task_available : Bool
  pub started : List ℕ

-- The loop with `pthread_create`; `fails i` says that its result for the thread `i` is negative.
unfoldable pub create_threads : (fails : ℕ → Bool) → (left i : ℕ) → Option (List ℕ)
create_threads fails zero i = some []
create_threads fails (suc left) i =
    let rest = create_threads fails left (suc i) in
    if fails i then none else Option.map (λ is. i ∷ is) rest

-- `tp` and `threads` are results of `malloc`, and `sum_rc`, `queue_rc` and `state_rc` those of
-- `pthread_mutex_init`. The head of the queue lies at `tp + 16`.
unfoldable pub create_threadpool :
    (tp sum_rc queue_rc state_rc threads : ℕ)
    → (fails : ℕ → Bool) → (num_threads : ℕ) → TaskMemory
    → Option (OsThreadpool × TaskMemory)
unfolding list_init create_threads
create_threadpool tp sum_rc queue_rc state_rc threads fails num_threads m =
    let head = tp + 16 in
    let m = record m { links = list_init head m.links } in
    if tp == null
      || not (sum_rc == 0)
      || not (queue_rc == 0)
      || not (state_rc == 0)
      || threads == null
    then none
    else Option.map (λ is. (record { head = head; task_available = false; started = is }, m))
        (create_threads fails num_threads 0)
