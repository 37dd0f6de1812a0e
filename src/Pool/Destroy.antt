-- ===== src/Pool/Destroy.antt =====
-- `destroy_threadpool` of parallel-graph/src/os_threadpool.c: the tasks left in the queue.
use operating_system_challen.Base.{
  ℕ, zero, suc, ◌<◌, ◌≡◌, ◌≢◌, refl, sym, ap, ◌∙◌, Bool, ◌||◌, true, false, some, List, [], ◌∷◌,
  map, ◌==◌, arith, All, length,
}
use operating_system_challen.Ring.{Ptr, Linked, Other, Distinct}
use operating_system_challen.Ring.Splice.{IsRing}
use operating_system_challen.Pool.OsList.{IsList, list_del, list_del-IsList}
use operating_system_challen.Pool.Tasks.{
  OsTask, TaskMemory, node_of, list_entry, at, call_destroy, is_node, destroy_node, destroy_task,
  destroy_loop, destroy_threadpool,
}
use operating_system_challen.Pool.Queue.{Holds, first_node, no_node, owned_at, at_same, at_freed}

-- The calls of `destroy_arg` for the tasks `ks`, behind `calls`.
abbrev pub call_all : List OsTask → List (Ptr × Ptr) → List (Ptr × Ptr)
call_all [] calls = calls
call_all (k ∷ ks) calls = call_all ks (call_destroy k calls)

-- The tasks at `ts` are freed.
abbrev pub Freed : TaskMemory → List Ptr → Type 0
Freed m ts = All (λ t. m.allocated t ≡ false) ts

-- The memory behind one round of the loop of `destroy_threadpool`.
abbrev dropped : Ptr → TaskMemory → TaskMemory
dropped t m = record m {
  links = list_del (node_of t) m.links;
  destroyed = call_destroy (m.task t) m.destroyed;
  allocated = at m.allocated t false;
}

dropped-Holds :
    (head t : Ptr) (m : TaskMemory) (ts : List Ptr) (k : OsTask) (ks : List OsTask)
    → Holds head m (t ∷ ts) (k ∷ ks)
    → Holds head (dropped t m) ts ks
unfolding IsRing Distinct
dropped-Holds head t m ts k ks h =
    let a = tasks_differ t ts h.list.1.1.0 in
    record {
      list = list_del-IsList head (node_of t) m.links [] (map node_of ts) h.list;
      owned = owned_at m.allocated t false ts a h.owned.1;
      not_null = h.not_null.1;
      tasks = let e = h.tasks in cc;
    }
  where
    tasks_differ :
        (t : Ptr) (ts : List Ptr) → All (Other (node_of t)) (map node_of ts) → All (Other t) ts
    tasks_differ t [] h = tt
    tasks_differ t (x ∷ xs) h = ((λ p. h.0 (omega arith)), tasks_differ t xs h.1)

-- The address that `p = n->next` holds in the loop is the first node of the list behind the round.
next_node :
    (head t : Ptr) (m : TaskMemory) (ts : List Ptr)
    → IsList m.links head (node_of t ∷ map node_of ts)
    → IsList (list_del (node_of t) m.links) head (map node_of ts)
    → m.links.next (node_of t) ≡ (list_del (node_of t) m.links).next head
unfolding IsRing Linked
next_node head t m [] h h' = h.0.2.0 ∙ sym h'.0.0
next_node head t m (x ∷ xs) h h' = h.0.2.0 ∙ sym h'.0.0

task_node :
    (head t : Ptr) (m : TaskMemory) → m.allocated t ≡ true → is_node head (node_of t) m ≡ true
unfolding is_node
task_node head t m own =
    let entry : list_entry (node_of t) ≡ t = omega arith in
    rw (entry, own) (or_true (node_of t == head))
  where
    or_true : (b : Bool) → (b || true) ≡ true
    or_true true = refl
    or_true false = refl

head_node : (head : Ptr) (m : TaskMemory) → is_node head head m ≡ true
unfolding is_node
head_node head m = let e : (head == head) ≡ true = ground arith in rw e refl

-- The node behind the first one is the head, or that of a task of the queue.
second_node :
    (head t : Ptr) (m : TaskMemory) (ts : List Ptr)
    → IsList m.links head (node_of t ∷ map node_of ts)
    → All (λ x. m.allocated x ≡ true) ts
    → is_node head (m.links.next (node_of t)) m ≡ true
unfolding IsRing Linked
second_node head t m [] h own = ap (λ q. is_node head q m) h.0.2.0 ∙ head_node head m
second_node head t m (x ∷ xs) h own = ap (λ q. is_node head q m) h.0.2.0 ∙ task_node head x m own.0

-- The node in front of the first one is the head.
node_before :
    (head t : Ptr) (m : TaskMemory) (ts : List Ptr)
    → IsList m.links head (node_of t ∷ map node_of ts)
    → is_node head (m.links.prev (node_of t)) m ≡ true
unfolding IsRing Linked
node_before head t m ts h = ap (λ q. is_node head q m) h.0.1 ∙ head_node head m

destroy_round :
    (fuel : ℕ) (head t : Ptr) (m : TaskMemory) (ts : List Ptr)
    → node_of t ≢ head
    → IsList m.links head (node_of t ∷ map node_of ts)
    → m.allocated t ≡ true
    → All (λ x. m.allocated x ≡ true) ts
    → destroy_loop (suc fuel) head (node_of t) m
      ≡ destroy_loop fuel head (m.links.next (node_of t)) (dropped t m)
unfolding destroy_loop destroy_node destroy_task
destroy_round fuel head t m ts d h own others =
    let c : (node_of t == head) ≡ false = ground arith in
    let entry : list_entry (node_of t) ≡ t = omega arith in
    rw
      (
        task_node head t m own,
        c,
        node_before head t m ts h,
        second_node head t m ts h others,
        entry,
        own,
      )
      refl

-- The loop destroys the tasks of the queue, each once and in their order.
destroy_loop-Holds :
    (fuel : ℕ) (head : Ptr) (m : TaskMemory) (ts : List Ptr) (ks : List OsTask)
    → length ts < fuel
    → Holds head m ts ks
    → (m' : TaskMemory) × (destroy_loop fuel head (m.links.next head) m ≡ some m')
      × Holds head m' [] []
      × Freed m' ts
      × ((x : Ptr) → m.allocated x ≡ false → m'.allocated x ≡ false)
      × (m'.destroyed ≡ call_all ks m.destroyed)
unfolding destroy_loop destroy_task
destroy_loop-Holds zero head m ts ks more h = absurd (omega arith)
destroy_loop-Holds (suc fuel) head m [] [] more h =
    let e : (m.links.next head == head) ≡ true = (let e = no_node head m h.list in ground arith) in
    let at = ap (λ q. is_node head q m) (no_node head m h.list) ∙ head_node head m in
    (m, rw (at, e) refl, h, tt, (λ x p. p), refl)
destroy_loop-Holds (suc fuel) head m [] (k ∷ ks) more h = let e = h.tasks in absurd cc
destroy_loop-Holds (suc fuel) head m (t ∷ ts) [] more h = let e = h.tasks in absurd cc
destroy_loop-Holds (suc fuel) head m (t ∷ ts) (k ∷ ks) more h =
    let (e, d) = first_node head (node_of t) m (map node_of ts) h.list in
    let task : m.task t ≡ k = (let q = h.tasks in cc) in
    let h' = dropped-Holds head t m ts k ks h in
    let (m', run, held, freed, kept, calls) =
      destroy_loop-Holds fuel head (dropped t m) ts ks (omega arith) h' in
    (
      m',
      ap (λ n. destroy_loop (suc fuel) head n m) e
          ∙ destroy_round fuel head t m ts d h.list h.owned.0 h.owned.1
          ∙ ap (λ n. destroy_loop fuel head n (dropped t m)) (next_node head t m ts h.list h'.list)
          ∙ run,
      held,
      (kept t (at_same m.allocated t false), freed),
      (λ x p. kept x (at_freed m.allocated t x p)),
      calls ∙ ap (λ k. call_all ks (call_destroy k m.destroyed)) task,
    )

-- On a queue of fewer tasks than `fuel`, `destroy_threadpool` ends without touching a freed task or
-- its list node (`none` would be the result of that), the queue is empty, every task of it is
-- freed, and `destroy_arg` was called for each of them that has one, once and in their order.
pub destroy_threadpool-Holds :
    (fuel : ℕ) (head : Ptr) (m : TaskMemory) (ts : List Ptr) (ks : List OsTask)
    → length ts < fuel
    → Holds head m ts ks
    → (m' : TaskMemory) × (destroy_threadpool fuel head m ≡ some m')
      × Holds head m' [] []
      × Freed m' ts
      × (m'.destroyed ≡ call_all ks m.destroyed)
unfolding destroy_threadpool
destroy_threadpool-Holds fuel head m ts ks more h =
    let (m', run, held, freed, _, calls) = destroy_loop-Holds fuel head m ts ks more h in
    (m', run, held, freed, calls)
