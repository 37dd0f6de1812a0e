-- ===== src/Pool/Queue.antt =====
-- The queue of tasks of parallel-graph/src/os_threadpool.c as a list of tasks.
use operating_system_challen.Base.{
  ◌≡◌, ◌≢◌, refl, sym, ap, subst, ◌∙◌, Bool, true, false, some, List, [], ◌∷◌, ◌++◌, map, ◌==◌, inl,
  inr, arith, All, All-append, Bool-cases,
}
use operating_system_challen.Ring.{Ptr, Linked, Other, Distinct}
use operating_system_challen.Ring.Splice.{IsRing}
use operating_system_challen.Pool.OsList.{
  IsList, list_add_tail, list_del, list_add_tail-IsList, list_del-IsList, list_empty-IsList,
}
use operating_system_challen.Pool.Tasks.{
  null, OsTask, TaskMemory, node_of, list_entry, at, create_task, enqueue_task, queue_is_empty,
  dequeue_task,
}

-- The tasks at the addresses `ts` form the queue, in this order, and read `ks`.
pub record Holds (head : Ptr) (m : TaskMemory) (ts : List Ptr) (ks : List OsTask) : Type 0 where
  pub list : IsList m.links head (map node_of ts)
  pub owned : All (λ t. m.allocated t ≡ true) ts
  pub not_null : All (λ t. t ≢ null) ts
  pub tasks : map m.task ts ≡ ks

-- An address at which there is no task is that of none in the queue.
fresh_differs :
    (m : TaskMemory) (t : Ptr) (ts : List Ptr)
    → m.allocated t ≡ false
    → All (λ x. m.allocated x ≡ true) ts
    → All (Other t) ts
fresh_differs m t [] e h = tt
fresh_differs m t (x ∷ xs) e h =
    ((λ p. let q = ap m.allocated p in absurd cc), fresh_differs m t xs e h.1)

nodes_differ :
    (t : Ptr) (ts : List Ptr) → All (Other t) ts → All (Other (node_of t)) (map node_of ts)
nodes_differ t [] h = tt
nodes_differ t (x ∷ xs) h = ((λ p. h.0 (omega arith)), nodes_differ t xs h.1)

pub at_same {ℓ} : {A : Type ℓ} (f : Ptr → A) (p : Ptr) (x : A) → at f p x p ≡ x
at_same f p x = let e : (p == p) ≡ true = ground arith in rw e refl

at_elsewhere {ℓ} : {A : Type ℓ} (f : Ptr → A) (p q : Ptr) (x : A) → q ≢ p → at f p x q ≡ f q
at_elsewhere f p q x d = let e : (q == p) ≡ false = ground arith in rw e refl

pub at_freed : (f : Ptr → Bool) (p q : Ptr) → f q ≡ false → at f p false q ≡ false
at_freed f p q h = elim (Bool-cases (q == p)) [ inl e ↦ rw e refl | inr e ↦ rw e h ]

map-at :
    (f : Ptr → OsTask) (t : Ptr) (k : OsTask) (ts : List Ptr)
    → All (Other t) ts
    → map (at f t k) ts ≡ map f ts
map-at f t k [] h = refl
map-at f t k (x ∷ xs) h =
    ap (λ y. y ∷ map (at f t k) xs) (at_elsewhere f t x k h.0)
    ∙ ap (λ ys. f x ∷ ys) (map-at f t k xs h.1)

pub owned_at :
    (f : Ptr → Bool) (t : Ptr) (b : Bool) (ts : List Ptr)
    → All (Other t) ts
    → All (λ x. f x ≡ true) ts
    → All (λ x. at f t b x ≡ true) ts
owned_at f t b [] h o = tt
owned_at f t b (x ∷ xs) h o = (at_elsewhere f t x b h.0 ∙ o.0, owned_at f t b xs h.1 o.1)

pub map-snoc {ℓ κ} :
    {A : Type ℓ} {B : Type κ} (f : A → B) (xs : List A) (x : A)
    → map f (xs ++ x ∷ []) ≡ map f xs ++ f x ∷ []
map-snoc f [] x = refl
map-snoc f (y ∷ ys) x = ap (λ l. f y ∷ l) (map-snoc f ys x)

-- The task that `create_task` puts at `t`.
abbrev pub new_task : (action arg destroy_arg : Ptr) → OsTask
new_task action arg destroy_arg = record {
  action = action;
  argument = arg;
  destroy_arg = destroy_arg;
}

-- The memory behind `create_task`, `enqueue_task` and `dequeue_task`.
abbrev created : Ptr → OsTask → TaskMemory → TaskMemory
created t k m = record m { task = at m.task t k; allocated = at m.allocated t true }

abbrev queued : (head t : Ptr) → TaskMemory → TaskMemory
queued head t m = record m { links = list_add_tail head (node_of t) m.links }

abbrev taken : Ptr → TaskMemory → TaskMemory
taken t m = record m { links = list_del (node_of t) m.links }

pub enqueue_task-Holds :
    (head t action arg destroy_arg : Ptr) (m : TaskMemory) (ts : List Ptr) (ks : List OsTask)
    → t ≢ null
    → node_of t ≢ head
    → m.allocated t ≡ false
    → Holds head m ts ks
    → (m' m'' : TaskMemory) × (create_task t action arg destroy_arg m ≡ some m')
      × (enqueue_task head t m' ≡ some m'')
      × Holds head m'' (ts ++ t ∷ []) (ks ++ new_task action arg destroy_arg ∷ [])
      × (m''.destroyed ≡ m.destroyed)
unfolding create_task enqueue_task
enqueue_task-Holds head t action arg destroy_arg m ts ks nz d free h =
    let k = new_task action arg destroy_arg in
    let e : (t == null) ≡ false = ground arith in
    let a = fresh_differs m t ts free h.owned in
    let ring =
      list_add_tail-IsList head (node_of t) m.links (map node_of ts) d (nodes_differ t ts a)
        h.list in
    (
      created t k m,
      queued head t (created t k m),
      rw e refl,
      rw (e, at_same m.allocated t true) refl,
      record {
        list =
            subst (λ l. IsList (list_add_tail head (node_of t) m.links) head l)
              (sym (map-snoc node_of ts t)) ring;
        owned =
            All-append _ ts (t ∷ []) (owned_at m.allocated t true ts a h.owned)
              (at_same m.allocated t true, tt);
        not_null = All-append _ ts (t ∷ []) h.not_null (nz, tt);
        tasks =
            map-snoc (at m.task t k) ts t
            ∙ ap (λ l. l ++ at m.task t k t ∷ []) (map-at m.task t k ts a ∙ h.tasks)
            ∙ ap (λ x. ks ++ x ∷ []) (at_same m.task t k);
      },
      refl,
    )

-- The first node of a ring.
pub first_node :
    (head x : Ptr) (m : TaskMemory) (xs : List Ptr)
    → IsList m.links head (x ∷ xs)
    → (m.links.next head ≡ x) × (x ≢ head)
unfolding IsRing Linked Distinct
first_node head x m xs h = (h.0.0, h.1.0.0)

pub no_node : (head : Ptr) (m : TaskMemory) → IsList m.links head [] → m.links.next head ≡ head
unfolding IsRing Linked
no_node head m h = h.0.0

pub dequeue_task-empty :
    (head : Ptr) (m : TaskMemory) (ks : List OsTask)
    → Holds head m [] ks
    → dequeue_task head m ≡ (null, m)
unfolding dequeue_task queue_is_empty
dequeue_task-empty head m ks h = rw (list_empty-IsList head m.links [] h.list) refl

pub dequeue_task-first :
    (head t : Ptr) (m : TaskMemory) (ts : List Ptr) (k : OsTask) (ks : List OsTask)
    → Holds head m (t ∷ ts) (k ∷ ks)
    → (m' : TaskMemory) × (dequeue_task head m ≡ (t, m'))
      × (m.task t ≡ k)
      × Holds head m' ts ks
      × (m'.allocated ≡ m.allocated)
      × (m'.task ≡ m.task)
      × (m'.destroyed ≡ m.destroyed)
unfolding dequeue_task queue_is_empty
dequeue_task-first head t m ts k ks h =
    let (e, _) = first_node head (node_of t) m (map node_of ts) h.list in
    let entry : list_entry (node_of t) ≡ t = omega arith in
    (
      taken t m,
      rw (list_empty-IsList head m.links (map node_of (t ∷ ts)) h.list, e, entry) refl,
      (let e = h.tasks in cc),
      record {
        list = list_del-IsList head (node_of t) m.links [] (map node_of ts) h.list;
        owned = h.owned.1;
        not_null = h.not_null.1;
        tasks = let e = h.tasks in cc;
      },
      refl,
      refl,
      refl,
    )
