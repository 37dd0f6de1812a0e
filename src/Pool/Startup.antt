-- ===== src/Pool/Startup.antt =====
-- The start of the worker threads: `thread_loop_function` of parallel-graph/src/os_threadpool.c up
-- to its loop, and `process_node` of parallel.c behind its `enqueue_task`, as steps of threads that
-- share a mutex, a condition variable and the flag `taskAvailable`.
use operating_system_challen.Base.{
  ℕ, suc, ◌<◌, ◌≡◌, ◌≢◌, refl, arith, Bool, true, false, Option, none, some, ◌==◌, if◌then◌else◌,
}

-- Where a worker stands: at the lock, at the test of the flag, at `pthread_cond_wait`, in it, awake
-- again and in need of the mutex, at the unlock, or in the loop over the tasks.
pub data Worker : Type 0 where
  starting testing sleepy asleep woken leaving looping : Worker

-- Where the main thread stands: at `taskAvailable = 1`, at the broadcast, or in
-- `wait_for_completion`.
pub data Main : Type 0 where
  setting broadcasting joining : Main

-- `owner` is the worker that holds `tp->mutex`.
pub record Startup : Type 0 where
  pub worker : ℕ → Worker
  pub main : Main
  pub task_available : Bool
  pub owner : Option ℕ

unfoldable pub moved : (ℕ → Worker) → ℕ → Worker → ℕ → Worker
moved w i x j = if j == i then x else w j

pub moved_self : (w : ℕ → Worker) (i : ℕ) (x : Worker) → moved w i x i ≡ x
unfolding moved
moved_self w i x = let e : (i == i) ≡ true = ground arith in rw e refl

pub moved_other : (w : ℕ → Worker) (i : ℕ) (x : Worker) (j : ℕ) → j ≢ i → moved w i x j ≡ w j
unfolding moved
moved_other w i x j d = let e : (j == i) ≡ false = ground arith in rw e refl

abbrev pub wake : Worker → Worker
wake starting = starting
wake testing = testing
wake sleepy = sleepy
wake asleep = woken
wake woken = woken
wake leaving = leaving
wake looping = looping

-- One step of a worker or of the main thread, which takes no lock. A thread wakes only by a
-- broadcast.
pub data Transition (n : ℕ) : Startup → Startup → Type 0 where
  lock :
      (s : Startup) (i : ℕ)
      → i < n
      → s.worker i ≡ starting
      → s.owner ≡ none
      → Transition n s (record s { worker = moved s.worker i testing; owner = some i })
  test_set :
      (s : Startup) (i : ℕ)
      → i < n
      → s.worker i ≡ testing
      → s.task_available ≡ true
      → Transition n s (record s { worker = moved s.worker i leaving })
  test_unset :
      (s : Startup) (i : ℕ)
      → i < n
      → s.worker i ≡ testing
      → s.task_available ≡ false
      → Transition n s (record s { worker = moved s.worker i sleepy })
  wait :
      (s : Startup) (i : ℕ)
      → i < n
      → s.worker i ≡ sleepy
      → Transition n s (record s { worker = moved s.worker i asleep; owner = none })
  reacquire :
      (s : Startup) (i : ℕ)
      → i < n
      → s.worker i ≡ woken
      → s.owner ≡ none
      → Transition n s (record s { worker = moved s.worker i leaving; owner = some i })
  unlock :
      (s : Startup) (i : ℕ)
      → i < n
      → s.worker i ≡ leaving
      → Transition n s (record s { worker = moved s.worker i looping; owner = none })
  set_flag :
      (s : Startup)
      → s.main ≡ setting
      → Transition n s (record s { main = broadcasting; task_available = true })
  broadcast :
      (s : Startup)
      → s.main ≡ broadcasting
      → Transition n s (record s { main = joining; worker = λ i. wake (s.worker i) })

-- A run of `m` steps.
pub data Transitions (n : ℕ) : ℕ → Startup → Startup → Type 0 where
  stay : {s : Startup} → Transitions n 0 s s
  more :
      {m : ℕ} {s t u : Startup} → Transition n s t → Transitions n m t u → Transitions n (suc m) s u

-- `create_threadpool` has started the workers, and the first task is in the queue.
abbrev pub start_up : Startup
start_up = record { worker = λ i. starting; main = setting; task_available = false; owner = none }
