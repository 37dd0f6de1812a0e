-- ===== src/Pool/Invariant.antt =====
-- What holds between any two steps of the threads.
use operating_system_challen.Base.{
  ℕ, ◌+◌, ◌%◌, ◌^◌, ◌<◌, ◌≡◌, ◌⊎◌, inl, inr, false, some, List, [], arith, get_elem?, set,
}
use mathlib.Core.List.{Memᴰ}
use operating_system_challen.Graph.Code.{
  Graph, Visited, not_visited, processing, done, is_not_visited,
}
use operating_system_challen.Graph.Reach.{Reach}
use operating_system_challen.Graph.Count.{total}
use operating_system_challen.Pool.Code.{Shared, Thread}
use operating_system_challen.Pool.Weights.{
  over, count, held, unsummed, to_scan, alive, over-set, over-get,
}

abbrev pub Seen : Shared → ℕ → Type 0
Seen s v = is_not_visited (s.visited v) ≡ false

abbrev pub one_if_processing : Visited → ℕ
one_if_processing not_visited = 0
one_if_processing processing = 1
one_if_processing done = 0

abbrev pub info : Graph → ℕ → ℕ
info g v = (g.nodes v).info

-- `tasks`: a node in processing has one task, in the queue or with a thread, and no other has any.
-- `summed`: `sum` and the values still to be added are the values of the nodes seen.
-- `sound`, `scans`: what is seen or going to be looked at can be reached.
-- `closed`: a neighbour of a node that is done is seen or going to be looked at.
-- `live`: while there is a task some thread has not ended.
pub record Inv (g : Graph) (idx : ℕ) (s : Shared) (ts : List Thread) : Type 0 where
  pub tasks : (v : ℕ) → count v s.queue + over (held v) ts ≡ one_if_processing (s.visited v)
  pub summed :
      (s.sum + over (info g) s.queue + over (unsummed (info g)) ts) % 2 ^ 32
      ≡ total g.num_nodes (info g) s.visited % 2 ^ 32
  pub small : s.sum < 2 ^ 32
  pub sound : (v : ℕ) → Seen s v → Reach g idx v × (v < g.num_nodes)
  pub scans : (v w : ℕ) → 0 < over (to_scan v w) ts → Reach g idx w × (w < g.num_nodes)
  pub closed :
      (v w : ℕ)
      → s.visited v ≡ done
      → Memᴰ w (g.nodes v).neighbours
      → Seen s w ⊎ (0 < over (to_scan v w) ts)
  pub live : (s.queue ≡ []) ⊎ (0 < over alive ts)
  pub begun : Seen s idx

module _ (ts : List Thread) (i : ℕ) (t t' : Thread) (e : get_elem? ts i ≡ some t) where
  pub still_alive : alive t' ≡ 1 → 0 < over alive (set ts i t')
  still_alive a = omega (arith, over-set alive ts i t t' e, over-get alive ts i t e)

  pub same_weight : (f : Thread → ℕ) → f t' ≡ f t → over f (set ts i t') ≡ over f ts
  same_weight f h = omega (arith, over-set f ts i t t' e)

  -- A step that changes neither the shared variables nor what the thread has to do.
  pub Inv-quiet :
      (g : Graph) (idx : ℕ) (s : Shared)
      → ((v : ℕ) → held v t' ≡ held v t)
      → unsummed (info g) t' ≡ unsummed (info g) t
      → ((v w : ℕ) → to_scan v w t' ≡ to_scan v w t)
      → alive t' ≡ 1
      → Inv g idx s ts
      → Inv g idx s (set ts i t')
  Inv-quiet g idx s h u c a inv = record {
    tasks = λ v. omega (arith, same_weight (held v) (h v), inv.tasks v);
    summed = rw (same_weight (unsummed (info g)) u) inv.summed;
    small = inv.small;
    sound = inv.sound;
    scans = λ v w more. inv.scans v w (omega (arith, same_weight (to_scan v w) (c v w)));
    closed = λ v w d m. elim (inv.closed v w d m) [
      | inl seen ↦ inl seen
      | inr more ↦ inr (omega (arith, same_weight (to_scan v w) (c v w)))
    ];
    live = inr (still_alive a);
    begun = inv.begun;
  }
