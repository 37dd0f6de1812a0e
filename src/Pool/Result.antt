-- ===== src/Pool/Result.antt =====
-- What the parallel traversal has done when all threads have ended.
use operating_system_challen.Base.{
  ℕ, ◌+◌, ◌%◌, ◌^◌, ◌≤◌, ◌<◌, ◌≡◌, ◌↔◌, ◌⊎◌, inl, inr, refl, sym, ap, ◌∙◌, false, some, List, [],
  ◌∷◌, arith, All,
}
use mathlib.Core.List.{Memᴰ}
use operating_system_challen.Graph.Code.{
  Graph, Visited, not_visited, processing, done, is_not_visited, Walk, process_node,
}
use operating_system_challen.Graph.Reach.{Reach, here, step, Closed}
use operating_system_challen.Graph.Count.{total, total_seen}
use operating_system_challen.Graph.Serial.{process_node-Reach}
use operating_system_challen.Pool.Code.{Shared, Thread, exited, run_threads, start_pool}
use operating_system_challen.Pool.Weights.{over, held, count, alive, to_scan, unsummed, over-alive}
use operating_system_challen.Pool.Invariant.{Seen, one_if_processing, info, Inv}
use operating_system_challen.Pool.Run.{run_threads-Inv, start_pool-Inv}

abbrev pub Exited : List Thread → Type 0
Exited ts = All (λ t. t ≡ exited) ts

at_most_one : (x : Visited) → one_if_processing x ≤ 1
at_most_one not_visited = omega arith
at_most_one processing = omega arith
at_most_one done = omega arith

alive-Exited : (ts : List Thread) → Exited ts → over alive ts ≡ 0
alive-Exited [] h = refl
alive-Exited (t ∷ ts) h = omega (arith, ap alive h.0, alive-Exited ts h.1)

done_of : (x : Visited) → one_if_processing x ≡ 0 → is_not_visited x ≡ false → x ≡ done
done_of not_visited p h = cc
done_of processing p h = absurd (omega arith)
done_of done p h = refl

settled : (x : Visited) → one_if_processing x ≡ 0 → (x ≡ not_visited) ⊎ (x ≡ done)
settled not_visited h = inl refl
settled processing h = absurd (omega arith)
settled done h = inr refl

Reach-Seen :
    (g : Graph) (s : Shared) (u w : ℕ)
    → ((v x : ℕ) → Seen s v → Memᴰ x (g.nodes v).neighbours → Seen s x)
    → Seen s u
    → Reach g u w
    → Seen s w
Reach-Seen g s u w closed h here = h
Reach-Seen g s u w closed h (step {v = v} m r) = Reach-Seen g s v w closed (closed u v h m) r

-- What the invariant says where every thread has ended.
Inv-Exited :
    (g : Graph) (idx : ℕ) (s : Shared) (ts : List Thread)
    → Inv g idx s ts
    → Exited ts
    → (s.queue ≡ [])
      × ((u : ℕ) → (s.visited u ≡ done) ↔ Reach g idx u)
      × ((u : ℕ) → (s.visited u ≡ not_visited) ⊎ (s.visited u ≡ done))
      × (s.sum ≡ total g.num_nodes (info g) s.visited % 2 ^ 32)
Inv-Exited g idx s ts inv ended =
    let dead = alive-Exited ts ended in
    let empty : s.queue ≡ [] = elim inv.live [ inl q ↦ q | inr more ↦ absurd (omega arith) ] in
    let handled : (u : ℕ) → one_if_processing (s.visited u) ≡ 0 =
      λ u. sym (inv.tasks u) ∙ rw empty (omega (arith, over-alive (held u) ts refl dead)) in
    let finished : (u : ℕ) → Seen s u → s.visited u ≡ done =
      λ u h. done_of (s.visited u) (handled u) h in
    let closed : (v x : ℕ) → Seen s v → Memᴰ x (g.nodes v).neighbours → Seen s x = λ v x h m.
      elim (inv.closed v x (finished v h) m) [
        | inl seen ↦ seen
        | inr more ↦ absurd (omega (arith, over-alive (to_scan v x) ts refl dead))
      ] in
    (
      empty,
      λ u. (
        λ e. (inv.sound u (ap is_not_visited e)).0,
        λ r. finished u (Reach-Seen g s idx u closed inv.begun r),
      ),
      λ u. settled (s.visited u) (handled u),
      final empty dead,
    )
  where
    final : s.queue ≡ [] → over alive ts ≡ 0 → s.sum ≡ total g.num_nodes (info g) s.visited % 2 ^ 32
    final empty dead =
        let left = rw empty at inv.summed in
        omega (arith, left, over-alive (unsummed (info g)) ts refl dead, inv.small)

-- On a graph whose neighbours are nodes, with no node visited and at least one thread: whatever the
-- order in which the threads take their steps, once all of them have ended the queue is empty,
-- exactly the nodes that can be reached from the first one are `DONE`, the others are not visited,
-- and `sum` is the sum of the values of the visited nodes modulo 2 ^ 32.
pub run_threads-Reach :
    (g : Graph) (num_threads idx : ℕ) (schedule : List ℕ)
    → Closed g
    → idx < g.num_nodes
    → ((u : ℕ) → g.visited u ≡ not_visited)
    → 0 < num_threads
    → Exited (run_threads g schedule (start_pool g num_threads idx)).threads
    → ((run_threads g schedule (start_pool g num_threads idx)).shared.queue ≡ [])
      × ((u : ℕ)
          → ((run_threads g schedule (start_pool g num_threads idx)).shared.visited u ≡ done)
            ↔ Reach g idx u)
      × ((u : ℕ)
          → ((run_threads g schedule (start_pool g num_threads idx)).shared.visited u ≡ not_visited)
            ⊎ ((run_threads g schedule (start_pool g num_threads idx)).shared.visited u ≡ done))
      × ((run_threads g schedule (start_pool g num_threads idx)).shared.sum
          ≡ total g.num_nodes
              (info g)
              (run_threads g schedule (start_pool g num_threads idx)).shared.visited
            % 2 ^ 32)
run_threads-Reach g num_threads idx schedule closed inside fresh more ended =
    let p = run_threads g schedule (start_pool g num_threads idx) in
    Inv-Exited g idx p.shared p.threads
      (run_threads-Inv g idx closed schedule (start_pool g num_threads idx)
        (start_pool-Inv g num_threads idx inside fresh more))
      ended

-- On a graph whose neighbours are all nodes of it and of which no node is visited, with at least one
-- thread, started at a node of the graph: behind every schedule, which stands for every moment of
-- a run, a node has at most one task, counting the queue and the threads that have taken it and not
-- marked the node yet.
pub run_threads_once :
    (g : Graph) (num_threads idx : ℕ) (schedule : List ℕ) (v : ℕ)
    → Closed g
    → idx < g.num_nodes
    → ((u : ℕ) → g.visited u ≡ not_visited)
    → 0 < num_threads
    → count v (run_threads g schedule (start_pool g num_threads idx)).shared.queue
        + over (held v) (run_threads g schedule (start_pool g num_threads idx)).threads
      ≤ 1
run_threads_once g num_threads idx schedule v closed inside fresh more =
    let p = run_threads g schedule (start_pool g num_threads idx) in
    let inv =
      run_threads-Inv g idx closed schedule (start_pool g num_threads idx)
        (start_pool-Inv g num_threads idx inside fresh more) in
    omega (arith, inv.tasks v, at_most_one (p.shared.visited v))

same_visited :
    (a b : Visited)
    → (a ≡ not_visited) ⊎ (a ≡ done)
    → (b ≡ not_visited) ⊎ (b ≡ done)
    → (a ≡ done) ↔ (b ≡ done)
    → a ≡ b
same_visited a b (inr x) y h = x ∙ sym (h.0 x)
same_visited a b x (inr y) h = h.1 y ∙ sym y
same_visited a b (inl x) (inl y) h = x ∙ sym y

-- On a graph whose neighbours are nodes, with no node visited and at least one thread: whatever the
-- order in which the threads take their steps, once all of them have ended the parallel traversal
-- has the `sum` and the node states that the serial one from the same node returns.
pub run_threads-process_node :
    (g : Graph) (num_threads idx : ℕ) (schedule : List ℕ)
    → Closed g
    → idx < g.num_nodes
    → ((u : ℕ) → g.visited u ≡ not_visited)
    → 0 < num_threads
    → Exited (run_threads g schedule (start_pool g num_threads idx)).threads
    → (w : Walk) × (process_node g.num_nodes g idx (record { sum = 0; visited = g.visited })
        ≡ some w)
      × ((run_threads g schedule (start_pool g num_threads idx)).shared.sum ≡ w.sum)
      × ((u : ℕ)
          → (run_threads g schedule (start_pool g num_threads idx)).shared.visited u ≡ w.visited u)
run_threads-process_node g num_threads idx schedule closed inside fresh more ended =
    let (_, reached, ends, summed) =
      run_threads-Reach g num_threads idx schedule closed inside fresh more ended in
    let (w, run, reached', ends', summed') =
      process_node-Reach g.num_nodes g idx closed inside fresh (omega arith) in
    let p = run_threads g schedule (start_pool g num_threads idx) in
    let same : (u : ℕ) → p.shared.visited u ≡ w.visited u = λ u.
      same_visited (p.shared.visited u) (w.visited u) (ends u) (ends' u)
        (λ e. (reached' u).1 ((reached u).0 e), λ e. (reached u).1 ((reached' u).0 e)) in
    let totals =
      total_seen g.num_nodes (info g) p.shared.visited w.visited
        (λ u. ap is_not_visited (same u)) in
    (w, run, summed ∙ ap (λ n. n % 2 ^ 32) totals ∙ sym summed', same)
