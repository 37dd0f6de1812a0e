-- ===== src/Graph/Serial.antt =====
-- `process_node` of parallel-graph/src/serial.c visits the nodes that can be reached.
use operating_system_challen.Base.{
  ℕ, zero, suc, ◌%◌, ◌^◌, ◌≤◌, ◌<◌, ◌≡◌, ◌↔◌, ◌⊎◌, inl, inr, refl, sym, ap, ◌∙◌, subst, true, false,
  Option, some, List, [], ◌∷◌, ltb, arith, All, All-mono, Bool-cases, if◌then◌else◌,
}
use native.Mathlib.Decide.{ℕ_discrete}
use mathlib.Core.List.{Memᴰ}
use mathlib.Core.List.Memᴰ
use operating_system_challen.Graph.Code.{
  Graph, not_visited, done, is_not_visited, Walk, update, add32, process_all, process_node,
}
use operating_system_challen.Graph.Update.{update_at, update_other}
use operating_system_challen.Graph.Reach.{Reach, here, step, Closed, All-Memᴰ}
use operating_system_challen.Graph.Count.{
  unseen, total, unseen_mono, unseen_bound, update_done, total_fresh,
}

abbrev Seen : Walk → ℕ → Type 0
Seen s u = is_not_visited (s.visited u) ≡ false

-- `sum` is the sum of the visited nodes' values, modulo 2 ^ 32.
abbrev SumOk : Graph → Walk → Type 0
SumOk g s = s.sum ≡ total g.num_nodes (λ v. (g.nodes v).info) s.visited % 2 ^ 32

-- What a walk from the nodes `vs` does.
record Walked (g : Graph) (vs : List ℕ) (s s' : Walk) : Type 0 where
  grow : (u : ℕ) → Seen s u → Seen s' u
  only : (u : ℕ) → (s'.visited u ≡ s.visited u) ⊎ (s'.visited u ≡ done)
  starts : All (Seen s') vs
  reach : (u : ℕ) → Seen s' u → Seen s u ⊎ ((v : ℕ) × Memᴰ v vs × Reach g v u)
  closed : (u : ℕ) → Seen s' u → Seen s u ⊎ All (Seen s') (g.nodes u).neighbours
  sum : SumOk g s → SumOk g s'

abbrev Walks : Graph → List ℕ → Walk → Option Walk → Type 0
Walks g vs s o = (s' : Walk) × (o ≡ some s') × Walked g vs s s'

Walked-nil : (g : Graph) (s : Walk) → Walked g [] s s
Walked-nil g s = record {
  grow = λ u h. h;
  only = λ u. inl refl;
  starts = tt;
  reach = λ u h. inl h;
  closed = λ u h. inl h;
  sum = λ h. h;
}

-- A node that has been visited before is skipped.
Walked-skip : (g : Graph) (v : ℕ) (s : Walk) → Seen s v → Walked g (v ∷ []) s s
Walked-skip g v s h = record {
  grow = λ u h. h;
  only = λ u. inl refl;
  starts = (h, tt);
  reach = λ u h. inl h;
  closed = λ u h. inl h;
  sum = λ h. h;
}

Walked-cons :
    (g : Graph) (v : ℕ) (vs : List ℕ) (s t u : Walk)
    → Walked g (v ∷ []) s t
    → Walked g vs t u
    → Walked g (v ∷ vs) s u
Walked-cons g v vs s t u p q = record {
  grow = λ x h. q.grow x (p.grow x h);
  only = λ x. elim (q.only x) [
    | inr e ↦ inr e
    | inl e ↦ elim (p.only x) [ inl d ↦ inl (e ∙ d) | inr d ↦ inr (e ∙ d) ]
  ];
  starts = (q.grow v p.starts.0, q.starts);
  reach = λ x h. elim (q.reach x h) [
    | inr (w, m, r) ↦ inr (w, Memᴰ.tail m, r)
    | inl h' ↦ elim (p.reach x h') [
      | inl h'' ↦ inl h''
      | inr (w, m, r) ↦ inr (w, Memᴰ.head (Memᴰ.eq_of_singleton m), r)
    ]
  ];
  closed = λ x h. elim (q.closed x h) [
    | inr a ↦ inr a
    | inl h' ↦ elim (p.closed x h') [
      | inl h'' ↦ inl h''
      | inr a ↦ inr (All-mono (Seen t) (Seen u) (g.nodes x).neighbours q.grow a)
    ]
  ];
  sum = λ h. q.sum (p.sum h);
}

process_all-Walks :
    (g : Graph) (fuel : ℕ) (recur : ℕ → Walk → Option Walk) (vs : List ℕ) (s : Walk)
    → ((v : ℕ) (t : Walk)
        → v < g.num_nodes
        → is_not_visited (t.visited v) ≡ true
        → unseen g.num_nodes t.visited ≤ fuel
        → Walks g (v ∷ []) t (recur v t))
    → All (λ v. v < g.num_nodes) vs
    → unseen g.num_nodes s.visited ≤ fuel
    → Walks g vs s (process_all g.num_nodes recur vs s)
unfolding process_all
process_all-Walks g fuel recur [] s rec inside few = (s, refl, Walked-nil g s)
process_all-Walks g fuel recur (v ∷ vs) s rec inside few =
    let first : Walks g (v ∷ []) s (if is_not_visited (s.visited v) then recur v s else some s) =
      elim (Bool-cases (is_not_visited (s.visited v))) [
        | inl e ↦ rw e (rec v s inside.0 e few)
        | inr e ↦ rw e (s, refl, Walked-skip g v s e)
      ] in
    let (t, run, p) = first in
    let fewer = unseen_mono g.num_nodes s.visited t.visited p.grow in
    let (u, run', q) = process_all-Walks g fuel recur vs t rec inside.1 (omega arith) in
    let in_range : ltb v g.num_nodes ≡ true = ground arith in
    (u, rw (in_range, run) run', Walked-cons g v vs s t u p q)

abbrev marked : Graph → ℕ → Walk → Walk
marked g v s = record { sum = add32 s.sum (g.nodes v).info; visited = update s.visited v done }

-- The visit of one node, from that of its neighbours.
Walked-node :
    (g : Graph) (v : ℕ) (s t : Walk)
    → v < g.num_nodes
    → is_not_visited (s.visited v) ≡ true
    → Walked g (g.nodes v).neighbours (marked g v s) t
    → Walked g (v ∷ []) s t
Walked-node g v s t inside fresh p = record {
  grow = λ u h. p.grow u (seen u h);
  only = λ u. elim (p.only u) [
    | inr e ↦ inr e
    | inl e ↦ elim (ℕ_discrete u v) [
      | yes d ↦ inr (e ∙ update_at s.visited v done u d)
      | no d ↦ inl (e ∙ update_other s.visited v done u d)
    ]
  ];
  starts = (p.grow v self, tt);
  reach = λ u h. elim (p.reach u h) [
    | inr (w, m, r) ↦ inr (v, Memᴰ.head refl, step m r)
    | inl h' ↦ elim (ℕ_discrete u v) [
      | yes d ↦ inr (v, Memᴰ.head refl, subst (Reach g v) (sym d) here)
      | no d ↦ inl (ap is_not_visited (sym (update_other s.visited v done u d)) ∙ h')
    ]
  ];
  closed = λ u h. elim (p.closed u h) [
    | inr a ↦ inr a
    | inl h' ↦ elim (ℕ_discrete u v) [
      | yes d ↦ inr (subst (λ x. All (Seen t) (g.nodes x).neighbours) (sym d) p.starts)
      | no d ↦ inl (ap is_not_visited (sym (update_other s.visited v done u d)) ∙ h')
    ]
  ];
  sum = λ ok. p.sum (added ok);
}
  where
    self : Seen (marked g v s) v
    self = ap is_not_visited (update_at s.visited v done v refl)

    seen : (u : ℕ) → Seen s u → Seen (marked g v s) u
    seen u h = elim (ℕ_discrete u v) [
      | yes d ↦ ap is_not_visited (update_at s.visited v done u d)
      | no d ↦ ap is_not_visited (update_other s.visited v done u d) ∙ h
    ]

    added : SumOk g s → SumOk g (marked g v s)
    added ok =
        let grown = (update_done g.num_nodes (λ v. (g.nodes v).info) s.visited v inside fresh).1 in
        omega (arith, ok, grown)

process_node-Walks :
    (fuel : ℕ) (g : Graph) (v : ℕ) (s : Walk)
    → Closed g
    → v < g.num_nodes
    → is_not_visited (s.visited v) ≡ true
    → unseen g.num_nodes s.visited ≤ fuel
    → Walks g (v ∷ []) s (process_node fuel g v s)
unfolding process_node
process_node-Walks zero g v s closed inside fresh few =
    let (less, _) = update_done g.num_nodes (λ v. (g.nodes v).info) s.visited v inside fresh in
    absurd (omega (arith, less))
process_node-Walks (suc n) g v s closed inside fresh few =
    let (less, _) = update_done g.num_nodes (λ v. (g.nodes v).info) s.visited v inside fresh in
    let (t, run, p) =
      process_all-Walks g n (process_node n g) (g.nodes v).neighbours (marked g v s)
        (λ w u inside' fresh' few'. process_node-Walks n g w u closed inside' fresh' few')
        (closed v inside) (omega (arith, less)) in
    let in_range : ltb v g.num_nodes ≡ true = ground arith in
    (t, rw in_range run, Walked-node g v s t inside fresh p)

Reach-Seen :
    (g : Graph) (s : Walk) (u w : ℕ)
    → ((x : ℕ) → Seen s x → All (Seen s) (g.nodes x).neighbours)
    → Seen s u
    → Reach g u w
    → Seen s w
Reach-Seen g s u w closed h here = h
Reach-Seen g s u w closed h (step {v = v} m r) =
    Reach-Seen g s v w closed (All-Memᴰ (Seen s) (g.nodes u).neighbours v (closed u h) m) r

-- On a graph whose neighbours are nodes, with no node visited and as much fuel as there are nodes,
-- `process_node` of a node, with `sum` 0 before, returns; then exactly the nodes that can be
-- reached are `DONE`, the others are not visited, and `sum` is the sum of the values of the visited
-- nodes modulo 2 ^ 32.
pub process_node-Reach :
    (fuel : ℕ) (g : Graph) (v : ℕ)
    → Closed g
    → v < g.num_nodes
    → ((u : ℕ) → g.visited u ≡ not_visited)
    → g.num_nodes ≤ fuel
    → (s : Walk) × (process_node fuel g v (record { sum = 0; visited = g.visited }) ≡ some s)
      × ((u : ℕ) → (s.visited u ≡ done) ↔ Reach g v u)
      × ((u : ℕ) → (s.visited u ≡ not_visited) ⊎ (s.visited u ≡ done))
      × (s.sum ≡ total g.num_nodes (λ u. (g.nodes u).info) s.visited % 2 ^ 32)
process_node-Reach fuel g v closed inside fresh enough =
    let start : Walk = record { sum = 0; visited = g.visited } in
    let unvisited : (u : ℕ) → is_not_visited (g.visited u) ≡ true =
      λ u. ap is_not_visited (fresh u) in
    let bound = unseen_bound g.num_nodes g.visited in
    let (s, run, p) = process_node-Walks fuel g v start closed inside (unvisited v) (omega arith) in
    let never : (u : ℕ) → ¬ Seen start u = λ u h. cc (unvisited u, h) in
    (
      s,
      run,
      λ u. (
        λ e. elim (p.reach u (ap is_not_visited e)) [
          | inl h ↦ absurd (never u h)
          | inr (w, m, r) ↦ subst (λ x. Reach g x u) (Memᴰ.eq_of_singleton m) r
        ],
        λ r.
            let all : (x : ℕ) → Seen s x → All (Seen s) (g.nodes x).neighbours =
              λ x h. elim (p.closed x h) [ inl h' ↦ absurd (never x h') | inr a ↦ a ] in
            let h = Reach-Seen g s v u all p.starts.0 r in
            elim (p.only u) [
              | inr e ↦ e
              | inl e ↦ absurd (never u (ap is_not_visited (sym e) ∙ h))
            ],
      ),
      λ u. elim (p.only u) [ inl e ↦ inl (e ∙ fresh u) | inr e ↦ inr e ],
      p.sum (
          ap (λ n. n % 2 ^ 32)
            (sym (total_fresh g.num_nodes (λ u. (g.nodes u).info) g.visited unvisited))),
    )
