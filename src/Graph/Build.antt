-- ===== src/Graph/Build.antt =====
-- `create_graph_from_data` of parallel-graph/src/os_graph.c gives each node its neighbours.
use operating_system_challen.Base.{
  ℕ, ◌+◌, ◌≤◌, ◌<◌, ◌≡◌, ◌≢◌, refl, sym, ap, ◌∙◌, true, false, none, some, ◌⊎◌, inl, inr, List, [],
  ◌∷◌, ◌++◌, ◌==◌, ltb, arith, subst, All, length, length-append, if◌then◌else◌,
}
use mathlib.Core.List.{append_assoc, append-nil}
use native.Mathlib.Decide.{dec_lt, ℕ_discrete}
use operating_system_challen.Graph.Update.{update_at, update_other}
use operating_system_challen.Graph.Code.{
  Node, Edge, Graph, not_visited, update, os_create_node, add_neighbour, add_edges,
  create_graph_from_data,
}

-- `b` as a neighbour of `a`, for the node `v`.
abbrev pub ends : (a b v : ℕ) → List ℕ
ends a b v = if a == v then b ∷ [] else []

-- The ends of the edges at the node `v`, in the order of the edges; a loop counts twice.
abbrev pub incident : List Edge → ℕ → List ℕ
incident [] v = []
incident (e ∷ es) v = ends e.src e.dst v ++ (ends e.dst e.src v ++ incident es v)

length-incident :
    (e : Edge) (es : List Edge) (v : ℕ)
    → length (incident (e ∷ es) v)
      ≡ length (ends e.src e.dst v) + (length (ends e.dst e.src v) + length (incident es v))
length-incident e es v =
    length-append (ends e.src e.dst v) (ends e.dst e.src v ++ incident es v)
    ∙ ap (λ n. length (ends e.src e.dst v) + n) (length-append (ends e.dst e.src v) (incident es v))

length-ends : (a b : ℕ) → length (ends a b a) ≡ 1
length-ends a b = ground arith

length-ends_other : (a b v : ℕ) → v ≢ a → length (ends a b v) ≡ 0
length-ends_other a b v d = ground arith

-- Both ends of the edge are nodes.
abbrev pub Inside : ℕ → Edge → Type 0
Inside n e = (e.src < n) × (e.dst < n)

-- `nodes'` is `nodes` with `more v` behind the neighbours of each `v`.
record Extended (nodes nodes' : ℕ → Node) (more : ℕ → List ℕ) : Type 0 where
  info : (v : ℕ) → (nodes' v).info ≡ (nodes v).info
  id : (v : ℕ) → (nodes' v).id ≡ (nodes v).id
  neighbours : (v : ℕ) → (nodes' v).neighbours ≡ (nodes v).neighbours ++ more v

length-Extended :
    (a b : ℕ → Node) (p : ℕ → List ℕ) (v : ℕ)
    → Extended a b p
    → length (b v).neighbours ≡ length (a v).neighbours + length (p v)
length-Extended a b p v x = ap length (x.neighbours v) ∙ length-append (a v).neighbours (p v)

Extended-trans :
    (a b c : ℕ → Node) (p q : ℕ → List ℕ)
    → Extended a b p
    → Extended b c q
    → Extended a c (λ v. p v ++ q v)
Extended-trans a b c p q x y = record {
  info = λ v. y.info v ∙ x.info v;
  id = λ v. y.id v ∙ x.id v;
  neighbours = λ v.
      y.neighbours v
      ∙ ap (λ l. l ++ q v) (x.neighbours v)
      ∙ append_assoc (a v).neighbours (p v) (q v);
}

add_neighbour-Extended :
    (n : ℕ) (nodes : ℕ → Node) (v w : ℕ)
    → v < n
    → length (nodes v).neighbours < n
    → (nodes' : ℕ → Node) × (add_neighbour n nodes v w ≡ some nodes')
      × Extended nodes nodes' (ends v w)
unfolding add_neighbour update
add_neighbour-Extended n nodes v w inside room =
    let node = record (nodes v) { neighbours = (nodes v).neighbours ++ w ∷ [] } in
    let inside' : ltb v n ≡ true = ground arith in
    let room' : ltb (length (nodes v).neighbours) n ≡ true = ground arith in
    (
      update nodes v node,
      rw (inside', room') refl,
      record {
        info = λ u. elim (ℕ_discrete u v) [
          | yes d ↦ ap (λ x. x.info) (update_at nodes v node u d) ∙ ap (λ x. (nodes x).info) (sym d)
          | no d ↦ ap (λ x. x.info) (update_other nodes v node u d)
        ];
        id = λ u. elim (ℕ_discrete u v) [
          | yes d ↦ ap (λ x. x.id) (update_at nodes v node u d) ∙ ap (λ x. (nodes x).id) (sym d)
          | no d ↦ ap (λ x. x.id) (update_other nodes v node u d)
        ];
        neighbours = λ u. elim (ℕ_discrete u v) [
          | yes d ↦
              let same : (v == u) ≡ true = ground arith in
              rw same (
                ap (λ x. x.neighbours) (update_at nodes v node u d)
                ∙ ap (λ x. (nodes x).neighbours ++ w ∷ []) (sym d))
          | no d ↦
              let differ : (v == u) ≡ false = ground arith in
              rw differ (
                ap (λ x. x.neighbours) (update_other nodes v node u d)
                ∙ sym (append-nil (nodes u).neighbours))
        ];
      },
    )

add_edges-Extended :
    (n : ℕ) (es : List Edge) (nodes : ℕ → Node)
    → All (Inside n) es
    → ((v : ℕ) → length (nodes v).neighbours + length (incident es v) ≤ n)
    → (nodes' : ℕ → Node) × (add_edges n es nodes ≡ some nodes')
      × Extended nodes nodes' (incident es)
unfolding add_edges
add_edges-Extended n [] nodes inside room = (
  nodes,
  refl,
  record {
    info = λ v. refl;
    id = λ v. refl;
    neighbours = λ v. sym (append-nil (nodes v).neighbours);
  },
)
add_edges-Extended n (e ∷ es) nodes inside room =
    let (a, run, x) =
      add_neighbour-Extended n nodes e.src e.dst inside.0.0
        (omega (arith, length-incident e es e.src, length-ends e.src e.dst, room e.src)) in
    let (b, run', y) = add_neighbour-Extended n a e.dst e.src inside.0.1 (
      omega (
        arith,
        length-incident e es e.dst,
        length-ends e.dst e.src,
        room e.dst,
        length-Extended nodes a (ends e.src e.dst) e.dst x,
      )) in
    let (c, run'', z) = add_edges-Extended n es b inside.1 (λ v. omega (
      arith,
      room v,
      length-incident e es v,
      length-Extended nodes a (ends e.src e.dst) v x,
      length-Extended a b (ends e.dst e.src) v y,
    )) in
    (
      c,
      rw (run, run') run'',
      Extended-trans nodes a c (ends e.src e.dst) (λ v. ends e.dst e.src v ++ incident es v) x
          (Extended-trans a b c (ends e.dst e.src) (incident es) y z),
    )

-- Where both ends of every edge are nodes and no node has more ends of edges than there are nodes,
-- `create_graph_from_data` returns a graph in which each node has its number and value, its
-- neighbours are the other ends of the edges at it in their order, and no node is visited.
pub create_graph-incident :
    (n : ℕ) (values : ℕ → ℕ) (es : List Edge)
    → All (Inside n) es
    → ((v : ℕ) → length (incident es v) ≤ n)
    → (g : Graph) × (create_graph_from_data n values es ≡ some g)
      × (g.num_nodes ≡ n)
      × (g.num_edges ≡ length es)
      × ((v : ℕ)
          → (((g.nodes v).id ≡ v)
              × ((g.nodes v).info ≡ values v)
              × ((g.nodes v).neighbours ≡ incident es v)
              × (g.visited v ≡ not_visited)))
unfolding create_graph_from_data
create_graph-incident n values es inside room =
    let blank : ℕ → Node = λ i. os_create_node i (values i) in
    let (nodes, run, x) = add_edges-Extended n es blank inside (λ v. omega (arith, room v)) in
    (
      record { num_nodes = n; num_edges = length es; nodes = nodes; visited = λ i. not_visited },
      rw run refl,
      refl,
      refl,
      λ v. (x.id v, x.info v, x.neighbours v, refl),
    )

-- `add_neighbour` writes outside the array, or had room and extends the node.
add_neighbour-cases :
    (n : ℕ) (nodes : ℕ → Node) (v w : ℕ)
    → v < n
    → (add_neighbour n nodes v w ≡ none)
      ⊎ ((length (nodes v).neighbours < n)
          × ((nodes' : ℕ → Node) × (add_neighbour n nodes v w ≡ some nodes')
              × Extended nodes nodes' (ends v w)))
unfolding add_neighbour
add_neighbour-cases n nodes v w inside = elim (dec_lt (length (nodes v).neighbours) n) [
  | yes room ↦ inr (room, add_neighbour-Extended n nodes v w inside room)
  | no full ↦ inl (refused full)
]
  where
    refused : ¬ (length (nodes v).neighbours < n) → add_neighbour n nodes v w ≡ none
    refused full =
        let inside' : ltb v n ≡ true = ground arith in
        let full' : ltb (length (nodes v).neighbours) n ≡ false = ground arith in
        rw (inside', full') refl

-- No node has more than `n` neighbours behind one more of them.
still_fits :
    (n : ℕ) (a b : ℕ → Node) (v w : ℕ)
    → length (a v).neighbours < n
    → ((u : ℕ) → length (a u).neighbours ≤ n)
    → Extended a b (ends v w)
    → (u : ℕ) → length (b u).neighbours ≤ n
still_fits n a b v w room fit x u = elim (ℕ_discrete u v) [
  | yes d ↦
      subst (λ i. length (b i).neighbours ≤ n) (sym d)
        (omega (arith, length-Extended a b (ends v w) v x, length-ends v w))
  | no d ↦ omega (arith, length-Extended a b (ends v w) u x, length-ends_other v w u d, fit u)
]

add_edges_overflow :
    (n : ℕ) (es : List Edge) (nodes : ℕ → Node) (v : ℕ)
    → All (Inside n) es
    → ((u : ℕ) → length (nodes u).neighbours ≤ n)
    → n < length (nodes v).neighbours + length (incident es v)
    → add_edges n es nodes ≡ none
unfolding add_edges
add_edges_overflow n [] nodes v inside fit over = absurd (omega (arith, fit v))
add_edges_overflow n (e ∷ es) nodes v inside fit over =
    elim (add_neighbour-cases n nodes e.src e.dst inside.0.0) [
      | inl e1 ↦ rw e1 refl
      | inr (room, (a, run, x)) ↦ elim (add_neighbour-cases n a e.dst e.src inside.0.1) [
        | inl e2 ↦ rw (run, e2) refl
        | inr (room', (b, run', y)) ↦
            rw (run, run')
              (add_edges_overflow n es b v inside.1
                (still_fits n a b e.dst e.src room' (still_fits n nodes a e.src e.dst room fit x) y)
                (omega (
                  arith,
                  length-incident e es v,
                  length-Extended nodes a (ends e.src e.dst) v x,
                  length-Extended a b (ends e.dst e.src) v y,
                )))
      ]
    ]

-- Where both ends of every edge are nodes and some node has more ends of edges than there are
-- nodes, `create_graph_from_data` writes outside that node's array of neighbours.
pub create_graph_overflow :
    (n : ℕ) (values : ℕ → ℕ) (es : List Edge) (v : ℕ)
    → All (Inside n) es
    → n < length (incident es v)
    → create_graph_from_data n values es ≡ none
unfolding create_graph_from_data
create_graph_overflow n values es v inside over =
    let blank : ℕ → Node = λ i. os_create_node i (values i) in
    rw (add_edges_overflow n es blank v inside (λ u. omega arith) (omega (arith, over))) refl
