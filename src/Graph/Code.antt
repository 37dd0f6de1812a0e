-- ===== src/Graph/Code.antt =====
-- parallel-graph/src/os_graph.h, os_graph.c and serial.c. An array is a function from its indices;
-- `none` is an access outside an array, or a recursion out of fuel. An `int` keeps its 32 bits.
use operating_system_challen.Base.{
  ℕ, zero, suc, ◌+◌, ◌%◌, ◌^◌, Bool, true, false, Option, none, some, List, [], ◌∷◌, ◌++◌, ◌==◌,
  ltb, length, if◌then◌else◌,
}

-- `neighbours` holds the first `num_neighbours` entries of the C array.
pub record Node : Type 0 where
  pub id : ℕ
  pub info : ℕ
  pub neighbours : List ℕ

pub data Visited : Type 0 where
  not_visited processing done : Visited

abbrev pub is_not_visited : Visited → Bool
is_not_visited not_visited = true
is_not_visited processing = false
is_not_visited done = false

pub record Graph : Type 0 where
  pub num_nodes : ℕ
  pub num_edges : ℕ
  pub nodes : ℕ → Node
  pub visited : ℕ → Visited

pub record Edge : Type 0 where
  pub src : ℕ
  pub dst : ℕ

-- `a[i] = x`
unfoldable pub update : {A : Type 0} → (ℕ → A) → ℕ → A → ℕ → A
update a i x j = if j == i then x else a j

infixl 5 ◌>>=◌
abbrev pub ◌>>=◌ : {A B : Type 0} → Option A → (A → Option B) → Option B
none >>= f = none
some a >>= f = f a

abbrev pub os_create_node : ℕ → ℕ → Node
os_create_node id info = record { id = id; info = info; neighbours = [] }

-- `graph->nodes[v]->neighbours[graph->nodes[v]->num_neighbours++] = w`, where the array has room
-- for `num_nodes` entries
unfoldable pub add_neighbour : ℕ → (ℕ → Node) → (v w : ℕ) → Option (ℕ → Node)
unfolding update
add_neighbour num_nodes nodes v w =
    let node = nodes v in
    if ltb v num_nodes
    then (if ltb (length node.neighbours) num_nodes
        then some (update nodes v (record node { neighbours = node.neighbours ++ w ∷ [] }))
        else none)
    else none

-- The loop over the edges of `create_graph_from_data`.
unfoldable pub add_edges : ℕ → List Edge → (ℕ → Node) → Option (ℕ → Node)
unfolding add_neighbour
add_edges num_nodes [] nodes = some nodes
add_edges num_nodes (e ∷ es) nodes = do
  nodes1 ← add_neighbour num_nodes nodes e.src e.dst
  nodes2 ← add_neighbour num_nodes nodes1 e.dst e.src
  add_edges num_nodes es nodes2

-- `num_edges` is the length of `edges`.
unfoldable pub create_graph_from_data : ℕ → (values : ℕ → ℕ) → List Edge → Option Graph
unfolding add_edges
create_graph_from_data num_nodes values edges = do
  nodes ← add_edges num_nodes edges (λ i. os_create_node i (values i))
  some (record {
    num_nodes = num_nodes;
    num_edges = length edges;
    nodes = nodes;
    visited = λ i. not_visited;
  })

-- The variables that `process_node` of serial.c writes: `sum` and `graph->visited`.
pub record Walk : Type 0 where
  pub sum : ℕ
  pub visited : ℕ → Visited

abbrev pub add32 : ℕ → ℕ → ℕ
add32 a b = (a + b) % 2 ^ 32

-- The loop over the neighbours, `recur` being the recursive call.
unfoldable pub process_all : ℕ → (ℕ → Walk → Option Walk) → List ℕ → Walk → Option Walk
process_all num_nodes recur [] s = some s
process_all num_nodes recur (v ∷ vs) s =
    if ltb v num_nodes
    then (do
      s' ← if is_not_visited (s.visited v) then recur v s else some s
      process_all num_nodes recur vs s')
    else none

-- `fuel` bounds the depth of the recursion: the number of nodes is enough.
unfoldable pub process_node : ℕ → Graph → ℕ → Walk → Option Walk
unfolding process_all update
process_node zero graph idx s = none
process_node (suc fuel) graph idx s =
    let node = graph.nodes idx in
    let marked : Walk = record {
      sum = add32 s.sum node.info;
      visited = update s.visited idx done;
    } in
    if ltb idx graph.num_nodes
    then process_all graph.num_nodes (process_node fuel graph) node.neighbours marked
    else none
