-- ===== src/Graph/Tests.antt =====
-- The graph theorems at a graph of four nodes, one of them apart from the others.
use operating_system_challen.Base.{
  ℕ, zero, suc, ◌+◌, ◌%◌, ◌^◌, ◌≤◌, ◌≡◌, ◌↔◌, ◌⊎◌, refl, some, List, [], ◌∷◌, length, arith,
}
use operating_system_challen.Graph.Code.{
  Edge, Graph, Walk, not_visited, done, create_graph_from_data, process_node,
}
use operating_system_challen.Graph.Reach.{Reach, Closed}
use operating_system_challen.Graph.Count.{total}
use operating_system_challen.Graph.Build.{incident, create_graph-incident}
use operating_system_challen.Graph.Serial.{process_node-Reach}

abbrev edge : ℕ → ℕ → Edge
edge a b = record { src = a; dst = b }

abbrev edges : List Edge
edges = edge 0 1 ∷ edge 1 2 ∷ []

abbrev values : ℕ → ℕ
values i = 10 + i

edges_room : (v : ℕ) → length (incident edges v) ≤ 4
edges_room v = ground arith

create_graph-incident_example :
    (g : Graph) × (create_graph_from_data 4 values edges ≡ some g)
    × (g.num_nodes ≡ 4)
    × (g.num_edges ≡ 2)
    × ((v : ℕ)
        → (((g.nodes v).id ≡ v)
            × ((g.nodes v).info ≡ values v)
            × ((g.nodes v).neighbours ≡ incident edges v)
            × (g.visited v ≡ not_visited)))
create_graph-incident_example =
    create_graph-incident 4 values edges
      ((omega arith, omega arith), ((omega arith, omega arith), tt)) edges_room

abbrev small_graph : Graph
small_graph = record {
  num_nodes = 4;
  num_edges = 2;
  nodes = λ v. record { id = v; info = values v; neighbours = incident edges v };
  visited = λ v. not_visited;
}

small_graph-Closed : Closed small_graph
small_graph-Closed zero h = (omega arith, tt)
small_graph-Closed (suc zero) h = (omega arith, (omega arith, tt))
small_graph-Closed (suc (suc zero)) h = (omega arith, tt)
small_graph-Closed (suc (suc (suc zero))) h = tt
small_graph-Closed (suc (suc (suc (suc n)))) h = absurd (omega arith)

process_node-Reach_example :
    (s : Walk) × (process_node 4 small_graph 0 (record { sum = 0; visited = small_graph.visited })
      ≡ some s)
    × ((u : ℕ) → (s.visited u ≡ done) ↔ Reach small_graph 0 u)
    × ((u : ℕ) → (s.visited u ≡ not_visited) ⊎ (s.visited u ≡ done))
    × (s.sum ≡ total 4 values s.visited % 2 ^ 32)
process_node-Reach_example =
    process_node-Reach 4 small_graph 0 small_graph-Closed (omega arith) (λ u. refl) (omega arith)
