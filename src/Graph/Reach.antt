-- ===== src/Graph/Reach.antt =====
-- Reachability in the graph.
use operating_system_challen.Base.{ℕ, ◌<◌, All, ◌∷◌, [], List, subst, sym}
use mathlib.Core.List.{Memᴰ}
use mathlib.Core.List.Memᴰ
use operating_system_challen.Graph.Code.{Graph}

-- A path along the neighbours from the first node to the second.
pub data Reach (g : Graph) : ℕ → ℕ → Type 0 where
  here : {u : ℕ} → Reach g u u
  step : {u v w : ℕ} → Memᴰ v (g.nodes u).neighbours → Reach g v w → Reach g u w

-- Every neighbour of a node is a node.
abbrev pub Closed : Graph → Type 0
Closed g = (u : ℕ) → u < g.num_nodes → All (λ v. v < g.num_nodes) (g.nodes u).neighbours

-- One edge more at the end of a path.
pub Reach-snoc : {g : Graph} {u v w : ℕ} → Reach g u v → Memᴰ w (g.nodes v).neighbours → Reach g u w
Reach-snoc here m = step m here
Reach-snoc (step n r) m = step n (Reach-snoc r m)

pub All-Memᴰ : (P : ℕ → Type 0) (vs : List ℕ) (v : ℕ) → All P vs → Memᴰ v vs → P v
All-Memᴰ P [] v h m = absurd (Memᴰ.not-nil m)
All-Memᴰ P (x ∷ xs) v h (Memᴰ.head e) = subst P (sym e) h.0
All-Memᴰ P (x ∷ xs) v h (Memᴰ.tail m) = All-Memᴰ P xs v h.1 m
