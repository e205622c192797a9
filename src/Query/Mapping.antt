-- ===== src/Query/Mapping.antt =====
-- Edges of a query graph (minion/planner/query/graph.h): from a list of edges to the vector of
-- children and back, reversal, and renumbering by a map.
pub mod Edges
pub mod Revert
pub mod RoundTrip
use dist_storage.Prelude.{
  ℕ, suc, zero, ◌+◌, ◌≡◌, Bool, true, false, Option, none, some, List, [], ◌∷◌, ◌++◌, length, map,
  Result, ok, ◌>>=◌, ltb, if◌then◌else◌, replicate, ite, ℕ_discrete,
}
use dist_storage.Prelude.Maps.{lookup}
use dist_storage.Query.Graph.{Node, Operation, Mapping, at, assign}

unfoldable pub Node-discrete : Discrete Node
unfolding ℕ_discrete
Node-discrete = hlevel ℕ_discrete

abbrev pub Edge : Type 0
Edge = Node × Node

-- `graph_mapping[from].push_back(to)`
unfoldable pub push_edge : Mapping → Node → Node → Result Mapping
push_edge g from to = do children ← at g from; assign g from (children ++ to ∷ [])

-- std::max over the indices; -1 is below 0.
unfoldable pub max_node : ℕ → Node → ℕ
max_node n none = n
max_node n (some i) = if ltb n i then i else n

unfoldable pub largest_node : ℕ → List Edge → ℕ
largest_node n [] = n
largest_node n ((a, b) ∷ es) = largest_node (max_node (max_node n a) b) es

unfoldable pub push_edges : Mapping → List Edge → Result Mapping
push_edges g [] = ok g
push_edges g ((a, b) ∷ es) = do g' ← push_edge g a b; push_edges g' es

-- getGraphMapping
unfoldable pub get_graph_mapping : List Edge → Result Mapping
get_graph_mapping edges = push_edges (replicate (suc (largest_node 0 edges)) []) edges

-- The inner loop of revertGraphMapping, over the children of node `i`.
unfoldable pub revert_children : Mapping → ℕ → List Node → Result Mapping
revert_children r i [] = ok r
revert_children r i (j ∷ js) = do r' ← push_edge r j (some i); revert_children r' i js

-- The outer loop, from node `i` on.
unfoldable pub revert_from : Mapping → ℕ → Mapping → Result Mapping
revert_from r i [] = ok r
revert_from r i (js ∷ g) = do r' ← revert_children r i js; revert_from r' (i + 1) g

-- revertGraphMapping
unfoldable pub revert_graph_mapping : Mapping → Result Mapping
revert_graph_mapping g = revert_from (replicate (length g) []) 0 g

-- The loops of getEdgesList; `edges` has exactly the room for what they write.
unfoldable pub edges_from : ℕ → Mapping → List Edge
edges_from i [] = []
edges_from i (js ∷ g) = map (λ j. (some i, j)) js ++ edges_from (i + 1) g

-- getEdgesList
unfoldable pub get_edges_list : Mapping → List Edge
get_edges_list g = edges_from 0 g

-- std::map<node_t, node_t>
abbrev pub NodeMap : Type 0
NodeMap = List (Node × Node)

-- The inner loop of mapMappingGraph.
unfoldable pub map_children : NodeMap → Node → List Node → Mapping → Result Mapping
map_children m from [] g = ok g
map_children m from (node2 ∷ vec) g = do
  g' ← elim (lookup Node-discrete node2 m) [
    | none ↦ ok g
    | some node2_mapped ↦ push_edge g from node2_mapped
  ]
  map_children m from vec g'

-- The outer loop, from node `node1` on.
unfoldable pub map_from : NodeMap → ℕ → Mapping → Mapping → Result Mapping
map_from m node1 [] g = ok g
map_from m node1 (vec ∷ graph_mapping) g = do
  g' ← elim (lookup Node-discrete (some node1) m) [
    | none ↦ ok g
    | some node1_mapped ↦ map_children m node1_mapped vec g
  ]
  map_from m (node1 + 1) graph_mapping g'

-- mapMappingGraph
unfoldable pub map_mapping_graph : Mapping → NodeMap → Result Mapping
map_mapping_graph graph_mapping m = map_from m 0 graph_mapping (replicate (length m) [])

-- The loop of mapOperations over the map.
unfoldable pub map_operations_loop :
    List Operation → NodeMap → List Operation → Result (List Operation)
map_operations_loop operations [] new_operations = ok new_operations
map_operations_loop operations ((from, to) ∷ m) new_operations = do
  o ← at operations from
  new_operations' ← assign new_operations to o
  map_operations_loop operations m new_operations'

-- mapOperations; `blank` is the value-initialised Operation.
unfoldable pub map_operations : Operation → List Operation → NodeMap → Result (List Operation)
map_operations blank operations m = map_operations_loop operations m (replicate (length m) blank)
