-- ===== src/Query/Visited.antt =====
-- The walk over the nodes below a node: fillVisited, visitedNodesOrder and visitedLeaveMap of
-- minion/planner/query/graph.h. A mark is an int, which must not overflow.
pub mod Run
pub mod Reach
use dist_storage.Prelude.{
  ℕ, zero, suc, ◌+◌, ◌-◌, ◌^◌, Bool, List, [], ◌∷◌, Option, none, some, Result, ok, undefined,
  ◌>>=◌, get_elem?, if◌then◌else◌, ◌==◌, ltb,
}
use dist_storage.Query.Graph.{Node, Mapping, at, assign}

-- The loop of fillVisited over the children; `again` is the recursive call.
unfoldable pub visit_children :
    (List ℕ → Node → Result (List ℕ)) → List ℕ → List Node → Result (List ℕ)
visit_children again visited [] = ok visited
visit_children again visited (child ∷ children) = do
  mark ← at visited child
  visited' ← if mark == 0 then again visited child else ok visited
  visit_children again visited' children

-- `value+1`
unfoldable pub next_mark : ℕ → Result ℕ
next_mark value = if ltb value (2 ^ 31 - 1) then ok (value + 1) else undefined

-- fillVisited, with fuel for the depth of the recursion; without fuel it is undefined.
unfoldable pub fill_visited : ℕ → Mapping → List ℕ → Node → ℕ → Result (List ℕ)
fill_visited zero graph_mapping visited node_id value = undefined
fill_visited (suc fuel) graph_mapping visited node_id value = do
  visited' ← assign visited node_id value
  children ← at graph_mapping node_id
  visit_children
      (λ vs child. next_mark value >>= λ next. fill_visited fuel graph_mapping vs child next)
      visited' children

-- The loop that collects the visited nodes, from node `i` on.
unfoldable pub visited_nodes : ℕ → List ℕ → List ℕ
visited_nodes i [] = []
visited_nodes i (mark ∷ marks) =
    let rest = visited_nodes (i + 1) marks in if mark == 0 then rest else i ∷ rest

abbrev mark_of : List ℕ → ℕ → ℕ
mark_of visited i = elim (get_elem? visited i) [ none ↦ 0 | some mark ↦ mark ]

-- The comparison of both sorts: the larger mark comes first.
abbrev pub is_deeper : List ℕ → ℕ → ℕ → Bool
is_deeper visited a b = ltb (mark_of visited b) (mark_of visited a)

-- The loop of visitedLeaveMap over the sorted nodes.
unfoldable pub number_nodes : ℕ → List ℕ → List (ℕ × ℕ)
number_nodes i [] = []
number_nodes i (n ∷ ns) = (n, i) ∷ number_nodes (i + 1) ns

-- `sort` is std::sort on a vector of nodes.
module _ (sort : (ℕ → ℕ → Bool) → List ℕ → List ℕ) where
  -- visitedNodesOrder
  unfoldable pub visited_nodes_order : List ℕ → List ℕ
  visited_nodes_order visited = sort (is_deeper visited) (visited_nodes 0 visited)

  -- visitedLeaveMap, as the pairs that it inserts
  unfoldable pub visited_leave_map : List ℕ → List (ℕ × ℕ)
  visited_leave_map visited = number_nodes 0 (visited_nodes_order visited)
