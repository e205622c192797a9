-- ===== src/Query/Df.antt =====
-- DataFrame ids of the operations: fillDFIds in minion/planner/query/graph.h, and the rules of
-- minion/planner/query/rules.h about constants and DataFrame ids.
pub mod Fill
pub mod Pull
use dist_storage.Prelude.{
  ℕ, suc, zero, ◌+◌, Bool, true, false, not, ◌&&◌, ◌||◌, Option, none, some, List, [], ◌∷◌, ◌++◌,
  length, Result, ok, throws, undefined, invalid_argument, ◌>>=◌, if◌then◌else◌, ite, ◌==◌,
}
use dist_storage.Query.Ops.{ColumnOperation, ColumnOperation-discrete, is_table_operation}
use dist_storage.Query.Graph.{Node, Operation, Mapping, at, assign}
use dist_storage.Query.Mapping.{Node-discrete}
use dist_storage.Query.Rules.{Nodes, clone_node}

-- The loop of fillDFIdsWalk over the children; `again` is the recursive call, which the source makes
-- with the same node, not with the child.
unfoldable pub walk_children :
    (List Operation → Result (List Operation))
    → List Operation
    → List Node
    → Result (List Operation)
walk_children again operations [] = ok operations
walk_children again operations (child_id ∷ children) = do
  child_node ← at operations child_id
  operations' ← if is_table_operation child_node.op then ok operations else again operations
  walk_children again operations' children

-- fillDFIdsWalk, with fuel for the depth of the recursion; without fuel it is undefined.
unfoldable pub fill_df_ids_walk : ℕ → List Operation → Mapping → Node → Result (List Operation)
fill_df_ids_walk zero operations graph_mapping df_node_id = undefined
fill_df_ids_walk (suc fuel) operations graph_mapping df_node_id = do
  node ← at operations df_node_id
  elim node.df [
    | some df ↦ ok operations
    | none ↦ do
      operations' ← assign operations df_node_id (record node { df = df_node_id })
      children ← at graph_mapping df_node_id
      walk_children (λ ops. fill_df_ids_walk fuel ops graph_mapping df_node_id) operations' children
  ]

-- The depth to which the recursion goes.
abbrev pub walk_depth : ℕ
walk_depth = 2

-- The loop of fillDFIds, with `rounds` nodes left from node `i` on.
unfoldable pub fill_from : ℕ → ℕ → List Operation → Mapping → Result (List Operation)
fill_from zero i operations graph_mapping = ok operations
fill_from (suc rounds) i operations graph_mapping = do
  o ← at operations (some i)
  operations' ←
      if is_table_operation o.op
      then fill_df_ids_walk walk_depth operations graph_mapping (some i)
      else ok operations
  fill_from rounds (i + 1) operations' graph_mapping

-- fillDFIds
unfoldable pub fill_df_ids : List Operation → Mapping → Result (List Operation)
fill_df_ids operations graph_mapping = fill_from (length operations) 0 operations graph_mapping

abbrev pub is_const : Operation → Bool
is_const o = ite (ColumnOperation-discrete o.op ColumnOperation.const) true false

abbrev pub is_leaf : List Node → Bool
is_leaf [] = true
is_leaf (c ∷ cs) = false

-- The loop of roll_constants_applies.
unfoldable pub all_constants : Nodes → List Node → Result Bool
all_constants n [] = ok true
all_constants n (child ∷ children) = do
  o ← at n.operations child
  if is_const o
      then (do
        grand_children ← at n.graph_mapping child
        let rest = all_constants n children
        if is_leaf grand_children then rest else ok false)
      else ok false

unfoldable pub roll_constants_applies : Nodes → Node → Result Bool
roll_constants_applies n node = do
  o ← at n.operations node
  if is_const o
      then (do
        children ← at n.graph_mapping node
        if is_leaf children then ok false else all_constants n children)
      else ok false

-- `df` as a condition: NODE_NONE is -1 and so counts as set; 0 marks a constant.
abbrev pub is_set : Node → Bool
is_set none = true
is_set (some i) = not (i == 0)

abbrev pub same_node : Node → Node → Bool
same_node a b = ite (Node-discrete a b) true false

-- The loop of pull_df_applies; `none` is its early `return false`, else the common df.
unfoldable pub common_df : List Operation → Node → List Node → Result (Option Node)
common_df operations common [] = ok (some common)
common_df operations common (child ∷ children) = do
  o ← at operations child
  let rest = common_df operations common children
  let taken = common_df operations o.df children
  if is_set o.df && not (same_node o.df common)
      then (if is_set common then ok none else taken)
      else rest

unfoldable pub pull_df_applies : Nodes → Node → Result Bool
pull_df_applies n node = do
  o ← at n.operations node
  if is_set o.df
      then (do
        children ← at n.graph_mapping node
        common ← common_df n.operations (some 0) children
        elim common [ none ↦ ok false | some df ↦ ok (is_set df && not (same_node df o.df)) ])
      else ok false

-- The loop of pull_df_apply: the df of the first child that has one, else 0.
unfoldable pub first_df : List Operation → List Node → Result Node
first_df operations [] = ok (some 0)
first_df operations (child ∷ children) = do
  o ← at operations child
  let rest = first_df operations children
  if is_set o.df then ok o.df else rest

unfoldable pub pull_df_apply : Nodes → Node → Result (Nodes × Node)
pull_df_apply n node = do
  o ← at n.operations node
  if is_set o.df
      then (do
        (n1, new_node_idx) ← clone_node n node
        children ← at n1.graph_mapping new_node_idx
        df ← first_df n1.operations children
        new_node ← at n1.operations new_node_idx
        operations ← assign n1.operations new_node_idx (record new_node { df = df })
        ok (record n1 { operations = operations }, new_node_idx))
      else throws invalid_argument
