-- ===== src/Query/Rules.antt =====
-- The rewrite rules of minion/planner/query/rules.h. A rule takes the operations and the edges by
-- reference: here it returns them anew, with the node that it made.
pub mod Meaning
pub mod Extends
pub mod Demorgan
pub mod DemorganCorrect
pub mod Merge
pub mod MergeCorrect
pub mod Reduce
use dist_storage.Prelude.{
  ℕ, Bool, true, false, not, ◌&&◌, ◌||◌, Option, none, some, List, [], ◌∷◌, ◌++◌, length, Result,
  ok, throws, invalid_argument, ◌>>=◌, if◌then◌else◌, ite, ℕ_discrete,
}
use dist_storage.Query.Ops.{ColumnOperation, ColumnOperation-discrete, get_negated_operation}
use dist_storage.Query.Graph.{Node, Operation, Mapping, at, assign}

-- The two vectors that the rules work on.
pub record Nodes : Type 0 where
  pub graph_mapping : Mapping
  pub operations : List Operation

-- `graph_mapping[node].push_back(child)`
unfoldable pub push_child : Nodes → Node → Node → Result Nodes
push_child n node child = do
  children ← at n.graph_mapping node
  graph_mapping ← assign n.graph_mapping node (children ++ child ∷ [])
  ok (record n { graph_mapping = graph_mapping })

-- `operations[node].op = op`
unfoldable pub set_op : Nodes → Node → ColumnOperation → Result Nodes
set_op n node op = do
  o ← at n.operations node
  operations ← assign n.operations node (record o { op = op })
  ok (record n { operations = operations })

-- `graph_mapping[node].clear()`
unfoldable pub clear_children : Nodes → Node → Result Nodes
clear_children n node = do
  graph_mapping ← assign n.graph_mapping node []
  ok (record n { graph_mapping = graph_mapping })

unfoldable pub clone_node : Nodes → Node → Result (Nodes × Node)
clone_node n node = do
  o ← at n.operations node
  children ← at n.graph_mapping node
  ok (
    record {
      graph_mapping = n.graph_mapping ++ children ∷ [];
      operations = n.operations ++ o ∷ [];
    },
    some (length n.operations),
  )

-- getNegatedOperation, where INVALID makes the caller throw.
unfoldable pub negated_or_throw : ColumnOperation → Result ColumnOperation
negated_or_throw op =
    ite (ColumnOperation-discrete (get_negated_operation op) ColumnOperation.invalid)
      (throws invalid_argument) (ok (get_negated_operation op))

-- The `switch` of demorgan_apply.
unfoldable pub demorgan_op : ColumnOperation → Result ColumnOperation
demorgan_op ColumnOperation.and = ok ColumnOperation.nor
demorgan_op ColumnOperation.or = ok ColumnOperation.nand
demorgan_op ColumnOperation.nand = ok ColumnOperation.or
demorgan_op ColumnOperation.nor = ok ColumnOperation.and
demorgan_op _ = throws invalid_argument

-- A clone of a node with the negated operation.
unfoldable pub clone_negated : Nodes → Node → Result (Nodes × Node)
clone_negated n child = do
  (n1, new_child_idx) ← clone_node n child
  new_child ← at n1.operations new_child_idx
  negated_op ← negated_or_throw new_child.op
  n2 ← set_op n1 new_child_idx negated_op
  ok (n2, new_child_idx)

-- The loop of demorgan_apply over the old children.
unfoldable pub negate_children : Nodes → Node → List Node → Result Nodes
negate_children n new_node_idx [] = ok n
negate_children n new_node_idx (child ∷ children) = do
  (n1, new_child_idx) ← clone_negated n child
  n2 ← push_child n1 new_node_idx new_child_idx
  negate_children n2 new_node_idx children

unfoldable pub demorgan_apply : Nodes → Node → Result (Nodes × Node)
demorgan_apply n node = do
  (n1, new_node_idx) ← clone_node n node
  new_node ← at n1.operations new_node_idx
  op ← demorgan_op new_node.op
  n2 ← set_op n1 new_node_idx op
  old_children ← at n2.graph_mapping node
  n3 ← clear_children n2 new_node_idx
  n4 ← negate_children n3 new_node_idx old_children
  ok (n4, new_node_idx)

-- `insert` at the end of the children of a node.
unfoldable pub push_children : Nodes → Node → List Node → Result Nodes
push_children n node extra = do
  children ← at n.graph_mapping node
  graph_mapping ← assign n.graph_mapping node (children ++ extra)
  ok (record n { graph_mapping = graph_mapping })

-- The loop that both merge rules run: children with the operation `node_op` give their own children.
unfoldable pub merge_children : Nodes → Node → ColumnOperation → List Node → Result Nodes
merge_children n new_node_idx node_op [] = ok n
merge_children n new_node_idx node_op (child ∷ children) = do
  c ← at n.operations child
  n1 ←
      ite (ColumnOperation-discrete c.op node_op)
        (do grand_children ← at n.graph_mapping child; push_children n new_node_idx grand_children)
        (push_child n new_node_idx child)
  merge_children n1 new_node_idx node_op children

unfoldable pub merge_cummutative_numeric_apply : Nodes → Node → Result (Nodes × Node)
merge_cummutative_numeric_apply n node = do
  (n1, new_node_idx) ← clone_node n node
  o ← at n1.operations node
  old_children ← at n1.graph_mapping new_node_idx
  n2 ← clear_children n1 new_node_idx
  n3 ← merge_children n2 new_node_idx o.op old_children
  ok (n3, new_node_idx)

-- The `switch` of merge_cummutative_logic_apply.
unfoldable pub merged_op : ColumnOperation → Result ColumnOperation
merged_op ColumnOperation.and = ok ColumnOperation.and
merged_op ColumnOperation.or = ok ColumnOperation.or
merged_op ColumnOperation.xor = ok ColumnOperation.xor
merged_op ColumnOperation.nand = ok ColumnOperation.and
merged_op ColumnOperation.nor = ok ColumnOperation.or
merged_op ColumnOperation.xnor = ok ColumnOperation.xor
merged_op _ = throws invalid_argument

unfoldable pub merge_cummutative_logic_apply : Nodes → Node → Result (Nodes × Node)
merge_cummutative_logic_apply n node = do
  (n1, new_node_idx) ← clone_node n node
  o ← at n1.operations node
  node_op ← merged_op o.op
  old_children ← at n1.graph_mapping new_node_idx
  n2 ← clear_children n1 new_node_idx
  n3 ← merge_children n2 new_node_idx node_op old_children
  ok (n3, new_node_idx)

-- The `switch` of reduce_not_nop_apply: whether to negate.
unfoldable pub reduces_by_negation : ColumnOperation → Result Bool
reduces_by_negation ColumnOperation.not = ok true
reduces_by_negation ColumnOperation.nop = ok false
reduces_by_negation _ = throws invalid_argument

abbrev pub only_child : List Node → Result Node
only_child (child ∷ []) = ok child
only_child _ = throws invalid_argument

unfoldable pub reduce_not_nop_apply : Nodes → Node → Result (Nodes × Node)
reduce_not_nop_apply n node = do
  o ← at n.operations node
  negate ← reduces_by_negation o.op
  children ← at n.graph_mapping node
  child ← only_child children
  if negate then clone_negated n child else ok (n, child)
