-- ===== src/Query/Graph.antt =====
-- The query graph of minion/planner/query/graph.h and the functions that build it.
-- A `node_t` is `none` for NODE_NONE (-1) and `some i` for the index i; graphs hold fewer than
-- 2^31 nodes, names and constants, so that no `node_t` wraps.
pub mod Access
pub mod Built
pub mod Bounds
pub mod Lookups
use dist_storage.Prelude.{
  ℕ, Bool, true, false, Option, none, some, List, [], ◌∷◌, ◌++◌, length, get_elem?, set, Result, ok,
  ◌>>=◌, or_undefined, Bytes, Bytes-discrete, bytes_less, if◌then◌else◌, codes,
}
use dist_storage.Prelude.Maps.{insert_or_assign}
use dist_storage.Query.Ops.{ColumnOperation, ValueType, SequenceType}

abbrev pub Node : Type 0
Node = Option ℕ

abbrev pub node_none : Node
node_none = none

pub record Operation : Type 0 where
  pub op : ColumnOperation
  pub name : Node
  pub const_id : Node
  pub df : Node
  pub type : ValueType
  pub sequence : SequenceType

abbrev pub Mapping : Type 0
Mapping = List (List Node)

-- `F` is the type of doubles and `Z` that of int64_t: the graph only stores them.
pub record QueryGraph (Z F : Type 0) : Type 0 where
  pub int64_constants : List Z
  pub int64_array_constants : List (List Z)
  pub float64_constants : List F
  pub float64_array_constants : List (List F)
  pub string_constants : List Bytes
  pub string_array_constants : List (List Bytes)
  pub names : List Bytes
  pub operations : List Operation
  pub graph_mapping : Mapping

-- `v[id]` for a `node_t`: -1 and an index past the end are undefined.
unfoldable pub at {ℓ} : {A : Type ℓ} → List A → Node → Result A
at xs none = Result.undefined
at xs (some i) = or_undefined (get_elem? xs i)

-- `v[id] = a`
unfoldable pub assign {ℓ} : {A : Type ℓ} → List A → Node → A → Result (List A)
assign xs none a = Result.undefined
assign xs (some i) a = do old ← or_undefined (get_elem? xs i); ok (set xs i a)

abbrev pub constant_operation : ValueType → Node → Operation
constant_operation type const_id = record {
  op = ColumnOperation.const;
  name = node_none;
  const_id = const_id;
  df = some 0;
  type = type;
  sequence = SequenceType.single;
}

-- `ctx[key] = id` on a std::map of names.
abbrev pub bind_name : Bytes → Node → List (Bytes × Node) → List (Bytes × Node)
bind_name = insert_or_assign Bytes-discrete bytes_less

abbrev pub is_empty : Bytes → Bool
is_empty [] = true
is_empty (x ∷ xs) = false

abbrev pub qualified : Bytes → Bytes → Bytes
qualified table_name name = table_name ++ codes "." ++ name

module _ {Z F : Type 0} where
  -- The id of the next node.
  abbrev pub next_node : QueryGraph Z F → Node
  next_node g = some (length g.operations)

  -- graph_mapping.emplace_back(args) and operations.emplace_back(o)
  unfoldable pub emplace_node : QueryGraph Z F → List Node → Operation → QueryGraph Z F
  emplace_node g args o = record g {
    operations = g.operations ++ o ∷ [];
    graph_mapping = g.graph_mapping ++ args ∷ [];
  }

  -- appendName
  unfoldable pub append_name : QueryGraph Z F → Bytes → QueryGraph Z F × Node
  append_name g name = (record g { names = g.names ++ name ∷ [] }, some (length g.names))

  -- setNodeName
  unfoldable pub set_node_name : QueryGraph Z F → Node → Bytes → Result (QueryGraph Z F)
  unfolding append_name at assign
  set_node_name g node_id name = do
    let (g', name_id) = append_name g name
    o ← at g'.operations node_id
    operations ← assign g'.operations node_id (record o { name = name_id })
    ok (record g' { operations = operations })

  -- getNodeName
  unfoldable pub get_node_name : QueryGraph Z F → Node → Result Bytes
  unfolding at
  get_node_name g node_id = do
    o ← at g.operations node_id
    elim o.name [ none ↦ ok [] | some i ↦ at g.names (some i) ]

  -- appendInt64Constant
  unfoldable pub append_int64_constant : QueryGraph Z F → Z → QueryGraph Z F × Node
  unfolding emplace_node
  append_int64_constant g value =
      let const_id = length g.int64_constants in
      let g' = record g { int64_constants = g.int64_constants ++ value ∷ [] } in
      (emplace_node g' [] (constant_operation ValueType.int64 (some const_id)), next_node g)

  -- appendFloat64Constant
  unfoldable pub append_float64_constant : QueryGraph Z F → F → QueryGraph Z F × Node
  unfolding emplace_node
  append_float64_constant g value =
      let const_id = length g.float64_constants in
      let g' = record g { float64_constants = g.float64_constants ++ value ∷ [] } in
      (emplace_node g' [] (constant_operation ValueType.float64 (some const_id)), next_node g)

  -- appendStringConstant
  unfoldable pub append_string_constant : QueryGraph Z F → Bytes → QueryGraph Z F × Node
  unfolding emplace_node
  append_string_constant g value =
      let const_id = length g.string_constants in
      let g' = record g { string_constants = g.string_constants ++ value ∷ [] } in
      (emplace_node g' [] (constant_operation ValueType.string (some const_id)), next_node g)

  -- appendColumn; a member that the initialiser leaves out keeps its default.
  unfoldable pub append_column : QueryGraph Z F → Bytes → ValueType → QueryGraph Z F × Node
  unfolding append_name emplace_node
  append_column g name type =
      let (g', name_id) = append_name g name in
      let o : Operation = record {
        op = ColumnOperation.column;
        name = name_id;
        const_id = node_none;
        df = node_none;
        type = type;
        sequence = SequenceType.array;
      } in
      (emplace_node g' [] o, next_node g)

  -- appendTable
  unfoldable pub append_table : QueryGraph Z F → Bytes → List Node → QueryGraph Z F × Node
  unfolding append_name emplace_node
  append_table g name col_node_ids =
      let (g', name_id) = append_name g name in
      let o : Operation = record {
        op = ColumnOperation.table;
        name = name_id;
        const_id = node_none;
        df = node_none;
        type = ValueType.any;
        sequence = SequenceType.array;
      } in
      (emplace_node g' col_node_ids o, next_node g)

  -- appendNode; the parameter `sequence` is not used by the source either.
  unfoldable pub append_node :
      QueryGraph Z F
      → Node
      → ColumnOperation
      → ValueType
      → List Node
      → SequenceType
      → QueryGraph Z F × Node
  unfolding emplace_node
  append_node g df op type args sequence =
      let o : Operation = record {
        op = op;
        name = node_none;
        const_id = node_none;
        df = df;
        type = type;
        sequence = SequenceType.single;
      } in
      (emplace_node g args o, next_node g)

  -- The loop of loadTableNames over the columns of the table.
  unfoldable pub load_columns :
      QueryGraph Z F → Bytes → List Node → List (Bytes × Node) → Result (List (Bytes × Node))
  unfolding at
  load_columns g table_name [] ctx = ok ctx
  load_columns g table_name (col ∷ cols) ctx = do
    o ← at g.operations col
    ctx' ← elim o.name [
      | none ↦ ok ctx
      | some i ↦ do
        name ← at g.names (some i)
        let named = bind_name name col ctx
        ok (if is_empty table_name then named else bind_name (qualified table_name name) col named)
    ]
    load_columns g table_name cols ctx'

  -- loadTableNames
  unfoldable pub load_table_names :
      List (Bytes × Node) → QueryGraph Z F → Node → Bytes → Result (List (Bytes × Node))
  unfolding load_columns
  load_table_names ctx g table_node_id table_name = do
    cols ← at g.graph_mapping table_node_id
    load_columns g table_name cols ctx
