-- ===== src/Query/Hashes.antt =====
-- The node hashes of minion/planner/query/graph.h, modulo 2^64.
pub mod Bounds
use dist_storage.Prelude.{
  ℕ, suc, ◌+◌, ◌*◌, ◌-◌, ◌%◌, ◌^◌, ◌≡◌, refl, none, some, List, [], ◌∷◌, length, Result, ok, ◌>>=◌,
  Bool, true, false, not, if◌then◌else◌, arith,
}
use dist_storage.Query.Ops.{ColumnOperation, ValueType, SequenceType, op_code, is_cummutative}
use dist_storage.Query.Graph.{Node, Operation, Mapping, at, assign}
use dist_storage.Query.Df.{is_leaf}

-- The wrap-around of node_hash_t.
abbrev pub hash_wrap : ℕ → ℕ
hash_wrap n = n % 2 ^ 64

-- A node_t as a node_hash_t.
abbrev pub node_word : Node → ℕ
node_word none = 2 ^ 64 - 1
node_word (some i) = i

-- The numbers of the enums in data.proto.
unfoldable pub type_code : ValueType → ℕ
type_code ValueType.bool = 0
type_code ValueType.int8 = 1
type_code ValueType.uint8 = 2
type_code ValueType.int16 = 3
type_code ValueType.uint16 = 4
type_code ValueType.int32 = 5
type_code ValueType.uint32 = 6
type_code ValueType.int64 = 7
type_code ValueType.uint64 = 8
type_code ValueType.float32 = 9
type_code ValueType.float64 = 10
type_code ValueType.string = 11
type_code ValueType.bytes = 12
type_code ValueType.any = 13
type_code ValueType.json = 14

unfoldable pub sequence_code : SequenceType → ℕ
sequence_code SequenceType.any = 0
sequence_code SequenceType.single = 1
sequence_code SequenceType.array = 2

-- hashChildrenPositional, with the hash so far.
unfoldable pub hash_children_positional : ℕ → List Node → List ℕ → Result ℕ
hash_children_positional hash [] node_hashes = ok hash
hash_children_positional hash (child ∷ children) node_hashes = do
  h ← at node_hashes child
  hash_children_positional (hash_wrap ((hash + h + 82937) * 4565)) children node_hashes

-- hashChildrenSet, with the hash so far.
unfoldable pub hash_children_set : ℕ → List Node → ℕ
hash_children_set hash [] = hash
hash_children_set hash (child ∷ children) =
    hash_children_set (hash_wrap (hash * (hash + 989673))) children

-- The value that both loops start from.
abbrev pub hash_seed : ℕ
hash_seed = 583747

-- hashOperationParams
unfoldable pub hash_operation_params : Operation → ℕ
hash_operation_params op =
    let h1 = hash_wrap (45643 * 5667 + op_code op.op) in
    let h2 = hash_wrap (h1 * 5453 + node_word op.name) in
    let h3 = hash_wrap (h2 * 4567 + node_word op.const_id) in
    let h4 = hash_wrap (h3 * 6357 + node_word op.df) in
    let h5 = hash_wrap (h4 * 8763 + type_code op.type) in
    hash_wrap (h5 * 5 + sequence_code op.sequence * 3)

-- The hash of the children in fillNodeHashes.
unfoldable pub child_hash : Operation → List Node → List ℕ → Result ℕ
child_hash o children node_hashes =
    if is_leaf children
    then ok 0
    else if not (is_cummutative o.op)
    then hash_children_positional hash_seed children node_hashes
    else ok (hash_children_set hash_seed children)

-- fillNodeHashes
unfoldable pub fill_node_hashes : Mapping → List Operation → List Node → List ℕ → Result (List ℕ)
fill_node_hashes graph_mapping operations [] node_hashes = ok node_hashes
fill_node_hashes graph_mapping operations (node ∷ order) node_hashes = do
  children ← at graph_mapping node
  o ← at operations node
  hash ← child_hash o children node_hashes
  node_hashes' ← assign node_hashes node (hash_wrap (hash_operation_params o + hash))
  fill_node_hashes graph_mapping operations order node_hashes'
