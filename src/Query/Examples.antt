-- ===== src/Query/Examples.antt =====
-- Runs of the DataFrame ids, the rules on them and the edge lists, and the theorems at them.
use dist_storage.Prelude.{
  ℕ, ◌<◌, Bytes, codes, ◌>>=◌, ◌≢◌, true, ◌≡◌, refl, none, some, List, [], ◌∷◌, length, ok, arith,
  All,
}
use dist_storage.Query.Visited.{fill_visited, next_mark, visit_children}
use dist_storage.Query.Visited.Reach.{unmarked, fill_visited-Reach}
use dist_storage.Query.Visited.Run.{Seen, Reach}
use dist_storage.Query.Hashes.{fill_node_hashes}
use dist_storage.Query.Hashes.Bounds.{fill_node_hashes_lem}
use dist_storage.Query.Constants.{get_numeric_constant, append_int64_constant-get_numeric_constant}
use dist_storage.Query.Graph.Built.{empty_graph, Given, Built, table, column, empty, IsWellFormed}
use dist_storage.Query.Graph.Bounds.{Built-IsWellFormed}
use dist_storage.Query.Graph.Lookups.{load_table_names-Built}
use dist_storage.Query.Ops.{ColumnOperation, ValueType, SequenceType}
use dist_storage.Query.Graph.{
  Node, Operation, Mapping, QueryGraph, at, assign, emplace_node, append_name, append_column,
  append_table, append_int64_constant, append_float64_constant, load_table_names,
}
use dist_storage.Query.Rules.{Nodes}
use dist_storage.Query.Rules.Extends.{Has, Keeps}
use dist_storage.Query.Mapping.{
  get_graph_mapping, revert_graph_mapping, get_edges_list, Node-discrete,
}
use dist_storage.Query.Mapping.Edges.{IsClosed, InRange}
use dist_storage.Query.Mapping.RoundTrip.{
  count, revert_graph_mapping-count, get_graph_mapping-get_edges_list,
}
use dist_storage.Query.Df.{fill_df_ids, pull_df_applies, pull_df_apply, common_df}
use dist_storage.Query.Df.Fill.{own_df, fill_df_ids_lem}
use dist_storage.Query.Df.Pull.{Agrees, pull_df_apply-Agrees}

abbrev with_df : ColumnOperation → Node → Operation
with_df op df = record {
  op = op;
  name = none;
  const_id = none;
  df = df;
  type = ValueType.any;
  sequence = SequenceType.single;
}

-- Two sums share a child.
abbrev shared : Mapping
shared = [] ∷ (some 0 ∷ some 0 ∷ []) ∷ (some 0 ∷ some 1 ∷ []) ∷ []

shared-IsClosed : IsClosed shared
shared-IsClosed = (
  tt,
  (
    ((0, refl, omega arith), ((0, refl, omega arith), tt)),
    (((0, refl, omega arith), ((1, refl, omega arith), tt)), tt),
  ),
)

shared_at1 : at shared (some 1) ≡ ok (some 0 ∷ some 0 ∷ [])
unfolding at
shared_at1 = refl

revert_graph_mapping-count_example :
    (r : Mapping) × (ys : List Node) × (revert_graph_mapping shared ≡ ok r)
    × (length r ≡ length shared)
    × (at r (some 0) ≡ ok ys)
    × (count (some 1) ys ≡ count (some 0) (some 0 ∷ some 0 ∷ []))
revert_graph_mapping-count_example =
    revert_graph_mapping-count shared 1 0 (some 0 ∷ some 0 ∷ []) shared-IsClosed shared_at1
      (omega arith)

get_graph_mapping-get_edges_list_example :
    (h : Mapping) × (get_graph_mapping (get_edges_list shared) ≡ ok h)
    × (at h (some 1) ≡ ok (some 0 ∷ some 0 ∷ []))
get_graph_mapping-get_edges_list_example =
    get_graph_mapping-get_edges_list shared 1 (some 0) (some 0 ∷ []) shared_at1

-- A column, a table on it, and a filter of the table.
abbrev tables : List Operation
tables =
    with_df ColumnOperation.column none
    ∷ with_df ColumnOperation.table none
    ∷ with_df ColumnOperation.filter none
    ∷ []

abbrev tables_mapping : Mapping
tables_mapping = [] ∷ (some 0 ∷ []) ∷ (some 0 ∷ some 1 ∷ []) ∷ []

tables-IsClosed : IsClosed tables_mapping
tables-IsClosed = (
  tt,
  (((0, refl, omega arith), tt), (((0, refl, omega arith), ((1, refl, omega arith), tt)), tt)),
)

tables_at2 : at tables (some 2) ≡ ok (with_df ColumnOperation.filter none)
unfolding at
tables_at2 = refl

fill_df_ids_lem_example :
    (qs : List Operation) × (fill_df_ids tables tables_mapping ≡ ok qs)
    × (length qs ≡ length tables)
    × (at qs (some 2) ≡ ok (own_df 2 (with_df ColumnOperation.filter none)))
fill_df_ids_lem_example =
    fill_df_ids_lem tables tables_mapping 2 (with_df ColumnOperation.filter none) refl
      tables-IsClosed tables_at2

-- A sum in DataFrame 2 of a column in DataFrame 1 and a constant.
abbrev pulled : Nodes
pulled = record {
  operations =
      with_df ColumnOperation.column (some 1)
      ∷ with_df ColumnOperation.const (some 0)
      ∷ with_df ColumnOperation.add (some 2)
      ∷ [];
  graph_mapping = [] ∷ [] ∷ (some 0 ∷ some 1 ∷ []) ∷ [];
}

pulled_node : Has pulled (some 2) (with_df ColumnOperation.add (some 2)) (some 0 ∷ some 1 ∷ [])
unfolding at
pulled_node = (refl, refl)

pulled_applies : pull_df_applies pulled (some 2) ≡ ok true
unfolding pull_df_applies common_df at Node-discrete
pulled_applies = refl

pull_df_apply-Agrees_example :
    (m : Nodes) × (new : Node) × (df : Node) × (pull_df_apply pulled (some 2) ≡ ok (m, new))
    × Keeps pulled m
    × Has m new (with_df ColumnOperation.add df) (some 0 ∷ some 1 ∷ [])
    × (df ≢ some 0)
    × (df ≢ some 2)
    × All (Agrees pulled.operations df) (some 0 ∷ some 1 ∷ [])
pull_df_apply-Agrees_example =
    pull_df_apply-Agrees pulled (some 2) (with_df ColumnOperation.add (some 2))
      (some 0 ∷ some 1 ∷ []) refl pulled_node pulled_applies

-- Table t with the column a, built by the functions; constants are native numbers.
abbrev with_column : QueryGraph ℕ ℕ
with_column = (append_column empty_graph (codes "a") ValueType.int64).0

abbrev with_table : QueryGraph ℕ ℕ
with_table = (append_table with_column (codes "t") (some 0 ∷ [])).0

column-Given : Given with_column (some 0 ∷ [])
unfolding append_column append_name emplace_node
column-Given = ((0, refl, omega arith), tt)

with_table-Built : Built with_table
with_table-Built =
    table (codes "t") (some 0 ∷ []) column-Given (column (codes "a") ValueType.int64 empty)

table_below : 1 < length with_table.operations
unfolding append_table append_column append_name emplace_node
table_below = omega arith

Built-IsWellFormed_example : IsWellFormed with_table
Built-IsWellFormed_example = Built-IsWellFormed with_table with_table-Built

load_table_names-Built_example :
    (ctx' : List (Bytes × Node)) × (load_table_names [] with_table (some 1) (codes "t") ≡ ok ctx')
load_table_names-Built_example =
    load_table_names-Built [] with_table 1 (codes "t") with_table-Built table_below

append_int64_constant-get_numeric_constant_example :
    ((at (append_int64_constant with_column 5).0.operations (append_int64_constant with_column 5).1
        >>= get_numeric_constant (λ z. z) (λ x. x) (append_int64_constant with_column 5).0)
      ≡ ok 5)
    × ((at
            (append_float64_constant with_column 6).0.operations
            (append_float64_constant with_column 6).1
          >>= get_numeric_constant (λ z. z) (λ x. x) (append_float64_constant with_column 6).0)
        ≡ ok 6)
append_int64_constant-get_numeric_constant_example =
    append_int64_constant-get_numeric_constant (λ z. z) (λ x. x) with_column 5 6

tables_order : All (InRange 3) (some 0 ∷ some 1 ∷ some 2 ∷ [])
tables_order = ((0, refl, omega arith), ((1, refl, omega arith), ((2, refl, omega arith), tt)))

fill_node_hashes_lem_example :
    (hs : List ℕ) × (fill_node_hashes tables_mapping tables
        (some 0 ∷ some 1 ∷ some 2 ∷ [])
        (0 ∷ 0 ∷ 0 ∷ [])
      ≡ ok hs)
    × (length hs ≡ 3)
fill_node_hashes_lem_example =
    fill_node_hashes_lem tables_mapping tables (some 0 ∷ some 1 ∷ some 2 ∷ []) (0 ∷ 0 ∷ 0 ∷ []) refl
      tables-IsClosed tables_order refl

-- A cycle of the nodes 0 and 1, with 2 below them and 3 above.
abbrev cyclic : Mapping
cyclic = (some 1 ∷ []) ∷ (some 0 ∷ some 2 ∷ []) ∷ [] ∷ (some 0 ∷ []) ∷ []

marks_cyclic : fill_visited 4 cyclic (unmarked 4) (some 0) 1 ≡ ok (1 ∷ 2 ∷ 3 ∷ 0 ∷ [])
unfolding fill_visited next_mark visit_children at assign
marks_cyclic = refl

cyclic-IsClosed : IsClosed cyclic
cyclic-IsClosed = (
  ((1, refl, omega arith), tt),
  (
    ((0, refl, omega arith), ((2, refl, omega arith), tt)),
    (tt, (((0, refl, omega arith), tt), tt)),
  ),
)

fill_visited-Reach_example :
    (ws : List ℕ) × (fill_visited 4 cyclic (unmarked 4) (some 0) 1 ≡ ok ws)
    × ((j : ℕ) → (Seen ws j → Reach cyclic 0 j) × (Reach cyclic 0 j → Seen ws j))
fill_visited-Reach_example =
    fill_visited-Reach cyclic 0 0 cyclic-IsClosed (omega arith) (omega arith)
