-- ===== src/Parse/Visitor.antt =====
-- The state of SqlVisitor (minion/planner/parse/parse_query.cc) and its operations on names, tables and
-- operators. `F` is double and `stod` is std::stod.
pub mod Sane
pub mod Steps
pub mod Tables
pub mod Nodes
use dist_storage.Prelude.{
  ite, ◌&&◌, ℕ, Bool, true, false, not, ◌||◌, Option, none, some, List, [], ◌∷◌, ◌++◌, length,
  Result, ok, throws, ◌>>=◌, out_of_range, compile_error, runtime_error, Bytes, Bytes-discrete,
  bytes_less, codes, if◌then◌else◌, ◌==◌,
}
use dist_storage.Prelude.Maps.{lookup, insert_or_assign}
use dist_storage.Query.Ops.{ColumnOperation, ValueType, SequenceType, is_table_operation}
use dist_storage.Query.Graph.{
  Node, node_none, QueryGraph, at, append_column, append_table, append_node, set_node_name,
  get_node_name, load_table_names, is_empty, bind_name, append_int64_constant,
}
use dist_storage.Parse.Literal.{ℤ, pos, normalize_op}

-- data::ColumnSchema
pub record ColumnSchema : Type 0 where
  pub name : Bytes
  pub type : ValueType

-- data::TableSchema, without the id, which nothing reads.
pub record TableSchema : Type 0 where
  pub name : Bytes
  pub columns : List ColumnSchema

-- std::map<std::string, node_t>
abbrev pub Context : Type 0
Context = List (Bytes × Node)

-- SqlVisitor
pub record Visitor (F : Type 0) : Type 0 where
  pub out_graph : QueryGraph ℤ F
  pub file_table_context : Context
  pub with_table_context : Context
  pub expr_table_context : Context
  pub expr_var_context : Context
  pub db_schema : List TableSchema

abbrev op_of : ColumnOperation → Bytes → Bytes × ColumnOperation
op_of op text = (text, op)

-- opMap; only lookups read it, so the order of the entries does not matter.
unfoldable pub op_map : List (Bytes × ColumnOperation)
op_map =
    op_of ColumnOperation.add (codes "+")
    ∷ op_of ColumnOperation.sub (codes "-")
    ∷ op_of ColumnOperation.mul (codes "*")
    ∷ op_of ColumnOperation.div (codes "/")
    ∷ op_of ColumnOperation.or (codes "|")
    ∷ op_of ColumnOperation.or (codes "||")
    ∷ op_of ColumnOperation.or (codes "OR")
    ∷ op_of ColumnOperation.and (codes "&")
    ∷ op_of ColumnOperation.and (codes "&&")
    ∷ op_of ColumnOperation.and (codes "AND")
    ∷ op_of ColumnOperation.xor (codes "^")
    ∷ op_of ColumnOperation.xor (codes "XOR")
    ∷ op_of ColumnOperation.not (codes "~")
    ∷ op_of ColumnOperation.not (codes "!")
    ∷ op_of ColumnOperation.not (codes "NOT")
    ∷ op_of ColumnOperation.neq (codes "!=")
    ∷ op_of ColumnOperation.neq (codes "<>")
    ∷ op_of ColumnOperation.lte (codes "<=")
    ∷ op_of ColumnOperation.gte (codes ">=")
    ∷ op_of ColumnOperation.lt (codes "<")
    ∷ op_of ColumnOperation.gt (codes ">")
    ∷ op_of ColumnOperation.eq (codes "=")
    ∷ op_of ColumnOperation.eq (codes "==")
    ∷ op_of ColumnOperation.in_ (codes "IN")
    ∷ op_of ColumnOperation.not_in (codes "NOTIN")
    ∷ op_of ColumnOperation.like (codes "LIKE")
    ∷ op_of ColumnOperation.not_like (codes "NOTLIKE")
    ∷ op_of ColumnOperation.ilike (codes "ILIKE")
    ∷ op_of ColumnOperation.not_ilike (codes "NOTILIKE")
    ∷ op_of ColumnOperation.is_null (codes "ISNULL")
    ∷ op_of ColumnOperation.is_not_null (codes "ISNOTNULL")
    ∷ op_of ColumnOperation.null (codes "NULL")
    ∷ op_of ColumnOperation.true_ (codes "TRUE")
    ∷ op_of ColumnOperation.false_ (codes "FALSE")
    ∷ []

abbrev pub or_else : Option ColumnOperation → Result ColumnOperation → Result ColumnOperation
or_else none r = r
or_else (some op) r = ok op

-- The lookup of appendOperation.
unfoldable pub known_op : Bytes → Result ColumnOperation
known_op text = or_else (lookup Bytes-discrete (normalize_op text) op_map) (throws compile_error)

-- opMap.at
unfoldable pub op_at : Bytes → Result ColumnOperation
op_at text = or_else (lookup Bytes-discrete text op_map) (throws out_of_range)

-- findIdent
unfoldable pub find_ident : Bytes → List Context → Node
find_ident ident [] = node_none
find_ident ident (context ∷ contexts) = elim (lookup Bytes-discrete ident context) [
  | some node ↦ node
  | none ↦ find_ident ident contexts
]

-- The text of a name with the table before it.
abbrev pub dotted : Option Bytes → Bytes → Bytes
dotted none name = name
dotted (some table) name = table ++ codes "." ++ name

-- col.first.find('.') != npos
abbrev has_dot : Bytes → Bool
has_dot [] = false
has_dot (c ∷ text) = (c == b'.') || has_dot text

-- The loop over the columns for a global star.
unfoldable pub star_columns : Context → List Node
star_columns [] = []
star_columns ((name, node) ∷ context) =
    let rest = star_columns context in if has_dot name then rest else node ∷ rest

abbrev pub same_text : Bytes → Bytes → Bool
same_text a b = ite (Bytes-discrete a b) true false

module _ {F : Type 0} where
  -- appendNode without a DataFrame id
  unfoldable pub push_node : Visitor F → ColumnOperation → ValueType → List Node → Visitor F × Node
  push_node v op type args =
      let (graph, node) = append_node v.out_graph node_none op type args SequenceType.single in
      (record v { out_graph = graph }, node)

  -- appendOperation, once the arguments are visited.
  unfoldable pub append_operation : Visitor F → Bytes → List Node → Result (Visitor F × Node)
  append_operation v op args = do
    op_value ← known_op op
    ok (push_node v op_value ValueType.any args)

  -- The loop of insertTableColumnNodes.
  unfoldable pub insert_columns : QueryGraph ℤ F → List ColumnSchema → QueryGraph ℤ F × List Node
  insert_columns g [] = (g, [])
  insert_columns g (col ∷ columns) =
      let (g1, node) = append_column g col.name col.type in
      let (g2, nodes) = insert_columns g1 columns in (g2, node ∷ nodes)

  -- insertTableColumnNodes
  unfoldable pub insert_table_column_nodes : QueryGraph ℤ F → TableSchema → QueryGraph ℤ F × Node
  insert_table_column_nodes g schema =
      let (g1, cols) = insert_columns g schema.columns in append_table g1 schema.name cols

  -- The loop of findOrInsertTable over the schema.
  unfoldable pub insert_from_schema :
      Visitor F → Bytes → List TableSchema → Result (Visitor F × Node)
  insert_from_schema v name [] = throws compile_error
  insert_from_schema v name (schema ∷ schemas) =
      let (g, node) = insert_table_column_nodes v.out_graph schema in
      let rest = insert_from_schema v name schemas in
      if same_text schema.name name
      then ok (
        record v { out_graph = g; file_table_context = bind_name name node v.file_table_context },
        node,
      )
      else rest

  -- findOrInsertTable
  unfoldable pub find_or_insert_table : Visitor F → Bytes → Result (Visitor F × Node)
  find_or_insert_table v name =
      elim (find_ident name (v.file_table_context ∷ v.with_table_context ∷ [])) [
        | none ↦ insert_from_schema v name v.db_schema
        | some table ↦ do
          o ← at v.out_graph.operations (some table)
          if is_table_operation o.op then ok (v, some table) else throws compile_error
      ]

  -- setNodeName
  unfoldable pub rename : Visitor F → Node → Bytes → Result (Visitor F)
  rename v node name = do
    graph ← set_node_name v.out_graph node name
    ok (record v { out_graph = graph })

  -- The alias of a select element.
  unfoldable pub name_element : Visitor F → Node → Option Bytes → Result (Visitor F)
  name_element v _ none = ok v
  name_element v node (some alias) = rename v node alias

  -- The alias of a relation, which names a node that has no name.
  unfoldable pub name_relation : Visitor F → Node → Option Bytes → Result (Visitor F × Node)
  name_relation v node none = do expr_name ← get_node_name v.out_graph node; ok (v, node)
  name_relation v node (some alias) = do
    expr_name ← get_node_name v.out_graph node
    v' ← if is_empty expr_name && not (is_empty alias) then rename v node alias else ok v
    ok (v', node)

  -- The text by which a table is known in a select.
  unfoldable pub table_alias : Visitor F → Node → Option Bytes → Result Bytes
  table_alias v node none = get_node_name v.out_graph node
  table_alias v _ (some alias) = ok alias

  -- The names that a table brings into a select.
  unfoldable pub enter_table : Visitor F → Node → Option Bytes → Result (Visitor F)
  enter_table v node alias = do
    name ← table_alias v node alias
    vars ← load_table_names v.expr_var_context v.out_graph node name
    let v' = record v { expr_var_context = vars }
    ok (
        if is_empty name
        then v'
        else record v' { expr_table_context = bind_name name node v.expr_table_context })

  -- The nodes that a select builds at its end, one after the other.
  unfoldable pub add_filter : Visitor F → Node → List Node → Visitor F × Node
  add_filter v df [] = (v, df)
  add_filter v df (filter ∷ []) =
      push_node v ColumnOperation.filter ValueType.any (df ∷ filter ∷ [])
  add_filter v df filters =
      let (v', both) = push_node v ColumnOperation.and ValueType.any filters in
      push_node v' ColumnOperation.filter ValueType.any (df ∷ both ∷ [])

  unfoldable pub add_unless_empty :
      Visitor F → Node → ColumnOperation → List Node → Visitor F × Node
  add_unless_empty v df op [] = (v, df)
  add_unless_empty v df op nodes = push_node v op ValueType.any (df ∷ nodes)

  -- appendInt64Constant(out_graph, 0) for a missing OFFSET
  unfoldable pub offset_or_zero : Visitor F → Node → Visitor F × Node
  offset_or_zero v none =
      let (graph, zero_node) = append_int64_constant v.out_graph (pos 0) in
      (record v { out_graph = graph }, zero_node)
  offset_or_zero v (some node) = (v, some node)

  -- The end of the range, if there is a LIMIT.
  unfoldable pub range_end : Visitor F → Node → Node → Visitor F × Node
  range_end v offset none = (v, none)
  range_end v offset (some limit) =
      push_node v ColumnOperation.add ValueType.int64 (offset ∷ some limit ∷ [])

  unfoldable pub add_range : Visitor F → Node → Node → Node → Visitor F × Node
  add_range v df none none = (v, df)
  add_range v df limit offset =
      let (v1, start) = offset_or_zero v offset in
      let (v2, end) = range_end v1 start limit in
      push_node v2 ColumnOperation.range ValueType.any (df ∷ start ∷ end ∷ [])

  -- "Construct graph nodes" of visitSelectStatement
  unfoldable pub build_select :
      Visitor F → List Node → List Node → List Node → List Node → Node → Node → Visitor F × Node
  build_select v columns filters groups orders limit offset =
      let (v1, df) = push_node v ColumnOperation.df ValueType.any columns in
      let (v2, filtered) = add_filter v1 df filters in
      let (v3, grouped) = add_unless_empty v2 filtered ColumnOperation.group groups in
      let (v4, sorted) = add_unless_empty v3 grouped ColumnOperation.sort orders in
      add_range v4 sorted limit offset
