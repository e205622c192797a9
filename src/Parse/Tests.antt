-- ===== src/Parse/Tests.antt =====
-- The compiler on a query over one table, and its theorems there.
use dist_storage.Prelude.{
  ◌≡◌, refl, false, none, some, List, [], ◌∷◌, length, Result, ok, throws, undefined,
  invalid_argument, Ensures, raises, Alike, Bytes, codes, ℕ, ◌+◌, Bytes-discrete, bytes_less,
  if◌then◌else◌, ◌>>=◌, ◌==◌, ltb,
}
use dist_storage.Prelude.Maps.{insert_or_assign, lookup}
use dist_storage.Query.Ops.{ColumnOperation, ValueType, is_table_operation}
use dist_storage.Query.Graph.{
  Node, QueryGraph, append_node, append_table, append_column, append_int64_constant, get_node_name,
  load_table_names, set_node_name,
}
use dist_storage.Query.Graph.Built.{empty, empty_graph}
use dist_storage.Query.Df.{fill_df_ids, fill_from, fill_df_ids_walk, walk_children}
use dist_storage.Parse.Literal.{
  ℤ, pos, stoll, leading_digits, unescape_sql_string, unescape_from, escape_at, backslash_escape,
  hex_escape, is_xdigit, normalize_op, without_blanks,
}
use dist_storage.Parse.Words.{meant, canonical, spread, operators}
use dist_storage.Parse.Literal.RoundTrip.{quoted, unescape_sql_string-quoted}
use dist_storage.Parse.Tree.{
  Expr, int_literal, column, binary, between, comparison, and_expr, no_exprs, more_exprs, no_rights,
  no_clause, clause, named, no_joins, from, global_star, element, no_elements, no_sorts, select,
  no_selects, more_selects, select_statement, QueryTree, Clause,
}
use dist_storage.Parse.Visitor.{
  Visitor, push_node, append_operation, known_op, op_at, op_map, find_ident, find_or_insert_table,
  insert_from_schema, insert_table_column_nodes, insert_columns, rename, name_element,
  name_relation, table_alias, enter_table, star_columns, build_select, add_filter, add_unless_empty,
  add_range, offset_or_zero, range_end,
}
use dist_storage.Parse.Visitor.Sane.{Sane, Gives}
use dist_storage.Parse.Visit.{
  visit_expr, visit_query, compile, visit_statement, visit_ctes, visit_query_expression, unite,
  combine, visit_int, visit_column, build_between,
}
use dist_storage.Parse.Visit.Limited.{LimitedQuery, Limited}
use dist_storage.Parse.Visit.Compile.{IsComplete, visit_query-Sane, compile-IsComplete}
use dist_storage.Parse.Denote.{Reading, Scalar, denote}
use dist_storage.Parse.Denote.Push.{Denotes, IsSized}
use dist_storage.Parse.Denote.Steps.{env_of}
use dist_storage.Parse.Denote.Correct.{visit_expr-denote}

-- A hexadecimal escape that is not one: std::isxdigit is called with a negative number.
negative_char : unescape_sql_string (92 ∷ b'x' ∷ 195 ∷ 169 ∷ []) ≡ undefined
unfolding unescape_sql_string unescape_from escape_at backslash_escape hex_escape is_xdigit
negative_char = refl

unescape_sql_string-quoted_example :
    unescape_sql_string (quoted (codes "it's a \\ test")) ≡ ok (codes "it's a \\ test")
unescape_sql_string-quoted_example = unescape_sql_string-quoted (codes "it's a \\ test")

-- A state before any visit, with a table t of the columns a and b.
abbrev start : Visitor ℕ
start = record {
  out_graph = empty_graph;
  file_table_context = [];
  with_table_context = [];
  expr_table_context = [];
  expr_var_context = [];
  db_schema =
      record {
        name = codes "t";
        columns =
            record { name = codes "a"; type = ValueType.int64 }
            ∷ record { name = codes "b"; type = ValueType.int64 }
            ∷ [];
      }
      ∷ [];
}

start-Sane : Sane start
start-Sane = record { built = empty; files = tt; withs = tt; tables = tt; vars = tt }

abbrev no_floats : Bytes → Result ℕ
no_floats text = throws invalid_argument

no_floats-Ensures : (text : Bytes) → Ensures (λ _. Unit) (no_floats text)
no_floats-Ensures text = raises

abbrev column_a : Expr
column_a = column none (codes "a")

-- t.b + 1 < 5 AND a BETWEEN 2 AND 3
abbrev condition : Expr
condition =
    and_expr
      (comparison
        (binary (column (some (codes "t")) (codes "b")) (codes "+") (int_literal (codes "1")))
        (codes "<") (int_literal (codes "5")) no_rights)
      (more_exprs (between column_a false (int_literal (codes "2")) (int_literal (codes "3")))
        no_exprs)

-- SELECT *, a AS c FROM t WHERE condition, with LIMIT and OFFSET
abbrev query_with : Clause → Clause → QueryTree
query_with limit offset = record {
  ctes = [];
  statement = select_statement (
      more_selects
        (select (from (named (codes "t") none) no_joins)
          (global_star (element column_a (some (codes "c")) no_elements)) (clause condition)
          no_exprs no_sorts limit offset)
        no_selects);
}

abbrev one : Clause
one = clause (int_literal (codes "1"))

abbrev query : QueryTree
query = query_with one one

query-Limited : LimitedQuery query
unfolding Limited
query-Limited =
    (tt, (((tt, tt), (tt, tt), (((tt, tt), tt, tt), ((tt, tt, tt), tt)), tt, tt, tt, tt, tt), tt))

-- The number of nodes that a run leaves.
abbrev nodes_of : Result (QueryGraph ℤ ℕ) → Result ℕ
nodes_of r = r >>= λ g. ok (length g.operations)

-- The names that the FROM brings, and a state in which they are known.
abbrev tables : Visitor ℕ
tables =
    let (g1, a) = append_column start.out_graph (codes "a") ValueType.int64 in
    let (g2, b) = append_column g1 (codes "b") ValueType.int64 in
    record start { out_graph = g2; expr_var_context = (codes "a", a) ∷ (codes "t.b", b) ∷ [] }

-- Values of numbers, with true as 1.
abbrev apply : ColumnOperation → List ℕ → ℕ
apply ColumnOperation.add (x ∷ y ∷ []) = x + y
apply ColumnOperation.lt (x ∷ y ∷ []) = if ltb x y then 1 else 0
apply ColumnOperation.lte (x ∷ y ∷ []) = if ltb y x then 0 else 1
apply ColumnOperation.and (x ∷ y ∷ []) = if x == 0 then 0 else y
apply op xs = 7

abbrev magnitude : ℤ → ℕ
magnitude (pos n) = n
magnitude n = 0

abbrev reading : Reading ℕ ℕ
reading = record {
  int_value = magnitude;
  float_value = λ x. x;
  text_value = λ text. length text;
  apply = apply;
}

-- a is 2 and t.b is 3: then t.b + 1 < 5 AND a BETWEEN 2 AND 3.
abbrev val : Node → ℕ
val (some i) = i + 2
val none = 0

condition-Scalar : Scalar condition
unfolding Scalar
condition-Scalar = (((tt, tt), tt, tt), ((tt, tt, tt), tt))

condition_holds : denote reading no_floats (env_of val tables.expr_var_context) condition ≡ ok 1
unfolding denote stoll leading_digits meant canonical spread operators lookup Bytes-discrete
    append_column
condition_holds = refl

compiles : nodes_of (compile no_floats start query) ≡ ok 19
unfolding compile visit_query visit_ctes visit_statement visit_query_expression visit_expr
    fill_df_ids find_or_insert_table find_ident lookup insert_from_schema Bytes-discrete
    name_relation get_node_name insert_table_column_nodes append_table insert_columns append_column
    enter_table table_alias load_table_names visit_column insert_or_assign bytes_less visit_int
    stoll leading_digits known_op op_at op_map normalize_op without_blanks fill_df_ids_walk
    fill_from walk_children is_table_operation rename name_element set_node_name star_columns
    build_select add_range add_filter add_unless_empty offset_or_zero range_end append_operation
    push_node unite combine build_between append_int64_constant append_node
compiles = refl

-- An OFFSET without a LIMIT puts NODE_NONE among the children of a node, and the code that fills the
-- DataFrame ids reads the operation at index -1.
offset_alone : nodes_of (compile no_floats start (query_with no_clause one)) ≡ undefined
unfolding compile visit_query visit_ctes visit_statement visit_query_expression visit_expr
    fill_df_ids find_or_insert_table find_ident lookup insert_from_schema Bytes-discrete
    name_relation get_node_name insert_table_column_nodes append_table insert_columns append_column
    enter_table table_alias load_table_names visit_column insert_or_assign bytes_less visit_int
    stoll leading_digits known_op op_at op_map normalize_op without_blanks fill_df_ids_walk
    fill_from walk_children is_table_operation rename name_element set_node_name star_columns
    build_select add_range add_filter add_unless_empty offset_or_zero range_end append_operation
    push_node unite combine build_between append_int64_constant append_node
offset_alone = refl

tables-IsSized : IsSized tables
unfolding append_column
tables-IsSized = refl

visit_query-Sane_example : Ensures (Gives start) (visit_query no_floats start query)
visit_query-Sane_example =
    visit_query-Sane no_floats no_floats-Ensures start query start-Sane query-Limited

compile-IsComplete_example : Ensures IsComplete (compile no_floats start query)
compile-IsComplete_example =
    compile-IsComplete no_floats no_floats-Ensures start query start-Sane query-Limited

visit_expr-denote_example :
    Alike
      (Denotes reading val tables)
      (visit_expr no_floats tables condition)
      (denote reading no_floats (env_of val tables.expr_var_context) condition)
visit_expr-denote_example =
    visit_expr-denote reading val no_floats tables condition tables-IsSized condition-Scalar
