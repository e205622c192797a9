-- ===== src/Parse/Visit.antt =====
-- The visit functions of SqlVisitor (minion/planner/parse/parse_query.cc) on a syntax tree. The visits
-- that only pass their child's result on are left out of the trees. Where a rule has no visit function,
-- ANTLR visits its children in order and gives the result of the last: a token has none, and
-- std::any_cast then throws.
pub mod Limited
pub mod Texts
pub mod Leaves
pub mod Parts
pub mod Safety
pub mod Compile
use dist_storage.Prelude.{
  ℕ, Bool, true, false, Option, none, some, List, [], ◌∷◌, ◌++◌, Result, ok, throws, ◌>>=◌,
  bad_any_cast, compile_error, Bytes, if◌then◌else◌,
}
use dist_storage.Query.Ops.{ColumnOperation, ValueType, SequenceType}
use dist_storage.Query.Graph.{
  Node, node_none, QueryGraph, append_string_constant, append_int64_constant,
  append_float64_constant, append_node, bind_name,
}
use dist_storage.Query.Df.{fill_df_ids}
use dist_storage.Parse.Literal.{ℤ, unquoted, unescape_sql_string, stoll}
use dist_storage.Parse.Tree.{
  Expr, string_literal, int_literal, float_literal, null_literal, true_literal, false_literal,
  parenthesized, column, binary, is_null, not_expr, between, comparison, and_expr, xor_expr,
  or_expr, unvisited, Exprs, no_exprs, more_exprs, Rights, no_rights, more_rights, Clause,
  no_clause, clause, Relation, named, derived, Joins, no_joins, more_joins, From, no_from, from,
  Elements, no_elements, global_star, table_star, element, Sorts, no_sorts, more_sorts, Select,
  select, Selects, no_selects, more_selects, Statement, select_statement, update_statement,
  delete_statement, QueryTree,
}
use dist_storage.Parse.Visitor.{
  Visitor, TableSchema, find_ident, dotted, star_columns, push_node, append_operation, op_at,
  find_or_insert_table, name_element, name_relation, enter_table, build_select,
}

abbrev pub first_or_none : List Node → Node
first_or_none [] = node_none
first_or_none (n ∷ ns) = n

abbrev pub relation_alias : Relation → Option Bytes
relation_alias (named name alias) = alias
relation_alias (derived tree alias) = alias

module _ {F : Type 0} where
  -- A node for several arguments, or the one argument itself.
  unfoldable pub combine : Visitor F → ColumnOperation → Node → List Node → Visitor F × Node
  combine v op n [] = (v, n)
  combine v op n ns = push_node v op ValueType.any (n ∷ ns)

  -- The end of visitQueryExpression.
  unfoldable pub unite : Visitor F → List Node → Visitor F × Node
  unite v (n ∷ []) = (v, n)
  unite v ns = push_node v ColumnOperation.union ValueType.any ns

  -- visitLiteralExpr on a string
  unfoldable pub visit_string : Visitor F → Bytes → Result (Visitor F × Node)
  visit_string v text = do
    str ← unquoted text
    unescaped ← unescape_sql_string str
    let (g, n) = append_string_constant v.out_graph unescaped
    ok (record v { out_graph = g }, n)

  -- visitLiteralExpr on an integer
  unfoldable pub visit_int : Visitor F → Bytes → Result (Visitor F × Node)
  visit_int v text = do
    num ← stoll text
    let (g, n) = append_int64_constant v.out_graph num
    ok (record v { out_graph = g }, n)

  -- visitLiteralExpr on a keyword: a node without arguments, with the DataFrame id 0 of a constant
  unfoldable pub visit_keyword : Visitor F → ColumnOperation → ValueType → Visitor F × Node
  visit_keyword v op type =
      let (g, n) = append_node v.out_graph (some 0) op type [] SequenceType.single in
      (record v { out_graph = g }, n)

  -- visitColumnExpr
  unfoldable pub visit_column : Visitor F → Option Bytes → Bytes → Result (Visitor F × Node)
  visit_column v table name = elim (find_ident (dotted table name) (v.expr_var_context ∷ [])) [
    | none ↦ throws compile_error
    | some n ↦ ok (v, some n)
  ]

  -- visitBetweenExpr, once the three arguments are visited
  unfoldable pub build_between : Visitor F → Bool → Node → Node → Node → Visitor F × Node
  build_between v not_op lower middle upper =
      let (v1, cmp1) = push_node v ColumnOperation.lte ValueType.any (lower ∷ middle ∷ []) in
      let (v2, cmp2) = push_node v1 ColumnOperation.lte ValueType.any (middle ∷ upper ∷ []) in
      push_node v2 (if not_op then ColumnOperation.nand else ColumnOperation.and) ValueType.any
        (cmp1 ∷ cmp2 ∷ [])

  -- The node of an ORDER BY item.
  unfoldable pub sort_item : Visitor F → Node → Bool → Visitor F × Node
  sort_item v n false = (v, n)
  sort_item v n true = push_node v ColumnOperation.desc ValueType.any (n ∷ [])

  module _ (stod : Bytes → Result F) where
    -- visitLiteralExpr on a decimal number
    unfoldable pub visit_float : Visitor F → Bytes → Result (Visitor F × Node)
    visit_float v text = do
      num ← stod text
      let (g, n) = append_float64_constant v.out_graph num
      ok (record v { out_graph = g }, n)

    unfoldable mutual
      pub visit_expr : Visitor F → Expr → Result (Visitor F × Node)
      visit_expr v (string_literal text) = visit_string v text
      visit_expr v (int_literal text) = visit_int v text
      visit_expr v (float_literal text) = visit_float v text
      visit_expr v null_literal = ok (visit_keyword v ColumnOperation.null ValueType.any)
      visit_expr v true_literal = ok (visit_keyword v ColumnOperation.true_ ValueType.bool)
      visit_expr v false_literal = ok (visit_keyword v ColumnOperation.false_ ValueType.bool)
      visit_expr v (parenthesized e) = visit_expr v e
      visit_expr v (column table name) = visit_column v table name
      visit_expr v (binary left op right) = do
        (v1, l) ← visit_expr v left
        (v2, r) ← visit_expr v1 right
        append_operation v2 op (l ∷ r ∷ [])
      visit_expr v (is_null left op) = append_operation v op []
      visit_expr v (not_expr op e) = do (v1, n) ← visit_expr v e; append_operation v1 op (n ∷ [])
      visit_expr v (between left not_op lower upper) = do
        (v1, l) ← visit_expr v lower
        (v2, m) ← visit_expr v1 left
        (v3, u) ← visit_expr v2 upper
        ok (build_between v3 not_op l m u)
      visit_expr v (comparison left op right rights) = do
        (v1, l) ← visit_expr v left
        (v2, r) ← visit_expr v1 right
        op_value ← op_at op
        let (v3, cmp) = push_node v2 op_value ValueType.any (l ∷ r ∷ [])
        (v4, cmps) ← visit_rights v3 r rights
        ok (combine v4 ColumnOperation.and cmp cmps)
      visit_expr v (and_expr e args) = do
        (v1, n) ← visit_expr v e
        (v2, ns) ← visit_exprs v1 args
        ok (combine v2 ColumnOperation.and n ns)
      visit_expr v (xor_expr e args) = do
        (v1, n) ← visit_expr v e
        (v2, ns) ← visit_exprs v1 args
        ok (combine v2 ColumnOperation.xor n ns)
      visit_expr v (or_expr e args) = do
        (v1, n) ← visit_expr v e
        (v2, ns) ← visit_exprs v1 args
        ok (combine v2 ColumnOperation.or n ns)
      visit_expr v (unvisited args selects) = do
        (v1, ns) ← visit_exprs v args
        (v2, ms) ← visit_selects v1 selects
        throws bad_any_cast

      pub visit_exprs : Visitor F → Exprs → Result (Visitor F × List Node)
      visit_exprs v no_exprs = ok (v, [])
      visit_exprs v (more_exprs e args) = do
        (v1, n) ← visit_expr v e
        (v2, ns) ← visit_exprs v1 args
        ok (v2, n ∷ ns)

      -- The loop of visitComparisonExpr, from the node on the left.
      pub visit_rights : Visitor F → Node → Rights → Result (Visitor F × List Node)
      visit_rights v left no_rights = ok (v, [])
      visit_rights v left (more_rights op right rights) = do
        (v1, r) ← visit_expr v right
        op_value ← op_at op
        let (v2, cmp) = push_node v1 op_value ValueType.any (left ∷ r ∷ [])
        (v3, cmps) ← visit_rights v2 r rights
        ok (v3, cmp ∷ cmps)

      pub visit_clause : Visitor F → Clause → Result (Visitor F × List Node)
      visit_clause v no_clause = ok (v, [])
      visit_clause v (clause e) = do (v1, n) ← visit_expr v e; ok (v1, n ∷ [])

      -- visitRelation
      pub visit_relation : Visitor F → Relation → Result (Visitor F × Node)
      visit_relation v (named name alias) = do
        (v1, table) ← find_or_insert_table v name
        name_relation v1 table alias
      visit_relation v (derived selects alias) = do
        (v1, ns) ← visit_selects v selects
        let (v2, table) = unite v1 ns
        name_relation v2 table alias

      -- The loop over the joins: the tables and the conditions. A relation is visited twice.
      pub visit_joins : Visitor F → Joins → Result (Visitor F × List Node × List Node)
      visit_joins v no_joins = ok (v, [], [])
      visit_joins v (more_joins relation on joins) = do
        (v1, first) ← visit_relation v relation
        (v2, table) ← visit_relation v1 relation
        v3 ← enter_table v2 table (relation_alias relation)
        (v4, filters) ← visit_clause v3 on
        (v5, tables, later) ← visit_joins v4 joins
        ok (v5, table ∷ tables, filters ++ later)

      pub visit_from : Visitor F → From → Result (Visitor F × List Node × List Node)
      visit_from v no_from = ok (v, [], [])
      visit_from v (from relation joins) = do
        (v1, table) ← visit_relation v relation
        v2 ← enter_table v1 table (relation_alias relation)
        (v3, tables, filters) ← visit_joins v2 joins
        ok (v3, table ∷ tables, filters)

      pub visit_elements : Visitor F → Elements → Result (Visitor F × List Node)
      visit_elements v no_elements = ok (v, [])
      visit_elements v (global_star elements) = do
        (v1, ns) ← visit_elements v elements
        ok (v1, star_columns v.expr_var_context ++ ns)
      visit_elements v (table_star table elements) = visit_elements v elements
      visit_elements v (element e alias elements) = do
        (v1, n) ← visit_expr v e
        v2 ← name_element v1 n alias
        (v3, ns) ← visit_elements v2 elements
        ok (v3, n ∷ ns)

      pub visit_sorts : Visitor F → Sorts → Result (Visitor F × List Node)
      visit_sorts v no_sorts = ok (v, [])
      visit_sorts v (more_sorts e desc sorts) = do
        (v1, n) ← visit_expr v e
        let (v2, m) = sort_item v1 n desc
        (v3, ns) ← visit_sorts v2 sorts
        ok (v3, m ∷ ns)

      -- visitSelectStatement. At its end the outer exprVarContext is restored, and exprTableContext is
      -- not: both assignments of the source go to exprVarContext.
      pub visit_select : Visitor F → Select → Result (Visitor F × Node)
      visit_select v (select tables elements where_ group_by order_by limit offset) = do
        let inner = record v { expr_table_context = []; expr_var_context = [] }
        (v1, table_ids, on_filters) ← visit_from inner tables
        (v2, column_ids) ← visit_elements v1 elements
        (v3, where_filters) ← visit_clause v2 where_
        (v4, group_ids) ← visit_exprs v3 group_by
        (v5, order_ids) ← visit_sorts v4 order_by
        (v6, offset_ids) ← visit_clause v5 offset
        (v7, limit_ids) ← visit_clause v6 limit
        let (v8, df) =
            build_select v7 (table_ids ++ column_ids) (on_filters ++ where_filters) group_ids
              order_ids (first_or_none limit_ids) (first_or_none offset_ids)
        ok (record v8 { expr_var_context = v.expr_var_context }, df)

      -- The loop of visitQueryExpression.
      pub visit_selects : Visitor F → Selects → Result (Visitor F × List Node)
      visit_selects v no_selects = ok (v, [])
      visit_selects v (more_selects s selects) = do
        (v1, n) ← visit_select v s
        (v2, ns) ← visit_selects v1 selects
        ok (v2, n ∷ ns)

    -- visitQueryExpression
    unfoldable pub visit_query_expression : Visitor F → Selects → Result (Visitor F × Node)
    visit_query_expression v selects = do (v1, ns) ← visit_selects v selects; ok (unite v1 ns)

    -- The loop of visitQuery over the WITH clauses.
    unfoldable pub visit_ctes : Visitor F → List (Bytes × Selects) → Result (Visitor F)
    visit_ctes v [] = ok v
    visit_ctes v ((alias, selects) ∷ ctes) = do
      (v1, n) ← visit_query_expression v selects
      visit_ctes (record v1 { with_table_context = bind_name alias n v1.with_table_context }) ctes

    unfoldable pub visit_statement : Visitor F → Statement → Result (Visitor F × Node)
    visit_statement v (select_statement selects) = visit_query_expression v selects
    visit_statement v update_statement = throws compile_error
    visit_statement v delete_statement = throws compile_error

    -- visitQuery
    unfoldable pub visit_query : Visitor F → QueryTree → Result (Visitor F × Node)
    visit_query v query = do
      v1 ← visit_ctes (record v { with_table_context = [] }) query.ctes
      (v2, n) ← visit_statement v1 query.statement
      ok (record v2 { with_table_context = v.with_table_context }, n)

    -- parseAndPrintSQL from the tree on: the graph that it prints.
    unfoldable pub compile : Visitor F → QueryTree → Result (QueryGraph ℤ F)
    compile visitor tree = do
      (v, n) ← visit_query visitor tree
      operations ← fill_df_ids v.out_graph.operations v.out_graph.graph_mapping
      ok (record v.out_graph { operations = operations })
