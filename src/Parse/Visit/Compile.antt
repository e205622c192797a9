-- ===== src/Parse/Visit/Compile.antt =====
-- parseAndPrintSQL from the syntax tree on.
use dist_storage.Prelude.{
  ◌≤◌, ◌≡◌, List, [], ◌∷◌, length, Result, Ensures, returns, raises, Ensures-bind, Ensures-imp,
  Bytes, arith, ◌∙◌, sym,
}
use dist_storage.Query.Graph.{QueryGraph, bind_name}
use dist_storage.Query.Graph.Access.{at-total}
use dist_storage.Query.Graph.Bounds.{Built-IsWellFormed}
use dist_storage.Query.Mapping.Edges.{IsClosed}
use dist_storage.Query.Df.Fill.{fill_df_ids_lem}
use dist_storage.Parse.Literal.{ℤ}
use dist_storage.Parse.Tree.{
  Selects, Statement, select_statement, update_statement, delete_statement, QueryTree,
}
use dist_storage.Parse.Visitor.{Visitor}
use dist_storage.Parse.Visitor.Sane.{
  Known-mono, Known-bind_name, size, Sane, Grown, Gives, Grown-self, Grown-trans,
}
use dist_storage.Parse.Visitor.Nodes.{Gives-after}
use dist_storage.Parse.Visit.{
  visit_query_expression, visit_ctes, visit_statement, visit_query, compile,
}
use dist_storage.Parse.Visit.Limited.{LimitedSelects, LimitedCtes, LimitedStatement, LimitedQuery}
use dist_storage.Parse.Visit.Leaves.{unite-Gives}
use dist_storage.Parse.Visit.Safety.{visit_selects-Ensures}

-- Every node of the graph has its children, and they are nodes of the graph.
abbrev pub IsComplete : {F : Type 0} → QueryGraph ℤ F → Type 0
IsComplete g = (length g.graph_mapping ≡ length g.operations) × IsClosed g.graph_mapping

module _ {F : Type 0} (stod : Bytes → Result F)
    (number : (str : Bytes) → Ensures (λ _. Unit) (stod str)) where
  visit_query_expression-Ensures :
      (v : Visitor F) (selects : Selects)
      → Sane v
      → LimitedSelects selects
      → Ensures (Gives v) (visit_query_expression stod v selects)
  unfolding visit_query_expression
  visit_query_expression-Ensures v selects s l =
      Ensures-bind (visit_selects-Ensures stod number v selects s l)
        (λ (v1, ns) (g, all). returns (Gives-after v v1 _ g (unite-Gives v1 ns g.sane all)))

  visit_ctes-Ensures :
      (v : Visitor F) (ctes : List (Bytes × Selects))
      → Sane v
      → LimitedCtes ctes
      → Ensures (Grown v) (visit_ctes stod v ctes)
  unfolding visit_ctes
  visit_ctes-Ensures v [] s l = returns (Grown-self v s)
  visit_ctes-Ensures v ((alias, selects) ∷ ctes) s (l, ls) =
      Ensures-bind (visit_query_expression-Ensures v selects s l) (λ (v1, n) (g, r).
        let v2 = record v1 { with_table_context = bind_name alias n v1.with_table_context } in
        let s1 = g.sane in
        let s2 : Sane v2 = record {
          built = s1.built;
          files = s1.files;
          withs = Known-bind_name (size v1) alias n v1.with_table_context r s1.withs;
          tables = s1.tables;
          vars = s1.vars;
        } in
        let to2 : Grown v v2 = record { sane = s2; more = g.more } in
        Ensures-imp (visit_ctes-Ensures v2 ctes s2 ls) (λ w. Grown-trans v v2 w to2))

  visit_statement-Ensures :
      (v : Visitor F) (statement : Statement)
      → Sane v
      → LimitedStatement statement
      → Ensures (Gives v) (visit_statement stod v statement)
  unfolding visit_statement
  visit_statement-Ensures v (select_statement selects) s l =
      visit_query_expression-Ensures v selects s l
  visit_statement-Ensures v update_statement s l = raises
  visit_statement-Ensures v delete_statement s l = raises

  -- In a sane state, on a tree in which every select with an OFFSET has a LIMIT and no string literal has
  -- a byte from 128 to 254 among the two behind a \x or \X, and if std::stod returns a number or throws, visitQuery never has undefined behaviour: it throws, or it gives a node
  -- of the graph and leaves a sane state again, in which the graph is one that the functions of graph.h
  -- build, no node is lost, and every table and every name stands for a node of the graph.
  pub visit_query-Sane :
      (v : Visitor F) (query : QueryTree)
      → Sane v
      → LimitedQuery query
      → Ensures (Gives v) (visit_query stod v query)
  unfolding visit_query
  visit_query-Sane v query s (lc, ls) =
      let v0 = record v { with_table_context = [] } in
      let s0 : Sane v0 = record {
        built = s.built;
        files = s.files;
        withs = tt;
        tables = s.tables;
        vars = s.vars;
      } in
      Ensures-bind (visit_ctes-Ensures v0 query.ctes s0 lc) (λ v1 g1.
        Ensures-bind (visit_statement-Ensures v1 query.statement g1.sane ls) (λ (v2, n) (g2, r).
          let s2 = g2.sane in
          let more : size v ≤ size v2 = omega (arith, g1.more, g2.more) in
          returns (
            record {
              sane = record {
                built = s2.built;
                files = s2.files;
                withs = Known-mono _ _ v.with_table_context more s.withs;
                tables = s2.tables;
                vars = s2.vars;
              };
              more = more;
            },
            r,
          )))

  -- In a sane state, on a tree in which every select with an OFFSET has a LIMIT and no string literal has
  -- a byte from 128 to 254 among the two behind a \x or \X, and if std::stod returns a number or throws, compiling the tree and filling the DataFrame ids never has undefined
  -- behaviour: it throws, or it gives a graph in which every node has its list of children and every
  -- child is a node.
  pub compile-IsComplete :
      (v : Visitor F) (tree : QueryTree)
      → Sane v
      → LimitedQuery tree
      → Ensures IsComplete (compile stod v tree)
  unfolding compile
  compile-IsComplete v tree s l = Ensures-bind (visit_query-Sane v tree s l) (λ (w, n) (g, r).
      let graph = w.out_graph in
      let sane = g.sane in
      let wf = Built-IsWellFormed graph sane.built in
      let (i, _, lt) = r in
      let (o, has) = at-total graph.operations i lt in
      let (ops, done, same, _) =
        fill_df_ids_lem graph.operations graph.graph_mapping i o wf.sized wf.closed has in
      rw done (returns (wf.sized ∙ sym same, wf.closed)))
