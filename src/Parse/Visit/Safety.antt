-- ===== src/Parse/Visit/Safety.antt =====
-- The visits of SqlVisitor on trees in which every OFFSET has a LIMIT, and no string literal an x escape
-- with a negative char behind it. `stod` is std::stod, which
-- returns a number or throws.
use dist_storage.Prelude.{
  refl, [], ◌∷◌, ◌++◌, All-append, Result, Ensures, returns, raises, Ensures-bind, Bytes,
}
use dist_storage.Query.Ops.{ColumnOperation, ValueType}
use dist_storage.Query.Graph.{Node}
use dist_storage.Query.Mapping.Edges.{InRange}
use dist_storage.Parse.Tree.{
  Expr, string_literal, int_literal, float_literal, null_literal, true_literal, false_literal,
  parenthesized, column, binary, is_null, not_expr, between, comparison, and_expr, xor_expr,
  or_expr, unvisited, Exprs, no_exprs, more_exprs, Rights, no_rights, more_rights, Clause,
  no_clause, clause, Relation, named, derived, Joins, no_joins, more_joins, From, no_from, from,
  Elements, no_elements, global_star, table_star, element, Sorts, no_sorts, more_sorts, Select,
  select, Selects, no_selects, more_selects,
}
use dist_storage.Parse.Visitor.{Visitor, push_node, star_columns}
use dist_storage.Parse.Visitor.Sane.{
  size, Sane, Gives, GivesAll, Grown-self, Grown-trans, Grown-node, Grown-nodes, star_columns-Known,
  push_node-Gives,
}
use dist_storage.Parse.Visitor.Steps.{
  op_at-Ensures, name_element-Ensures, name_relation-Ensures, enter_table-Ensures,
  append_operation-Ensures,
}
use dist_storage.Parse.Visitor.Tables.{find_or_insert_table-Ensures}
use dist_storage.Parse.Visitor.Nodes.{Gives-after, build_select-Gives}
use dist_storage.Parse.Visit.{
  visit_expr, visit_exprs, visit_rights, visit_clause, visit_relation, visit_joins, visit_from,
  visit_elements, visit_sorts, visit_select, visit_selects, unite, sort_item, relation_alias,
  first_or_none,
}
use dist_storage.Parse.Visit.Limited.{
  Limited, LimitedExprs, LimitedRights, LimitedClause, LimitedRelation, LimitedJoins, LimitedFrom,
  LimitedElements, LimitedSorts, LimitedSelect, LimitedSelects,
}
use dist_storage.Parse.Visit.Parts.{
  missing, given, ClauseNodes-All, ClauseNodes-mono, ClauseNodes-Limits, GivesClause, GivesBoth,
  fresh, restored, after, more_nodes, combined,
}
use dist_storage.Parse.Visit.Leaves.{
  unite-Gives, visit_string-Ensures, visit_int-Ensures, visit_float-Ensures, visit_keyword-Gives,
  visit_column-Ensures, build_between-Gives, sort_item-Gives,
}

module _ {F : Type 0} where
  module _ (stod : Bytes → Result F) (number : (str : Bytes) → Ensures (λ _. Unit) (stod str)) where
    mutual
      unfolding visit_expr Limited

      visit_expr-Ensures :
          (v : Visitor F) (e : Expr) → Sane v → Limited e → Ensures (Gives v) (visit_expr stod v e)
      visit_expr-Ensures v (string_literal str) s l = visit_string-Ensures v str s l
      visit_expr-Ensures v (int_literal str) s l = visit_int-Ensures v str s
      visit_expr-Ensures v (float_literal str) s l = visit_float-Ensures stod number v str s
      visit_expr-Ensures v null_literal s l =
          returns (visit_keyword-Gives v ColumnOperation.null ValueType.any s)
      visit_expr-Ensures v true_literal s l =
          returns (visit_keyword-Gives v ColumnOperation.true_ ValueType.bool s)
      visit_expr-Ensures v false_literal s l =
          returns (visit_keyword-Gives v ColumnOperation.false_ ValueType.bool s)
      visit_expr-Ensures v (parenthesized e) s l = visit_expr-Ensures v e s l
      visit_expr-Ensures v (column table name) s l = visit_column-Ensures v table name s
      visit_expr-Ensures v (binary left op right) s (l1, l2) =
          Ensures-bind (visit_expr-Ensures v left s l1) (λ (v1, n1) (g1, r1).
            Ensures-bind (visit_expr-Ensures v1 right g1.sane l2) (λ (v2, n2) (g2, r2).
              after v v2 (Grown-trans v v1 v2 g1 g2) (
                append_operation-Ensures v2 op (n1 ∷ n2 ∷ []) g2.sane
                  (Grown-node v1 v2 n1 g2 r1, (r2, tt)))))
      visit_expr-Ensures v (is_null left op) s l = append_operation-Ensures v op [] s tt
      visit_expr-Ensures v (not_expr op e) s l =
          Ensures-bind (visit_expr-Ensures v e s l) (λ (v1, n) (g, r).
            after v v1 g (append_operation-Ensures v1 op (n ∷ []) g.sane (r, tt)))
      visit_expr-Ensures v (between left not_op lower upper) s (l2, l1, l3) =
          Ensures-bind (visit_expr-Ensures v lower s l1) (λ (v1, n1) (g1, r1).
            Ensures-bind (visit_expr-Ensures v1 left g1.sane l2) (λ (v2, n2) (g2, r2).
              Ensures-bind (visit_expr-Ensures v2 upper g2.sane l3) (λ (v3, n3) (g3, r3).
                let to2 = Grown-trans v1 v2 v3 g2 g3 in
                returns (
                  Gives-after v v3 _ (Grown-trans v v1 v3 g1 to2) (
                    build_between-Gives v3 not_op n1 n2 n3 g3.sane (Grown-node v1 v3 n1 to2 r1)
                      (Grown-node v2 v3 n2 g3 r2) r3)))))
      visit_expr-Ensures v (comparison left op right rights) s (l1, l2, l3) =
          Ensures-bind (visit_expr-Ensures v left s l1) (λ (v1, n1) (g1, r1).
            Ensures-bind (visit_expr-Ensures v1 right g1.sane l2) (λ (v2, n2) (g2, r2).
              Ensures-bind (op_at-Ensures op) (λ op_value _.
                let args = n1 ∷ n2 ∷ [] in
                let (g3, r3) =
                  push_node-Gives v2 op_value ValueType.any args g2.sane
                    (Grown-node v1 v2 n1 g2 r1, (r2, tt)) in
                let (v3, cmp) = push_node v2 op_value ValueType.any args in
                combined v v3 ColumnOperation.and cmp
                  (Grown-trans v v1 v3 g1 (Grown-trans v1 v2 v3 g2 g3)) r3
                  (visit_rights-Ensures v3 n2 rights g3.sane (Grown-node v2 v3 n2 g3 r2) l3))))
      visit_expr-Ensures v (and_expr e args) s (l, ls) =
          Ensures-bind (visit_expr-Ensures v e s l) (λ (v1, n) (g, r).
            combined v v1 ColumnOperation.and n g r (visit_exprs-Ensures v1 args g.sane ls))
      visit_expr-Ensures v (xor_expr e args) s (l, ls) =
          Ensures-bind (visit_expr-Ensures v e s l) (λ (v1, n) (g, r).
            combined v v1 ColumnOperation.xor n g r (visit_exprs-Ensures v1 args g.sane ls))
      visit_expr-Ensures v (or_expr e args) s (l, ls) =
          Ensures-bind (visit_expr-Ensures v e s l) (λ (v1, n) (g, r).
            combined v v1 ColumnOperation.or n g r (visit_exprs-Ensures v1 args g.sane ls))
      visit_expr-Ensures v (unvisited args selects) s (l, ls) =
          Ensures-bind (visit_exprs-Ensures v args s l) (λ (v1, ns) (g, all).
            Ensures-bind (visit_selects-Ensures v1 selects g.sane ls) (λ (v2, ms) _. raises))

      visit_exprs-Ensures :
          (v : Visitor F) (es : Exprs)
          → Sane v
          → LimitedExprs es
          → Ensures (GivesAll v) (visit_exprs stod v es)
      visit_exprs-Ensures v no_exprs s l = returns (Grown-self v s, tt)
      visit_exprs-Ensures v (more_exprs e args) s (l, ls) =
          Ensures-bind (visit_expr-Ensures v e s l)
            (λ (v1, n) (g, r). more_nodes v v1 n g r (visit_exprs-Ensures v1 args g.sane ls))

      visit_rights-Ensures :
          (v : Visitor F) (left : Node) (rights : Rights)
          → Sane v
          → InRange (size v) left
          → LimitedRights rights
          → Ensures (GivesAll v) (visit_rights stod v left rights)
      visit_rights-Ensures v left no_rights s rl l = returns (Grown-self v s, tt)
      visit_rights-Ensures v left (more_rights op right rights) s rl (l, ls) =
          Ensures-bind (visit_expr-Ensures v right s l) (λ (v1, n) (g1, r1).
            Ensures-bind (op_at-Ensures op) (λ op_value _.
              let args = left ∷ n ∷ [] in
              let (g2, r2) =
                push_node-Gives v1 op_value ValueType.any args g1.sane
                  (Grown-node v v1 left g1 rl, (r1, tt)) in
              let (v2, cmp) = push_node v1 op_value ValueType.any args in
              more_nodes v v2 cmp (Grown-trans v v1 v2 g1 g2) r2
                (visit_rights-Ensures v2 n rights g2.sane (Grown-node v1 v2 n g2 r1) ls)))

      visit_clause-Ensures :
          (v : Visitor F) (c : Clause)
          → Sane v
          → LimitedClause c
          → Ensures (GivesClause v c) (visit_clause stod v c)
      visit_clause-Ensures v no_clause s l = returns (Grown-self v s, missing)
      visit_clause-Ensures v (clause e) s l =
          Ensures-bind (visit_expr-Ensures v e s l) (λ (v1, n) (g, r). returns (g, given r))

      visit_relation-Ensures :
          (v : Visitor F) (relation : Relation)
          → Sane v
          → LimitedRelation relation
          → Ensures (Gives v) (visit_relation stod v relation)
      visit_relation-Ensures v (named name alias) s l =
          Ensures-bind (find_or_insert_table-Ensures v name s)
            (λ (v1, n) (g, r). after v v1 g (name_relation-Ensures v1 n alias g.sane r))
      visit_relation-Ensures v (derived selects alias) s l =
          Ensures-bind (visit_selects-Ensures v selects s l) (λ (v1, ns) (g1, all).
            let (g2, r) = unite-Gives v1 ns g1.sane all in
            let (v2, n) = unite v1 ns in
            after v v2 (Grown-trans v v1 v2 g1 g2) (name_relation-Ensures v2 n alias g2.sane r))

      pub visit_selects-Ensures :
          (v : Visitor F) (ss : Selects)
          → Sane v
          → LimitedSelects ss
          → Ensures (GivesAll v) (visit_selects stod v ss)
      visit_selects-Ensures v no_selects s l = returns (Grown-self v s, tt)
      visit_selects-Ensures v (more_selects x ss) s (l, ls) =
          Ensures-bind (visit_select-Ensures v x s l)
            (λ (v1, n) (g, r). more_nodes v v1 n g r (visit_selects-Ensures v1 ss g.sane ls))

      visit_joins-Ensures :
          (v : Visitor F) (joins : Joins)
          → Sane v
          → LimitedJoins joins
          → Ensures (GivesBoth v) (visit_joins stod v joins)
      visit_joins-Ensures v no_joins s l = returns (Grown-self v s, tt, tt)
      visit_joins-Ensures v (more_joins relation on joins) s (l, lc, ls) =
          Ensures-bind (visit_relation-Ensures v relation s l) (λ (v1, first) (g1, r1).
            Ensures-bind (visit_relation-Ensures v1 relation g1.sane l) (λ (v2, table) (g2, r2).
              Ensures-bind (enter_table-Ensures v2 table (relation_alias relation) g2.sane r2)
                (λ v3 g3.
                  Ensures-bind (visit_clause-Ensures v3 on g3.sane lc) (λ (v4, filters) (g4, rf).
                    Ensures-bind (visit_joins-Ensures v4 joins g4.sane ls)
                      (λ (v5, tables, later) (g5, rt, rl).
                        let to5 = Grown-trans v3 v4 v5 g4 g5 in
                        let from2 = Grown-trans v2 v3 v5 g3 to5 in
                        let here = Grown-nodes v4 v5 filters g5 (ClauseNodes-All _ on filters rf) in
                        returns (
                          Grown-trans v v1 v5 g1 (Grown-trans v1 v2 v5 g2 from2),
                          (Grown-node v2 v5 table from2 r2, rt),
                          All-append _ filters later here rl,
                        ))))))

      visit_from-Ensures :
          (v : Visitor F) (tables : From)
          → Sane v
          → LimitedFrom tables
          → Ensures (GivesBoth v) (visit_from stod v tables)
      visit_from-Ensures v no_from s l = returns (Grown-self v s, tt, tt)
      visit_from-Ensures v (from relation joins) s (l, ls) =
          Ensures-bind (visit_relation-Ensures v relation s l) (λ (v1, table) (g1, r1).
            Ensures-bind (enter_table-Ensures v1 table (relation_alias relation) g1.sane r1)
              (λ v2 g2.
                Ensures-bind (visit_joins-Ensures v2 joins g2.sane ls)
                  (λ (v3, tables, filters) (g3, rt, rf).
                    let from1 = Grown-trans v1 v2 v3 g2 g3 in
                    returns
                      (Grown-trans v v1 v3 g1 from1, (Grown-node v1 v3 table from1 r1, rt), rf))))

      visit_elements-Ensures :
          (v : Visitor F) (elements : Elements)
          → Sane v
          → LimitedElements elements
          → Ensures (GivesAll v) (visit_elements stod v elements)
      visit_elements-Ensures v no_elements s l = returns (Grown-self v s, tt)
      visit_elements-Ensures v (global_star elements) s l =
          Ensures-bind (visit_elements-Ensures v elements s l) (λ (v1, ns) (g, all).
            let stars = star_columns-Known (size v) v.expr_var_context s.vars in
            returns (
              g,
              All-append _ (star_columns v.expr_var_context) ns (Grown-nodes v v1 _ g stars) all,
            ))
      visit_elements-Ensures v (table_star table elements) s l =
          visit_elements-Ensures v elements s l
      visit_elements-Ensures v (element e alias elements) s (l, ls) =
          Ensures-bind (visit_expr-Ensures v e s l) (λ (v1, n) (g1, r).
            Ensures-bind (name_element-Ensures v1 n alias g1.sane r) (λ v2 g2.
              more_nodes v v2 n (Grown-trans v v1 v2 g1 g2) (Grown-node v1 v2 n g2 r)
                (visit_elements-Ensures v2 elements g2.sane ls)))

      visit_sorts-Ensures :
          (v : Visitor F) (sorts : Sorts)
          → Sane v
          → LimitedSorts sorts
          → Ensures (GivesAll v) (visit_sorts stod v sorts)
      visit_sorts-Ensures v no_sorts s l = returns (Grown-self v s, tt)
      visit_sorts-Ensures v (more_sorts e desc sorts) s (l, ls) =
          Ensures-bind (visit_expr-Ensures v e s l) (λ (v1, n) (g1, r1).
            let (g2, r2) = sort_item-Gives v1 n desc g1.sane r1 in
            let (v2, m) = sort_item v1 n desc in
            more_nodes v v2 m (Grown-trans v v1 v2 g1 g2) r2
              (visit_sorts-Ensures v2 sorts g2.sane ls))

      visit_select-Ensures :
          (v : Visitor F) (x : Select)
          → Sane v
          → LimitedSelect x
          → Ensures (Gives v) (visit_select stod v x)
      visit_select-Ensures v (select tables elements where_ group_by order_by limit offset) s
            (l1, l2, l3, l4, l5, l6, l7, lr) =
          let v0 = record v { expr_table_context = []; expr_var_context = [] } in
          Ensures-bind (visit_from-Ensures v0 tables (fresh v s) l1)
            (λ (v1, ts, on_fs) (g1, rt, ron).
              Ensures-bind (visit_elements-Ensures v1 elements g1.sane l2) (λ (v2, cs) (g2, rc).
                Ensures-bind (visit_clause-Ensures v2 where_ g2.sane l3) (λ (v3, ws) (g3, rw_).
                  Ensures-bind (visit_exprs-Ensures v3 group_by g3.sane l4) (λ (v4, gs) (g4, rg).
                    Ensures-bind (visit_sorts-Ensures v4 order_by g4.sane l5) (λ (v5, os) (g5, ro).
                      Ensures-bind (visit_clause-Ensures v5 offset g5.sane l7)
                        (λ (v6, offs) (g6, roff).
                          Ensures-bind (visit_clause-Ensures v6 limit g6.sane l6)
                            (λ (v7, lims) (g7, rlim).
                              let a5 = Grown-trans v5 v6 v7 g6 g7 in
                              let a4 = Grown-trans v4 v5 v7 g5 a5 in
                              let a3 = Grown-trans v3 v4 v7 g4 a4 in
                              let a2 = Grown-trans v2 v3 v7 g3 a3 in
                              let a1 = Grown-trans v1 v2 v7 g2 a2 in
                              let a0 = Grown-trans v0 v1 v7 g1 a1 in
                              returns (
                                restored v v0 v7 s a0 refl _ (
                                  build_select-Gives v7 (ts ++ cs) (on_fs ++ ws) gs os
                                    (first_or_none lims) (first_or_none offs) g7.sane
                                    (All-append _ ts cs (Grown-nodes v1 v7 ts a1 rt)
                                      (Grown-nodes v2 v7 cs a2 rc))
                                    (All-append _ on_fs ws (Grown-nodes v1 v7 on_fs a1 ron)
                                      (Grown-nodes v3 v7 ws a3 (ClauseNodes-All _ where_ ws rw_)))
                                    (Grown-nodes v4 v7 gs a4 rg) (Grown-nodes v5 v7 os a5 ro)
                                    (ClauseNodes-Limits _ limit offset lims offs lr rlim
                                      (ClauseNodes-mono _ _ offset offs g7.more roff)))))))))))
