-- ===== src/Parse/Denote/Correct.antt =====
-- The visits of scalar expressions against their meaning.
use dist_storage.Prelude.{
  none, some, ◌≡◌, refl, ap, ◌∙◌, true, List, [], ◌∷◌, Result, ok, ◌>>=◌, Alike, values, Alike-bind,
  Bytes,
}
use mathlib.Core.Path.{ap₂}
use dist_storage.Query.Ops.{ColumnOperation, ValueType}
use dist_storage.Query.Graph.{Node}
use dist_storage.Parse.Tree.{
  Expr, string_literal, int_literal, float_literal, null_literal, true_literal, false_literal,
  parenthesized, column, binary, is_null, not_expr, between, comparison, and_expr, xor_expr,
  or_expr, unvisited, Exprs, no_exprs, more_exprs, Rights, no_rights, more_rights,
}
use dist_storage.Parse.Visitor.{Context, Visitor, push_node}
use dist_storage.Parse.Visit.{combine, visit_expr, visit_exprs, visit_rights}
use dist_storage.Parse.Denote.{
  Reading, IsValued, computes, denote, denote_exprs, denote_rights, together, Scalar, ScalarExprs,
  ScalarRights,
}
use dist_storage.Parse.Denote.Push.{Carries, Denotes, IsSized, Carries-self, Carries-trans}
use dist_storage.Parse.Denote.Steps.{
  op_at-SameOp, env_of, One, Many, visit_string-One, visit_int-One, visit_float-One,
  visit_keyword-Denotes, visit_column-One, pushed, append_operation-One, combine-Denotes,
  build_between-Denotes,
}

module _ {F V : Type 0} (reading : Reading F V) (val : Node → V) where
  -- A chain, once its first member is visited.
  chained :
      (u v : Visitor F) (op : ColumnOperation) (n : Node) (x : V)
      {m : Result (Visitor F × List Node)} {r : Result (List V)}
      → computes op ≡ true
      → Carries reading val u v
      → (IsValued reading val v.out_graph → val n ≡ x)
      → Many reading val v m r
      → One reading val u
          (m >>= λ p. ok (combine p.0 op n p.1))
          (r >>= λ xs. ok (together reading op x xs))
  chained u v op n x c a e rest = Alike-bind rest (λ (w, ns) xs (b, es). values (
      combine-Denotes reading val u w op n ns x xs c (Carries-trans reading val u v w a b)
        (λ m. e (b.valued m)) es))

  -- A node, and then more nodes.
  listed :
      (u v : Visitor F) (n : Node) (x : V) {m : Result (Visitor F × List Node)}
      {r : Result (List V)}
      → Carries reading val u v
      → (IsValued reading val v.out_graph → val n ≡ x)
      → Many reading val v m r
      → Many reading val u (m >>= λ p. ok (p.0, n ∷ p.1)) (r >>= λ xs. ok (x ∷ xs))
  listed u v n x a e rest = Alike-bind rest (λ (w, ns) xs (b, es).
      values (Carries-trans reading val u v w a b, λ m. ap₂ ◌∷◌ (e (b.valued m)) (es m)))

  module _ (stod : Bytes → Result F) (context : Context) where
    mutual
      unfolding visit_expr denote Scalar

      visit_expr-One :
          (v : Visitor F) (e : Expr)
          → IsSized v
          → v.expr_var_context ≡ context
          → Scalar e
          → One reading val v (visit_expr stod v e) (denote reading stod (env_of val context) e)
      visit_expr-One v (string_literal text) s q l = visit_string-One reading val v text s
      visit_expr-One v (int_literal text) s q l = visit_int-One reading val v text s
      visit_expr-One v (float_literal text) s q l = visit_float-One reading val stod v text s
      visit_expr-One v null_literal s q l =
          values (visit_keyword-Denotes reading val v ColumnOperation.null ValueType.any s refl)
      visit_expr-One v true_literal s q l =
          values (visit_keyword-Denotes reading val v ColumnOperation.true_ ValueType.bool s refl)
      visit_expr-One v false_literal s q l =
          values (visit_keyword-Denotes reading val v ColumnOperation.false_ ValueType.bool s refl)
      visit_expr-One v (parenthesized e) s q l = visit_expr-One v e s q l
      visit_expr-One v (column none name) s q l =
          visit_column-One reading val v context none name s q
      visit_expr-One v (column (some table) name) s q l =
          visit_column-One reading val v context (some table) name s q
      visit_expr-One v (binary left op right) s q (l1, l2) =
          Alike-bind (visit_expr-One v left s q l1) (λ (v1, n1) x (a1, e1).
            Alike-bind (visit_expr-One v1 right a1.sized (a1.names ∙ q) l2) (λ (v2, n2) y (a2, e2).
              append_operation-One reading val v v2 op (n1 ∷ n2 ∷ []) (x ∷ y ∷ [])
                (Carries-trans reading val v v1 v2 a1 a2)
                (λ m. ap₂ (λ z w. z ∷ w ∷ []) (e1 (a2.valued m)) (e2 m))))
      visit_expr-One v (is_null left op) s q l = elim l [ ]
      visit_expr-One v (not_expr op e) s q l =
          Alike-bind (visit_expr-One v e s q l) (λ (v1, n) x (a, ex).
            append_operation-One reading val v v1 op (n ∷ []) (x ∷ []) a
              (λ m. ap (λ z. z ∷ []) (ex m)))
      visit_expr-One v (between left not_op lower upper) s q (l2, l1, l3) =
          Alike-bind (visit_expr-One v lower s q l1) (λ (v1, n1) x1 (a1, e1).
            Alike-bind (visit_expr-One v1 left a1.sized (a1.names ∙ q) l2) (λ (v2, n2) x2 (a2, e2).
              let to2 = Carries-trans reading val v v1 v2 a1 a2 in
              Alike-bind (visit_expr-One v2 upper a2.sized (to2.names ∙ q) l3)
                (λ (v3, n3) x3 (a3, e3). values (
                  build_between-Denotes reading val v v3 not_op n1 n2 n3 x1 x2 x3
                    (Carries-trans reading val v v2 v3 to2 a3) (λ m. e1 (a2.valued (a3.valued m)))
                    (λ m. e2 (a3.valued m)) e3))))
      visit_expr-One v (comparison left op right rights) s q (l1, l2, l3) =
          Alike-bind (visit_expr-One v left s q l1) (λ (v1, n1) x (a1, e1).
            Alike-bind (visit_expr-One v1 right a1.sized (a1.names ∙ q) l2) (λ (v2, n2) y (a2, e2).
              Alike-bind (op_at-SameOp op) (λ op1 op2 same.
                let args = n1 ∷ n2 ∷ [] in
                let to2 = Carries-trans reading val v v1 v2 a1 a2 in
                let (a3, e3) =
                  pushed reading val v2 v2 op1 op2 ValueType.any args (x ∷ y ∷ [])
                    (Carries-self reading val v2 a2.sized) same
                    (λ m. ap₂ (λ z w. z ∷ w ∷ []) (e1 (a2.valued m)) (e2 m)) in
                let (v3, cmp) = push_node v2 op1 ValueType.any args in
                let to3 = Carries-trans reading val v v2 v3 to2 a3 in
                chained v v3 ColumnOperation.and cmp _ refl to3 e3 (
                  visit_rights-Many v3 n2 y rights a3.sized (to3.names ∙ q) (λ m. e2 (a3.valued m))
                    l3))))
      visit_expr-One v (and_expr e args) s q (l, ls) =
          Alike-bind (visit_expr-One v e s q l) (λ (v1, n) x (a, ex).
            chained v v1 ColumnOperation.and n x refl a ex
              (visit_exprs-Many v1 args a.sized (a.names ∙ q) ls))
      visit_expr-One v (xor_expr e args) s q (l, ls) =
          Alike-bind (visit_expr-One v e s q l) (λ (v1, n) x (a, ex).
            chained v v1 ColumnOperation.xor n x refl a ex
              (visit_exprs-Many v1 args a.sized (a.names ∙ q) ls))
      visit_expr-One v (or_expr e args) s q (l, ls) =
          Alike-bind (visit_expr-One v e s q l) (λ (v1, n) x (a, ex).
            chained v v1 ColumnOperation.or n x refl a ex
              (visit_exprs-Many v1 args a.sized (a.names ∙ q) ls))
      visit_expr-One v (unvisited args _) s q l = elim l [ ]

      visit_exprs-Many :
          (v : Visitor F) (es : Exprs)
          → IsSized v
          → v.expr_var_context ≡ context
          → ScalarExprs es
          → Many reading val v
              (visit_exprs stod v es)
              (denote_exprs reading stod (env_of val context) es)
      visit_exprs-Many v no_exprs s q l = values (Carries-self reading val v s, λ m. refl)
      visit_exprs-Many v (more_exprs e args) s q (l, ls) =
          Alike-bind (visit_expr-One v e s q l) (λ (v1, n) x (a, ex).
            listed v v1 n x a ex (visit_exprs-Many v1 args a.sized (a.names ∙ q) ls))

      visit_rights-Many :
          (v : Visitor F) (left : Node) (x : V) (rights : Rights)
          → IsSized v
          → v.expr_var_context ≡ context
          → (IsValued reading val v.out_graph → val left ≡ x)
          → ScalarRights rights
          → Many reading val v
              (visit_rights stod v left rights)
              (denote_rights reading stod (env_of val context) x rights)
      visit_rights-Many v left x no_rights s q el l =
          values (Carries-self reading val v s, λ m. refl)
      visit_rights-Many v left x (more_rights op right rights) s q el (l, ls) =
          Alike-bind (visit_expr-One v right s q l) (λ (v1, n) y (a1, e1).
            Alike-bind (op_at-SameOp op) (λ op1 op2 same.
              let args = left ∷ n ∷ [] in
              let (a2, e2) =
                pushed reading val v1 v1 op1 op2 ValueType.any args (x ∷ y ∷ [])
                  (Carries-self reading val v1 a1.sized) same
                  (λ m. ap₂ (λ z w. z ∷ w ∷ []) (el (a1.valued m)) (e1 m)) in
              let (v2, cmp) = push_node v1 op1 ValueType.any args in
              let to2 = Carries-trans reading val v v1 v2 a1 a2 in
              listed v v2 cmp _ to2 e2 (
                visit_rights-Many v2 n y rights a2.sized (to2.names ∙ q) (λ m. e1 (a2.valued m))
                  ls)))

  -- On an expression without IS NULL, casts, functions, IN and subqueries, from a graph with as many
  -- lists of children as operations, the visit ends as the meaning of the expression does, in which every
  -- operator stands for the operation whose word it is, in SQL's own list of words, and a name for the
  -- node that it is bound to; literals are read by unescapeSqlString and the number functions of the
  -- standard library. Where one throws, the other throws the same exception, and where one is undefined,
  -- so is the other. Where they return, the visit keeps the names, any values of nodes that respect the
  -- new graph respect the old one, and they give the new node the value that the expression means.
  pub visit_expr-denote :
      (stod : Bytes → Result F) (v : Visitor F) (e : Expr)
      → IsSized v
      → Scalar e
      → Alike
          (Denotes reading val v)
          (visit_expr stod v e)
          (denote reading stod (env_of val v.expr_var_context) e)
  visit_expr-denote stod v e s l = visit_expr-One stod v.expr_var_context v e s refl l
