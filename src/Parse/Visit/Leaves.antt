-- ===== src/Parse/Visit/Leaves.antt =====
-- The visits without an expression below them, and the nodes that a visit builds when its children are
-- visited: none is undefined, and the node that it gives is a node of the graph.
use dist_storage.Prelude.{
  compile_error, invalid_argument, out_of_range, ltb, ◌^◌, ◌==◌, zero, suc, ◌<◌, ℕ, ◌≡◌, refl, Bool,
  true, false, Option, none, some, List, [], ◌∷◌, length-append, All, Result, ok, throws, Ensures,
  returns, raises, Ensures-bind, Bytes, if◌then◌else◌,
}
use dist_storage.Query.Ops.{ColumnOperation, ValueType, SequenceType}
use dist_storage.Query.Graph.{
  Node, append_string_constant, append_int64_constant, append_float64_constant, append_node,
  emplace_node,
}
use dist_storage.Query.Graph.Built.{text, int64, float64, operation}
use dist_storage.Query.Mapping.Edges.{InRange}
use dist_storage.Parse.Literal.{
  stoll, to_positive, to_negative, leading_digits, is_digit, starts_with_digit, pos, negsuc,
}
use dist_storage.Parse.Visit.Limited.{wide_escape}
use dist_storage.Parse.Visit.Texts.{unquoted-Ensures, unescape-Ensures}
use dist_storage.Parse.Visitor.{Visitor, push_node, find_ident, dotted}
use dist_storage.Parse.Visitor.Sane.{
  find_ident-Known, size, Sane, Gives, Grown-self, Grown-trans, Grown-node, Gives-graph,
  push_node-Gives,
}
use dist_storage.Parse.Visitor.Nodes.{Gives-after}
use dist_storage.Parse.Visit.{
  combine, unite, visit_string, visit_int, visit_float, visit_keyword, visit_column, build_between,
  sort_item,
}

to_positive-Ensures : (n : ℕ) → Ensures (λ _. Unit) (to_positive n)
to_positive-Ensures n = choice (ltb n (2 ^ 63))
  where
    choice : (b : Bool) → Ensures (λ _. Unit) (if b then ok (pos n) else throws out_of_range)
    choice true = returns tt
    choice false = raises

to_negative-Ensures : (n : ℕ) → Ensures (λ _. Unit) (to_negative n)
to_negative-Ensures zero = returns tt
to_negative-Ensures (suc n) = choice (ltb n (2 ^ 63))
  where
    choice : (b : Bool) → Ensures (λ _. Unit) (if b then ok (negsuc n) else throws out_of_range)
    choice true = returns tt
    choice false = raises

-- std::stoll returns a number or throws.
stoll-Ensures : (str : Bytes) → Ensures (λ _. Unit) (stoll str)
unfolding stoll
stoll-Ensures [] = raises
stoll-Ensures (c ∷ str) = choice (c == b'-') (starts_with_digit str) (is_digit c)
  where
    choice :
        (minus next digit : Bool)
        → Ensures
            (λ _. Unit)
            (if minus
              then (if next then to_negative (leading_digits 0 str) else throws invalid_argument)
              else if digit
              then to_positive (leading_digits 0 (c ∷ str))
              else throws invalid_argument)
    choice true true digit = to_negative-Ensures (leading_digits 0 str)
    choice true false digit = raises
    choice false next true = to_positive-Ensures (leading_digits 0 (c ∷ str))
    choice false next false = raises

module _ {F : Type 0} where
  pub combine-Gives :
      (v : Visitor F) (op : ColumnOperation) (n : Node) (ns : List Node)
      → Sane v
      → InRange (size v) n
      → All (InRange (size v)) ns
      → Gives v (combine v op n ns)
  unfolding combine
  combine-Gives v op n [] s r all = (Grown-self v s, r)
  combine-Gives v op n (m ∷ ns) s r all = push_node-Gives v op ValueType.any (n ∷ m ∷ ns) s (r, all)

  pub unite-Gives :
      (v : Visitor F) (ns : List Node) → Sane v → All (InRange (size v)) ns → Gives v (unite v ns)
  unfolding unite
  unite-Gives v [] s all = push_node-Gives v ColumnOperation.union ValueType.any [] s all
  unite-Gives v (n ∷ []) s (r, all) = (Grown-self v s, r)
  unite-Gives v (n ∷ m ∷ ns) s all =
      push_node-Gives v ColumnOperation.union ValueType.any (n ∷ m ∷ ns) s all

  pub visit_string-Ensures :
      (v : Visitor F) (str : Bytes)
      → Sane v
      → wide_escape str ≡ false
      → Ensures (Gives v) (visit_string v str)
  unfolding visit_string append_string_constant emplace_node
  visit_string-Ensures v str s narrow =
      Ensures-bind (unquoted-Ensures str narrow) (λ inner inner_narrow.
        Ensures-bind (unescape-Ensures inner inner_narrow) (λ unescaped _.
          returns
            (Gives-graph v _ s (text unescaped s.built) (length-append v.out_graph.operations _))))

  pub visit_int-Ensures :
      (v : Visitor F) (str : Bytes) → Sane v → Ensures (Gives v) (visit_int v str)
  unfolding visit_int append_int64_constant emplace_node
  visit_int-Ensures v str s = Ensures-bind (stoll-Ensures str) (λ num _.
      returns (Gives-graph v _ s (int64 num s.built) (length-append v.out_graph.operations _)))

  pub visit_float-Ensures :
      (stod : Bytes → Result F)
      → ((str : Bytes) → Ensures (λ _. Unit) (stod str))
      → (v : Visitor F) (str : Bytes) → Sane v
      → Ensures (Gives v) (visit_float stod v str)
  unfolding visit_float append_float64_constant emplace_node
  visit_float-Ensures stod number v str s = Ensures-bind (number str) (λ num _.
      returns (Gives-graph v _ s (float64 num s.built) (length-append v.out_graph.operations _)))

  pub visit_keyword-Gives :
      (v : Visitor F) (op : ColumnOperation) (type : ValueType)
      → Sane v
      → Gives v (visit_keyword v op type)
  unfolding visit_keyword append_node emplace_node
  visit_keyword-Gives v op type s =
      Gives-graph v _ s (operation (some 0) op type [] SequenceType.single tt s.built)
        (length-append v.out_graph.operations _)

  pub visit_column-Ensures :
      (v : Visitor F) (table : Option Bytes) (name : Bytes)
      → Sane v
      → Ensures (Gives v) (visit_column v table name)
  unfolding visit_column
  visit_column-Ensures v table name s =
      found (find_ident (dotted table name) (v.expr_var_context ∷ []))
        (λ i. find_ident-Known (size v) (dotted table name) _ i (s.vars, tt))
    where
      found :
          (o : Node)
          → ((i : ℕ) → o ≡ some i → i < size v)
          → Ensures (Gives v) (elim o [ none ↦ throws compile_error | some n ↦ ok (v, some n) ])
      found none in_range = raises
      found (some i) in_range = returns (Grown-self v s, (i, refl, in_range i refl))

  pub build_between-Gives :
      (v : Visitor F) (not_op : Bool) (lower middle upper : Node)
      → Sane v
      → InRange (size v) lower
      → InRange (size v) middle
      → InRange (size v) upper
      → Gives v (build_between v not_op lower middle upper)
  unfolding build_between
  build_between-Gives v not_op lower middle upper s rl rm ru =
      let args1 = lower ∷ middle ∷ [] in
      let args2 = middle ∷ upper ∷ [] in
      let (g1, r1) = push_node-Gives v ColumnOperation.lte ValueType.any args1 s (rl, (rm, tt)) in
      let (v1, cmp1) = push_node v ColumnOperation.lte ValueType.any args1 in
      let (g2, r2) =
        push_node-Gives v1 ColumnOperation.lte ValueType.any args2 g1.sane
          (Grown-node v v1 middle g1 rm, (Grown-node v v1 upper g1 ru, tt)) in
      let (v2, cmp2) = push_node v1 ColumnOperation.lte ValueType.any args2 in
      Gives-after v v2 _ (Grown-trans v v1 v2 g1 g2) (
        push_node-Gives v2 _ ValueType.any (cmp1 ∷ cmp2 ∷ []) g2.sane
          (Grown-node v1 v2 cmp1 g2 r1, (r2, tt)))

  pub sort_item-Gives :
      (v : Visitor F) (n : Node) (desc : Bool)
      → Sane v
      → InRange (size v) n
      → Gives v (sort_item v n desc)
  unfolding sort_item
  sort_item-Gives v n false s r = (Grown-self v s, r)
  sort_item-Gives v n true s r =
      push_node-Gives v ColumnOperation.desc ValueType.any (n ∷ []) s (r, tt)
