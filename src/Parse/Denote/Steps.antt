-- ===== src/Parse/Denote/Steps.antt =====
-- The visits of literals and names, and the nodes that operators push, against their meaning.
use dist_storage.Prelude.{
  if◌then◌else◌, ◌≡◌, refl, ap, ◌∙◌, Bool, true, false, ◌&&◌, Option, none, some, List, [], ◌∷◌,
  ◌++◌, map, length, Result, ok, throws, compile_error, out_of_range, ◌>>=◌, Alike, values, errors,
  Alike-bind, Alike-self, Bytes, Bytes-discrete, arith,
}
use mathlib.Core.Path.{subst, ap₂}
use dist_storage.Prelude.Maps.{lookup}
use dist_storage.Query.Ops.{ColumnOperation, ValueType}
use dist_storage.Query.Graph.{
  Node, append_string_constant, append_int64_constant, append_float64_constant, append_node,
}
use dist_storage.Query.Graph.Access.{at-push, at-append}
use dist_storage.Parse.Literal.{unquoted, unescape_sql_string, stoll, normalize_op}
use dist_storage.Parse.Visitor.{
  Context, Visitor, push_node, find_ident, dotted, op_map, known_op, op_at, or_else,
  append_operation,
}
use dist_storage.Parse.Visit.{
  combine, visit_string, visit_int, visit_float, visit_keyword, visit_column, build_between,
}
use dist_storage.Parse.Words.{meant, canonical, known_op-meant, op_at-meant}
use dist_storage.Parse.Denote.{Reading, IsValued, computes, together}
use dist_storage.Parse.Denote.Push.{
  Holds, Carries, Denotes, DenotesAll, IsSized, Carries-self, Carries-trans, emplaced,
  push_node-Denotes, Holds-self,
}

-- The operators of the map compute.
every : List (Bytes × ColumnOperation) → Bool
every [] = true
every ((text, op) ∷ m) = computes op && every m

lookup-computes :
    (text : Bytes) (m : List (Bytes × ColumnOperation)) (op : ColumnOperation)
    → every m ≡ true
    → lookup Bytes-discrete text m ≡ some op
    → computes op ≡ true
unfolding every lookup
lookup-computes text [] op h e = absurd (ground arith)
lookup-computes text ((key, first) ∷ m) op h e =
    let rest = lookup-computes text m op in ground arith

-- An operator that a text names.
abbrev pub SameOp : ColumnOperation → ColumnOperation → Type 0
SameOp op op' = (op ≡ op') × (computes op ≡ true)

or_else-SameOp :
    (o : Option ColumnOperation) (e : Result ColumnOperation)
    → ((op : ColumnOperation) → o ≡ some op → computes op ≡ true)
    → Alike SameOp e e
    → Alike SameOp (or_else o e) (or_else o e)
or_else-SameOp none e h alike = alike
or_else-SameOp (some op) e h alike = values (refl, h op refl)

op_map_computes : every op_map ≡ true
unfolding every op_map
op_map_computes = refl

known_op-SameOp :
    (text : Bytes) → Alike SameOp (known_op text) (meant (canonical text) compile_error)
unfolding known_op
known_op-SameOp text = subst (Alike SameOp (known_op text)) (known_op-meant text) (
    or_else-SameOp (lookup Bytes-discrete (normalize_op text) op_map) _
      (λ op. lookup-computes (normalize_op text) op_map op op_map_computes) errors)

pub op_at-SameOp : (text : Bytes) → Alike SameOp (op_at text) (meant text out_of_range)
unfolding op_at
op_at-SameOp text = subst (Alike SameOp (op_at text)) (op_at-meant text) (
    or_else-SameOp (lookup Bytes-discrete text op_map) _
      (λ op. lookup-computes text op_map op op_map_computes) errors)

-- The value of a name is that of the node that the name is bound to.
abbrev pub node_value : {V : Type 0} → (Node → V) → Option Node → Result V
node_value val (some (some i)) = ok (val (some i))
node_value val _ = throws compile_error

abbrev pub env_of : {V : Type 0} → (Node → V) → Context → Bytes → Result V
env_of val context name = node_value val (lookup Bytes-discrete name context)

module _ {F V : Type 0} (reading : Reading F V) (val : Node → V) where
  -- The two runs end alike: a node and its value, or nodes and their values.
  abbrev pub One : Visitor F → Result (Visitor F × Node) → Result V → Type 0
  One v = Alike (Denotes reading val v)

  abbrev pub Many : Visitor F → Result (Visitor F × List Node) → Result (List V) → Type 0
  Many v = Alike (DenotesAll reading val v)

  pub visit_string-One :
      (v : Visitor F) (text : Bytes)
      → IsSized v
      → One v (visit_string v text) (
          unquoted text
          >>= (λ str. unescape_sql_string str >>= (λ unescaped. ok (reading.text_value unescaped))))
  unfolding visit_string append_string_constant
  visit_string-One v text s = Alike-bind (Alike-self (unquoted text)) (λ str str' same.
      Alike-bind
        (subst (λ t. Alike (λ a b. a ≡ b) (unescape_sql_string str) (unescape_sql_string t)) same
          (Alike-self (unescape_sql_string str)))
        (λ x x' same_text.
          let texts = v.out_graph.string_constants in
          let g = record v.out_graph { string_constants = texts ++ x ∷ [] } in
          let kept : Holds v.out_graph g = record {
            kept_ops = λ c o e. e;
            kept_args = λ c o e. e;
            kept_ints = λ c o e. e;
            kept_floats = λ c o e. e;
            kept_texts = at-append texts (x ∷ []);
          } in
          let (carried, here, _) = emplaced reading val v g [] _ s kept refl refl in
          values (
            carried,
            λ m.
                m.texts (some (length v.out_graph.operations)) _ x here refl refl (at-push texts x)
                ∙ ap reading.text_value same_text,
          )))

  pub visit_int-One :
      (v : Visitor F) (text : Bytes)
      → IsSized v
      → One v (visit_int v text) (stoll text >>= λ num. ok (reading.int_value num))
  unfolding visit_int append_int64_constant
  visit_int-One v text s = Alike-bind (Alike-self (stoll text)) (λ x x' same.
      let nums = v.out_graph.int64_constants in
      let g = record v.out_graph { int64_constants = nums ++ x ∷ [] } in
      let kept : Holds v.out_graph g = record {
        kept_ops = λ c o e. e;
        kept_args = λ c o e. e;
        kept_ints = at-append nums (x ∷ []);
        kept_floats = λ c o e. e;
        kept_texts = λ c o e. e;
      } in
      let (carried, here, _) = emplaced reading val v g [] _ s kept refl refl in
      values (
        carried,
        λ m.
            m.ints (some (length v.out_graph.operations)) _ x here refl refl (at-push nums x)
            ∙ ap reading.int_value same,
      ))

  pub visit_float-One :
      (stod : Bytes → Result F) (v : Visitor F) (text : Bytes)
      → IsSized v
      → One v (visit_float stod v text) (stod text >>= λ num. ok (reading.float_value num))
  unfolding visit_float append_float64_constant
  visit_float-One stod v text s = Alike-bind (Alike-self (stod text)) (λ x x' same.
      let nums = v.out_graph.float64_constants in
      let g = record v.out_graph { float64_constants = nums ++ x ∷ [] } in
      let kept : Holds v.out_graph g = record {
        kept_ops = λ c o e. e;
        kept_args = λ c o e. e;
        kept_ints = λ c o e. e;
        kept_floats = at-append nums (x ∷ []);
        kept_texts = λ c o e. e;
      } in
      let (carried, here, _) = emplaced reading val v g [] _ s kept refl refl in
      values (
        carried,
        λ m.
            m.floats (some (length v.out_graph.operations)) _ x here refl refl (at-push nums x)
            ∙ ap reading.float_value same,
      ))

  pub visit_keyword-Denotes :
      (v : Visitor F) (op : ColumnOperation) (type : ValueType)
      → IsSized v
      → computes op ≡ true
      → Denotes reading val v (visit_keyword v op type) (reading.apply op [])
  unfolding visit_keyword append_node
  visit_keyword-Denotes v op type s c =
      let (carried, here, with) =
        emplaced reading val v v.out_graph [] _ s (Holds-self v.out_graph) refl refl in
      (carried, λ m. m.applied (some (length v.out_graph.operations)) _ [] here with c)

  pub visit_column-One :
      (v : Visitor F) (context : Context) (table : Option Bytes) (name : Bytes)
      → IsSized v
      → v.expr_var_context ≡ context
      → One v (visit_column v table name) (env_of val context (dotted table name))
  unfolding visit_column find_ident
  visit_column-One v context table name s e =
      subst (λ ctx. One v (visit_column v table name) (env_of val ctx (dotted table name))) e
        (found (lookup Bytes-discrete (dotted table name) v.expr_var_context))
    where
      found :
          (o : Option Node)
          → One v
              (elim (elim o as (λ _. Node) [ some node ↦ node | none ↦ none ])
                as (λ _. Result (Visitor F × Node)) [
                  | none ↦ throws compile_error
                  | some n ↦ ok (v, some n)
                ])
              (node_value val o)
      found none = errors
      found (some none) = errors
      found (some (some i)) = values (Carries-self reading val v s, λ _. refl)

  -- A node for an operation on arguments with known values.
  pub pushed :
      (u v : Visitor F) (op op' : ColumnOperation) (type : ValueType) (args : List Node)
      (xs : List V)
      → Carries reading val u v
      → SameOp op op'
      → (IsValued reading val v.out_graph → map val args ≡ xs)
      → Denotes reading val u (push_node v op type args) (reading.apply op' xs)
  pushed u v op op' type args xs a (same, c) e =
      let (carried, is) = push_node-Denotes reading val v op type args a.sized c in
      (
        Carries-trans reading val u v _ a carried,
        λ m. is m ∙ ap₂ reading.apply same (e (carried.valued m)),
      )

  pub append_operation-One :
      (u v : Visitor F) (op : Bytes) (args : List Node) (xs : List V)
      → Carries reading val u v
      → (IsValued reading val v.out_graph → map val args ≡ xs)
      → One u
          (append_operation v op args)
          (meant (canonical op) compile_error >>= λ op_value. ok (reading.apply op_value xs))
  unfolding append_operation
  append_operation-One u v op args xs a e =
      Alike-bind (known_op-SameOp op)
        (λ op1 op2 same. values (pushed u v op1 op2 ValueType.any args xs a same e))

  pub combine-Denotes :
      (u v : Visitor F) (op : ColumnOperation) (n : Node) (ns : List Node) (x : V) (xs : List V)
      → computes op ≡ true
      → Carries reading val u v
      → (IsValued reading val v.out_graph → val n ≡ x)
      → (IsValued reading val v.out_graph → map val ns ≡ xs)
      → Denotes reading val u (combine v op n ns) (together reading op x xs)
  unfolding combine
  combine-Denotes u v op n [] x [] c a e es = (a, e)
  combine-Denotes u v op n [] x (y ∷ xs) c a e es = (a, λ m. absurd (ground (arith, es m)))
  combine-Denotes u v op n (k ∷ ns) x [] c a e es =
      let (b, _) = push_node-Denotes reading val v op ValueType.any (n ∷ k ∷ ns) a.sized c in
      (Carries-trans reading val u v _ a b, λ m. absurd (ground (arith, es (b.valued m))))
  combine-Denotes u v op n (k ∷ ns) x (y ∷ xs) c a e es =
      pushed u v op op ValueType.any (n ∷ k ∷ ns) (x ∷ y ∷ xs) a (refl, c)
        (λ m. ap₂ ◌∷◌ (e m) (es m))

  pub build_between-Denotes :
      (u v : Visitor F) (not_op : Bool) (lower middle upper : Node) (a x b : V)
      → Carries reading val u v
      → (IsValued reading val v.out_graph → val lower ≡ a)
      → (IsValued reading val v.out_graph → val middle ≡ x)
      → (IsValued reading val v.out_graph → val upper ≡ b)
      → Denotes reading val u (build_between v not_op lower middle upper) (
          reading.apply (if not_op then ColumnOperation.nand else ColumnOperation.and) (
            reading.apply ColumnOperation.lte (a ∷ x ∷ [])
            ∷ reading.apply ColumnOperation.lte (x ∷ b ∷ [])
            ∷ []))
  unfolding build_between
  build_between-Denotes u v not_op lower middle upper a x b carried ea ex eb =
      let args1 = lower ∷ middle ∷ [] in
      let args2 = middle ∷ upper ∷ [] in
      let lte2 : SameOp ColumnOperation.lte ColumnOperation.lte = (refl, refl) in
      let (c1, e1) =
        pushed v v ColumnOperation.lte ColumnOperation.lte ValueType.any args1 (a ∷ x ∷ [])
          (Carries-self reading val v carried.sized) lte2 (λ m. pair (ea m) (ex m)) in
      let (v1, cmp1) = push_node v ColumnOperation.lte ValueType.any args1 in
      let (c2, e2) =
        pushed v1 v1 ColumnOperation.lte ColumnOperation.lte ValueType.any args2 (x ∷ b ∷ [])
          (Carries-self reading val v1 c1.sized) lte2
          (λ m. pair (ex (c1.valued m)) (eb (c1.valued m))) in
      let (v2, cmp2) = push_node v1 ColumnOperation.lte ValueType.any args2 in
      pushed u v2 _ _ ValueType.any (cmp1 ∷ cmp2 ∷ []) _
        (Carries-trans reading val u v v2 carried (Carries-trans reading val v v1 v2 c1 c2))
        (refl, conjoins not_op) (λ m. pair (e1 (c2.valued m)) (e2 m))
    where
      pair : {p q r s : V} → p ≡ q → r ≡ s → ◌≡◌ {A = List V} (p ∷ r ∷ []) (q ∷ s ∷ [])
      pair e f = ap₂ (λ y z. y ∷ z ∷ []) e f

      conjoins :
          (b : Bool) → computes (if b then ColumnOperation.nand else ColumnOperation.and) ≡ true
      conjoins true = refl
      conjoins false = refl
