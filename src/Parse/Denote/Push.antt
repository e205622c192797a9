-- ===== src/Parse/Denote/Push.antt =====
-- Nodes that are pushed keep the values of the nodes before them.
use dist_storage.Prelude.{
  ◌+◌, ◌≡◌, refl, sym, ap, ◌∙◌, true, List, [], ◌∷◌, ◌++◌, map, length, length-append, some, ok,
  Bytes,
}
use mathlib.Core.Path.{subst}
use dist_storage.Query.Ops.{ColumnOperation, ValueType}
use dist_storage.Query.Graph.{Node, Operation, QueryGraph, at, emplace_node, append_node}
use dist_storage.Query.Graph.Access.{at-push, at-append}
use dist_storage.Parse.Literal.{ℤ}
use dist_storage.Parse.Denote.{Reading, IsValued, computes}
use dist_storage.Parse.Visitor.{Visitor, push_node}

-- `grown` has the operations, arguments and constants of `g`.
pub record Holds {F : Type 0} (g grown : QueryGraph ℤ F) : Type 0 where
  pub kept_ops :
      (c : Node) (o : Operation) → at g.operations c ≡ ok o → at grown.operations c ≡ ok o
  pub kept_args :
      (c : Node) (args : List Node)
      → at g.graph_mapping c ≡ ok args
      → at grown.graph_mapping c ≡ ok args
  pub kept_ints :
      (c : Node) (x : ℤ) → at g.int64_constants c ≡ ok x → at grown.int64_constants c ≡ ok x
  pub kept_floats :
      (c : Node) (x : F) → at g.float64_constants c ≡ ok x → at grown.float64_constants c ≡ ok x
  pub kept_texts :
      (c : Node) (x : Bytes) → at g.string_constants c ≡ ok x → at grown.string_constants c ≡ ok x

emplace_node-Holds :
    {F : Type 0} (g : QueryGraph ℤ F) (args : List Node) (o : Operation)
    → Holds g (emplace_node g args o)
unfolding emplace_node
emplace_node-Holds g args o = record {
  kept_ops = at-append g.operations _;
  kept_args = at-append g.graph_mapping _;
  kept_ints = λ c x e. e;
  kept_floats = λ c x e. e;
  kept_texts = λ c x e. e;
}

abbrev pub IsSized : {F : Type 0} → Visitor F → Type 0
IsSized v = length v.out_graph.graph_mapping ≡ length v.out_graph.operations

pub Holds-self : {F : Type 0} (g : QueryGraph ℤ F) → Holds g g
Holds-self g = record {
  kept_ops = λ c o e. e;
  kept_args = λ c o e. e;
  kept_ints = λ c o e. e;
  kept_floats = λ c o e. e;
  kept_texts = λ c o e. e;
}

module _ {F V : Type 0} (reading : Reading F V) (val : Node → V) where
  Holds-IsValued :
      (g grown : QueryGraph ℤ F)
      → Holds g grown
      → IsValued reading val grown
      → IsValued reading val g
  Holds-IsValued g grown h m = record {
    applied = λ c o args ho ha. m.applied c o args (h.kept_ops c o ho) (h.kept_args c args ha);
    ints = λ c o x ho p q hx. m.ints c o x (h.kept_ops c o ho) p q (h.kept_ints o.const_id x hx);
    floats =
        λ c o x ho p q hx. m.floats c o x (h.kept_ops c o ho) p q (h.kept_floats o.const_id x hx);
    texts = λ c o x ho p q hx. m.texts c o x (h.kept_ops c o ho) p q (h.kept_texts o.const_id x hx);
  }

  -- What a visit leaves: the names, and a graph whose values are values of the graph before it.
  pub record Carries (v w : Visitor F) : Type 0 where
    pub sized : length w.out_graph.graph_mapping ≡ length w.out_graph.operations
    pub names : w.expr_var_context ≡ v.expr_var_context
    pub valued : IsValued reading val w.out_graph → IsValued reading val v.out_graph

  -- A node with its value, and nodes with their values.
  abbrev pub Denotes : Visitor F → Visitor F × Node → V → Type 0
  Denotes v (w, n) x = Carries v w × (IsValued reading val w.out_graph → val n ≡ x)

  abbrev pub DenotesAll : Visitor F → Visitor F × List Node → List V → Type 0
  DenotesAll v (w, ns) xs = Carries v w × (IsValued reading val w.out_graph → map val ns ≡ xs)

  pub Carries-self : (v : Visitor F) → IsSized v → Carries v v
  Carries-self v s = record { sized = s; names = refl; valued = λ m. m }

  pub Carries-trans : (u v w : Visitor F) → Carries u v → Carries v w → Carries u w
  Carries-trans u v w a b = record {
    sized = b.sized;
    names = b.names ∙ a.names;
    valued = λ m. a.valued (b.valued m);
  }

  -- A step that denotes, after steps that carry.
  Denotes-after :
      (u v : Visitor F) (p : Visitor F × Node) (x : V) → Carries u v → Denotes v p x → Denotes u p x
  Denotes-after u v (w, n) x a (b, e) = (Carries-trans u v w a b, e)

  -- The node that emplace_node adds to a graph that holds the old one.
  pub emplaced :
      (v : Visitor F) (g : QueryGraph ℤ F) (args : List Node) (o : Operation)
      → IsSized v
      → Holds v.out_graph g
      → length g.operations ≡ length v.out_graph.operations
      → length g.graph_mapping ≡ length v.out_graph.graph_mapping
      → Carries v (record v { out_graph = emplace_node g args o })
        × (at (emplace_node g args o).operations (some (length v.out_graph.operations)) ≡ ok o)
        × (at (emplace_node g args o).graph_mapping (some (length v.out_graph.operations))
            ≡ ok args)
  unfolding emplace_node
  emplaced v g args o s h same_ops same_args =
      let last : length g.graph_mapping ≡ length v.out_graph.operations = same_args ∙ s in
      (
        record {
          sized =
              length-append g.graph_mapping (args ∷ [])
              ∙ ap (λ n. n + 1) (last ∙ sym same_ops)
              ∙ sym (length-append g.operations (o ∷ []));
          names = refl;
          valued = λ m.
              Holds-IsValued v.out_graph g h
                (Holds-IsValued g (emplace_node g args o) (emplace_node-Holds g args o) m);
        },
        subst (λ k. at (g.operations ++ o ∷ []) (some k) ≡ ok o) same_ops (at-push g.operations o),
        subst (λ k. at (g.graph_mapping ++ args ∷ []) (some k) ≡ ok args) last
            (at-push g.graph_mapping args),
      )

  -- A node for an operation has the value of the operation on the values of its arguments.
  pub push_node-Denotes :
      (v : Visitor F) (op : ColumnOperation) (type : ValueType) (args : List Node)
      → IsSized v
      → computes op ≡ true
      → Denotes v (push_node v op type args) (reading.apply op (map val args))
  unfolding push_node append_node
  push_node-Denotes v op type args s c =
      let (carried, here, with) =
        emplaced v v.out_graph args _ s (Holds-self v.out_graph) refl refl in
      (carried, λ m. m.applied (some (length v.out_graph.operations)) _ args here with c)
