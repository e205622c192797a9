-- ===== src/Query/Rules/Extends.antt =====
-- How the steps of a rewrite rule change the nodes: they add nodes, and write only to the node that
-- the rule makes.
use dist_storage.Prelude.{
  ◌≡◌, ◌≢◌, refl, sym, ◌∙◌, some, List, [], ◌∷◌, ◌++◌, length, length-append, ok, arith,
}
use mathlib.Core.Path.{subst}
use dist_storage.Query.Ops.{ColumnOperation}
use dist_storage.Query.Graph.{Node, Operation, Mapping, at}
use dist_storage.Query.Graph.Access.{at-push, at-append, at-ne-last, Assigned, assign_lem}
use dist_storage.Query.Rules.{Nodes, push_child, push_children, set_op, clear_children, clone_node}

abbrev pub IsSized : Nodes → Type 0
IsSized n = length n.graph_mapping ≡ length n.operations

-- From `n` to `m` only the operation and the edges of `new` change, and nodes are added.
pub record Extends (new : Node) (n m : Nodes) : Type 0 where
  pub sized : IsSized m
  pub kept_op :
      (c : Node) (o : Operation) → c ≢ new → at n.operations c ≡ ok o → at m.operations c ≡ ok o
  pub kept_args :
      (c : Node) (cs : List Node)
      → c ≢ new
      → at n.graph_mapping c ≡ ok cs
      → at m.graph_mapping c ≡ ok cs

pub Extends-refl : (new : Node) (n : Nodes) → IsSized n → Extends new n n
Extends-refl new n h = record { sized = h; kept_op = λ c o _ e. e; kept_args = λ c cs _ e. e }

pub Extends-trans :
    (new : Node) (n m k : Nodes) → Extends new n m → Extends new m k → Extends new n k
Extends-trans new n m k x y = record {
  sized = y.sized;
  kept_op = λ c o ne e. y.kept_op c o ne (x.kept_op c o ne e);
  kept_args = λ c cs ne e. y.kept_args c cs ne (x.kept_args c cs ne e);
}

-- A node with its operation and its edges.
abbrev pub Has : Nodes → Node → Operation → List Node → Type 0
Has n c o cs = (at n.operations c ≡ ok o) × (at n.graph_mapping c ≡ ok cs)

pub Has-kept :
    (new : Node) (n m : Nodes) (c : Node) (o : Operation) (cs : List Node)
    → Extends new n m
    → c ≢ new
    → Has n c o cs
    → Has m c o cs
Has-kept new n m c o cs x ne h = (x.kept_op c o ne h.0, x.kept_args c cs ne h.1)

-- The edges of the new node are replaced.
pub record Rewired (new : Node) (n m : Nodes) (cs : List Node) : Type 0 where
  pub extends : Extends new n m
  pub ops : m.operations ≡ n.operations
  pub args : at m.graph_mapping new ≡ ok cs

Rewired-of_assign :
    (new : Node) (n : Nodes) (cs : List Node) (gm : Mapping)
    → IsSized n
    → Assigned n.graph_mapping new cs gm
    → Rewired new n (record n { graph_mapping = gm }) cs
Rewired-of_assign new n cs gm sized w = record {
  extends = record {
    sized = w.size ∙ sized;
    kept_op = λ c o _ e. e;
    kept_args = λ c xs ne e. w.others c ne ∙ e;
  };
  ops = refl;
  args = w.here;
}

pub push_child_lem :
    (new child : Node) (n : Nodes) (cs : List Node)
    → IsSized n
    → at n.graph_mapping new ≡ ok cs
    → (m : Nodes) × (push_child n new child ≡ ok m) × Rewired new n m (cs ++ child ∷ [])
unfolding push_child
push_child_lem new child n cs sized h =
    let (gm, w) = assign_lem n.graph_mapping new cs (cs ++ child ∷ []) h in
    (record n { graph_mapping = gm }, rw (h, w.done), Rewired-of_assign new n _ gm sized w)

pub push_children_lem :
    (new : Node) (extra : List Node) (n : Nodes) (cs : List Node)
    → IsSized n
    → at n.graph_mapping new ≡ ok cs
    → (m : Nodes) × (push_children n new extra ≡ ok m) × Rewired new n m (cs ++ extra)
unfolding push_children
push_children_lem new extra n cs sized h =
    let (gm, w) = assign_lem n.graph_mapping new cs (cs ++ extra) h in
    (record n { graph_mapping = gm }, rw (h, w.done), Rewired-of_assign new n _ gm sized w)

pub clear_children_lem :
    (new : Node) (n : Nodes) (cs : List Node)
    → IsSized n
    → at n.graph_mapping new ≡ ok cs
    → (m : Nodes) × (clear_children n new ≡ ok m) × Rewired new n m []
unfolding clear_children
clear_children_lem new n cs sized h =
    let (gm, w) = assign_lem n.graph_mapping new cs [] h in
    (record n { graph_mapping = gm }, rw (w.done), Rewired-of_assign new n _ gm sized w)

pub set_op_lem :
    (new : Node) (op : ColumnOperation) (n : Nodes) (o : Operation) (cs : List Node)
    → IsSized n
    → Has n new o cs
    → (m : Nodes) × (set_op n new op ≡ ok m) × Extends new n m × Has m new (record o { op = op }) cs
unfolding set_op
set_op_lem new op n o cs sized h =
    let (ops, w) = assign_lem n.operations new o (record o { op = op }) h.0 in
    (
      record n { operations = ops },
      rw (h.0, w.done),
      record {
        sized = sized ∙ sym w.size;
        kept_op = λ c x ne e. w.others c ne ∙ e;
        kept_args = λ c xs ne e. e;
      },
      (w.here, h.1),
    )

abbrev pub last_node : Nodes → Node
last_node n = some (length n.operations)

-- A clone leaves every node alone, and its number is new.
pub clone_node_lem :
    (new c : Node) (n : Nodes) (o : Operation) (cs : List Node)
    → IsSized n
    → Has n c o cs
    → (m : Nodes) × (clone_node n c ≡ ok (m, last_node n))
      × Extends new n m
      × Has m (last_node n) o cs
unfolding clone_node
clone_node_lem new c n o cs sized h = (
  record { graph_mapping = n.graph_mapping ++ cs ∷ []; operations = n.operations ++ o ∷ [] },
  rw (h.0, h.1),
  record {
    sized = omega (
      arith,
      sized,
      length-append n.graph_mapping (cs ∷ []),
      length-append n.operations (o ∷ []),
    );
    kept_op = λ d x _ e. at-append n.operations (o ∷ []) d x e;
    kept_args = λ d xs _ e. at-append n.graph_mapping (cs ∷ []) d xs e;
  },
  (
    at-push n.operations o,
    subst (λ k. at (n.graph_mapping ++ cs ∷ []) (some k) ≡ ok cs) sized
        (at-push n.graph_mapping cs),
  ),
)

pub Has-ne-last :
    (n : Nodes) (c : Node) (o : Operation) (cs : List Node) → Has n c o cs → c ≢ last_node n
Has-ne-last n c o cs h = at-ne-last n.operations c o h.0

-- Every node of `n` is in `m` as it was.
abbrev pub Keeps : Nodes → Nodes → Type 0
Keeps n m = (c : Node) (o : Operation) (cs : List Node) → Has n c o cs → Has m c o cs

pub Extends-Keeps : (n m : Nodes) → Extends (last_node n) n m → Keeps n m
Extends-Keeps n m x c o cs h = Has-kept (last_node n) n m c o cs x (Has-ne-last n c o cs h) h
