-- ===== src/Query/Rules/Demorgan.antt =====
-- demorgan_apply: the new node means what the old node means.
use dist_storage.Prelude.{
  ◌≡◌, ◌≢◌, refl, sym, ap, ◌∙◌, some, List, [], ◌∷◌, ◌++◌, map, ok, if_neg, All, All-map_imp,
}
use mathlib.Core.Path.{subst}
use mathlib.Core.List.{append-nil, append_assoc}
use dist_storage.Query.Graph.Access.{at-ne-last}
use dist_storage.Query.Ops.{ColumnOperation, ColumnOperation-discrete, get_negated_operation}
use dist_storage.Query.Graph.{Node, Operation, at}
use dist_storage.Query.Rules.{Nodes, clone_negated, negated_or_throw, negate_children, push_child}
use dist_storage.Query.Rules.Meaning.{Truth, Atoms, IsModel, not3, truth-negated}
use dist_storage.Query.Rules.Extends.{
  IsSized, Extends, Extends-refl, Extends-trans, Has, Has-kept, Has-ne-last, last_node,
  push_child_lem, set_op_lem, clone_node_lem,
}

-- An operation that getNegatedOperation can negate.
abbrev pub IsNegatable : ColumnOperation → Type 0
IsNegatable op = get_negated_operation op ≢ ColumnOperation.invalid

-- `d` is `c` with the operation negated.
pub record Negation (n : Nodes) (c d : Node) : Type 0 where
  pub o : Operation
  pub args : List Node
  pub negatable : IsNegatable o.op
  pub old : Has n c o args
  pub new : Has n d (record o { op = get_negated_operation o.op }) args

-- A child that can be negated.
pub record Negatable (new : Node) (n : Nodes) (c : Node) : Type 0 where
  pub o : Operation
  pub args : List Node
  pub apart : c ≢ new
  pub negatable : IsNegatable o.op
  pub has : Has n c o args

negated_or_throw_lem :
    (op : ColumnOperation) → IsNegatable op → negated_or_throw op ≡ ok (get_negated_operation op)
unfolding negated_or_throw
negated_or_throw_lem op h =
    if_neg (ColumnOperation-discrete (get_negated_operation op) ColumnOperation.invalid) h _ _

Negatable-kept :
    (new : Node) (n m : Nodes) (c : Node) → Extends new n m → Negatable new n c → Negatable new m c
Negatable-kept new n m c x h = record {
  o = h.o;
  args = h.args;
  apart = h.apart;
  negatable = h.negatable;
  has = Has-kept new n m c h.o h.args x h.apart h.has;
}

Negation-kept :
    (new : Node) (n m : Nodes) (c d : Node)
    → c ≢ new
    → d ≢ new
    → Extends new n m
    → Negation n c d
    → Negation m c d
Negation-kept new n m c d cne dne x h = record {
  o = h.o;
  args = h.args;
  negatable = h.negatable;
  old = Has-kept new n m c h.o h.args x cne h.old;
  new = Has-kept new n m d _ h.args x dne h.new;
}

-- A clone with the negated operation: the node is kept and its clone is its negation.
pub clone_negated_lem :
    (new c : Node) (n : Nodes)
    → IsSized n
    → Negatable new n c
    → (m : Nodes) × (clone_negated n c ≡ ok (m, last_node n))
      × Extends (last_node n) n m
      × Negation m c (last_node n)
unfolding clone_negated
clone_negated_lem new c n sized h =
    let (n1, cloned, x1, has1) = clone_node_lem (last_node n) c n h.o h.args sized h.has in
    let (n2, done, x2, has2) =
      set_op_lem (last_node n) (get_negated_operation h.o.op) n1 h.o h.args x1.sized has1 in
    let x = Extends-trans (last_node n) n n1 n2 x1 x2 in
    (
      n2,
      rw (cloned, has1.0, negated_or_throw_lem h.o.op h.negatable, done),
      x,
      record {
        o = h.o;
        args = h.args;
        negatable = h.negatable;
        old = Has-kept (last_node n) n n2 c h.o h.args x (Has-ne-last n c h.o h.args h.has) h.has;
        new = has2;
      },
    )

-- `ds` are the negations of `cs`, in order.
pub data Negations (n : Nodes) : List Node → List Node → Type 0 where
  nil : Negations n [] []
  cons :
      {c d : Node} {cs ds : List Node}
      → Negation n c d
      → Negations n cs ds
      → Negations n (c ∷ cs) (d ∷ ds)

-- What the loop over the children leaves.
pub record Negated (new : Node) (n : Nodes) (ids cs : List Node) (m : Nodes) : Type 0 where
  pub extends : Extends new n m
  pub ds : List Node
  pub args : at m.graph_mapping new ≡ ok (ids ++ ds)
  pub negations : Negations m cs ds
  pub op : (o : Operation) → at n.operations new ≡ ok o → at m.operations new ≡ ok o

pub All-kept :
    (new : Node) (n m : Nodes) (cs : List Node)
    → Extends new n m
    → All (Negatable new n) cs
    → All (Negatable new m) cs
All-kept new n m cs x h = All-map_imp _ _ cs (λ c. Negatable-kept new n m c x) h

-- One round of the loop.
record Round (new c : Node) (n : Nodes) (ids : List Node) : Type 0 where
  m1 : Nodes
  m2 : Nodes
  d : Node
  cloned : clone_negated n c ≡ ok (m1, d)
  pushed : push_child m1 new d ≡ ok m2
  extends : Extends new n m2
  args : at m2.graph_mapping new ≡ ok (ids ++ d ∷ [])
  apart : d ≢ new
  negation : Negation m2 c d
  op : (o : Operation) → at n.operations new ≡ ok o → at m2.operations new ≡ ok o

-- A node that was there is not the one added last.
Extends-of_last :
    (new : Node) (n m : Nodes) → IsSized n → Extends (last_node n) n m → Extends new n m
Extends-of_last new n m sized x = record {
  sized = x.sized;
  kept_op = λ c o _ e. x.kept_op c o (at-ne-last n.operations c o e) e;
  kept_args = λ c cs _ e.
      x.kept_args c cs (subst (λ k. c ≢ some k) sized (at-ne-last n.graph_mapping c cs e)) e;
}

round_lem :
    (new c : Node) (n : Nodes) (ids : List Node)
    → IsSized n
    → at n.graph_mapping new ≡ ok ids
    → Negatable new n c
    → Round new c n ids
round_lem new c n ids sized h child =
    let (m1, cloned, x, neg) = clone_negated_lem new c n sized child in
    let x1 = Extends-of_last new n m1 sized x in
    let ne = subst (λ k. new ≢ some k) sized (at-ne-last n.graph_mapping new ids h) in
    let (m2, pushed, w) =
      push_child_lem new (last_node n) m1 ids x.sized (x.kept_args new ids ne h) in
    record {
      m1 = m1;
      m2 = m2;
      d = last_node n;
      cloned = cloned;
      pushed = pushed;
      extends = Extends-trans new n m1 m2 x1 w.extends;
      args = w.args;
      apart = λ e. ne (sym e);
      negation =
          Negation-kept new m1 m2 c (last_node n) child.apart (λ e. ne (sym e)) w.extends neg;
      op = λ o e.
          subst (λ l. at l new ≡ ok o) (sym w.ops)
            (x.kept_op new o (at-ne-last n.operations new o e) e);
    }

pub negate_children_lem :
    (new : Node) (cs : List Node) (n : Nodes) (ids : List Node)
    → IsSized n
    → at n.graph_mapping new ≡ ok ids
    → All (Negatable new n) cs
    → (m : Nodes) × (negate_children n new cs ≡ ok m) × Negated new n ids cs m
unfolding negate_children
negate_children_lem new [] n ids sized h all = (
  n,
  refl,
  record {
    extends = Extends-refl new n sized;
    ds = [];
    args = rw (append-nil ids) h;
    negations = nil;
    op = λ o e. e;
  },
)
negate_children_lem new (c ∷ cs) n ids sized h all =
    let r = round_lem new c n ids sized h all.0 in
    let (m, done, rest) =
      negate_children_lem new cs r.m2 (ids ++ r.d ∷ []) r.extends.sized r.args
        (All-kept new n r.m2 cs r.extends all.1) in
    (
      m,
      rw (r.cloned, r.pushed) done,
      record {
        extends = Extends-trans new n r.m2 m r.extends rest.extends;
        ds = r.d ∷ rest.ds;
        args = rest.args ∙ ap ok (append_assoc ids (r.d ∷ []) rest.ds);
        negations =
            cons (Negation-kept new r.m2 m c r.d all.0.apart r.apart rest.extends r.negation)
              rest.negations;
        op = λ o e. rest.op o (r.op o e);
      },
    )

-- In a model the negations have the negated truth values.
pub Negation-val :
    (atom : Atoms) (n : Nodes) (val : Node → Truth) (c d : Node)
    → IsModel atom n val
    → Negation n c d
    → val d ≡ not3 (val c)
Negation-val atom n val c d model h =
    model d _ h.args h.new.0 h.new.1
    ∙ truth-negated h.o.op _ (map val h.args) h.negatable
    ∙ ap not3 (sym (model c h.o h.args h.old.0 h.old.1))

pub Negations-val :
    (atom : Atoms) (n : Nodes) (val : Node → Truth) (cs ds : List Node)
    → IsModel atom n val
    → Negations n cs ds
    → map val ds ≡ map not3 (map val cs)
Negations-val atom n val cs ds model nil = refl
Negations-val atom n val cs ds model (cons {c} {d} {cs = cs'} {ds = ds'} h hs) =
    rw (Negation-val atom n val c d model h, Negations-val atom n val cs' ds' model hs)
