-- ===== src/Query/Rules/DemorganCorrect.antt =====
-- What demorgan_apply promises, from the lemmas on its loop.
use dist_storage.Prelude.{◌≡◌, sym, ap, ◌∙◌, List, [], map, ok, All, All-map_imp, ok-injective}
use mathlib.Core.Path.{subst}
use dist_storage.Query.Ops.{ColumnOperation}
use dist_storage.Query.Graph.{Node, Operation, at}
use dist_storage.Query.Rules.{Nodes, demorgan_op, demorgan_apply}
use dist_storage.Query.Rules.Meaning.{Truth, Atoms, IsModel, meaning, truth-demorgan}
use dist_storage.Query.Rules.Extends.{
  IsSized, Extends, Extends-trans, Has, Has-ne-last, last_node, Keeps, clear_children_lem,
  set_op_lem, clone_node_lem, Extends-Keeps,
}
use dist_storage.Query.Rules.Demorgan.{
  IsNegatable, Negatable, negate_children_lem, Negations, Negations-val, All-kept,
}

-- A child in range whose operation can be negated.
pub record NegatableChild (n : Nodes) (c : Node) : Type 0 where
  pub o : Operation
  pub args : List Node
  pub negatable : IsNegatable o.op
  pub has : Has n c o args

pub negatable_child : (n : Nodes) (c : Node) → NegatableChild n c → Negatable (last_node n) n c
negatable_child n c h = record {
  o = h.o;
  args = h.args;
  apart = Has-ne-last n c h.o h.args h.has;
  negatable = h.negatable;
  has = h.has;
}

-- The new node has the operation `op'` over the negations of the old children.
record Done (n : Nodes) (c : Node) (op' : ColumnOperation) (o : Operation) (cs : List Node)
    : Type 0 where
  m : Nodes
  done : demorgan_apply n c ≡ ok (m, last_node n)
  extends : Extends (last_node n) n m
  ds : List Node
  new : Has m (last_node n) (record o { op = op' }) ds
  negations : Negations m cs ds

demorgan_apply_lem :
    (n : Nodes) (c : Node) (o : Operation) (cs : List Node) (op' : ColumnOperation)
    → IsSized n
    → Has n c o cs
    → demorgan_op o.op ≡ ok op'
    → All (NegatableChild n) cs
    → Done n c op' o cs
unfolding demorgan_apply
demorgan_apply_lem n c o cs op' sized h e all =
    let new = last_node n in
    let ne = Has-ne-last n c o cs h in
    let (n1, cloned, x1, has1) = clone_node_lem new c n o cs sized h in
    let (n2, renamed, x2, has2) = set_op_lem new op' n1 o cs x1.sized has1 in
    let (n3, cleared, w) = clear_children_lem new n2 cs x2.sized has2.1 in
    let x12 = Extends-trans new n n1 n2 x1 x2 in
    let x = Extends-trans new n n2 n3 x12 w.extends in
    let (n4, negated, r) =
      negate_children_lem new cs n3 [] x.sized w.args
        (All-kept new n n3 cs x (All-map_imp _ _ cs (negatable_child n) all)) in
    record {
      m = n4;
      done = rw (cloned, has1.0, e, renamed, x12.kept_args c cs ne h.1, cleared, negated);
      extends = Extends-trans new n n3 n4 x r.extends;
      ds = r.ds;
      new =
          (r.op _ (subst (λ l. at l new ≡ ok (record o { op = op' })) (sym w.ops) has2.0), r.args);
      negations = r.negations;
    }

-- demorgan_apply on a node AND, OR, NAND or NOR whose children are in range and can be negated
-- succeeds: it adds nodes and keeps every node that was there.
demorgan_apply-Keeps :
    (n : Nodes) (c : Node) (o : Operation) (cs : List Node) (op' : ColumnOperation)
    → IsSized n
    → Has n c o cs
    → demorgan_op o.op ≡ ok op'
    → All (NegatableChild n) cs
    → (m : Nodes) × (new : Node) × (demorgan_apply n c ≡ ok (m, new)) × IsSized m × Keeps n m
demorgan_apply-Keeps n c o cs op' sized h e all =
    let r = demorgan_apply_lem n c o cs op' sized h e all in
    (r.m, last_node n, r.done, r.extends.sized, Extends-Keeps n r.m r.extends)

-- After demorgan_apply on a node AND, OR, NAND or NOR whose children are in range and can be
-- negated, every assignment of SQL's three truth values that respects the meaning of all the nodes
-- gives the new node the value of the old one.
pub demorgan_apply-val :
    (atom : Atoms) (val : Node → Truth) (n m : Nodes) (c new : Node) (o : Operation)
    (cs : List Node) (op' : ColumnOperation)
    → IsSized n
    → Has n c o cs
    → demorgan_op o.op ≡ ok op'
    → All (NegatableChild n) cs
    → demorgan_apply n c ≡ ok (m, new)
    → IsModel atom m val
    → val new ≡ val c
demorgan_apply-val atom val n m c new o cs op' sized h e all run model =
    let r = demorgan_apply_lem n c o cs op' sized h e all in
    let same = ok-injective (sym r.done ∙ run) in
    subst (λ p. IsModel atom p.0 val → val p.1 ≡ val c) same
      (λ model'.
        let old = Extends-Keeps n r.m r.extends c o cs h in
        model' (last_node n) _ r.ds r.new.0 r.new.1
        ∙ ap (meaning atom (record o { op = op' }) r.ds)
            (Negations-val atom r.m val cs r.ds model' r.negations)
        ∙ truth-demorgan o.op op' _ _ (map val cs) e
        ∙ sym (model' c o cs old.0 old.1))
      model
