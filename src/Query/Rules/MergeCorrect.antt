-- ===== src/Query/Rules/MergeCorrect.antt =====
-- What merge_cummutative_logic_apply and merge_cummutative_numeric_apply promise.
use dist_storage.Prelude.{
  ◌≡◌, ◌≢◌, refl, sym, ap, ◌∙◌, List, [], map, ok, All, All-map_imp, ok-injective, Result,
}
use mathlib.Core.Path.{subst}
use dist_storage.Query.Ops.{ColumnOperation}
use dist_storage.Query.Graph.{Node, Operation, at}
use dist_storage.Query.Rules.{
  Nodes, merged_op, merge_cummutative_logic_apply, merge_cummutative_numeric_apply,
}
use dist_storage.Query.Rules.Meaning.{
  Truth, Atoms, IsModel, truth, fold, IsMonoid, and3-IsMonoid, or3-IsMonoid, xor3-IsMonoid, not3,
}
use dist_storage.Query.Rules.Extends.{
  IsSized, Extends, Extends-trans, Has, Has-kept, Has-ne-last, last_node, clear_children_lem,
  clone_node_lem, Keeps, Extends-Keeps,
}
use dist_storage.Query.Rules.Merge.{Child, Merged, merge_children_lem, fold-Merged}

-- The new node has the operation of the old one over the merged children.
record Done (run : Nodes → Node → Type 0) (n : Nodes) (op : ColumnOperation) (o : Operation)
    (cs : List Node) : Type 0 where
  m : Nodes
  done : run m (last_node n)
  extends : Extends (last_node n) n m
  ds : List Node
  new : Has m (last_node n) o ds
  merged : Merged m op cs ds

children_kept :
    (n m : Nodes) (cs : List Node)
    → Extends (last_node n) n m
    → All (Child n) cs
    → All (λ c. (c ≢ last_node n) × Child m c) cs
children_kept n m cs x = All-map_imp _ _ cs λ c h.
    let ne = Has-ne-last n c h.o h.args h.has in
    (
      ne,
      record { o = h.o; args = h.args; has = Has-kept (last_node n) n m c h.o h.args x ne h.has },
    )

logic_lem :
    (n : Nodes) (c : Node) (o : Operation) (cs : List Node) (op : ColumnOperation)
    → IsSized n
    → Has n c o cs
    → merged_op o.op ≡ ok op
    → All (Child n) cs
    → Done (λ m new. merge_cummutative_logic_apply n c ≡ ok (m, new)) n op o cs
unfolding merge_cummutative_logic_apply
logic_lem n c o cs op sized h e all =
    let new = last_node n in
    let (n1, cloned, x1, has1) = clone_node_lem new c n o cs sized h in
    let (n2, cleared, w) = clear_children_lem new n1 cs x1.sized has1.1 in
    let x = Extends-trans new n n1 n2 x1 w.extends in
    let (n3, merged, r) =
      merge_children_lem new op cs n2 [] x.sized w.args (children_kept n n2 cs x all) in
    record {
      m = n3;
      done = rw (cloned, x1.kept_op c o (Has-ne-last n c o cs h) h.0, e, has1.1, cleared, merged);
      extends = Extends-trans new n n2 n3 x r.extends;
      ds = r.ds;
      new = (subst (λ l. at l new ≡ ok o) (sym (r.ops ∙ w.ops)) has1.0, r.args);
      merged = r.merged;
    }

numeric_lem :
    (n : Nodes) (c : Node) (o : Operation) (cs : List Node)
    → IsSized n
    → Has n c o cs
    → All (Child n) cs
    → Done (λ m new. merge_cummutative_numeric_apply n c ≡ ok (m, new)) n o.op o cs
unfolding merge_cummutative_numeric_apply
numeric_lem n c o cs sized h all =
    let new = last_node n in
    let (n1, cloned, x1, has1) = clone_node_lem new c n o cs sized h in
    let (n2, cleared, w) = clear_children_lem new n1 cs x1.sized has1.1 in
    let x = Extends-trans new n n1 n2 x1 w.extends in
    let (n3, merged, r) =
      merge_children_lem new o.op cs n2 [] x.sized w.args (children_kept n n2 cs x all) in
    record {
      m = n3;
      done = rw (cloned, x1.kept_op c o (Has-ne-last n c o cs h) h.0, has1.1, cleared, merged);
      extends = Extends-trans new n n2 n3 x r.extends;
      ds = r.ds;
      new = (subst (λ l. at l new ≡ ok o) (sym (r.ops ∙ w.ops)) has1.0, r.args);
      merged = r.merged;
    }

merged_fold :
    (f : Truth → Truth → Truth) (e : Truth) (atom : Atoms) (n : Nodes) (val : Node → Truth)
    (op op' : ColumnOperation) (cs ds : List Node)
    → IsMonoid f e
    → op ≡ op'
    → ((p : ColumnOperation → Truth) (vs : List Truth) → truth op p vs ≡ fold f e vs)
    → IsModel atom n val
    → Merged n op' cs ds
    → fold f e (map val ds) ≡ fold f e (map val cs)
merged_fold f e atom n val op op' cs ds laws same folds model merged =
    fold-Merged f e n op' val cs ds laws
      (λ c o args has q.
        model c o args has.0 has.1
        ∙ ap (λ k. truth k (λ k'. atom (record o { op = k' }) args) (map val args)) (q ∙ sym same)
        ∙ folds _ (map val args))
      merged

-- The merged operation has the value of the nested one.
truth-Merged :
    (atom : Atoms) (n : Nodes) (val : Node → Truth) (op : ColumnOperation) (cs ds : List Node)
    (old : ColumnOperation) (p q : ColumnOperation → Truth)
    → merged_op old ≡ ok op
    → IsModel atom n val
    → Merged n op cs ds
    → truth old p (map val ds) ≡ truth old q (map val cs)
unfolding merged_op
truth-Merged atom n val op cs ds ColumnOperation.and p q e model m =
    merged_fold _ _ atom n val ColumnOperation.and op cs ds and3-IsMonoid (ok-injective e)
      (λ p vs. refl) model m
truth-Merged atom n val op cs ds ColumnOperation.or p q e model m =
    merged_fold _ _ atom n val ColumnOperation.or op cs ds or3-IsMonoid (ok-injective e)
      (λ p vs. refl) model m
truth-Merged atom n val op cs ds ColumnOperation.xor p q e model m =
    merged_fold _ _ atom n val ColumnOperation.xor op cs ds xor3-IsMonoid (ok-injective e)
      (λ p vs. refl) model m
truth-Merged atom n val op cs ds ColumnOperation.nand p q e model m = ap not3 (
    merged_fold _ _ atom n val ColumnOperation.and op cs ds and3-IsMonoid (ok-injective e)
      (λ p vs. refl) model m)
truth-Merged atom n val op cs ds ColumnOperation.nor p q e model m = ap not3 (
    merged_fold _ _ atom n val ColumnOperation.or op cs ds or3-IsMonoid (ok-injective e)
      (λ p vs. refl) model m)
truth-Merged atom n val op cs ds ColumnOperation.xnor p q e model m = ap not3 (
    merged_fold _ _ atom n val ColumnOperation.xor op cs ds xor3-IsMonoid (ok-injective e)
      (λ p vs. refl) model m)
truth-Merged atom n val op cs ds _ p q e model m = cc

-- A run of a rule, and what it gives in a model of the result.
abbrev pub Run : (Nodes → Node → Type 0) → Nodes → (Nodes → Node → Type 0) → Type 0
Run run n P = (m : Nodes) × (new : Node) × run m new × Keeps n m × P m new

logic_run :
    (atom : Atoms) (val : Node → Truth) (n : Nodes) (c : Node) (o : Operation) (cs : List Node)
    (op : ColumnOperation)
    → IsSized n
    → Has n c o cs
    → merged_op o.op ≡ ok op
    → All (Child n) cs
    → Run
        (λ m new. merge_cummutative_logic_apply n c ≡ ok (m, new))
        n
        (λ m new. IsModel atom m val → val new ≡ val c)
logic_run atom val n c o cs op sized h e all =
    let r = logic_lem n c o cs op sized h e all in
    let keeps = Extends-Keeps n r.m r.extends in
    (
      r.m,
      last_node n,
      r.done,
      keeps,
      λ model.
          let old = keeps c o cs h in
          model (last_node n) o r.ds r.new.0 r.new.1
          ∙ truth-Merged atom r.m val op cs r.ds o.op _ _ e model r.merged
          ∙ sym (model c o cs old.0 old.1),
    )

-- The result of a run is unique.
pub run_unique {ℓ} :
    (P : Nodes → Node → Type ℓ) (r : Result (Nodes × Node)) (m k : Nodes) (new d : Node)
    → r ≡ ok (m, new)
    → r ≡ ok (k, d)
    → P m new
    → P k d
run_unique P r m k new d x y h = subst (λ q. P q.0 q.1) (ok-injective (sym x ∙ y)) h

-- merge_cummutative_logic_apply on a node AND, OR, XOR, NAND, NOR or XNOR whose children are in
-- range succeeds, and keeps every node that was there.
merge_cummutative_logic_apply-Keeps :
    (n : Nodes) (c : Node) (o : Operation) (cs : List Node) (op : ColumnOperation)
    → IsSized n
    → Has n c o cs
    → merged_op o.op ≡ ok op
    → All (Child n) cs
    → (m : Nodes) × (new : Node) × (merge_cummutative_logic_apply n c ≡ ok (m, new)) × Keeps n m
merge_cummutative_logic_apply-Keeps n c o cs op sized h e all =
    let r = logic_lem n c o cs op sized h e all in
    (r.m, last_node n, r.done, Extends-Keeps n r.m r.extends)

-- After merge_cummutative_logic_apply on a node AND, OR, XOR, NAND, NOR or XNOR whose children are
-- in range, every assignment of SQL's three truth values that respects the meaning of all the nodes
-- gives the new node the value of the old one.
pub merge_cummutative_logic_apply-val :
    (atom : Atoms) (val : Node → Truth) (n k : Nodes) (c d : Node) (o : Operation) (cs : List Node)
    (op : ColumnOperation)
    → IsSized n
    → Has n c o cs
    → merged_op o.op ≡ ok op
    → All (Child n) cs
    → merge_cummutative_logic_apply n c ≡ ok (k, d)
    → IsModel atom k val
    → val d ≡ val c
merge_cummutative_logic_apply-val atom val n k c d o cs op sized h e all run =
    let (m, new, done, _, same) = logic_run atom val n c o cs op sized h e all in
    run_unique (λ m new. IsModel atom m val → val new ≡ val c) _ m k new d done run same

-- After merge_cummutative_numeric_apply on a node whose children are in range, let `val` give the
-- value of every node with the node's operation as the fold of an associative function with a unit
-- over its children. Then the new node has the value of the old one.
pub merge_cummutative_numeric_apply-val :
    {T : Type 0} (f : T → T → T) (e : T) (val : Node → T) (n k : Nodes) (c d : Node) (o : Operation)
    (cs : List Node)
    → IsMonoid f e
    → IsSized n
    → Has n c o cs
    → All (Child n) cs
    → merge_cummutative_numeric_apply n c ≡ ok (k, d)
    → ((x : Node) (p : Operation) (args : List Node)
        → Has k x p args
        → p.op ≡ o.op
        → val x ≡ fold f e (map val args))
    → val d ≡ val c
merge_cummutative_numeric_apply-val {T} f e val n k c d o cs laws sized h all run =
    let r = numeric_lem n c o cs sized h all in
    let keeps = Extends-Keeps n r.m r.extends in
    run_unique
      (λ m new.
        ((x : Node) (p : Operation) (args : List Node)
          → Has m x p args
          → p.op ≡ o.op
          → val x ≡ fold f e (map val args))
        → val new ≡ val c)
      _ r.m k (last_node n) d r.done run
      λ folds.
        folds (last_node n) o r.ds r.new refl
        ∙ fold-Merged f e r.m o.op val cs r.ds laws folds r.merged
        ∙ sym (folds c o cs (keeps c o cs h) refl)

-- merge_cummutative_numeric_apply on a node whose children are in range succeeds, and keeps every
-- node that was there.
merge_cummutative_numeric_apply-Keeps :
    (n : Nodes) (c : Node) (o : Operation) (cs : List Node)
    → IsSized n
    → Has n c o cs
    → All (Child n) cs
    → (m : Nodes) × (new : Node) × (merge_cummutative_numeric_apply n c ≡ ok (m, new)) × Keeps n m
merge_cummutative_numeric_apply-Keeps n c o cs sized h all =
    let r = numeric_lem n c o cs sized h all in
    (r.m, last_node n, r.done, Extends-Keeps n r.m r.extends)
