-- ===== src/Query/Rules/Reduce.antt =====
-- What reduce_not_nop_apply promises.
use dist_storage.Prelude.{◌≡◌, sym, ap, ◌∙◌, [], ◌∷◌, ok, ◌⊎◌, inl, inr}
use dist_storage.Query.Ops.{ColumnOperation}
use dist_storage.Query.Graph.{Node, Operation}
use dist_storage.Query.Rules.{Nodes, reduce_not_nop_apply, reduces_by_negation}
use dist_storage.Query.Rules.Meaning.{Truth, Atoms, IsModel, truth, holds}
use dist_storage.Query.Rules.Extends.{IsSized, Has, last_node, Keeps, Extends-Keeps}
use dist_storage.Query.Rules.Demorgan.{clone_negated_lem, Negation-val}
use dist_storage.Query.Rules.DemorganCorrect.{NegatableChild, negatable_child}
use dist_storage.Query.Rules.MergeCorrect.{Run, run_unique}

reduce_not :
    (atom : Atoms) (val : Node → Truth) (n : Nodes) (c d : Node) (o : Operation)
    → IsSized n
    → Has n c o (d ∷ [])
    → o.op ≡ ColumnOperation.not
    → NegatableChild n d
    → Run
        (λ m new. reduce_not_nop_apply n c ≡ ok (m, new))
        n
        (λ m new. IsModel atom m val → val new ≡ val c)
unfolding reduce_not_nop_apply reduces_by_negation
reduce_not atom val n c d o sized h e child =
    let (m, done, x, neg) = clone_negated_lem (last_node n) d n sized (negatable_child n d child) in
    let keeps = Extends-Keeps n m x in
    (
      m,
      last_node n,
      rw (h.0, e, h.1) done,
      keeps,
      λ model.
          let old = keeps c o (d ∷ []) h in
          Negation-val atom m val d (last_node n) model neg
          ∙ sym (
              model c o (d ∷ []) old.0 old.1
              ∙ ap (λ k. truth k (λ op. atom (record o { op = op }) (d ∷ [])) (val d ∷ [])) e),
    )

reduce_nop :
    (atom : Atoms) (val : Node → Truth) (n : Nodes) (c d : Node) (o : Operation)
    → Has n c o (d ∷ [])
    → o.op ≡ ColumnOperation.nop
    → Run
        (λ m new. reduce_not_nop_apply n c ≡ ok (m, new))
        n
        (λ m new. IsModel atom m val → val new ≡ val c)
unfolding reduce_not_nop_apply reduces_by_negation
reduce_nop atom val n c d o h e = (
  n,
  d,
  rw (h.0, e, h.1),
  λ x p cs has. has,
  λ model. sym (
      model c o (d ∷ []) h.0 h.1
      ∙ ap (λ k. truth k (λ op. atom (record o { op = op }) (d ∷ [])) (val d ∷ [])) e),
)

reduce_run :
    (atom : Atoms) (val : Node → Truth) (n : Nodes) (c d : Node) (o : Operation)
    → IsSized n
    → Has n c o (d ∷ [])
    → (o.op ≡ ColumnOperation.not) ⊎ (o.op ≡ ColumnOperation.nop)
    → NegatableChild n d
    → Run
        (λ m new. reduce_not_nop_apply n c ≡ ok (m, new))
        n
        (λ m new. IsModel atom m val → val new ≡ val c)
reduce_run atom val n c d o sized h (inl e) child = reduce_not atom val n c d o sized h e child
reduce_run atom val n c d o sized h (inr e) child = reduce_nop atom val n c d o h e

-- reduce_not_nop_apply on a node NOT or NOP with one child, which is in range and can be negated,
-- succeeds, and keeps every node that was there.
reduce_not_nop_apply-Keeps :
    (n : Nodes) (c d : Node) (o : Operation)
    → IsSized n
    → Has n c o (d ∷ [])
    → (o.op ≡ ColumnOperation.not) ⊎ (o.op ≡ ColumnOperation.nop)
    → NegatableChild n d
    → (m : Nodes) × (new : Node) × (reduce_not_nop_apply n c ≡ ok (m, new)) × Keeps n m
reduce_not_nop_apply-Keeps n c d o sized h e child =
    let (m, new, done, keeps, _) = reduce_run (λ _ _. holds) (λ _. holds) n c d o sized h e child in
    (m, new, done, keeps)

-- After reduce_not_nop_apply on a node NOT or NOP with one child, which is in range and can be
-- negated, every assignment of SQL's three truth values that respects the meaning of all the nodes
-- gives the node it returns the value of the old one.
pub reduce_not_nop_apply-val :
    (atom : Atoms) (val : Node → Truth) (n k : Nodes) (c d x : Node) (o : Operation)
    → IsSized n
    → Has n c o (d ∷ [])
    → (o.op ≡ ColumnOperation.not) ⊎ (o.op ≡ ColumnOperation.nop)
    → NegatableChild n d
    → reduce_not_nop_apply n c ≡ ok (k, x)
    → IsModel atom k val
    → val x ≡ val c
reduce_not_nop_apply-val atom val n k c d x o sized h e child run =
    let (m, new, done, _, same) = reduce_run atom val n c d o sized h e child in
    run_unique (λ m new. IsModel atom m val → val new ≡ val c) _ m k new x done run same
