-- ===== src/Query/Rules/Merge.antt =====
-- The loop of the two merge rules: the children of a child with the same operation take its place.
use dist_storage.Prelude.{
  ◌≡◌, ◌≢◌, refl, ap, ◌∙◌, List, [], ◌∷◌, ◌++◌, map, ok, if_neg, if_pos, All, All-map_imp, ite,
  ◌>>=◌,
}
use mathlib.Core.List.{append-nil, append_assoc, map-append}
use dist_storage.Query.Ops.{ColumnOperation, ColumnOperation-discrete}
use dist_storage.Query.Graph.{Node, Operation, at}
use dist_storage.Query.Rules.{Nodes, merge_children, push_child, push_children}
use dist_storage.Query.Rules.Meaning.{fold, fold-append, IsMonoid}
use dist_storage.Query.Rules.Extends.{
  IsSized, Extends, Extends-refl, Extends-trans, Has, Has-kept, Rewired, push_child_lem,
  push_children_lem,
}

-- A child that is in range.
pub record Child (n : Nodes) (c : Node) : Type 0 where
  pub o : Operation
  pub args : List Node
  pub has : Has n c o args

-- `ds` is `cs` with each child whose operation is `op` replaced by its own children.
pub data Merged (n : Nodes) (op : ColumnOperation) : List Node → List Node → Type 0 where
  nil : Merged n op [] []
  splice :
      {c : Node} {cs ds : List Node} (o : Operation) (args : List Node)
      → Has n c o args
      → o.op ≡ op
      → Merged n op cs ds
      → Merged n op (c ∷ cs) (args ++ ds)
  keep :
      {c : Node} {cs ds : List Node} (o : Operation) (args : List Node)
      → Has n c o args
      → o.op ≢ op
      → Merged n op cs ds
      → Merged n op (c ∷ cs) (c ∷ ds)

-- What the loop leaves.
pub record MergeDone (new : Node) (n : Nodes) (op : ColumnOperation) (ids cs : List Node)
    (m : Nodes) : Type 0 where
  pub extends : Extends new n m
  pub ops : m.operations ≡ n.operations
  pub ds : List Node
  pub args : at m.graph_mapping new ≡ ok (ids ++ ds)
  pub merged : Merged m op cs ds

Child-kept :
    (new : Node) (n m : Nodes) (c : Node)
    → Extends new n m
    → (c ≢ new) × Child n c
    → (c ≢ new) × Child m c
Child-kept new n m c x (ne, h) =
    (ne, record { o = h.o; args = h.args; has = Has-kept new n m c h.o h.args x ne h.has })

-- One round: the new node has gained `extra`.
abbrev Step : Nodes → Node → ColumnOperation → Node → List Node → Operation → List Node → Type 0
Step n new op c ids o extra =
    (m : Nodes) × (ite (ColumnOperation-discrete o.op op)
        (do grand_children ← at n.graph_mapping c; push_children n new grand_children)
        (push_child n new c)
      ≡ ok m)
    × Rewired new n m (ids ++ extra)

merge_same :
    (n : Nodes) (new : Node) (op : ColumnOperation) (c : Node) (ids : List Node) (h : Child n c)
    → IsSized n
    → at n.graph_mapping new ≡ ok ids
    → h.o.op ≡ op
    → Step n new op c ids h.o h.args
merge_same n new op c ids h sized e same =
    let (m, done, w) = push_children_lem new h.args n ids sized e in
    (m, if_pos (ColumnOperation-discrete h.o.op op) same _ _ ∙ rw h.has.1 done, w)

merge_other :
    (n : Nodes) (new : Node) (op : ColumnOperation) (c : Node) (ids : List Node) (h : Child n c)
    → IsSized n
    → at n.graph_mapping new ≡ ok ids
    → h.o.op ≢ op
    → Step n new op c ids h.o (c ∷ [])
merge_other n new op c ids h sized e other =
    let (m, done, w) = push_child_lem new c n ids sized e in
    (m, if_neg (ColumnOperation-discrete h.o.op op) other _ _ ∙ done, w)

pub merge_children_lem :
    (new : Node) (op : ColumnOperation) (cs : List Node) (n : Nodes) (ids : List Node)
    → IsSized n
    → at n.graph_mapping new ≡ ok ids
    → All (λ c. (c ≢ new) × Child n c) cs
    → (m : Nodes) × (merge_children n new op cs ≡ ok m) × MergeDone new n op ids cs m
unfolding merge_children
merge_children_lem new op [] n ids sized e all = (
  n,
  refl,
  record {
    extends = Extends-refl new n sized;
    ops = refl;
    ds = [];
    args = rw (append-nil ids) e;
    merged = nil;
  },
)
merge_children_lem new op (c ∷ cs) n ids sized e all =
    let (ne, h) = all.0 in
    elim (ColumnOperation-discrete h.o.op op) [
      | yes same ↦
          let (n1, step, w) = merge_same n new op c ids h sized e same in
          let (m, done, rest) =
            merge_children_lem new op cs n1 (ids ++ h.args) w.extends.sized w.args
              (All-map_imp _ _ cs (λ d. Child-kept new n n1 d w.extends) all.1) in
          let x = Extends-trans new n n1 m w.extends rest.extends in
          (
            m,
            rw (h.has.0, step) done,
            record {
              extends = x;
              ops = rest.ops ∙ w.ops;
              ds = h.args ++ rest.ds;
              args = rest.args ∙ ap ok (append_assoc ids h.args rest.ds);
              merged =
                  splice h.o h.args (Has-kept new n m c h.o h.args x ne h.has) same rest.merged;
            },
          )
      | no other ↦
          let (n1, step, w) = merge_other n new op c ids h sized e other in
          let (m, done, rest) =
            merge_children_lem new op cs n1 (ids ++ c ∷ []) w.extends.sized w.args
              (All-map_imp _ _ cs (λ d. Child-kept new n n1 d w.extends) all.1) in
          let x = Extends-trans new n n1 m w.extends rest.extends in
          (
            m,
            rw (h.has.0, step) done,
            record {
              extends = x;
              ops = rest.ops ∙ w.ops;
              ds = c ∷ rest.ds;
              args = rest.args ∙ ap ok (append_assoc ids (c ∷ []) rest.ds);
              merged = keep h.o h.args (Has-kept new n m c h.o h.args x ne h.has) other rest.merged;
            },
          )
    ]

-- Merging does not change the value of an associative operation with a unit.
pub fold-Merged :
    {T : Type 0} (f : T → T → T) (e : T) (n : Nodes) (op : ColumnOperation) (val : Node → T)
    (cs ds : List Node)
    → IsMonoid f e
    → ((c : Node) (o : Operation) (args : List Node)
        → Has n c o args
        → o.op ≡ op
        → val c ≡ fold f e (map val args))
    → Merged n op cs ds
    → fold f e (map val ds) ≡ fold f e (map val cs)
fold-Merged f e n op val cs ds laws folds nil = refl
fold-Merged f e n op val cs ds laws folds (splice {c} {cs = cs'} {ds = ds'} o args has same rest) =
    ap (fold f e) (map-append val args ds')
    ∙ fold-append f e (map val args) (map val ds') laws
    ∙ rw (folds c o args has same, fold-Merged f e n op val cs' ds' laws folds rest)
fold-Merged f e n op val cs ds laws folds (keep {c} {cs = cs'} {ds = ds'} o args has other rest) =
    ap (f (val c)) (fold-Merged f e n op val cs' ds' laws folds rest)
