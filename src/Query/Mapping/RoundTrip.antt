-- ===== src/Query/Mapping/RoundTrip.antt =====
-- What revertGraphMapping and the two conversions promise.
use dist_storage.Prelude.{
  ℕ, suc, ◌+◌, ◌<◌, ◌≡◌, refl, sym, ap, ◌∙◌, some, List, [], ◌∷◌, length, map, ok, ite, if_neg, All,
  All-append, arith,
}
use mathlib.Core.Path.{subst}
use mathlib.Core.List.{map-append}
use dist_storage.Query.Graph.{Node, Mapping, at}
use dist_storage.Query.Mapping.{
  Edge, Node-discrete, push_edges, get_graph_mapping, revert_graph_mapping, edges_from,
  get_edges_list,
}
use dist_storage.Query.Mapping.Edges.{
  targets, Leaves, push_edges-blank, blank, InRange, IsClosed, swap,
}
use dist_storage.Query.Mapping.Revert.{
  targets-get_edges_list, HasSource, get_graph_mapping_lem, revert_from-push_edges,
}

abbrev pub count : Node → List Node → ℕ
count c [] = 0
count c (x ∷ xs) = ite (Node-discrete x c) (suc (count c xs)) (count c xs)

-- The edges from `a` to `b`, counted from either end.
count-swap :
    (a b : Node) (es : List Edge) → count a (targets b (map swap es)) ≡ count b (targets a es)
count-swap a b [] = refl
count-swap a b ((x, y) ∷ es) = ground (arith, count-swap a b es)

swapped_children :
    (n i : ℕ) (js : List Node)
    → All (InRange n) js
    → All (Leaves n) (map swap (map (λ j. (some i, j)) js))
swapped_children n i [] all = tt
swapped_children n i (j ∷ js) all = (all.0, swapped_children n i js all.1)

swapped_edges :
    (n i : ℕ) (g : Mapping) → All (All (InRange n)) g → All (Leaves n) (map swap (edges_from i g))
unfolding edges_from
swapped_edges n i [] all = tt
swapped_edges n i (js ∷ g) all =
    subst (All (Leaves n))
      (sym (map-append swap (map (λ j. (some i, j)) js) (edges_from (i + 1) g)))
      (All-append (Leaves n) _ _ (swapped_children n i js all.0) (swapped_edges n (i + 1) g all.1))

revert_push_edges :
    (g : Mapping)
    → revert_graph_mapping g ≡ push_edges (blank (length g)) (map swap (get_edges_list g))
unfolding revert_graph_mapping get_edges_list
revert_push_edges g = revert_from-push_edges (blank (length g)) 0 g

-- If every child is a node, revertGraphMapping succeeds with as many nodes, and a node i stands
-- among the children of a node j in the result as often as j stood among the children of i.
pub revert_graph_mapping-count :
    (g : Mapping) (i j : ℕ) (xs : List Node)
    → IsClosed g
    → at g (some i) ≡ ok xs
    → j < length g
    → (r : Mapping) × (ys : List Node) × (revert_graph_mapping g ≡ ok r)
      × (length r ≡ length g)
      × (at r (some j) ≡ ok ys)
      × (count (some i) ys ≡ count (some j) xs)
revert_graph_mapping-count g i j xs closed has lt =
    let es = get_edges_list g in
    let (r, done, size, children) =
      push_edges-blank (length g) (map swap es)
        (unfold get_edges_list in swapped_edges (length g) 0 g closed) in
    (
      r,
      targets (some j) (map swap es),
      revert_push_edges g ∙ done,
      size,
      children j lt,
      count-swap (some i) (some j) es ∙ ap (count (some j)) (targets-get_edges_list g i xs has),
    )

HasSource-children : (i : ℕ) (js : List Node) → All HasSource (map (λ j. (some i, j)) js)
HasSource-children i [] = tt
HasSource-children i (j ∷ js) = ((i, refl), HasSource-children i js)

HasSource-edges : (i : ℕ) (g : Mapping) → All HasSource (edges_from i g)
unfolding edges_from
HasSource-edges i [] = tt
HasSource-edges i (js ∷ g) =
    All-append HasSource _ _ (HasSource-children i js) (HasSource-edges (i + 1) g)

-- A node from which an edge leaves is in range.
targets-lt :
    (n i : ℕ) (x : Node) (xs : List Node) (es : List Edge)
    → All (Leaves n) es
    → targets (some i) es ≡ x ∷ xs
    → i < n
targets-lt n i x xs [] all h = cc
targets-lt n i x xs ((a, b) ∷ es) ((k, e, lt), all) h = elim (Node-discrete a (some i)) [
  | yes same ↦ ground arith
  | no other ↦ targets-lt n i x xs es all (sym (if_neg (Node-discrete a (some i)) other _ _) ∙ h)
]

-- getGraphMapping succeeds on the edges that getEdgesList gives, and a node with children gets its
-- children back, in order.
pub get_graph_mapping-get_edges_list :
    (g : Mapping) (i : ℕ) (x : Node) (xs : List Node)
    → at g (some i) ≡ ok (x ∷ xs)
    → (h : Mapping) × (get_graph_mapping (get_edges_list g) ≡ ok h) × (at h (some i) ≡ ok (x ∷ xs))
get_graph_mapping-get_edges_list g i x xs e =
    let (h, done, children, leaves) =
      get_graph_mapping_lem (get_edges_list g) (unfold get_edges_list in HasSource-edges 0 g) in
    let found = targets-get_edges_list g i (x ∷ xs) e in
    (
      h,
      done,
      children i (targets-lt (length h) i x xs (get_edges_list g) leaves found) ∙ ap ok found,
    )
