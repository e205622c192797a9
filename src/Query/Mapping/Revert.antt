-- ===== src/Query/Mapping/Revert.antt =====
-- getEdgesList, getGraphMapping and revertGraphMapping against one another.
use dist_storage.Prelude.{
  ℕ, suc, zero, ◌+◌, ◌≤◌, ◌<◌, ◌≡◌, refl, sym, ap, ◌∙◌, none, some, List, [], ◌∷◌, length, map, ok,
  ◌>>=◌, All, All-map_imp, get_elem?, or_undefined-eq-ok, arith,
}
use mathlib.Core.Path.{subst, fun_ext}
use mathlib.Core.List.{append-nil, map-append}
use dist_storage.Query.Graph.{Node, Mapping, at}
use dist_storage.Query.Mapping.{
  Edge, push_edge, push_edges, max_node, largest_node, get_graph_mapping, revert_children,
  revert_from, edges_from, get_edges_list,
}
use dist_storage.Query.Mapping.Edges.{
  targets, Leaves, targets-append, targets-other, targets-same, push_edges-append, push_edges-blank,
  swap,
}

targets-edges_from_below : (g : Mapping) (k i : ℕ) → i < k → targets (some i) (edges_from k g) ≡ []
unfolding edges_from
targets-edges_from_below [] k i h = refl
targets-edges_from_below (js ∷ g) k i h =
    targets-append (some i) (map (λ j. (some k, j)) js) (edges_from (k + 1) g)
    ∙ rw (targets-other (some i) k js (λ e. ground arith))
        (targets-edges_from_below g (k + 1) i (omega arith))

targets-edges_from :
    (g : Mapping) (k i : ℕ) (xs : List Node)
    → get_elem? g i ≡ some xs
    → targets (some (k + i)) (edges_from k g) ≡ xs
unfolding edges_from
targets-edges_from [] k i xs h = cc
targets-edges_from (js ∷ g) k zero xs h =
    let e : k + 0 ≡ k = omega arith in
    rw e (
      targets-append (some k) (map (λ j. (some k, j)) js) (edges_from (k + 1) g)
      ∙ rw (targets-same k js, targets-edges_from_below g (k + 1) k (omega arith), append-nil js)
          (some-inj h))
  where
    some-inj : some js ≡ some xs → js ≡ xs
    some-inj p = cc
targets-edges_from (js ∷ g) k (suc i) xs h =
    let e : k + suc i ≡ (k + 1) + i = omega arith in
    rw e (
      targets-append (some (k + 1 + i)) (map (λ j. (some k, j)) js) (edges_from (k + 1) g)
      ∙ rw (targets-other (some (k + 1 + i)) k js (λ q. ground arith))
          (targets-edges_from g (k + 1) i xs h))

-- getEdgesList gives, for every node, exactly its children in order.
pub targets-get_edges_list :
    (g : Mapping) (i : ℕ) (xs : List Node)
    → at g (some i) ≡ ok xs
    → targets (some i) (get_edges_list g) ≡ xs
unfolding get_edges_list at
targets-get_edges_list g i xs h =
    let e : i ≡ 0 + i = omega arith in
    ap (λ k. targets (some k) (edges_from 0 g)) e
    ∙ targets-edges_from g 0 i xs (or_undefined-eq-ok (get_elem? g i) h)

largest_node-le : (n : ℕ) (es : List Edge) → n ≤ largest_node n es
unfolding largest_node max_node
largest_node-le n [] = omega arith
largest_node-le n ((none, none) ∷ es) = largest_node-le n es
largest_node-le n ((none, some b) ∷ es) = ground (arith, largest_node-le n es, largest_node-le b es)
largest_node-le n ((some a, none) ∷ es) = ground (arith, largest_node-le n es, largest_node-le a es)
largest_node-le n ((some a, some b) ∷ es) =
    ground (arith, largest_node-le n es, largest_node-le a es, largest_node-le b es)

max_node-le : (n : ℕ) (c : Node) → n ≤ max_node n c
unfolding max_node
max_node-le n none = omega arith
max_node-le n (some i) = ground arith

max_node-ge : (n i : ℕ) → i ≤ max_node n (some i)
unfolding max_node
max_node-ge n i = ground arith

-- Every edge starts at a node.
abbrev pub HasSource : Edge → Type 0
HasSource e = (i : ℕ) × (e.0 ≡ some i)

Leaves-mono : (n m : ℕ) (es : List Edge) → n ≤ m → All (Leaves n) es → All (Leaves m) es
Leaves-mono n m es h all = All-map_imp _ _ es (λ e x. (x.0, x.1, omega arith)) all

largest_node-Leaves :
    (n : ℕ) (es : List Edge) → All HasSource es → All (Leaves (suc (largest_node n es))) es
unfolding largest_node
largest_node-Leaves n [] all = tt
largest_node-Leaves n ((a, b) ∷ es) ((i, e), all) = (
  (
    i,
    e,
    omega (
      arith,
      max_node-ge n i,
      ap (max_node n) e,
      max_node-le (max_node n a) b,
      largest_node-le (max_node (max_node n a) b) es,
    ),
  ),
  largest_node-Leaves (max_node (max_node n a) b) es all,
)

-- If every edge starts at a node, getGraphMapping succeeds, and the children of each node of the
-- result are the ends of the edges that start there, in the order of the list. Every start of an
-- edge is a node of the result.
pub get_graph_mapping_lem :
    (es : List Edge)
    → All HasSource es
    → (h : Mapping) × (get_graph_mapping es ≡ ok h)
      × ((i : ℕ) → i < length h → at h (some i) ≡ ok (targets (some i) es))
      × All (Leaves (length h)) es
unfolding get_graph_mapping
get_graph_mapping_lem es all =
    let leaves = largest_node-Leaves 0 es all in
    let (h, done, size, children) = push_edges-blank (suc (largest_node 0 es)) es leaves in
    (h, done, λ i lt. children i (omega arith), subst (λ n. All (Leaves n) es) (sym size) leaves)

revert_children-push_edges :
    (r : Mapping) (i : ℕ) (js : List Node)
    → revert_children r i js ≡ push_edges r (map swap (map (λ j. (some i, j)) js))
unfolding revert_children push_edges
revert_children-push_edges r i [] = refl
revert_children-push_edges r i (j ∷ js) =
    ap (λ f. push_edge r j (some i) >>= f) (fun_ext (λ h. revert_children-push_edges h i js))

pub revert_from-push_edges :
    (r : Mapping) (i : ℕ) (g : Mapping)
    → revert_from r i g ≡ push_edges r (map swap (edges_from i g))
unfolding revert_from edges_from
revert_from-push_edges r i [] = unfold push_edges in refl
revert_from-push_edges r i (js ∷ g) =
    rw
      (
        map-append swap (map (λ j. (some i, j)) js) (edges_from (i + 1) g),
        push_edges-append r (map swap (map (λ j. (some i, j)) js))
            (map swap (edges_from (i + 1) g)),
        revert_children-push_edges r i js,
      )
      (ap (λ f. push_edges r (map swap (map (λ j. (some i, j)) js)) >>= f)
        (fun_ext (λ h. revert_from-push_edges h (i + 1) g)))
