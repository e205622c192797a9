-- ===== src/Query/Hashes/Bounds.antt =====
-- fillNodeHashes stays in range; hashChildrenSet depends on the number of the children alone.
use dist_storage.Prelude.{
  ℕ, ◌+◌, ◌*◌, ◌≡◌, refl, sym, ◌∙◌, some, List, [], ◌∷◌, length, All, ok, Bool-cases, inl, inr,
  arith, or_undefined-eq-ok,
}
use mathlib.Core.Path.{subst}
use dist_storage.Query.Ops.{is_cummutative}
use dist_storage.Query.Graph.{Node, Operation, Mapping, at}
use dist_storage.Query.Graph.Access.{at-total, assign_lem}
use dist_storage.Query.Graph.Built.{All-get}
use dist_storage.Query.Mapping.Edges.{InRange, IsClosed}
use dist_storage.Query.Df.{is_leaf}
use dist_storage.Query.Hashes.{
  hash_wrap, hash_seed, hash_children_positional, hash_children_set, hash_operation_params,
  child_hash, fill_node_hashes,
}

-- Two lists of children of the same length have the same hashChildrenSet, whatever the children are.
hash_children_set-length :
    (hash : ℕ) (cs ds : List Node)
    → length cs ≡ length ds
    → hash_children_set hash cs ≡ hash_children_set hash ds
unfolding hash_children_set
hash_children_set-length hash [] [] e = refl
hash_children_set-length hash [] (d ∷ ds) e = absurd (omega arith)
hash_children_set-length hash (c ∷ cs) [] e = absurd (omega arith)
hash_children_set-length hash (c ∷ cs) (d ∷ ds) e =
    hash_children_set-length (hash_wrap (hash * (hash + 989673))) cs ds (omega arith)

positional_lem :
    (hash : ℕ) (children : List Node) (node_hashes : List ℕ)
    → All (InRange (length node_hashes)) children
    → (h : ℕ) × (hash_children_positional hash children node_hashes ≡ ok h)
unfolding hash_children_positional
positional_lem hash [] hs all = (hash, refl)
positional_lem hash (c ∷ cs) hs ((i, e, lt), all) =
    let (k, has) = at-total hs i lt in
    let (h, done) = positional_lem (hash_wrap ((hash + k + 82937) * 4565)) cs hs all in
    (h, rw (e, has) done)

child_hash_lem :
    (o : Operation) (children : List Node) (node_hashes : List ℕ)
    → All (InRange (length node_hashes)) children
    → (h : ℕ) × (child_hash o children node_hashes ≡ ok h)
unfolding child_hash
child_hash_lem o cs hs all = elim (Bool-cases (is_leaf cs)) [
  | inl leaf ↦ (0, rw leaf)
  | inr inner ↦ elim (Bool-cases (is_cummutative o.op)) [
    | inl c ↦ (hash_children_set hash_seed cs, rw (inner, c))
    | inr c ↦ let (h, done) = positional_lem hash_seed cs hs all in (h, rw (inner, c) done)
  ]
]

children_inside :
    (gm : Mapping) (i : ℕ) (cs : List Node)
    → IsClosed gm
    → at gm (some i) ≡ ok cs
    → All (InRange (length gm)) cs
unfolding at
children_inside gm i cs closed e = All-get _ gm i cs closed (or_undefined-eq-ok _ e)

-- For a well-formed graph with one hash per node, fillNodeHashes on any order of existing nodes
-- ends without undefined behaviour and leaves one hash per node.
pub fill_node_hashes_lem :
    (graph_mapping : Mapping) (operations : List Operation) (order : List Node)
    (node_hashes : List ℕ)
    → length graph_mapping ≡ length operations
    → IsClosed graph_mapping
    → All (InRange (length operations)) order
    → length node_hashes ≡ length operations
    → (hs : List ℕ) × (fill_node_hashes graph_mapping operations order node_hashes ≡ ok hs)
      × (length hs ≡ length operations)
unfolding fill_node_hashes
fill_node_hashes_lem gm ops [] hashes sized closed all size = (hashes, refl, size)
fill_node_hashes_lem gm ops (c ∷ order) hashes sized closed ((i, e, lt), all) size =
    let (cs, hcs) = at-total gm i (omega arith) in
    let (o, has) = at-total ops i lt in
    let (old, hold) = at-total hashes i (omega arith) in
    let inside =
      subst (λ n. All (InRange n) cs) (sized ∙ sym size) (children_inside gm i cs closed hcs) in
    let (h, hashed) = child_hash_lem o cs hashes inside in
    let (hashes', w) =
      assign_lem hashes (some i) old (hash_wrap (hash_operation_params o + h)) hold in
    let (hs, done, same) =
      fill_node_hashes_lem gm ops order hashes' sized closed all (w.size ∙ size) in
    (hs, rw (e, hcs, has, hashed, w.done) done, same)
