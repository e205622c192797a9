-- ===== src/Query/Mapping/Edges.antt =====
-- Lists of edges against vectors of children.
use dist_storage.Prelude.{
  ℕ, suc, zero, ◌<◌, ◌≡◌, ◌≢◌, refl, sym, ap, ◌∙◌, some, List, [], ◌∷◌, ◌++◌, length, map, ok,
  ◌>>=◌, ite, if_pos, if_neg, replicate, length-replicate, All, arith, Result, ok-injective,
}
use mathlib.Core.Path.{subst}
use mathlib.Core.List.{append-nil, append_assoc}
use dist_storage.Query.Graph.{Node, Mapping, at}
use dist_storage.Query.Graph.Access.{assign_lem, at-total}
use dist_storage.Query.Mapping.{Edge, Node-discrete, push_edge, push_edges}

-- The heads of the edges that leave `c`, in order.
abbrev pub targets : Node → List Edge → List Node
targets c [] = []
targets c ((a, b) ∷ es) = ite (Node-discrete a c) (b ∷ targets c es) (targets c es)

-- The edge leaves a node of the vector.
abbrev pub Leaves : ℕ → Edge → Type 0
Leaves n e = (i : ℕ) × (e.0 ≡ some i) × (i < n)

-- `h` has the edges of `g` and then `es`.
pub record Grown (g : Mapping) (es : List Edge) (h : Mapping) : Type 0 where
  pub size : length h ≡ length g
  pub children : (c : Node) (xs : List Node) → at g c ≡ ok xs → at h c ≡ ok (xs ++ targets c es)

push_edge_lem :
    (g : Mapping) (a b : Node)
    → Leaves (length g) (a, b)
    → (h : Mapping) × (push_edge g a b ≡ ok h) × Grown g ((a, b) ∷ []) h
unfolding push_edge
push_edge_lem g a b (i, e, lt) =
    let (xs, has) = at-total g i lt in
    let has' = subst (λ k. at g k ≡ ok xs) (sym e) has in
    let (h, w) = assign_lem g a xs (xs ++ b ∷ []) has' in
    (
      h,
      rw has' w.done,
      record {
        size = w.size;
        children = λ c ys hc. elim (Node-discrete a c) [
          | yes same ↦ rw (if_pos (Node-discrete a c) same (b ∷ []) []) (
              subst (λ k. at h k ≡ ok (ys ++ b ∷ [])) same
                (subst (λ zs. at h a ≡ ok (zs ++ b ∷ []))
                  (ok-injective (sym has' ∙ subst (λ k. at g k ≡ ok ys) (sym same) hc)) w.here))
          | no other ↦
              rw (if_neg (Node-discrete a c) other (b ∷ []) [], append-nil ys)
                (w.others c (λ q. other (sym q)) ∙ hc)
        ];
      },
    )

pub targets-append :
    (c : Node) (es fs : List Edge) → targets c (es ++ fs) ≡ targets c es ++ targets c fs
targets-append c [] fs = refl
targets-append c ((a, b) ∷ es) fs = elim (Node-discrete a c) [
  | yes h ↦
      rw
        (
          if_pos (Node-discrete a c) h (b ∷ targets c (es ++ fs)) (targets c (es ++ fs)),
          if_pos (Node-discrete a c) h (b ∷ targets c es) (targets c es),
        )
        (ap (◌∷◌ b) (targets-append c es fs))
  | no h ↦
      rw
        (
          if_neg (Node-discrete a c) h (b ∷ targets c (es ++ fs)) (targets c (es ++ fs)),
          if_neg (Node-discrete a c) h (b ∷ targets c es) (targets c es),
        )
        (targets-append c es fs)
]

Grown-trans :
    (g h k : Mapping) (es fs : List Edge) → Grown g es h → Grown h fs k → Grown g (es ++ fs) k
Grown-trans g h k es fs x y = record {
  size = y.size ∙ x.size;
  children = λ c xs e.
      y.children c (xs ++ targets c es) (x.children c xs e)
      ∙ ap ok (
          append_assoc xs (targets c es) (targets c fs)
          ∙ ap (◌++◌ xs) (sym (targets-append c es fs)));
}

pub push_edges_lem :
    (es : List Edge) (g : Mapping)
    → All (Leaves (length g)) es
    → (h : Mapping) × (push_edges g es ≡ ok h) × Grown g es h
unfolding push_edges
push_edges_lem [] g all =
    (g, refl, record { size = refl; children = λ c xs e. rw (append-nil xs) e })
push_edges_lem ((a, b) ∷ es) g all =
    let (h, pushed, x) = push_edge_lem g a b all.0 in
    let (k, rest, y) = push_edges_lem es h (subst (λ n. All (Leaves n) es) (sym x.size) all.1) in
    (k, rw pushed rest, Grown-trans g h k ((a, b) ∷ []) es x y)

pub push_edges-append :
    (g : Mapping) (es fs : List Edge)
    → push_edges g (es ++ fs) ≡ (push_edges g es >>= λ h. push_edges h fs)
unfolding push_edges
push_edges-append g [] fs = refl
push_edges-append g ((a, b) ∷ es) fs = go (push_edge g a b) (λ h. push_edges-append h es fs)
  where
    go :
        (r : Result Mapping)
        → ((h : Mapping) → push_edges h (es ++ fs) ≡ (push_edges h es >>= λ k. push_edges k fs))
        → (r >>= λ h. push_edges h (es ++ fs))
          ≡ ((r >>= λ h. push_edges h es) >>= λ k. push_edges k fs)
    go (ok h) ih = ih h
    go (Result.throws e) ih = refl
    go Result.undefined ih = refl

-- A fresh vector of children.
abbrev pub blank : ℕ → Mapping
blank n = replicate n []

at-blank : (n i : ℕ) → i < n → at (blank n) (some i) ≡ ok []
unfolding at
at-blank zero i h = elim h [ ]
at-blank (suc n) zero h = refl
at-blank (suc n) (suc i) h = unfold at in at-blank n i (omega arith)

-- Edges pushed onto a fresh vector.
pub push_edges-blank :
    (n : ℕ) (es : List Edge)
    → All (Leaves n) es
    → (h : Mapping) × (push_edges (blank n) es ≡ ok h)
      × (length h ≡ n)
      × ((i : ℕ) → i < n → at h (some i) ≡ ok (targets (some i) es))
push_edges-blank n es all =
    let size = length-replicate n [] in
    let (h, done, x) =
      push_edges_lem es (blank n) (subst (λ k. All (Leaves k) es) (sym size) all) in
    (h, done, x.size ∙ size, λ i lt. x.children (some i) [] (at-blank n i lt))

-- Every child of `g` is a node of `g`.
abbrev pub InRange : ℕ → Node → Type 0
InRange n c = (i : ℕ) × (c ≡ some i) × (i < n)

abbrev pub IsClosed : Mapping → Type 0
IsClosed g = All (All (InRange (length g))) g

abbrev pub swap : Edge → Edge
swap (a, b) = (b, a)

pub targets-other :
    (c : Node) (i : ℕ) (js : List Node) → some i ≢ c → targets c (map (λ j. (some i, j)) js) ≡ []
targets-other c i [] ne = refl
targets-other c i (j ∷ js) ne = if_neg (Node-discrete (some i) c) ne _ _ ∙ targets-other c i js ne

pub targets-same : (i : ℕ) (js : List Node) → targets (some i) (map (λ j. (some i, j)) js) ≡ js
targets-same i [] = refl
targets-same i (j ∷ js) =
    if_pos (Node-discrete (some i) (some i)) refl _ _ ∙ ap (◌∷◌ j) (targets-same i js)
