-- ===== src/Query/Df/Fill.antt =====
-- fillDFIds: which operations get a DataFrame id.
use dist_storage.Prelude.{
  ℕ, suc, zero, ◌+◌, ◌≤◌, ◌<◌, ◌≡◌, ◌≢◌, refl, sym, ap, ◌∙◌, none, some, List, [], ◌∷◌, length, ok,
  All, arith, Result, if◌then◌else◌, Bool-cases, inl, inr, Option-cases, ok-injective, ℕ_discrete,
}
use mathlib.Core.Path.{subst}
use dist_storage.Query.Ops.{is_table_operation}
use dist_storage.Query.Graph.{Node, Operation, Mapping, at}
use dist_storage.Query.Graph.Access.{assign_lem, at-lt, at-total}
use dist_storage.Query.Mapping.Edges.{InRange, IsClosed}
use dist_storage.Query.Df.{walk_children, fill_df_ids_walk, walk_depth, fill_from, fill_df_ids}

-- If the recursive call changes nothing, neither does the loop.
walk_children_idle :
    (again : List Operation → Result (List Operation)) (ops : List Operation) (cs : List Node)
    → again ops ≡ ok ops
    → All (InRange (length ops)) cs
    → walk_children again ops cs ≡ ok ops
unfolding walk_children
walk_children_idle again ops [] h all = refl
walk_children_idle again ops (c ∷ cs) h ((i, e, lt), all) =
    let (o, has) = at-total ops i lt in
    let rest = walk_children_idle again ops cs h all in
    elim (Bool-cases (is_table_operation o.op)) [
      | inl t ↦ rw (e, has, t) rest
      | inr t ↦ rw (e, has, t, h) rest
    ]

-- The operation `o` of node `i` with its own id as DataFrame id, if it had none and is a table.
abbrev pub own_df : ℕ → Operation → Operation
own_df i o =
    if is_table_operation o.op
    then elim o.df [ none ↦ record o { df = some i } | some df ↦ o ]
    else o

-- `qs` is `ps` with the operation of node `i` replaced by `o`.
record Written (ps : List Operation) (i : ℕ) (o : Operation) (qs : List Operation) : Type 0 where
  size : length qs ≡ length ps
  here : at qs (some i) ≡ ok o
  others : (j : ℕ) → j ≢ i → at qs (some j) ≡ at ps (some j)

walk_none :
    (ops : List Operation) (gm : Mapping) (i : ℕ) (o : Operation) (cs : List Node)
    → at ops (some i) ≡ ok o
    → at gm (some i) ≡ ok cs
    → All (InRange (length ops)) cs
    → o.df ≡ none
    → (qs : List Operation) × (fill_df_ids_walk walk_depth ops gm (some i) ≡ ok qs)
      × Written ops i (record o { df = some i }) qs
unfolding fill_df_ids_walk
walk_none ops gm i o cs has hcs all e =
    let (qs, w) = assign_lem ops (some i) o (record o { df = some i }) has in
    (
      qs,
      rw (has, e, w.done, hcs)
          (walk_children_idle (λ ps. fill_df_ids_walk 1 ps gm (some i)) qs cs (rw w.here)
            (subst (λ n. All (InRange n) cs) (sym w.size) all)),
      record {
        size = w.size;
        here = w.here;
        others = λ j ne. w.others (some j) (λ q. ground arith);
      },
    )

walk_some :
    (ops : List Operation) (gm : Mapping) (i : ℕ) (o : Operation) (df : ℕ)
    → at ops (some i) ≡ ok o
    → o.df ≡ some df
    → fill_df_ids_walk walk_depth ops gm (some i) ≡ ok ops
unfolding fill_df_ids_walk
walk_some ops gm i o df has e = rw (has, e)

-- One round of fillDFIds.
round_lem :
    (ops : List Operation) (gm : Mapping) (i : ℕ) (o : Operation) (cs : List Node)
    → at ops (some i) ≡ ok o
    → at gm (some i) ≡ ok cs
    → All (InRange (length ops)) cs
    → (qs : List Operation) × ((if is_table_operation o.op
          then fill_df_ids_walk walk_depth ops gm (some i)
          else ok ops)
        ≡ ok qs)
      × Written ops i (own_df i o) qs
round_lem ops gm i o cs has hcs all = elim (Bool-cases (is_table_operation o.op)) [
  | inl t ↦ elim (Option-cases o.df) [
    | inl e ↦
        let (qs, done, w) = walk_none ops gm i o cs has hcs all e in (qs, rw t done, rw (t, e) w)
    | inr (df, e) ↦ (
      ops,
      rw t (walk_some ops gm i o df has e),
      rw (t, e) (record { size = refl; here = has; others = λ j _. refl }),
    )
  ]
  | inr t ↦ (ops, rw t, rw t (record { size = refl; here = has; others = λ j _. refl }))
]

-- What fillDFIds leaves from node `i` on.
record Filled (i : ℕ) (ps qs : List Operation) : Type 0 where
  size : length qs ≡ length ps
  before : (j : ℕ) → j < i → at qs (some j) ≡ at ps (some j)
  after : (j : ℕ) (o : Operation) → i ≤ j → at ps (some j) ≡ ok o → at qs (some j) ≡ ok (own_df j o)

-- Every node has its children, and they are nodes.
record Sized (gm : Mapping) (n : ℕ) : Type 0 where
  children : (i : ℕ) → i < n → (cs : List Node) × (at gm (some i) ≡ ok cs) × All (InRange n) cs

Filled-step :
    (i : ℕ) (ps qs rs : List Operation) (o : Operation)
    → at ps (some i) ≡ ok o
    → Written ps i (own_df i o) qs
    → Filled (i + 1) qs rs
    → Filled i ps rs
Filled-step i ps qs rs o has w f = record {
  size = f.size ∙ w.size;
  before = λ j lt. f.before j (omega arith) ∙ w.others j (omega arith);
  after = λ j p le e. elim (ℕ_discrete j i) [
    | yes same ↦
        subst (λ k. at rs (some k) ≡ ok (own_df k p)) (sym same)
          (f.before i (omega arith)
            ∙ w.here
            ∙ ap (λ q. ok (own_df i q))
                (ok-injective (sym has ∙ subst (λ k. at ps (some k) ≡ ok p) same e)))
    | no other ↦ f.after j p (omega arith) (w.others j other ∙ e)
  ];
}

fill_from_lem :
    (rounds i : ℕ) (ps : List Operation) (gm : Mapping)
    → i + rounds ≡ length ps
    → Sized gm (length ps)
    → (qs : List Operation) × (fill_from rounds i ps gm ≡ ok qs) × Filled i ps qs
unfolding fill_from
fill_from_lem zero i ps gm e sized = (
  ps,
  refl,
  record {
    size = refl;
    before = λ j _. refl;
    after = λ j o le has. absurd (omega (arith, at-lt ps j o has));
  },
)
fill_from_lem (suc rounds) i ps gm e sized =
    let (o, has) = at-total ps i (omega arith) in
    let (cs, hcs, all) = sized.children i (omega arith) in
    let (qs, done, w) = round_lem ps gm i o cs has hcs all in
    let (rs, rest, f) =
      fill_from_lem rounds (i + 1) qs gm (omega (arith, w.size))
        (subst (Sized gm) (sym w.size) sized) in
    (rs, rw (has, done) rest, Filled-step i ps qs rs o has w f)

Sized_of_closed :
    (gm : Mapping) (n i : ℕ) (k : Mapping)
    → All (All (InRange n)) k
    → i < length k
    → (cs : List Node) × (at k (some i) ≡ ok cs) × All (InRange n) cs
unfolding at
Sized_of_closed gm n i [] all lt = absurd (omega arith)
Sized_of_closed gm n zero (cs ∷ k) all lt = (cs, refl, all.0)
Sized_of_closed gm n (suc i) (cs ∷ k) all lt = Sized_of_closed gm n i k all.1 (omega arith)

-- If every node has its children and they are nodes, fillDFIds ends, the recursion going two calls
-- deep at most, and gives each table operation that had no DataFrame id its own number as the id.
-- It changes nothing else: no operation that is not a table operation gets an id.
pub fill_df_ids_lem :
    (ops : List Operation) (gm : Mapping) (i : ℕ) (o : Operation)
    → length gm ≡ length ops
    → IsClosed gm
    → at ops (some i) ≡ ok o
    → (qs : List Operation) × (fill_df_ids ops gm ≡ ok qs)
      × (length qs ≡ length ops)
      × (at qs (some i) ≡ ok (own_df i o))
unfolding fill_df_ids
fill_df_ids_lem ops gm i o sized closed has =
    let all : Sized gm (length ops) = record {
      children = λ j lt.
          Sized_of_closed gm (length ops) j gm (subst (λ n. All (All (InRange n)) gm) sized closed)
            (omega arith);
    } in
    let (qs, done, f) = fill_from_lem (length ops) 0 ops gm (omega arith) all in
    (qs, done, f.size, f.after i o (omega arith) has)
