-- ===== src/Query/Df/Pull.antt =====
-- pull_df and roll_constants: when they apply, and what they do.
use dist_storage.Prelude.{
  ◌≡◌, ◌≢◌, refl, sym, ap, ◌∙◌, none, some, Option, List, [], ◌∷◌, ok, throws, ◌>>=◌, >>=-eq-ok,
  All, arith, Result, Bool-cases, ◌⊎◌, inl, inr, true, false, not, ◌&&◌, if_pos, if_neg,
}
use dist_storage.Query.Ops.{ColumnOperation, ColumnOperation-discrete}
use dist_storage.Query.Graph.{Node, Operation, at}
use dist_storage.Query.Graph.Access.{assign_lem, at-ne-last}
use dist_storage.Query.Mapping.{Node-discrete}
use dist_storage.Query.Rules.{Nodes}
use dist_storage.Query.Rules.Extends.{
  IsSized, Has, Keeps, Extends, Extends-Keeps, last_node, clone_node_lem,
}
use dist_storage.Query.Df.{
  is_set, same_node, common_df, pull_df_applies, first_df, pull_df_apply, roll_constants_applies,
}

-- The child has the df 0, or `df`.
abbrev pub Agrees : List Operation → Node → Node → Type 0
Agrees ops df c = (o : Operation) × (at ops c ≡ ok o) × ((is_set o.df ≡ false) ⊎ (o.df ≡ df))

same_node-true : (a b : Node) → same_node a b ≡ true → a ≡ b
same_node-true a b h = elim (Node-discrete a b) [
  | yes e ↦ e
  | no ne ↦ ground (arith, sym h ∙ if_neg (Node-discrete a b) ne true false)
]

same_node-false : (a b : Node) → same_node a b ≡ false → a ≢ b
same_node-false a b h e = ground (arith, sym h ∙ if_pos (Node-discrete a b) e true false)

-- Once a df is taken, every later child must agree.
common_df-taken :
    (ops : List Operation) (common df : Node) (cs : List Node)
    → is_set common ≡ true
    → common_df ops common cs ≡ ok (some df)
    → (df ≡ common) × All (Agrees ops df) cs
unfolding common_df
common_df-taken ops common df [] set h = (ground arith, tt)
common_df-taken ops common df (c ∷ cs) set h =
    let (o, has, rest) = >>=-eq-ok (at ops c) _ h in
    elim (Bool-cases (is_set o.df)) [
      | inl s ↦ elim (Bool-cases (same_node o.df common)) [
        | inl same ↦
            let (e, all) = common_df-taken ops common df cs set (rw (s, same) at rest) in
            (e, ((o, has, inr (same_node-true o.df common same ∙ sym e)), all))
        | inr other ↦ absurd (ground arith)
      ]
      | inr s ↦
          let (e, all) = common_df-taken ops common df cs set (rw s at rest) in
          (e, ((o, has, inl s), all))
    ]

common_df-first :
    (ops : List Operation) (df : Node) (cs : List Node)
    → common_df ops (some 0) cs ≡ ok (some df)
    → is_set df ≡ true
    → All (Agrees ops df) cs × (first_df ops cs ≡ ok df)
unfolding common_df first_df
common_df-first ops df [] h set = absurd (ground arith)
common_df-first ops df (c ∷ cs) h set =
    let (o, has, rest) = >>=-eq-ok (at ops c) _ h in
    elim (Bool-cases (is_set o.df)) [
      | inl s ↦ elim (Bool-cases (same_node o.df (some 0))) [
        | inl same ↦
            let bad : true ≡ false = sym s ∙ ap is_set (same_node-true o.df (some 0) same) in
            absurd (cc)
        | inr other ↦
            let (e, all) = common_df-taken ops o.df df cs s (rw (s, other) at rest) in
            (((o, has, inr (sym e)), all), rw (has, s) (ap ok (sym e)))
      ]
      | inr s ↦
          let (all, first) = common_df-first ops df cs (rw s at rest) set in
          (((o, has, inl s), all), rw (has, s) first)
    ]

-- The operations of the children are still there after the clone.
first_df-kept :
    (n m : Nodes) (df : Node) (cs : List Node)
    → Extends (last_node n) n m
    → All (Agrees n.operations df) cs
    → first_df n.operations cs ≡ ok df
    → first_df m.operations cs ≡ ok df
unfolding first_df
first_df-kept n m df [] x all h = h
first_df-kept n m df (c ∷ cs) x ((o, has, _), all) h =
    let kept = x.kept_op c o (at-ne-last n.operations c o has) has in
    elim (Bool-cases (is_set o.df)) [
      | inl s ↦ rw (kept, s) (rw (has, s) at h)
      | inr s ↦ rw (kept, s) (first_df-kept n m df cs x all (rw (has, s) at h))
    ]

pull_df_applies-eq-ok :
    (n : Nodes) (c : Node) (o : Operation) (cs : List Node)
    → Has n c o cs
    → pull_df_applies n c ≡ ok true
    → (is_set o.df ≡ true)
      × ((df : Node) × (common_df n.operations (some 0) cs ≡ ok (some df))
          × (is_set df ≡ true)
          × (df ≢ o.df))
unfolding pull_df_applies
pull_df_applies-eq-ok n c o cs h run = elim (Bool-cases (is_set o.df)) [
  | inl s ↦ (s, found (common_df n.operations (some 0) cs) refl (rw (h.0, s, h.1) at run))
  | inr s ↦ absurd (ground (arith, h.0))
]
  where
    found :
        (r : Result (Option Node))
        → common_df n.operations (some 0) cs ≡ r
        → (r >>= λ common. elim common [
          | none ↦ ok false
          | some df ↦ ok (is_set df && not (same_node df o.df))
        ])
          ≡ ok true
        → (df : Node) × (common_df n.operations (some 0) cs ≡ ok (some df))
          × (is_set df ≡ true)
          × (df ≢ o.df)
    found (ok none) e q = absurd (ground arith)
    found (ok (some df)) e q = (df, e, ground arith, same_node-false df o.df (ground arith))
    found (throws x) e q = absurd (ground arith)
    found Result.undefined e q = absurd (ground arith)

-- When pull_df_applies says yes, the common DataFrame of the children is what pull_df_apply writes:
-- for a node in range it succeeds and keeps every node that was there, the new node is the old one
-- with another DataFrame id `df`, which is not 0 and differs from the old id, and every child has
-- either 0, the id of constants, or `df`. NODE_NONE counts as an id like any other: it is `df` for
-- children that have no DataFrame attached.
pub pull_df_apply-Agrees :
    (n : Nodes) (node : Node) (o : Operation) (cs : List Node)
    → IsSized n
    → Has n node o cs
    → pull_df_applies n node ≡ ok true
    → (m : Nodes) × (new : Node) × (df : Node) × (pull_df_apply n node ≡ ok (m, new))
      × Keeps n m
      × Has m new (record o { df = df }) cs
      × (df ≢ some 0)
      × (df ≢ o.df)
      × All (Agrees n.operations df) cs
unfolding pull_df_apply
pull_df_apply-Agrees n node o cs sized h run =
    let (s, found) = pull_df_applies-eq-ok n node o cs h run in
    let (df, common, set, other) = found in
    let (all, first) = common_df-first n.operations df cs common set in
    let new = last_node n in
    let (n1, cloned, x, has1) = clone_node_lem new node n o cs sized h in
    let (ops, w) = assign_lem n1.operations new o (record o { df = df }) has1.0 in
    (
      record n1 { operations = ops },
      new,
      df,
      rw (h.0, s, cloned, has1.1, first_df-kept n n1 df cs x all first, has1.0, w.done),
      Extends-Keeps n (record n1 { operations = ops })
          (record {
            sized = x.sized ∙ sym w.size;
            kept_op = λ c p ne e. w.others c ne ∙ x.kept_op c p ne e;
            kept_args = x.kept_args;
          }),
      (w.here, has1.1),
      (λ e. absurd (ground (arith, set, ap is_set e))),
      other,
      all,
    )

-- roll_constants_applies says no to every node in range whose operation is CONST only if it has no
-- children: the rule asks for a CONST node with children.
roll_constants_applies-never :
    (n : Nodes) (c : Node) (o : Operation) (cs : List Node)
    → Has n c o cs
    → (o.op ≡ ColumnOperation.const → cs ≡ [])
    → roll_constants_applies n c ≡ ok false
unfolding roll_constants_applies
roll_constants_applies-never n c o cs h leaf =
    elim (ColumnOperation-discrete o.op ColumnOperation.const) [
      | yes e ↦ rw (
        h.0,
        if_pos (ColumnOperation-discrete o.op ColumnOperation.const) e true false,
        h.1,
        leaf e,
      )
      | no ne ↦ rw (h.0, if_neg (ColumnOperation-discrete o.op ColumnOperation.const) ne true false)
    ]
