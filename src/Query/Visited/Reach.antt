-- ===== src/Query/Visited/Reach.antt =====
-- fillVisited marks the nodes that can be reached.
use dist_storage.Prelude.{
  ℕ, zero, suc, ◌-◌, ◌^◌, lt→ltb, ◌+◌, ◌≤◌, ◌<◌, ◌≡◌, ◌≢◌, refl, sym, ap, ◌∙◌, some, List, [], ◌∷◌,
  length, get_elem?, set, ok, All, arith, if◌then◌else◌, ◌==◌, inl, inr, replicate,
  length-replicate, ok-injective, ℕ_discrete, or_undefined-eq-ok,
}
use mathlib.Core.Path.{subst}
use dist_storage.Query.Graph.{Node, Mapping, at, assign}
use dist_storage.Query.Graph.Access.{Assigned, assign_lem, at-lt, at-total}
use dist_storage.Query.Graph.Built.{All-get, at-All}
use dist_storage.Query.Mapping.Edges.{InRange, IsClosed}
use dist_storage.Query.Visited.Run.{
  Reach, self, step, Seen, SeenNode, unseen, unseen-set, Run, Run-self, Run-trans, Run-imp,
}
use dist_storage.Query.Visited.{visit_children, next_mark, fill_visited}

module _ (gm : Mapping) where
  -- A call on a node without a mark, with fuel for the nodes without one.
  abbrev Call : ℕ → Type 0
  Call fuel =
      (vs : List ℕ) (i value m : ℕ)
      → value ≡ suc m
      → length vs ≡ length gm
      → at vs (some i) ≡ ok 0
      → unseen vs ≤ fuel
      → value + fuel < 2 ^ 31
      → (ws : List ℕ) × (fill_visited fuel gm vs (some i) value ≡ ok ws)
        × Run gm (Reach gm i) vs ws
        × Seen ws i

  -- What is known of a child: it is a node, and what can be reached from it is allowed.
  record Child (From : ℕ → Type 0) (c : Node) : Type 0 where
    k : ℕ
    is : c ≡ some k
    fits : k < length gm
    leads : (j : ℕ) → Reach gm k j → From j

  Reach-first :
      (i k n : ℕ) (cs : List Node) (j : ℕ)
      → at gm (some i) ≡ ok cs
      → get_elem? cs n ≡ some (some k)
      → Reach gm k j
      → Reach gm i j
  Reach-first i k n cs j e h self = step cs n self e h
  Reach-first i k n cs j e h (step ds m r f g) = step ds m (Reach-first i k n cs _ e h r) f g

  Child-All :
      (From : ℕ → Type 0) (cs : List Node)
      → All (InRange (length gm)) cs
      → ((n k j : ℕ) → get_elem? cs n ≡ some (some k) → Reach gm k j → From j)
      → All (Child From) cs
  Child-All From [] all f = tt
  Child-All From (c ∷ cs) ((k, e, lt), all) f = (
    record { k = k; is = e; fits = lt; leads = λ j r. f 0 k j (ap some e) r },
    Child-All From cs all (λ n. f (suc n)),
  )

  module _ (fuel value m : ℕ) (pos_value : value ≡ suc m) (call : Call fuel)
      (small : value + fuel < 2 ^ 31) where
    -- The test of a child's mark, and the call if it has none.
    child_lem :
        (From : ℕ → Type 0) (vs : List ℕ) (k x : ℕ)
        → length vs ≡ length gm
        → unseen vs ≤ fuel
        → ((j : ℕ) → Reach gm k j → From j)
        → at vs (some k) ≡ ok x
        → (us : List ℕ) × ((if x == 0 then fill_visited fuel gm vs (some k) value else ok vs)
            ≡ ok us)
          × Run gm From vs us
          × Seen us k
    child_lem From vs k zero sized few leads has =
        let (us, done, run, seen) = call vs k value m pos_value sized has few small in
        (us, done, Run-imp gm (Reach gm k) From vs us leads run, seen)
    child_lem From vs k (suc x) sized few leads has =
        (vs, ground arith, Run-self gm From vs, record { mark = x; marked = has })

    visit_children_lem :
        (From : ℕ → Type 0) (vs : List ℕ) (cs : List Node)
        → length vs ≡ length gm
        → unseen vs ≤ fuel
        → All (Child From) cs
        → (ws : List ℕ) × (visit_children (λ us c. fill_visited fuel gm us c value) vs cs ≡ ok ws)
          × Run gm From vs ws
          × All (SeenNode ws) cs
    unfolding visit_children
    visit_children_lem From vs [] sized few all = (vs, refl, Run-self gm From vs, tt)
    visit_children_lem From vs (c ∷ cs) sized few (child, all) =
        let (x, has) = at-total vs child.k (omega (arith, child.fits, sized)) in
        let (us, done, run, seen) = child_lem From vs child.k x sized few child.leads has in
        let (ws, rest, run2, seens) =
          visit_children_lem From us cs (run.size ∙ sized) (omega (arith, run.fewer, few)) all in
        (
          ws,
          rw (child.is, has, done) rest,
          Run-trans gm From vs us ws run run2,
          ((child.k, child.is, run2.kept child.k seen), seens),
        )

  unseen-assign :
      (vs ws : List ℕ) (i m : ℕ)
      → at vs (some i) ≡ ok 0
      → assign vs (some i) (suc m) ≡ ok ws
      → suc (unseen ws) ≡ unseen vs
  unfolding at assign
  unseen-assign vs ws i m has e =
      let found = or_undefined-eq-ok (get_elem? vs i) has in
      let written : assign vs (some i) (suc m) ≡ ok (set vs i (suc m)) = rw found in
      ap (λ us. suc (unseen us)) (ok-injective (sym e ∙ written)) ∙ unseen-set vs i m found

  unseen-positive : (vs : List ℕ) (i : ℕ) → at vs (some i) ≡ ok 0 → 0 < unseen vs
  unfolding at
  unseen-positive vs i has =
      omega (arith, unseen-set vs i 0 (or_undefined-eq-ok (get_elem? vs i) has))

  -- A node that is marked in place of node `i`.
  Run-assign :
      (vs us ws : List ℕ) (i value m : ℕ) (cs : List Node)
      → value ≡ suc m
      → at vs (some i) ≡ ok 0
      → at gm (some i) ≡ ok cs
      → Assigned vs (some i) value us
      → Run gm (Reach gm i) us ws
      → All (SeenNode ws) cs
      → Run gm (Reach gm i) vs ws
  Run-assign vs us ws i value m cs e has hcs w run all = record {
    size = run.size ∙ w.size;
    fewer =
        omega (
          arith,
          run.fewer,
          unseen-assign vs us i m has (ap (assign vs (some i)) (sym e) ∙ w.done),
        );
    kept = λ j s. run.kept j (record {
      mark = s.mark;
      marked =
          w.others (some j) (λ e. ground (arith, sym has ∙ ap (at vs) (sym e) ∙ s.marked))
          ∙ s.marked;
    });
    below = λ j s. elim (run.below j s) [
      | inl t ↦ elim (ℕ_discrete j i) [
        | yes same ↦ inr (subst (Reach gm i) (sym same) self)
        | no other ↦ inl (back j t other)
      ]
      | inr r ↦ inr r
    ];
    closed = λ j ds s e. elim (run.closed j ds s e) [
      | inl t ↦ elim (ℕ_discrete j i) [
        | yes same ↦ inr (
            subst (All (SeenNode ws))
              (ok-injective (sym hcs ∙ ap (λ k. at gm (some k)) (sym same) ∙ e)) all)
        | no other ↦ inl (back j t other)
      ]
      | inr found ↦ inr found
    ];
  }
    where
      back : (j : ℕ) → Seen us j → j ≢ i → Seen vs j
      back j t other = record {
        mark = t.mark;
        marked = sym (w.others (some j) (λ e. other (ground (arith, e)))) ∙ t.marked;
      }

  next_mark_lem : (value : ℕ) → value < 2 ^ 31 - 1 → next_mark value ≡ ok (value + 1)
  unfolding next_mark
  next_mark_lem value small = rw (lt→ltb value (2 ^ 31 - 1) small)

  fill_visited-Call : IsClosed gm → (fuel : ℕ) → Call fuel
  unfolding fill_visited
  fill_visited-Call closed zero vs i value m e sized has few small =
      absurd (omega (arith, unseen-positive vs i has))
  fill_visited-Call closed (suc fuel) vs i value m e sized has few small =
      let lt = at-lt vs i 0 has in
      let (us, w) = assign_lem vs (some i) 0 value has in
      let (cs, hcs) = at-total gm i (omega (arith, sized, lt)) in
      let kids =
        Child-All (Reach gm i) cs (at-All (All (InRange (length gm))) gm i cs closed hcs)
          (λ n k j h r. Reach-first i k n cs j hcs h r) in
      let fewer = unseen-assign vs us i m has (ap (assign vs (some i)) (sym e) ∙ w.done) in
      let (ws, done, run, all) =
        visit_children_lem fuel (value + 1) value (omega arith) (fill_visited-Call closed fuel)
          (omega (arith, small)) (Reach gm i) us cs (w.size ∙ sized) (omega (arith, fewer, few))
          kids in
      (
        ws,
        rw (w.done, hcs, next_mark_lem value (omega (arith, small))) done,
        Run-assign vs us ws i value m cs e has hcs w run all,
        run.kept i (record { mark = m; marked = w.here ∙ ap ok e }),
      )

  -- Whatever is reached from a marked node is marked, if marks are closed under children.
  Reach-Seen :
      (ws : List ℕ) (i j : ℕ)
      → ((k : ℕ) (cs : List Node) → Seen ws k → at gm (some k) ≡ ok cs → All (SeenNode ws) cs)
      → Seen ws i
      → Reach gm i j
      → Seen ws j
  Reach-Seen ws i j closed s self = s
  Reach-Seen ws i j closed s (step {j = k} cs n r hcs h) =
      let (l, e, seen) =
        All-get (SeenNode ws) cs n _ (closed k cs (Reach-Seen ws i k closed s r) hcs) h in
      subst (Seen ws) (ground (arith, e)) seen

-- No node has a mark yet.
abbrev pub unmarked : ℕ → List ℕ
unmarked n = replicate n 0

unseen-replicate : (n : ℕ) → unseen (unmarked n) ≡ n
unseen-replicate zero = refl
unseen-replicate (suc n) = ap suc (unseen-replicate n)

at-replicate : (n i : ℕ) → i < n → at (unmarked n) (some i) ≡ ok 0
unfolding at
at-replicate zero i lt = absurd (omega arith)
at-replicate (suc n) zero lt = refl
at-replicate (suc n) (suc i) lt = at-replicate n i (omega arith)

not-Seen : (n i : ℕ) → Seen (unmarked n) i → ⊥
not-Seen n i s =
    let lt = at-lt (unmarked n) i _ s.marked in
    let zero_mark = at-replicate n i (omega (arith, lt, length-replicate {A = ℕ} n 0)) in
    ground (arith, ok-injective (sym zero_mark ∙ s.marked))

-- On a graph whose children are nodes, cycles or not, fillVisited ends when it starts from a node with
-- a positive value and no node has a mark, and that value plus the number of nodes fits an int: the
-- recursion is no deeper than the number of nodes, and no mark overflows. After it, a node has a mark exactly if it can be reached from the first node along the edges.
pub fill_visited-Reach :
    (gm : Mapping) (i m : ℕ)
    → IsClosed gm
    → i < length gm
    → suc m + length gm < 2 ^ 31
    → (ws : List ℕ) × (fill_visited (length gm) gm (unmarked (length gm)) (some i) (suc m) ≡ ok ws)
      × ((j : ℕ) → (Seen ws j → Reach gm i j) × (Reach gm i j → Seen ws j))
fill_visited-Reach gm i m closed lt small =
    let vs = unmarked (length gm) in
    let (ws, done, run, here) =
      fill_visited-Call gm closed (length gm) vs i (suc m) m refl (length-replicate (length gm) 0)
        (at-replicate (length gm) i lt) (omega (arith, unseen-replicate (length gm))) small in
    (
      ws,
      done,
      λ j. (
        λ s. elim (run.below j s) [ inl t ↦ absurd (not-Seen (length gm) j t) | inr r ↦ r ],
        Reach-Seen gm ws i j
            (λ k cs s e. elim (run.closed k cs s e) [
              | inl t ↦ absurd (not-Seen (length gm) k t)
              | inr all ↦ all
            ])
            here,
      ),
    )
