-- ===== src/Query/Graph/Access.antt =====
-- Reads and writes of the graph's vectors through a `node_t`.
use dist_storage.Prelude.{
  ℕ, ◌<◌, ◌≡◌, ◌≢◌, refl, ap, sym, some, none, List, [], ◌∷◌, ◌++◌, length, length-set, get_elem?,
  set, get_elem?-set_self, get_elem?-set_ne, get_elem?-push, get_elem?-append_of_some,
  lt-length_of_get_elem?, ok, or_undefined, or_undefined-eq-ok, arith, get_elem?-total,
}
use dist_storage.Query.Graph.{Node, at, assign}

module _ {ℓ} {A : Type ℓ} where
  pub at-push : (xs : List A) (x : A) → at (xs ++ x ∷ []) (some (length xs)) ≡ ok x
  unfolding at
  at-push xs x = rw (get_elem?-push xs x)

  pub at-append : (xs ys : List A) (c : Node) (x : A) → at xs c ≡ ok x → at (xs ++ ys) c ≡ ok x
  unfolding at
  at-append xs ys none x h = cc
  at-append xs ys (some i) x h =
      rw (get_elem?-append_of_some xs ys i x (or_undefined-eq-ok (get_elem? xs i) h))

  pub at-lt : (xs : List A) (i : ℕ) (x : A) → at xs (some i) ≡ ok x → i < length xs
  unfolding at
  at-lt xs i x h = lt-length_of_get_elem? xs i x (or_undefined-eq-ok (get_elem? xs i) h)

  pub at-total : (xs : List A) (i : ℕ) → i < length xs → (x : A) × (at xs (some i) ≡ ok x)
  unfolding at
  at-total xs i h = let (x, e) = get_elem?-total xs i h in (x, ap or_undefined e)

  -- The last node is not one of those before it.
  pub at-ne-last : (xs : List A) (c : Node) (x : A) → at xs c ≡ ok x → c ≢ some (length xs)
  unfolding at
  at-ne-last xs none x h e = cc
  at-ne-last xs (some i) x h e = ground (arith, at-lt xs i x h)

  -- What a write in range does.
  pub record Assigned (xs : List A) (c : Node) (v : A) (ys : List A) : Type ℓ where
    pub done : assign xs c v ≡ ok ys
    pub here : at ys c ≡ ok v
    pub others : (d : Node) → d ≢ c → at ys d ≡ at xs d
    pub size : length ys ≡ length xs

  set_others : (xs : List A) (i : ℕ) (v : A) (d : Node) → d ≢ some i → at (set xs i v) d ≡ at xs d
  unfolding at
  set_others xs i v none h = refl
  set_others xs i v (some j) h = rw (get_elem?-set_ne xs i j v (λ e. h (ap some (sym e))))

  pub assign_lem :
      (xs : List A) (c : Node) (x v : A) → at xs c ≡ ok x → (ys : List A) × Assigned xs c v ys
  unfolding at assign
  assign_lem xs none x v h = cc
  assign_lem xs (some i) x v h =
      let e = or_undefined-eq-ok (get_elem? xs i) h in
      (
        set xs i v,
        record {
          done = rw e;
          here = rw (get_elem?-set_self xs i v (lt-length_of_get_elem? xs i x e));
          others = set_others xs i v;
          size = length-set xs i v;
        },
      )
