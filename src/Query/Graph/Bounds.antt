-- ===== src/Query/Graph/Bounds.antt =====
-- Every graph that the functions of graph.h build is well formed, so that lookups stay in range.
use dist_storage.Prelude.{
  ◌+◌, ◌≤◌, ◌≡◌, refl, sym, ap, ◌∙◌, none, some, List, [], ◌∷◌, ◌++◌, length, length-append,
  length-set, get_elem?, set, All, All-append, All-map_imp, ok, >>=-eq-ok, or_undefined-eq-ok,
  ok-injective, Bytes, arith, inl, inr,
}
use mathlib.Core.Path.{subst}
use dist_storage.Query.Ops.{ColumnOperation, ValueType, SequenceType}
use dist_storage.Query.Graph.{
  Node, Operation, QueryGraph, at, assign, emplace_node, append_name, set_node_name,
  append_int64_constant, append_float64_constant, append_string_constant, append_column,
  append_table, append_node,
}
use dist_storage.Query.Graph.Built.{
  Within, IsBound, IsBound-mono, IsWellFormed, Built, empty, named, renamed, int64, float64, text,
  column, table, operation, Given, IsClosed-push, All-set, All-get,
}
use dist_storage.Query.Mapping.Edges.{InRange, IsClosed}

Within-last : {A : Type 0} (xs : List A) (x : A) → Within (length (xs ++ x ∷ [])) (some (length xs))
Within-last xs x = inr (length xs, refl, omega (arith, length-append xs (x ∷ [])))

module _ {Z F : Type 0} where
  -- More names and constants do no harm.
  grown-IsWellFormed :
      (g g' : QueryGraph Z F)
      → IsWellFormed g
      → g'.operations ≡ g.operations
      → g'.graph_mapping ≡ g.graph_mapping
      → length g.names ≤ length g'.names
      → length g.int64_constants ≤ length g'.int64_constants
      → length g.float64_constants ≤ length g'.float64_constants
      → length g.string_constants ≤ length g'.string_constants
      → IsWellFormed g'
  grown-IsWellFormed g g' w ops gm a b c d = record {
    sized = ap length gm ∙ w.sized ∙ sym (ap length ops);
    closed = subst IsClosed (sym gm) w.closed;
    bound =
        subst (All _) (sym ops)
          (All-map_imp _ _ g.operations (IsBound-mono _ _ _ _ _ _ _ _ a b c d) w.bound);
  }

  emplace_node-IsWellFormed :
      (g : QueryGraph Z F) (args : List Node) (o : Operation)
      → IsWellFormed g
      → Given g args
      → IsBound
          (length g.names)
          (length g.int64_constants)
          (length g.float64_constants)
          (length g.string_constants)
          o
      → IsWellFormed (emplace_node g args o)
  unfolding emplace_node
  emplace_node-IsWellFormed g args o w given b = record {
    sized =
        length-append g.graph_mapping (args ∷ [])
        ∙ ap (λ n. n + 1) w.sized
        ∙ sym (length-append g.operations (o ∷ []));
    closed =
        IsClosed-push g.graph_mapping args w.closed
          (subst (λ n. All (InRange n) args) (sym w.sized) given);
    bound = All-append _ g.operations (o ∷ []) w.bound (b, tt);
  }

  named-IsWellFormed :
      (g : QueryGraph Z F) (name : Bytes) → IsWellFormed g → IsWellFormed (append_name g name).0
  unfolding append_name
  named-IsWellFormed g name w =
      grown-IsWellFormed g (record g { names = g.names ++ name ∷ [] }) w refl refl
        (omega (arith, length-append g.names (name ∷ []))) (omega arith) (omega arith) (omega arith)

  int64-IsWellFormed :
      (g : QueryGraph Z F) (value : Z)
      → IsWellFormed g
      → IsWellFormed (append_int64_constant g value).0
  unfolding append_int64_constant
  int64-IsWellFormed g value w =
      let g' = record g { int64_constants = g.int64_constants ++ value ∷ [] } in
      emplace_node-IsWellFormed g' [] _
        (grown-IsWellFormed g g' w refl refl (omega arith)
          (omega (arith, length-append g.int64_constants (value ∷ []))) (omega arith) (omega arith))
        tt (inl refl, Within-last g.int64_constants value)

  float64-IsWellFormed :
      (g : QueryGraph Z F) (value : F)
      → IsWellFormed g
      → IsWellFormed (append_float64_constant g value).0
  unfolding append_float64_constant
  float64-IsWellFormed g value w =
      let g' = record g { float64_constants = g.float64_constants ++ value ∷ [] } in
      emplace_node-IsWellFormed g' [] _
        (grown-IsWellFormed g g' w refl refl (omega arith) (omega arith)
          (omega (arith, length-append g.float64_constants (value ∷ []))) (omega arith))
        tt (inl refl, Within-last g.float64_constants value)

  text-IsWellFormed :
      (g : QueryGraph Z F) (value : Bytes)
      → IsWellFormed g
      → IsWellFormed (append_string_constant g value).0
  unfolding append_string_constant
  text-IsWellFormed g value w =
      let g' = record g { string_constants = g.string_constants ++ value ∷ [] } in
      emplace_node-IsWellFormed g' [] _
        (grown-IsWellFormed g g' w refl refl (omega arith) (omega arith) (omega arith)
          (omega (arith, length-append g.string_constants (value ∷ []))))
        tt (inl refl, Within-last g.string_constants value)

  column-IsWellFormed :
      (g : QueryGraph Z F) (name : Bytes) (type : ValueType)
      → IsWellFormed g
      → IsWellFormed (append_column g name type).0
  unfolding append_column append_name
  column-IsWellFormed g name type w =
      emplace_node-IsWellFormed (record g { names = g.names ++ name ∷ [] }) [] _
        (named-IsWellFormed g name w) tt (Within-last g.names name, inl refl)

  table-IsWellFormed :
      (g : QueryGraph Z F) (name : Bytes) (cols : List Node)
      → Given g cols
      → IsWellFormed g
      → IsWellFormed (append_table g name cols).0
  unfolding append_table append_name
  table-IsWellFormed g name cols given w =
      emplace_node-IsWellFormed (record g { names = g.names ++ name ∷ [] }) cols _
        (named-IsWellFormed g name w) given (Within-last g.names name, inl refl)

  operation-IsWellFormed :
      (g : QueryGraph Z F) (df : Node) (op : ColumnOperation) (type : ValueType) (args : List Node)
      (sequence : SequenceType)
      → Given g args
      → IsWellFormed g
      → IsWellFormed (append_node g df op type args sequence).0
  unfolding append_node
  operation-IsWellFormed g df op type args sequence given w =
      emplace_node-IsWellFormed g args _ w given (inl refl, inl refl)

  -- Nothing but the name of one operation changes.
  set-IsWellFormed :
      (g : QueryGraph Z F) (c name : Node) (o : Operation) (ops : List Operation)
      → IsWellFormed g
      → at g.operations c ≡ ok o
      → Within (length g.names) name
      → assign g.operations c (record o { name = name }) ≡ ok ops
      → IsWellFormed (record g { operations = ops })
  unfolding at assign
  set-IsWellFormed g none name o ops w has within e = absurd (ground arith)
  set-IsWellFormed g (some i) name o ops w has within e =
      let found = or_undefined-eq-ok (get_elem? g.operations i) has in
      let same : set g.operations i (record o { name = name }) ≡ ops =
        let written : assign g.operations (some i) (record o { name = name })
            ≡ ok (set g.operations i (record o { name = name })) =
          rw found in
        ok-injective (sym written ∙ e) in
      subst (λ l. IsWellFormed (record g { operations = l })) same
        (record {
          sized = w.sized ∙ sym (length-set g.operations i (record o { name = name }));
          closed = w.closed;
          bound =
              All-set _ g.operations i _ w.bound
                (within, (All-get _ g.operations i o w.bound found).1);
        })

  renamed-IsWellFormed :
      (g g' : QueryGraph Z F) (c : Node) (name : Bytes)
      → IsWellFormed g
      → set_node_name g c name ≡ ok g'
      → IsWellFormed g'
  unfolding set_node_name append_name
  renamed-IsWellFormed g g' c name w e =
      let n = record g { names = g.names ++ name ∷ [] } in
      let (o, has, r) = >>=-eq-ok (at g.operations c) _ e in
      let (ops, written, q) = >>=-eq-ok (assign g.operations c _) _ r in
      subst IsWellFormed (ok-injective q) (
        set-IsWellFormed n c (some (length g.names)) o ops (named-IsWellFormed g name w) has
          (Within-last g.names name) written)

  -- Every graph that the functions build from the empty one, when tables and operations are given
  -- nodes that exist, is well formed: each node has its list of children, every child is a node, and
  -- the name and the constant of every operation exist.
  pub Built-IsWellFormed : (g : QueryGraph Z F) → Built g → IsWellFormed g
  Built-IsWellFormed g empty = record { sized = refl; closed = tt; bound = tt }
  Built-IsWellFormed g (named name b) = named-IsWellFormed _ name (Built-IsWellFormed _ b)
  Built-IsWellFormed g (renamed c name b e) =
      renamed-IsWellFormed _ g c name (Built-IsWellFormed _ b) e
  Built-IsWellFormed g (int64 value b) = int64-IsWellFormed _ value (Built-IsWellFormed _ b)
  Built-IsWellFormed g (float64 value b) = float64-IsWellFormed _ value (Built-IsWellFormed _ b)
  Built-IsWellFormed g (text value b) = text-IsWellFormed _ value (Built-IsWellFormed _ b)
  Built-IsWellFormed g (column name type b) =
      column-IsWellFormed _ name type (Built-IsWellFormed _ b)
  Built-IsWellFormed g (table name cols given b) =
      table-IsWellFormed _ name cols given (Built-IsWellFormed _ b)
  Built-IsWellFormed g (operation df op type args sequence given b) =
      operation-IsWellFormed _ df op type args sequence given (Built-IsWellFormed _ b)
