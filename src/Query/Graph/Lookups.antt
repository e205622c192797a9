-- ===== src/Query/Graph/Lookups.antt =====
-- Lookups in a graph that the functions of graph.h have built.
use dist_storage.Prelude.{
  ℕ, ◌<◌, ◌≡◌, refl, ap, ◌∙◌, some, List, [], ◌∷◌, length, get_elem?-total, All, ok, or_undefined,
  Bytes, arith, inl, inr, if◌then◌else◌,
}
use mathlib.Core.Path.{subst}
use dist_storage.Query.Graph.{
  Node, Operation, QueryGraph, at, get_node_name, load_columns, load_table_names, is_empty,
  bind_name, qualified,
}
use dist_storage.Query.Graph.Built.{Within, IsWellFormed, Built, All-get}
use dist_storage.Query.Graph.Bounds.{Built-IsWellFormed}
use dist_storage.Query.Mapping.Edges.{InRange}

module _ {Z F : Type 0} where
  -- The operation of a node, with its name.
  record Looked (g : QueryGraph Z F) (i : ℕ) : Type 0 where
    o : Operation
    found : at g.operations (some i) ≡ ok o
    name : Within (length g.names) o.name

  looked : (g : QueryGraph Z F) (i : ℕ) → IsWellFormed g → i < length g.operations → Looked g i
  unfolding at
  looked g i w lt =
      let (o, e) = get_elem?-total g.operations i lt in
      record { o = o; found = ap or_undefined e; name = (All-get _ g.operations i o w.bound e).0 }

  name_at :
      (g : QueryGraph Z F) (k : ℕ)
      → k < length g.names
      → (name : Bytes) × (at g.names (some k) ≡ ok name)
  unfolding at
  name_at g k lt = let (name, e) = get_elem?-total g.names k lt in (name, ap or_undefined e)

  name_of :
      (g : QueryGraph Z F) (i : ℕ) (o : Operation)
      → at g.operations (some i) ≡ ok o
      → Within (length g.names) o.name
      → (name : Bytes) × (get_node_name g (some i) ≡ ok name)
  unfolding get_node_name
  name_of g i o found (inl e) = ([], rw (found, e))
  name_of g i o found (inr (k, e, below)) =
      let (name, named) = name_at g k below in (name, rw (found, e) named)

  -- getNodeName stays in range on every node of a graph that the functions have built.
  pub get_node_name-Built :
      (g : QueryGraph Z F) (i : ℕ)
      → Built g
      → i < length g.operations
      → (name : Bytes) × (get_node_name g (some i) ≡ ok name)
  get_node_name-Built g i b lt =
      let l = looked g i (Built-IsWellFormed g b) lt in name_of g i l.o l.found l.name

  -- A run of the loop of loadTableNames.
  abbrev Loaded : QueryGraph Z F → Bytes → List Node → List (Bytes × Node) → Type 0
  Loaded g table_name cols ctx =
      (ctx' : List (Bytes × Node)) × (load_columns g table_name cols ctx ≡ ok ctx')

  column_lem :
      (g : QueryGraph Z F) (table_name : Bytes) (col : Node) (cols : List Node)
      (ctx : List (Bytes × Node)) (o : Operation)
      → at g.operations col ≡ ok o
      → Within (length g.names) o.name
      → ((ctx1 : List (Bytes × Node)) → Loaded g table_name cols ctx1)
      → Loaded g table_name (col ∷ cols) ctx
  unfolding load_columns
  column_lem g table_name col cols ctx o found (inl e) rest =
      let (ctx', done) = rest ctx in (ctx', rw (found, e) done)
  column_lem g table_name col cols ctx o found (inr (k, e, below)) rest =
      named_lem (name_at g k below).0 (name_at g k below).1
    where
      bound : Bytes → List (Bytes × Node)
      bound name =
          if is_empty table_name
          then bind_name name col ctx
          else bind_name (qualified table_name name) col (bind_name name col ctx)

      named_lem :
          (name : Bytes) → at g.names (some k) ≡ ok name → Loaded g table_name (col ∷ cols) ctx
      named_lem name named =
          let (ctx', done) = rest (bound name) in (ctx', rw (found, e, named) done)

  load_columns-IsWellFormed :
      (g : QueryGraph Z F) (table_name : Bytes) (cols : List Node) (ctx : List (Bytes × Node))
      → IsWellFormed g
      → All (InRange (length g.operations)) cols
      → Loaded g table_name cols ctx
  load_columns-IsWellFormed g table_name [] ctx w all = unfold load_columns in (ctx, refl)
  load_columns-IsWellFormed g table_name (col ∷ cols) ctx w ((i, e, lt), all) =
      let l = looked g i w lt in
      column_lem g table_name col cols ctx l.o (ap (at g.operations) e ∙ l.found) l.name
        (λ ctx1. load_columns-IsWellFormed g table_name cols ctx1 w all)

  -- loadTableNames stays in range on every node of a graph that the functions have built.
  pub load_table_names-Built :
      (ctx : List (Bytes × Node)) (g : QueryGraph Z F) (i : ℕ) (table_name : Bytes)
      → Built g
      → i < length g.operations
      → (ctx' : List (Bytes × Node)) × (load_table_names ctx g (some i) table_name ≡ ok ctx')
  unfolding load_table_names at
  load_table_names-Built ctx g i table_name b lt =
      let w = Built-IsWellFormed g b in
      let (cols, e) = get_elem?-total g.graph_mapping i (omega (arith, w.sized)) in
      let children = All-get _ g.graph_mapping i cols w.closed e in
      let (ctx', done) =
        load_columns-IsWellFormed g table_name cols ctx w
          (subst (λ n. All (InRange n) cols) w.sized children) in
      (ctx', rw e done)
