-- ===== src/Parse/Visitor/Sane.antt =====
-- The states of SqlVisitor in which every table and every name stands for a node of the graph.
use dist_storage.Prelude.{
  ◌+◌, ◌≤◌, ◌<◌, ℕ, ◌≡◌, refl, Option, none, some, List, [], ◌∷◌, length, length-append, All,
  All-map_imp, Bytes, Bytes-discrete, arith,
}
use dist_storage.Prelude.Maps.{lookup, insert_or_assign}
use dist_storage.Query.Ops.{ColumnOperation, ValueType, SequenceType}
use dist_storage.Query.Graph.{Node, QueryGraph, append_node, bind_name, emplace_node}
use dist_storage.Query.Graph.Built.{Built, operation, InRange-mono}
use dist_storage.Query.Mapping.Edges.{InRange}
use dist_storage.Parse.Literal.{ℤ}
use dist_storage.Parse.Visitor.{Context, Visitor, find_ident, star_columns, push_node}

-- Every name stands for a node.
abbrev pub Known : ℕ → Context → Type 0
Known n context = All (λ entry. InRange n entry.1) context

pub Known-mono : (n m : ℕ) (context : Context) → n ≤ m → Known n context → Known m context
Known-mono n m context le = All-map_imp _ _ context (λ entry. InRange-mono n m le entry.1)

All-InRange-mono :
    (n m : ℕ) (nodes : List Node) → n ≤ m → All (InRange n) nodes → All (InRange m) nodes
All-InRange-mono n m nodes le = All-map_imp _ _ nodes (InRange-mono n m le)

pub Known-bind_name :
    (n : ℕ) (name : Bytes) (node : Node) (context : Context)
    → InRange n node
    → Known n context
    → Known n (bind_name name node context)
unfolding insert_or_assign
Known-bind_name n name target [] r known = (r, tt)
Known-bind_name n name target ((key, old) ∷ context) r (first, known) =
    let rest = Known-bind_name n name target context r known in ground arith

lookup-Known :
    (n : ℕ) (name : Bytes) (context : Context) (node : Node)
    → Known n context
    → lookup Bytes-discrete name context ≡ some node
    → InRange n node
unfolding lookup
lookup-Known n name [] target known e = absurd (ground arith)
lookup-Known n name ((key, old) ∷ context) target (first, known) e =
    let rest = lookup-Known n name context target known in ground arith

-- find_ident gives NODE_NONE, or a node that a context knows.
pub find_ident-Known :
    (n : ℕ) (name : Bytes) (contexts : List Context) (i : ℕ)
    → All (Known n) contexts
    → find_ident name contexts ≡ some i
    → i < n
unfolding find_ident
find_ident-Known n name [] i known e = absurd (ground arith)
find_ident-Known n name (context ∷ contexts) i (first, known) e =
    found (find_ident-Known n name contexts i known) (lookup Bytes-discrete name context) refl e
  where
    found :
        (find_ident name contexts ≡ some i → i < n)
        → (o : Option Node) → lookup Bytes-discrete name context ≡ o
        → elim o [ some target ↦ target | none ↦ find_ident name contexts ] ≡ some i
        → i < n
    found rest none h e = rest e
    found rest (some target) h e =
        let (j, same, lt) = lookup-Known n name context target first h in ground arith

pub star_columns-Known :
    (n : ℕ) (context : Context) → Known n context → All (InRange n) (star_columns context)
unfolding star_columns
star_columns-Known n [] known = tt
star_columns-Known n ((key, target) ∷ context) (first, known) =
    let rest = star_columns-Known n context known in ground arith

module _ {F : Type 0} where
  -- The number of nodes.
  abbrev pub size : Visitor F → ℕ
  size v = length v.out_graph.operations

  -- The graph is one that the functions of graph.h build, and every context knows its names.
  pub record Sane (v : Visitor F) : Type 0 where
    pub built : Built v.out_graph
    pub files : Known (size v) v.file_table_context
    pub withs : Known (size v) v.with_table_context
    pub tables : Known (size v) v.expr_table_context
    pub vars : Known (size v) v.expr_var_context

  -- What a visit leaves: a sane state, with no node lost.
  pub record Grown (v w : Visitor F) : Type 0 where
    pub sane : Sane w
    pub more : size v ≤ size w

  -- A visit that gives a node, and one that gives nodes.
  abbrev pub Gives : Visitor F → Visitor F × Node → Type 0
  Gives v (w, n) = Grown v w × InRange (size w) n

  abbrev pub GivesAll : Visitor F → Visitor F × List Node → Type 0
  GivesAll v (w, ns) = Grown v w × All (InRange (size w)) ns

  pub Grown-self : (v : Visitor F) → Sane v → Grown v v
  Grown-self v s = record { sane = s; more = omega arith }

  pub Grown-trans : (u v w : Visitor F) → Grown u v → Grown v w → Grown u w
  Grown-trans u v w a b = record { sane = b.sane; more = omega (arith, a.more, b.more) }

  -- A graph that grows.
  pub Grown-graph :
      (v : Visitor F) (g : QueryGraph ℤ F)
      → Sane v
      → Built g
      → size v ≤ length g.operations
      → Grown v (record v { out_graph = g })
  Grown-graph v g s b le = record {
    sane = record {
      built = b;
      files = Known-mono _ _ v.file_table_context le s.files;
      withs = Known-mono _ _ v.with_table_context le s.withs;
      tables = Known-mono _ _ v.expr_table_context le s.tables;
      vars = Known-mono _ _ v.expr_var_context le s.vars;
    };
    more = le;
  }

  -- A graph that grows by one node, the result.
  pub Gives-graph :
      (v : Visitor F) (g : QueryGraph ℤ F)
      → Sane v
      → Built g
      → length g.operations ≡ size v + 1
      → Gives v (record v { out_graph = g }, some (size v))
  Gives-graph v g s b e = (Grown-graph v g s b (omega (arith, e)), (size v, refl, omega (arith, e)))

  pub push_node-Gives :
      (v : Visitor F) (op : ColumnOperation) (type : ValueType) (args : List Node)
      → Sane v
      → All (InRange (size v)) args
      → Gives v (push_node v op type args)
  unfolding push_node append_node emplace_node
  push_node-Gives v op type args s given =
      Gives-graph v _ s (operation none op type args SequenceType.single given s.built)
        (length-append v.out_graph.operations _)

  -- A node in range stays in range.
  pub Grown-node :
      (v w : Visitor F) (n : Node) → Grown v w → InRange (size v) n → InRange (size w) n
  Grown-node v w n g = InRange-mono _ _ g.more n

  pub Grown-nodes :
      (v w : Visitor F) (ns : List Node)
      → Grown v w
      → All (InRange (size v)) ns
      → All (InRange (size w)) ns
  Grown-nodes v w ns g = All-InRange-mono _ _ ns g.more
