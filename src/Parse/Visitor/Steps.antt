-- ===== src/Parse/Visitor/Steps.antt =====
-- The operations of SqlVisitor on names and tables stay in range and keep the state sane.
use dist_storage.Prelude.{
  ◌<◌, ℕ, ◌≡◌, Bool, true, false, set, Option, none, some, List, [], ◌∷◌, ◌++◌, length, length-set,
  All, ok, throws, Ensures, returns, raises, Ensures-bind, Bytes, Bytes-discrete, arith,
  if◌then◌else◌, ◌>>=◌, >>=-eq-ok, ok-injective, compile_error, out_of_range, ◌&&◌, not,
}
use mathlib.Core.Path.{subst}
use dist_storage.Prelude.Maps.{lookup}
use dist_storage.Query.Ops.{ColumnOperation, ValueType}
use dist_storage.Query.Graph.{
  Node, QueryGraph, at, append_name, set_node_name, get_node_name, load_columns, load_table_names,
  is_empty, qualified, bind_name,
}
use dist_storage.Query.Graph.Access.{at-total}
use dist_storage.Query.Graph.Built.{at-All, Built, renamed, InRange-mono}
use dist_storage.Query.Graph.Bounds.{Built-IsWellFormed}
use dist_storage.Query.Graph.Lookups.{get_node_name-Built, load_table_names-Built}
use dist_storage.Query.Mapping.Edges.{InRange}
use dist_storage.Parse.Literal.{ℤ, normalize_op}
use dist_storage.Parse.Visitor.{
  Context, Visitor, known_op, or_else, append_operation, rename, name_element, name_relation,
  table_alias, enter_table, op_map, op_at,
}
use dist_storage.Parse.Visitor.Sane.{
  Known, Known-bind_name, size, Sane, Grown, Gives, Grown-self, Grown-graph, push_node-Gives,
}

known_op-Ensures : (text : Bytes) → Ensures (λ _. Unit) (known_op text)
unfolding known_op
known_op-Ensures text = either (lookup Bytes-discrete (normalize_op text) op_map)
  where
    either : (o : Option ColumnOperation) → Ensures (λ _. Unit) (or_else o (throws compile_error))
    either none = raises
    either (some op) = returns tt

pub op_at-Ensures : (text : Bytes) → Ensures (λ _. Unit) (op_at text)
unfolding op_at
op_at-Ensures text = either (lookup Bytes-discrete text op_map)
  where
    either : (o : Option ColumnOperation) → Ensures (λ _. Unit) (or_else o (throws out_of_range))
    either none = raises
    either (some op) = returns tt

module _ {F : Type 0} where
  -- A node gets a name: the nodes stay.
  set_node_name-Built :
      (g : QueryGraph ℤ F) (i : ℕ) (name : Bytes)
      → Built g
      → i < length g.operations
      → (h : QueryGraph ℤ F) × (set_node_name g (some i) name ≡ ok h)
        × Built h
        × (length h.operations ≡ length g.operations)
  unfolding set_node_name append_name
  set_node_name-Built g i name b lt =
      let (o, has) = at-total g.operations i lt in
      let o' = record o { name = some (length g.names) } in
      let h : QueryGraph ℤ F = record g {
        names = g.names ++ name ∷ [];
        operations = set g.operations i o';
      } in
      let done : set_node_name g (some i) name ≡ ok h = rw has in
      (h, done, renamed (some i) name b done, length-set g.operations i o')

  rename-Ensures :
      (v : Visitor F) (n : Node) (name : Bytes)
      → Sane v
      → InRange (size v) n
      → Ensures (Grown v) (rename v n name)
  unfolding rename
  rename-Ensures v n name s (i, e, lt) =
      let (h, done, b, same) = set_node_name-Built v.out_graph i name s.built lt in
      rw (e, done) (returns (Grown-graph v h s b (omega (arith, same))))

  pub name_element-Ensures :
      (v : Visitor F) (n : Node) (alias : Option Bytes)
      → Sane v
      → InRange (size v) n
      → Ensures (Grown v) (name_element v n alias)
  unfolding name_element
  name_element-Ensures v n none s r = returns (Grown-self v s)
  name_element-Ensures v n (some alias) s r = rename-Ensures v n alias s r

  get_node_name-Ensures :
      (v : Visitor F) (n : Node)
      → Sane v
      → InRange (size v) n
      → Ensures (λ _. Unit) (get_node_name v.out_graph n)
  get_node_name-Ensures v n s (i, e, lt) =
      let (name, done) = get_node_name-Built v.out_graph i s.built lt in rw (e, done) (returns tt)

  pub name_relation-Ensures :
      (v : Visitor F) (n : Node) (alias : Option Bytes)
      → Sane v
      → InRange (size v) n
      → Ensures (Gives v) (name_relation v n alias)
  unfolding name_relation
  name_relation-Ensures v n none s r =
      Ensures-bind (get_node_name-Ensures v n s r) (λ _ _. returns (Grown-self v s, r))
  name_relation-Ensures v n (some alias) s r =
      Ensures-bind (get_node_name-Ensures v n s r) (λ expr_name _.
        Ensures-bind (choice (is_empty expr_name && not (is_empty alias)))
          (λ w g. returns (g, InRange-mono _ _ g.more n r)))
    where
      choice : (b : Bool) → Ensures (Grown v) (if b then rename v n alias else ok v)
      choice true = rename-Ensures v n alias s r
      choice false = returns (Grown-self v s)

  table_alias-Ensures :
      (v : Visitor F) (n : Node) (alias : Option Bytes)
      → Sane v
      → InRange (size v) n
      → Ensures (λ _. Unit) (table_alias v n alias)
  unfolding table_alias
  table_alias-Ensures v n none s r = get_node_name-Ensures v n s r
  table_alias-Ensures v n (some alias) s r = returns tt

  -- loadTableNames with the names that it may bind.
  load_columns-Known :
      (g : QueryGraph ℤ F) (n : ℕ) (table_name : Bytes) (cols : List Node) (ctx ctx' : Context)
      → All (InRange n) cols
      → Known n ctx
      → load_columns g table_name cols ctx ≡ ok ctx'
      → Known n ctx'
  unfolding load_columns
  load_columns-Known g n table_name [] ctx ctx' all known e = subst (Known n) (ok-injective e) known
  load_columns-Known g n table_name (col ∷ cols) ctx ctx' (r, all) known e =
      let (o, has, rest) = >>=-eq-ok (at g.operations col) _ e in
      let (mid, step, rest') = >>=-eq-ok _ _ rest in
      load_columns-Known g n table_name cols mid ctx' all (bound o.name mid step) rest'
    where
      bound :
          (name : Node) (mid : Context)
          → elim name [
            | none ↦ ok ctx
            | some i ↦ do
              found ← at g.names (some i)
              let named = bind_name found col ctx
              ok (
                  if is_empty table_name
                  then named
                  else bind_name (qualified table_name found) col named)
          ]
            ≡ ok mid
          → Known n mid
      bound none mid step = subst (Known n) (ok-injective step) known
      bound (some i) mid step =
          let (found, _, last) = >>=-eq-ok (at g.names (some i)) _ step in
          let named = Known-bind_name n found col ctx r known in
          let more = Known-bind_name n (qualified table_name found) col _ r named in
          subst (Known n) (ok-injective last) (ground arith)

  load_table_names-Ensures :
      (v : Visitor F) (n : Node) (name : Bytes)
      → Sane v
      → InRange (size v) n
      → Ensures (Known (size v)) (load_table_names v.expr_var_context v.out_graph n name)
  unfolding load_table_names
  load_table_names-Ensures v n name s (i, e, lt) =
      let (ctx, done) = load_table_names-Built v.expr_var_context v.out_graph i name s.built lt in
      let (cols, has, rest) = >>=-eq-ok (at v.out_graph.graph_mapping (some i)) _ done in
      let w = Built-IsWellFormed v.out_graph s.built in
      rw (e, done)
        (returns (
          load_columns-Known v.out_graph (size v) name cols v.expr_var_context ctx
            (subst (λ m. All (InRange m) cols) w.sized
              (at-All (All (InRange (length v.out_graph.graph_mapping))) v.out_graph.graph_mapping i
                cols w.closed has))
            s.vars rest))

  pub enter_table-Ensures :
      (v : Visitor F) (n : Node) (alias : Option Bytes)
      → Sane v
      → InRange (size v) n
      → Ensures (Grown v) (enter_table v n alias)
  unfolding enter_table
  enter_table-Ensures v n alias s r = Ensures-bind (table_alias-Ensures v n alias s r) (λ name _.
      Ensures-bind (load_table_names-Ensures v n name s r)
        (λ vars known. returns (entered name vars known (is_empty name))))
    where
      entered :
          (name : Bytes) (vars : Context)
          → Known (size v) vars
          → (b : Bool)
          → Grown v (
              if b then record v { expr_var_context = vars } else record v {
                expr_var_context = vars;
                expr_table_context = bind_name name n v.expr_table_context;
              })
      entered name vars known true = record {
        sane = record {
          built = s.built;
          files = s.files;
          withs = s.withs;
          tables = s.tables;
          vars = known;
        };
        more = omega arith;
      }
      entered name vars known false = record {
        sane = record {
          built = s.built;
          files = s.files;
          withs = s.withs;
          tables = Known-bind_name _ name n v.expr_table_context r s.tables;
          vars = known;
        };
        more = omega arith;
      }

  pub append_operation-Ensures :
      (v : Visitor F) (op : Bytes) (args : List Node)
      → Sane v
      → All (InRange (size v)) args
      → Ensures (Gives v) (append_operation v op args)
  unfolding append_operation
  append_operation-Ensures v op args s given =
      Ensures-bind (known_op-Ensures op)
        (λ op_value _. returns (push_node-Gives v op_value ValueType.any args s given))
