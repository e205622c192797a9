-- ===== src/Parse/Visitor/Tables.antt =====
-- The tables that SqlVisitor finds or inserts are nodes of the graph.
use dist_storage.Prelude.{
  ◌+◌, ◌≤◌, ◌<◌, ℕ, ◌≡◌, refl, Bool, true, false, none, some, List, [], ◌∷◌, length, length-append,
  ok, throws, Ensures, returns, raises, Bytes, arith, if◌then◌else◌, ◌>>=◌, compile_error,
}
use dist_storage.Query.Ops.{is_table_operation}
use dist_storage.Query.Graph.{
  Node, QueryGraph, at, append_name, append_column, append_table, emplace_node, bind_name,
}
use dist_storage.Query.Graph.Access.{at-total}
use dist_storage.Query.Graph.Built.{Built, column, table, Given}
use dist_storage.Query.Mapping.Edges.{InRange}
use dist_storage.Parse.Literal.{ℤ}
use dist_storage.Parse.Visitor.{
  ColumnSchema, TableSchema, Visitor, find_ident, insert_columns, insert_table_column_nodes,
  insert_from_schema, find_or_insert_table, same_text,
}
use dist_storage.Parse.Visitor.Sane.{
  Known-bind_name, find_ident-Known, size, Sane, Gives, Grown-self, Grown-graph,
}

module _ {F : Type 0} where
  -- The columns of a table, and then the table.
  insert_columns-Built :
      (g : QueryGraph ℤ F) (columns : List ColumnSchema)
      → Built g
      → Built (insert_columns g columns).0
        × (length g.operations ≤ length (insert_columns g columns).0.operations)
        × Given (insert_columns g columns).0 (insert_columns g columns).1
  unfolding insert_columns append_column append_name emplace_node
  insert_columns-Built g [] b = (b, omega arith, tt)
  insert_columns-Built g (col ∷ columns) b =
      let g1 = (append_column g col.name col.type).0 in
      let grows : length g1.operations ≡ length g.operations + 1 = length-append g.operations _ in
      let (b2, le, given) = insert_columns-Built g1 columns (column col.name col.type b) in
      (b2, omega (arith, grows), ((length g.operations, refl, omega (arith, grows)), given))

  insert_table_column_nodes-Built :
      (g : QueryGraph ℤ F) (schema : TableSchema)
      → Built g
      → Built (insert_table_column_nodes g schema).0
        × (length g.operations ≤ length (insert_table_column_nodes g schema).0.operations)
        × InRange
            (length (insert_table_column_nodes g schema).0.operations)
            (insert_table_column_nodes g schema).1
  unfolding insert_table_column_nodes append_table append_name emplace_node
  insert_table_column_nodes-Built g schema b =
      let g1 = (insert_columns g schema.columns).0 in
      let cols = (insert_columns g schema.columns).1 in
      let (b1, le, given) = insert_columns-Built g schema.columns b in
      let grows : length (append_table g1 schema.name cols).0.operations
          ≡ length g1.operations + 1 =
        length-append g1.operations _ in
      (
        table schema.name cols given b1,
        omega (arith, grows),
        (length g1.operations, refl, omega (arith, grows)),
      )

  insert_from_schema-Ensures :
      (v : Visitor F) (name : Bytes) (schemas : List TableSchema)
      → Sane v
      → Ensures (Gives v) (insert_from_schema v name schemas)
  unfolding insert_from_schema
  insert_from_schema-Ensures v name [] s = raises
  insert_from_schema-Ensures v name (schema ∷ schemas) s =
      choice (same_text schema.name name) (insert_from_schema-Ensures v name schemas s)
    where
      g : QueryGraph ℤ F
      g = (insert_table_column_nodes v.out_graph schema).0

      n : Node
      n = (insert_table_column_nodes v.out_graph schema).1

      inserted : Gives v (
        record v { out_graph = g; file_table_context = bind_name name n v.file_table_context },
        n,
      )
      inserted =
          let (b, le, r) = insert_table_column_nodes-Built v.out_graph schema s.built in
          let grown = Grown-graph v g s b le in
          let sane = grown.sane in
          (
            record {
              sane = record {
                built = b;
                files = Known-bind_name _ name n v.file_table_context r sane.files;
                withs = sane.withs;
                tables = sane.tables;
                vars = sane.vars;
              };
              more = le;
            },
            r,
          )

      choice :
          (b : Bool)
          → Ensures (Gives v) (insert_from_schema v name schemas)
          → Ensures (Gives v) (
              if b
              then ok (
                record v {
                  out_graph = g;
                  file_table_context = bind_name name n v.file_table_context;
                },
                n,
              )
              else insert_from_schema v name schemas)
      choice true rest = returns inserted
      choice false rest = rest

  -- The table is a node of the graph.
  pub find_or_insert_table-Ensures :
      (v : Visitor F) (name : Bytes) → Sane v → Ensures (Gives v) (find_or_insert_table v name)
  unfolding find_or_insert_table
  find_or_insert_table-Ensures v name s =
      found (find_ident name (v.file_table_context ∷ v.with_table_context ∷ []))
        (λ i. find_ident-Known (size v) name _ i (s.files, (s.withs, tt)))
    where
      checked :
          (i : ℕ) (b : Bool)
          → i < size v
          → Ensures (Gives v) (if b then ok (v, some i) else throws compile_error)
      checked i true lt = returns (Grown-self v s, (i, refl, lt))
      checked i false lt = raises

      found :
          (o : Node)
          → ((i : ℕ) → o ≡ some i → i < size v)
          → Ensures (Gives v) (elim o [
            | none ↦ insert_from_schema v name v.db_schema
            | some i ↦ do
              o ← at v.out_graph.operations (some i)
              if is_table_operation o.op then ok (v, some i) else throws compile_error
          ])
      found none in_range = insert_from_schema-Ensures v name v.db_schema s
      found (some i) in_range =
          let (o, has) = at-total v.out_graph.operations i (in_range i refl) in
          rw has (checked i (is_table_operation o.op) (in_range i refl))
