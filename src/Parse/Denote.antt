-- ===== src/Parse/Denote.antt =====
-- What a scalar expression means, and when the values of the nodes of a graph respect its operations:
-- the description against which the visits of minion/planner/parse/parse_query.cc are checked.
pub mod Push
pub mod Steps
pub mod Correct
use dist_storage.Prelude.{
  if◌then◌else◌, ◌≡◌, Bool, true, false, Option, none, some, List, [], ◌∷◌, map, Result, ok, throws,
  compile_error, out_of_range, codes, ◌++◌, ◌>>=◌, Bytes, ℕ,
}
use dist_storage.Query.Ops.{ColumnOperation, ValueType}
use dist_storage.Query.Graph.{Node, Operation, QueryGraph, at}
use dist_storage.Parse.Literal.{ℤ, unquoted, unescape_sql_string, stoll}
use dist_storage.Parse.Tree.{
  Expr, string_literal, int_literal, float_literal, null_literal, true_literal, false_literal,
  parenthesized, column, binary, is_null, not_expr, between, comparison, and_expr, xor_expr,
  or_expr, unvisited, Exprs, no_exprs, more_exprs, Rights, no_rights, more_rights,
}
use dist_storage.Parse.Words.{meant, canonical}

-- The operations that compute: all but constants, columns and tables.
abbrev pub computes : ColumnOperation → Bool
computes ColumnOperation.const = false
computes ColumnOperation.column = false
computes ColumnOperation.table = false
computes _ = true

-- How the values of constants and the results of operations are read: `V` is the type of values.
pub record Reading (F V : Type 0) : Type 0 where
  pub int_value : ℤ → V
  pub float_value : F → V
  pub text_value : Bytes → V
  pub apply : ColumnOperation → List V → V

-- The expressions for which visit functions stand, but IS NULL.
unfoldable mutual
  pub Scalar : Expr → Type 0
  Scalar (parenthesized e) = Scalar e
  Scalar (binary left op right) = Scalar left × Scalar right
  Scalar (is_null left op) = ⊥
  Scalar (not_expr op e) = Scalar e
  Scalar (between left not_op lower upper) = Scalar left × Scalar lower × Scalar upper
  Scalar (comparison left op right rights) = Scalar left × Scalar right × ScalarRights rights
  Scalar (and_expr e args) = Scalar e × ScalarExprs args
  Scalar (xor_expr e args) = Scalar e × ScalarExprs args
  Scalar (or_expr e args) = Scalar e × ScalarExprs args
  Scalar (unvisited _ _) = ⊥
  Scalar _ = Unit

  pub ScalarExprs : Exprs → Type 0
  ScalarExprs no_exprs = Unit
  ScalarExprs (more_exprs e args) = Scalar e × ScalarExprs args

  pub ScalarRights : Rights → Type 0
  ScalarRights no_rights = Unit
  ScalarRights (more_rights op right rights) = Scalar right × ScalarRights rights

module _ {F V : Type 0} (reading : Reading F V) where
  -- One value, or the operation on all of them.
  abbrev pub together : ColumnOperation → V → List V → V
  together op x [] = x
  together op x (y ∷ ys) = reading.apply op (x ∷ y ∷ ys)

  -- The value of an expression: operators apply to the values of their arguments, x BETWEEN a AND b is
  -- a ≤ x AND x ≤ b, and a chain of comparisons is the conjunction of the comparisons of neighbours.
  -- `env` gives the values of the names.
  module _ (stod : Bytes → Result F) (env : Bytes → Result V) where
    unfoldable mutual
      pub denote : Expr → Result V
      denote (string_literal text) = do
        str ← unquoted text
        unescaped ← unescape_sql_string str
        ok (reading.text_value unescaped)
      denote (int_literal text) = do num ← stoll text; ok (reading.int_value num)
      denote (float_literal text) = do num ← stod text; ok (reading.float_value num)
      denote null_literal = ok (reading.apply ColumnOperation.null [])
      denote true_literal = ok (reading.apply ColumnOperation.true_ [])
      denote false_literal = ok (reading.apply ColumnOperation.false_ [])
      denote (parenthesized e) = denote e
      denote (column none name) = env name
      denote (column (some table) name) = env (table ++ codes "." ++ name)
      denote (binary left op right) = do
        x ← denote left
        y ← denote right
        op_value ← meant (canonical op) compile_error
        ok (reading.apply op_value (x ∷ y ∷ []))
      denote (is_null left op) = do
        x ← denote left
        op_value ← meant (canonical op) compile_error
        ok (reading.apply op_value (x ∷ []))
      denote (not_expr op e) = do
        x ← denote e
        op_value ← meant (canonical op) compile_error
        ok (reading.apply op_value (x ∷ []))
      denote (between left not_op lower upper) = do
        a ← denote lower
        x ← denote left
        b ← denote upper
        let above = reading.apply ColumnOperation.lte (a ∷ x ∷ [])
        let below = reading.apply ColumnOperation.lte (x ∷ b ∷ [])
        ok (
            reading.apply (if not_op then ColumnOperation.nand else ColumnOperation.and)
              (above ∷ below ∷ []))
      denote (comparison left op right rights) = do
        x ← denote left
        y ← denote right
        op_value ← meant op out_of_range
        zs ← denote_rights y rights
        ok (together ColumnOperation.and (reading.apply op_value (x ∷ y ∷ [])) zs)
      denote (and_expr e args) = do
        x ← denote e
        xs ← denote_exprs args
        ok (together ColumnOperation.and x xs)
      denote (xor_expr e args) = do
        x ← denote e
        xs ← denote_exprs args
        ok (together ColumnOperation.xor x xs)
      denote (or_expr e args) = do
        x ← denote e
        xs ← denote_exprs args
        ok (together ColumnOperation.or x xs)
      denote (unvisited _ _) = throws compile_error

      pub denote_exprs : Exprs → Result (List V)
      denote_exprs no_exprs = ok []
      denote_exprs (more_exprs e args) = do x ← denote e; xs ← denote_exprs args; ok (x ∷ xs)

      pub denote_rights : V → Rights → Result (List V)
      denote_rights x no_rights = ok []
      denote_rights x (more_rights op right rights) = do
        y ← denote right
        op_value ← meant op out_of_range
        zs ← denote_rights y rights
        ok (reading.apply op_value (x ∷ y ∷ []) ∷ zs)

  -- The values `val` of the nodes respect the constants and the operations of a graph.
  pub record IsValued (val : Node → V) (g : QueryGraph ℤ F) : Type 0 where
    pub applied :
        (c : Node) (o : Operation) (args : List Node)
        → at g.operations c ≡ ok o
        → at g.graph_mapping c ≡ ok args
        → computes o.op ≡ true
        → val c ≡ reading.apply o.op (map val args)
    pub ints :
        (c : Node) (o : Operation) (num : ℤ)
        → at g.operations c ≡ ok o
        → o.op ≡ ColumnOperation.const
        → o.type ≡ ValueType.int64
        → at g.int64_constants o.const_id ≡ ok num
        → val c ≡ reading.int_value num
    pub floats :
        (c : Node) (o : Operation) (num : F)
        → at g.operations c ≡ ok o
        → o.op ≡ ColumnOperation.const
        → o.type ≡ ValueType.float64
        → at g.float64_constants o.const_id ≡ ok num
        → val c ≡ reading.float_value num
    pub texts :
        (c : Node) (o : Operation) (str : Bytes)
        → at g.operations c ≡ ok o
        → o.op ≡ ColumnOperation.const
        → o.type ≡ ValueType.string
        → at g.string_constants o.const_id ≡ ok str
        → val c ≡ reading.text_value str
