-- ===== src/Parse/Tree.antt =====
-- The syntax trees that the parser of minion/planner/parse/grammar/sql.g4 gives to the visitor. A rule
-- alternative with one child that is a rule, whose visit gives the child's result, has no constructor
-- of its own (expression, exprPass, PrimaryBase, MathFallthrough, SelectStmt); an operator is the text
-- of its tokens.
use dist_storage.Prelude.{Bool, Option, List, Bytes}

mutual
  pub data Expr : Type 0 where
    -- LiteralExpr, with the text of the literal
    string_literal int_literal float_literal : Bytes → Expr
    null_literal true_literal false_literal : Expr
    -- ParenthesizedExpr
    parenthesized : Expr → Expr
    -- ColumnExpr: tableName and columnName
    column : Option Bytes → Bytes → Expr
    -- MulDivExpr, AddSubExpr and LikeExpr: left, op and right
    binary : Expr → Bytes → Expr → Expr
    -- IsNullExpr: left and op
    is_null : Expr → Bytes → Expr
    -- notExpr: op and exprNot
    not_expr : Bytes → Expr → Expr
    -- BetweenExpr: left, notOp, lower and upper
    between : Expr → Bool → Expr → Expr → Expr
    -- ComparisonExpr: left, and at least one operator with its right side
    comparison : Expr → Bytes → Expr → Rights → Expr
    -- andExpr, xorExpr and orExpr: firstArg and args
    and_expr xor_expr or_expr : Expr → Exprs → Expr
    -- the alternatives without a visit that end in a token, with their children that are expressions
    -- and queries: CastExpr, FunctionExpr, InExpr and SubqueryExpr
    unvisited : Exprs → Selects → Expr

  pub data Exprs : Type 0 where
    no_exprs : Exprs
    more_exprs : Expr → Exprs → Exprs

  pub data Rights : Type 0 where
    no_rights : Rights
    more_rights : Bytes → Expr → Rights → Rights

  -- An expression that may be missing.
  pub data Clause : Type 0 where
    no_clause : Clause
    clause : Expr → Clause

  -- name or queryExpression, and alias
  pub data Relation : Type 0 where
    named : Bytes → Option Bytes → Relation
    derived : Selects → Option Bytes → Relation

  -- joinClause: relation and onExpr
  pub data Joins : Type 0 where
    no_joins : Joins
    more_joins : Relation → Clause → Joins → Joins

  pub data From : Type 0 where
    no_from : From
    from : Relation → Joins → From

  -- selectElement: a global star, a table star, or expression and alias
  pub data Elements : Type 0 where
    no_elements : Elements
    global_star : Elements → Elements
    table_star : Bytes → Elements → Elements
    element : Expr → Option Bytes → Elements → Elements

  -- sortItem: expression, and whether it is DESC
  pub data Sorts : Type 0 where
    no_sorts : Sorts
    more_sorts : Expr → Bool → Sorts → Sorts

  -- selectStatement: FROM, elements, WHERE, GROUP BY, ORDER BY, LIMIT and OFFSET
  pub data Select : Type 0 where
    select : From → Elements → Clause → Exprs → Sorts → Clause → Clause → Select

  -- queryExpression
  pub data Selects : Type 0 where
    no_selects : Selects
    more_selects : Select → Selects → Selects

pub data Statement : Type 0 where
  select_statement : Selects → Statement
  update_statement delete_statement : Statement

-- query: the alias and the expression of each cte, and the statement
pub record QueryTree : Type 0 where
  pub ctes : List (Bytes × Selects)
  pub statement : Statement
