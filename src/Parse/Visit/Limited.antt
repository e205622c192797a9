-- ===== src/Parse/Visit/Limited.antt =====
-- Syntax trees in which every select with an OFFSET has a LIMIT, and no hexadecimal escape of a string
-- literal is looked for in bytes that std::isxdigit does not take.
use dist_storage.Prelude.{List, [], ◌∷◌, Bytes, Bool, false, ◌≡◌, ◌&&◌, ◌||◌, ◌==◌}
use dist_storage.Parse.Literal.{is_hex_mark, is_wide}
use dist_storage.Parse.Tree.{
  Expr, string_literal, parenthesized, binary, not_expr, between, comparison, and_expr, xor_expr,
  or_expr, unvisited, Exprs, no_exprs, more_exprs, Rights, no_rights, more_rights, Clause,
  no_clause, clause, Relation, named, derived, Joins, no_joins, more_joins, From, no_from, from,
  Elements, no_elements, global_star, table_star, element, Sorts, no_sorts, more_sorts, Select,
  select, Selects, no_selects, more_selects, Statement, select_statement, QueryTree,
}

-- A backslash and an x, with a byte that is a negative char among the two bytes behind them.
abbrev pub wide_hex : Bytes → Bool
wide_hex (x ∷ h ∷ l ∷ rest) = is_hex_mark x && (is_wide h || is_wide l)
wide_hex _ = false

abbrev pub wide_escape : Bytes → Bool
wide_escape [] = false
wide_escape (c ∷ text) = ((c == 92) && wide_hex text) || wide_escape text

-- LIMIT and OFFSET
abbrev pub LimitedRange : Clause → Clause → Type 0
LimitedRange no_clause (clause e) = ⊥
LimitedRange _ _ = Unit

unfoldable mutual
  pub Limited : Expr → Type 0
  Limited (string_literal text) = wide_escape text ≡ false
  Limited (parenthesized e) = Limited e
  Limited (binary left op right) = Limited left × Limited right
  Limited (not_expr op e) = Limited e
  Limited (between left not_op lower upper) = Limited left × Limited lower × Limited upper
  Limited (comparison left op right rights) = Limited left × Limited right × LimitedRights rights
  Limited (and_expr e args) = Limited e × LimitedExprs args
  Limited (xor_expr e args) = Limited e × LimitedExprs args
  Limited (or_expr e args) = Limited e × LimitedExprs args
  Limited (unvisited args selects) = LimitedExprs args × LimitedSelects selects
  Limited _ = Unit

  pub LimitedExprs : Exprs → Type 0
  LimitedExprs no_exprs = Unit
  LimitedExprs (more_exprs e args) = Limited e × LimitedExprs args

  pub LimitedRights : Rights → Type 0
  LimitedRights no_rights = Unit
  LimitedRights (more_rights op right rights) = Limited right × LimitedRights rights

  pub LimitedClause : Clause → Type 0
  LimitedClause no_clause = Unit
  LimitedClause (clause e) = Limited e

  pub LimitedRelation : Relation → Type 0
  LimitedRelation (named name alias) = Unit
  LimitedRelation (derived selects alias) = LimitedSelects selects

  pub LimitedJoins : Joins → Type 0
  LimitedJoins no_joins = Unit
  LimitedJoins (more_joins relation on joins) =
      LimitedRelation relation × LimitedClause on × LimitedJoins joins

  pub LimitedFrom : From → Type 0
  LimitedFrom no_from = Unit
  LimitedFrom (from relation joins) = LimitedRelation relation × LimitedJoins joins

  pub LimitedElements : Elements → Type 0
  LimitedElements no_elements = Unit
  LimitedElements (global_star elements) = LimitedElements elements
  LimitedElements (table_star table elements) = LimitedElements elements
  LimitedElements (element e alias elements) = Limited e × LimitedElements elements

  pub LimitedSorts : Sorts → Type 0
  LimitedSorts no_sorts = Unit
  LimitedSorts (more_sorts e desc sorts) = Limited e × LimitedSorts sorts

  pub LimitedSelect : Select → Type 0
  LimitedSelect (select tables elements where_ group_by order_by limit offset) =
      LimitedFrom tables
      × LimitedElements elements
      × LimitedClause where_
      × LimitedExprs group_by
      × LimitedSorts order_by
      × LimitedClause limit
      × LimitedClause offset
      × LimitedRange limit offset

  pub LimitedSelects : Selects → Type 0
  LimitedSelects no_selects = Unit
  LimitedSelects (more_selects s selects) = LimitedSelect s × LimitedSelects selects

abbrev pub LimitedCtes : List (Bytes × Selects) → Type 0
LimitedCtes [] = Unit
LimitedCtes ((alias, selects) ∷ ctes) = LimitedSelects selects × LimitedCtes ctes

abbrev pub LimitedStatement : Statement → Type 0
LimitedStatement (select_statement selects) = LimitedSelects selects
LimitedStatement _ = Unit

abbrev pub LimitedQuery : QueryTree → Type 0
LimitedQuery query = LimitedCtes query.ctes × LimitedStatement query.statement
