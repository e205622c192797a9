-- ===== src/Parse/Visit/Parts.antt =====
-- What the visits of SqlVisitor are made of: one visit after another, clauses that may be missing, and
-- the state at the start and at the end of a select.
use dist_storage.Prelude.{
  ◌≤◌, ◌>>=◌, ◌≡◌, ℕ, List, [], ◌∷◌, All, Result, ok, Ensures, returns, Ensures-bind, Ensures-imp,
  arith,
}
use dist_storage.Query.Ops.{ColumnOperation}
use dist_storage.Query.Graph.{Node}
use dist_storage.Query.Graph.Built.{InRange-mono}
use dist_storage.Query.Mapping.Edges.{InRange}
use dist_storage.Parse.Tree.{Expr, Clause, no_clause, clause}
use dist_storage.Parse.Visitor.{Visitor}
use dist_storage.Parse.Visitor.Sane.{
  Known-mono, size, Sane, Grown, Gives, GivesAll, Grown-trans, Grown-node,
}
use dist_storage.Parse.Visitor.Nodes.{Limits, neither, limited, both, Gives-after}
use dist_storage.Parse.Visit.{combine, first_or_none}
use dist_storage.Parse.Visit.Limited.{LimitedRange}
use dist_storage.Parse.Visit.Leaves.{combine-Gives}

-- The nodes of a clause that may be missing.
pub data ClauseNodes (n : ℕ) : Clause → List Node → Type 0 where
  missing : ClauseNodes n no_clause []
  given : {e : Expr} {m : Node} → InRange n m → ClauseNodes n (clause e) (m ∷ [])

pub ClauseNodes-All :
    (n : ℕ) (c : Clause) (ns : List Node) → ClauseNodes n c ns → All (InRange n) ns
ClauseNodes-All n c ns missing = tt
ClauseNodes-All n c ns (given r) = (r, tt)

pub ClauseNodes-mono :
    (n m : ℕ) (c : Clause) (ns : List Node) → n ≤ m → ClauseNodes n c ns → ClauseNodes m c ns
ClauseNodes-mono n m c ns le missing = missing
ClauseNodes-mono n m c ns le (given r) = given (InRange-mono n m le _ r)

-- LIMIT and OFFSET once they are visited.
pub ClauseNodes-Limits :
    (n : ℕ) (limit offset : Clause) (ls os : List Node)
    → LimitedRange limit offset
    → ClauseNodes n limit ls
    → ClauseNodes n offset os
    → Limits n (first_or_none ls) (first_or_none os)
ClauseNodes-Limits n limit offset ls os l missing missing = neither
ClauseNodes-Limits n limit offset ls os l missing (given ro) = elim l [ ]
ClauseNodes-Limits n limit offset ls os l (given rl) missing = limited rl
ClauseNodes-Limits n limit offset ls os l (given rl) (given ro) = both rl ro

module _ {F : Type 0} where
  -- A visit of a clause.
  abbrev pub GivesClause : Visitor F → Clause → Visitor F × List Node → Type 0
  GivesClause v c (w, ns) = Grown v w × ClauseNodes (size w) c ns

  -- The tables and the conditions of a FROM.
  abbrev pub GivesBoth : Visitor F → Visitor F × List Node × List Node → Type 0
  GivesBoth v (w, ms, ns) = Grown v w × All (InRange (size w)) ms × All (InRange (size w)) ns

  -- The state at the start of a select, and the state at its end with the names from before it.
  pub fresh :
      (v : Visitor F) → Sane v → Sane (record v { expr_table_context = []; expr_var_context = [] })
  fresh v s = record { built = s.built; files = s.files; withs = s.withs; tables = tt; vars = tt }

  pub restored :
      (v v0 v7 : Visitor F)
      → Sane v
      → Grown v0 v7
      → size v ≡ size v0
      → (p : Visitor F × Node) → Gives v7 p
      → Gives v (record p.0 { expr_var_context = v.expr_var_context }, p.1)
  restored v v0 v7 s a e (w, n) (b, r) =
      let sane = b.sane in
      let more : size v ≤ size w = omega (arith, e, a.more, b.more) in
      (
        record {
          sane = record {
            built = sane.built;
            files = sane.files;
            withs = sane.withs;
            tables = sane.tables;
            vars = Known-mono _ _ v.expr_var_context more s.vars;
          };
          more = more;
        },
        r,
      )

  pub after :
      (u v : Visitor F) {m : Result (Visitor F × Node)}
      → Grown u v
      → Ensures (Gives v) m
      → Ensures (Gives u) m
  after u v a h = Ensures-imp h (λ p. Gives-after u v p a)

  -- A node, and then more nodes.
  pub more_nodes :
      (u v : Visitor F) (n : Node) {m : Result (Visitor F × List Node)}
      → Grown u v
      → InRange (size v) n
      → Ensures (GivesAll v) m
      → Ensures (GivesAll u) (m >>= λ p. ok (p.0, n ∷ p.1))
  more_nodes u v n a r h =
      Ensures-bind h
        (λ (w, ns) (b, all). returns (Grown-trans u v w a b, (Grown-node v w n b r, all)))

  -- The node of a chain of AND, XOR or OR.
  pub combined :
      (u v : Visitor F) (op : ColumnOperation) (n : Node) {m : Result (Visitor F × List Node)}
      → Grown u v
      → InRange (size v) n
      → Ensures (GivesAll v) m
      → Ensures (Gives u) (m >>= λ p. ok (combine p.0 op n p.1))
  combined u v op n a r h = Ensures-bind h (λ (w, ns) (b, all). returns (
      Gives-after u w _ (Grown-trans u v w a b)
        (combine-Gives w op n ns b.sane (Grown-node v w n b r) all)))
