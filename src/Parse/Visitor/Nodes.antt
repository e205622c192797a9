-- ===== src/Parse/Visitor/Nodes.antt =====
-- The nodes that a select builds at its end stay in range, unless an OFFSET has no LIMIT.
use dist_storage.Prelude.{ℕ, ◌≤◌, arith, none, some, List, [], ◌∷◌, length-append, All}
use dist_storage.Query.Ops.{ColumnOperation, ValueType}
use dist_storage.Query.Graph.{Node, append_int64_constant, emplace_node}
use dist_storage.Query.Graph.Built.{int64, InRange-mono}
use dist_storage.Query.Mapping.Edges.{InRange}
use dist_storage.Parse.Literal.{pos}
use dist_storage.Parse.Visitor.{
  Visitor, push_node, add_filter, add_unless_empty, offset_or_zero, range_end, add_range,
  build_select,
}
use dist_storage.Parse.Visitor.Sane.{
  size, Sane, Grown, Gives, Grown-self, Grown-trans, Grown-node, Grown-nodes, Gives-graph,
  push_node-Gives,
}

-- A node that is missing or in range, and a LIMIT and an OFFSET that may be missing: an OFFSET only
-- comes with a LIMIT.
pub data Limits (n : ℕ) : Node → Node → Type 0 where
  neither : Limits n none none
  limited : {l : Node} → InRange n l → Limits n l none
  both : {l o : Node} → InRange n l → InRange n o → Limits n l o

not_none : {n : ℕ} → InRange n none → ⊥
not_none (i, e, lt) = ground arith

Limits-mono : (n m : ℕ) {l o : Node} → n ≤ m → Limits n l o → Limits m l o
Limits-mono n m le neither = neither
Limits-mono n m le (limited rl) = limited (InRange-mono n m le _ rl)
Limits-mono n m le (both rl ro) = both (InRange-mono n m le _ rl) (InRange-mono n m le _ ro)

module _ {F : Type 0} where
  -- A step that gives a node, after steps that grow the state.
  pub Gives-after : (u v : Visitor F) (p : Visitor F × Node) → Grown u v → Gives v p → Gives u p
  Gives-after u v (w, n) a (b, r) = (Grown-trans u v w a b, r)

  add_filter-Gives :
      (v : Visitor F) (df : Node) (filters : List Node)
      → Sane v
      → InRange (size v) df
      → All (InRange (size v)) filters
      → Gives v (add_filter v df filters)
  unfolding add_filter
  add_filter-Gives v df [] s r all = (Grown-self v s, r)
  add_filter-Gives v df (f ∷ []) s r (rf, _) =
      push_node-Gives v ColumnOperation.filter ValueType.any (df ∷ f ∷ []) s (r, (rf, tt))
  add_filter-Gives v df (f ∷ f' ∷ fs) s r all =
      let (grown, rb) = push_node-Gives v ColumnOperation.and ValueType.any (f ∷ f' ∷ fs) s all in
      let (v', conj) = push_node v ColumnOperation.and ValueType.any (f ∷ f' ∷ fs) in
      Gives-after v v' _ grown (
        push_node-Gives v' ColumnOperation.filter ValueType.any (df ∷ conj ∷ []) grown.sane
          (Grown-node v v' df grown r, (rb, tt)))

  add_unless_empty-Gives :
      (v : Visitor F) (df : Node) (op : ColumnOperation) (ns : List Node)
      → Sane v
      → InRange (size v) df
      → All (InRange (size v)) ns
      → Gives v (add_unless_empty v df op ns)
  unfolding add_unless_empty
  add_unless_empty-Gives v df op [] s r all = (Grown-self v s, r)
  add_unless_empty-Gives v df op (n ∷ ns) s r all =
      push_node-Gives v op ValueType.any (df ∷ n ∷ ns) s (r, all)

  zero-Gives : (v : Visitor F) → Sane v → Gives v (offset_or_zero v none)
  unfolding offset_or_zero append_int64_constant emplace_node
  zero-Gives v s =
      Gives-graph v _ s (int64 (pos 0) s.built) (length-append v.out_graph.operations _)

  -- The range from `start`, with a LIMIT.
  range_lem :
      (v : Visitor F) (df start limit : Node)
      → Sane v
      → InRange (size v) df
      → InRange (size v) start
      → InRange (size v) limit
      → Gives v (
          let (v2, end) = push_node v ColumnOperation.add ValueType.int64 (start ∷ limit ∷ []) in
          push_node v2 ColumnOperation.range ValueType.any (df ∷ start ∷ end ∷ []))
  range_lem v df start limit s r rs rl =
      let args = start ∷ limit ∷ [] in
      let (grown, re) =
        push_node-Gives v ColumnOperation.add ValueType.int64 args s (rs, (rl, tt)) in
      let (v2, end) = push_node v ColumnOperation.add ValueType.int64 args in
      Gives-after v v2 _ grown (
        push_node-Gives v2 ColumnOperation.range ValueType.any (df ∷ start ∷ end ∷ []) grown.sane
          (Grown-node v v2 df grown r, (Grown-node v v2 start grown rs, (re, tt))))

  add_range-Gives :
      (v : Visitor F) (df limit offset : Node)
      → Sane v
      → InRange (size v) df
      → Limits (size v) limit offset
      → Gives v (add_range v df limit offset)
  unfolding add_range range_end
  add_range-Gives v df none none s r limits = (Grown-self v s, r)
  add_range-Gives v df (some l) none s r (limited rl) =
      let (grown, rz) = zero-Gives v s in
      let (v1, start) = offset_or_zero v none in
      Gives-after v v1 _ grown (
        range_lem v1 df start (some l) grown.sane (Grown-node v v1 df grown r) rz
          (Grown-node v v1 (some l) grown rl))
  add_range-Gives v df (some l) (some o) s r (both rl ro) =
      unfold offset_or_zero in range_lem v df (some o) (some l) s r ro rl
  add_range-Gives v df none (some o) s r (both rl ro) = absurd (not_none rl)
  add_range-Gives v df (some l) none s r (both rl ro) = absurd (not_none ro)

  pub build_select-Gives :
      (v : Visitor F) (columns filters groups orders : List Node) (limit offset : Node)
      → Sane v
      → All (InRange (size v)) columns
      → All (InRange (size v)) filters
      → All (InRange (size v)) groups
      → All (InRange (size v)) orders
      → Limits (size v) limit offset
      → Gives v (build_select v columns filters groups orders limit offset)
  unfolding build_select
  build_select-Gives v columns filters groups orders limit offset s rc rf rg ro limits =
      let (g1, r1) = push_node-Gives v ColumnOperation.df ValueType.any columns s rc in
      let (v1, df) = push_node v ColumnOperation.df ValueType.any columns in
      let (g2, r2) = add_filter-Gives v1 df filters g1.sane r1 (Grown-nodes v v1 filters g1 rf) in
      let (v2, filtered) = add_filter v1 df filters in
      let to2 = Grown-trans v v1 v2 g1 g2 in
      let (g3, r3) =
        add_unless_empty-Gives v2 filtered ColumnOperation.group groups g2.sane r2
          (Grown-nodes v v2 groups to2 rg) in
      let (v3, grouped) = add_unless_empty v2 filtered ColumnOperation.group groups in
      let to3 = Grown-trans v v2 v3 to2 g3 in
      let (g4, r4) =
        add_unless_empty-Gives v3 grouped ColumnOperation.sort orders g3.sane r3
          (Grown-nodes v v3 orders to3 ro) in
      let (v4, sorted) = add_unless_empty v3 grouped ColumnOperation.sort orders in
      let to4 = Grown-trans v v3 v4 to3 g4 in
      Gives-after v v4 _ to4
        (add_range-Gives v4 sorted limit offset g4.sane r4 (Limits-mono _ _ to4.more limits))
