-- ===== src/Query/Tests.antt =====
-- Runs of the query graph functions on small graphs, and the theorems at them.
use dist_storage.Prelude.{
  ℕ, zero, suc, ◌+◌, ◌≡◌, refl, ap, map, ok-injective, none, some, List, [], ◌∷◌, ok, arith,
  if◌then◌else◌, ◌==◌, inl, ite, All,
}
use dist_storage.Query.Ops.{
  ColumnOperation, ValueType, SequenceType, ColumnOperation-discrete, get_negated_operation,
}
use dist_storage.Query.Graph.{Node, Operation, at, assign}
use dist_storage.Query.Rules.{
  Nodes, push_child, set_op, clear_children, clone_node, negated_or_throw, demorgan_op,
  clone_negated, negate_children, demorgan_apply, push_children, merge_children,
  merge_cummutative_numeric_apply, merged_op, merge_cummutative_logic_apply, reduces_by_negation,
  reduce_not_nop_apply,
}
use dist_storage.Query.Rules.Meaning.{
  fold, IsMonoid, Truth, holds, fails, unknown, Atoms, IsModel, Respects-IsModel,
}
use dist_storage.Query.Rules.Extends.{Has}
use dist_storage.Query.Rules.DemorganCorrect.{demorgan_apply-val, NegatableChild}
use dist_storage.Query.Rules.Merge.{Child}
use dist_storage.Query.Rules.MergeCorrect.{
  merge_cummutative_logic_apply-val, merge_cummutative_numeric_apply-val,
}
use dist_storage.Query.Rules.Reduce.{reduce_not_nop_apply-val}

abbrev operation : ColumnOperation → Operation
operation op = record {
  op = op;
  name = none;
  const_id = none;
  df = none;
  type = ValueType.any;
  sequence = SequenceType.single;
}

-- x = y AND x < y
abbrev conjunction : Nodes
conjunction = record {
  operations =
      operation ColumnOperation.eq
      ∷ operation ColumnOperation.lt
      ∷ operation ColumnOperation.and
      ∷ [];
  graph_mapping = [] ∷ [] ∷ (some 0 ∷ some 1 ∷ []) ∷ [];
}

-- With NOT (x <> y OR x >= y) added.
abbrev demorganed : Nodes
demorganed = record {
  operations =
      operation ColumnOperation.eq
      ∷ operation ColumnOperation.lt
      ∷ operation ColumnOperation.and
      ∷ operation ColumnOperation.nor
      ∷ operation ColumnOperation.neq
      ∷ operation ColumnOperation.gte
      ∷ [];
  graph_mapping = [] ∷ [] ∷ (some 0 ∷ some 1 ∷ []) ∷ (some 4 ∷ some 5 ∷ []) ∷ [] ∷ [] ∷ [];
}

demorgan_runs : demorgan_apply conjunction (some 2) ≡ ok (demorganed, some 3)
unfolding demorgan_apply clone_node set_op clear_children negate_children clone_negated push_child
    negated_or_throw demorgan_op get_negated_operation at assign ColumnOperation-discrete
demorgan_runs = refl

-- The values of x = y, x < y and the nodes above, where the comparison x < y is unknown.
abbrev values : Node → Truth
values none = unknown
values (some n) = if n == 0 then holds else if n == 4 then fails else unknown

abbrev atoms : Atoms
atoms o args = ite (ColumnOperation-discrete o.op ColumnOperation.eq) holds unknown

conjunction_child0 : NegatableChild conjunction (some 0)
unfolding at get_negated_operation
conjunction_child0 = record {
  o = operation ColumnOperation.eq;
  args = [];
  negatable = λ e. ground arith;
  has = (refl, refl);
}

conjunction_child1 : NegatableChild conjunction (some 1)
unfolding at get_negated_operation
conjunction_child1 = record {
  o = operation ColumnOperation.lt;
  args = [];
  negatable = λ e. ground arith;
  has = (refl, refl);
}

conjunction_node : Has conjunction (some 2) (operation ColumnOperation.and) (some 0 ∷ some 1 ∷ [])
unfolding at
conjunction_node = (refl, refl)

and_negates : demorgan_op ColumnOperation.and ≡ ok ColumnOperation.nor
unfolding demorgan_op
and_negates = refl

demorganed-IsModel : IsModel atoms demorganed values
unfolding ColumnOperation-discrete
demorganed-IsModel =
    Respects-IsModel atoms values demorganed (refl, (refl, (refl, (refl, (refl, (refl, tt))))))

demorgan_apply-val_example : values (some 3) ≡ values (some 2)
demorgan_apply-val_example =
    demorgan_apply-val atoms values conjunction demorganed (some 2) (some 3)
      (operation ColumnOperation.and) (some 0 ∷ some 1 ∷ []) ColumnOperation.nor refl
      conjunction_node and_negates (conjunction_child0, (conjunction_child1, tt)) demorgan_runs
      demorganed-IsModel

-- NAND (x = y, AND (x = y, x < y))
abbrev nested : Nodes
nested = record {
  operations =
      operation ColumnOperation.eq
      ∷ operation ColumnOperation.lt
      ∷ operation ColumnOperation.and
      ∷ operation ColumnOperation.nand
      ∷ [];
  graph_mapping = [] ∷ [] ∷ (some 0 ∷ some 1 ∷ []) ∷ (some 0 ∷ some 2 ∷ []) ∷ [];
}

-- With NAND (x = y, x = y, x < y) added.
abbrev merged : Nodes
merged = record {
  operations =
      operation ColumnOperation.eq
      ∷ operation ColumnOperation.lt
      ∷ operation ColumnOperation.and
      ∷ operation ColumnOperation.nand
      ∷ operation ColumnOperation.nand
      ∷ [];
  graph_mapping =
      []
      ∷ []
      ∷ (some 0 ∷ some 1 ∷ [])
      ∷ (some 0 ∷ some 2 ∷ [])
      ∷ (some 0 ∷ some 0 ∷ some 1 ∷ [])
      ∷ [];
}

merge_runs : merge_cummutative_logic_apply nested (some 3) ≡ ok (merged, some 4)
unfolding merge_cummutative_logic_apply clone_node clear_children merge_children push_child
    push_children merged_op at assign ColumnOperation-discrete
merge_runs = refl

abbrev merged_values : Node → Truth
merged_values none = unknown
merged_values (some n) = if n == 0 then holds else unknown

nested_children : All (Child nested) (some 0 ∷ some 2 ∷ [])
unfolding at
nested_children = (
  record { o = operation ColumnOperation.eq; args = []; has = (refl, refl) },
  (
    record { o = operation ColumnOperation.and; args = some 0 ∷ some 1 ∷ []; has = (refl, refl) },
    tt,
  ),
)

nested_node : Has nested (some 3) (operation ColumnOperation.nand) (some 0 ∷ some 2 ∷ [])
unfolding at
nested_node = (refl, refl)

nand_merges : merged_op ColumnOperation.nand ≡ ok ColumnOperation.and
unfolding merged_op
nand_merges = refl

merged-IsModel : IsModel atoms merged merged_values
unfolding ColumnOperation-discrete
merged-IsModel =
    Respects-IsModel atoms merged_values merged (refl, (refl, (refl, (refl, (refl, tt)))))

merge_cummutative_logic_apply-val_example : merged_values (some 4) ≡ merged_values (some 3)
merge_cummutative_logic_apply-val_example =
    merge_cummutative_logic_apply-val atoms merged_values nested merged (some 3) (some 4)
      (operation ColumnOperation.nand) (some 0 ∷ some 2 ∷ []) ColumnOperation.and refl nested_node
      nand_merges nested_children merge_runs merged-IsModel

-- NOT (x < y)
abbrev negated : Nodes
negated = record {
  operations = operation ColumnOperation.lt ∷ operation ColumnOperation.not ∷ [];
  graph_mapping = [] ∷ (some 0 ∷ []) ∷ [];
}

-- With x >= y added.
abbrev reduced : Nodes
reduced = record {
  operations =
      operation ColumnOperation.lt
      ∷ operation ColumnOperation.not
      ∷ operation ColumnOperation.gte
      ∷ [];
  graph_mapping = [] ∷ (some 0 ∷ []) ∷ [] ∷ [];
}

reduce_runs : reduce_not_nop_apply negated (some 1) ≡ ok (reduced, some 2)
unfolding reduce_not_nop_apply reduces_by_negation clone_negated clone_node set_op negated_or_throw
    get_negated_operation at assign ColumnOperation-discrete
reduce_runs = refl

abbrev less : Atoms
less o args = ite (ColumnOperation-discrete o.op ColumnOperation.lt) holds unknown

abbrev reduced_values : Node → Truth
reduced_values none = unknown
reduced_values (some n) = if n == 0 then holds else fails

negated_child : NegatableChild negated (some 0)
unfolding at get_negated_operation
negated_child = record {
  o = operation ColumnOperation.lt;
  args = [];
  negatable = λ e. ground arith;
  has = (refl, refl);
}

negated_node : Has negated (some 1) (operation ColumnOperation.not) (some 0 ∷ [])
unfolding at
negated_node = (refl, refl)

reduced-IsModel : IsModel less reduced reduced_values
unfolding ColumnOperation-discrete
reduced-IsModel = Respects-IsModel less reduced_values reduced (refl, (refl, (refl, tt)))

reduce_not_nop_apply-val_example : reduced_values (some 2) ≡ reduced_values (some 1)
reduce_not_nop_apply-val_example =
    reduce_not_nop_apply-val less reduced_values negated reduced (some 1) (some 0) (some 2)
      (operation ColumnOperation.not) refl negated_node (inl refl) negated_child reduce_runs
      reduced-IsModel

-- x + (x + y)
abbrev sum_graph : Nodes
sum_graph = record {
  operations =
      operation ColumnOperation.eq
      ∷ operation ColumnOperation.lt
      ∷ operation ColumnOperation.add
      ∷ operation ColumnOperation.add
      ∷ [];
  graph_mapping = [] ∷ [] ∷ (some 0 ∷ some 1 ∷ []) ∷ (some 0 ∷ some 2 ∷ []) ∷ [];
}

-- With x + x + y added.
abbrev flat_sum : Nodes
flat_sum = record {
  operations =
      operation ColumnOperation.eq
      ∷ operation ColumnOperation.lt
      ∷ operation ColumnOperation.add
      ∷ operation ColumnOperation.add
      ∷ operation ColumnOperation.add
      ∷ [];
  graph_mapping =
      []
      ∷ []
      ∷ (some 0 ∷ some 1 ∷ [])
      ∷ (some 0 ∷ some 2 ∷ [])
      ∷ (some 0 ∷ some 0 ∷ some 1 ∷ [])
      ∷ [];
}

numeric_runs : merge_cummutative_numeric_apply sum_graph (some 3) ≡ ok (flat_sum, some 4)
unfolding merge_cummutative_numeric_apply clone_node clear_children merge_children push_child
    push_children at assign ColumnOperation-discrete
numeric_runs = refl

sum_children : All (Child sum_graph) (some 0 ∷ some 2 ∷ [])
unfolding at
sum_children = (
  record { o = operation ColumnOperation.eq; args = []; has = (refl, refl) },
  (
    record { o = operation ColumnOperation.add; args = some 0 ∷ some 1 ∷ []; has = (refl, refl) },
    tt,
  ),
)

sum_node : Has sum_graph (some 3) (operation ColumnOperation.add) (some 0 ∷ some 2 ∷ [])
unfolding at
sum_node = (refl, refl)

-- x is 5 and y is 7.
abbrev sums : Node → ℕ
sums none = 0
sums (some n) = if n == 0 then 5 else if n == 1 then 7 else if n == 2 then 12 else 17

add_IsMonoid : IsMonoid (λ a b. a + b) 0
add_IsMonoid = record { assoc = λ a b c. omega arith; unit = λ a. omega arith }

flat_sum_values :
    (x : Node) (p : Operation) (args : List Node)
    → Has flat_sum x p args
    → p.op ≡ ColumnOperation.add
    → sums x ≡ fold (λ a b. a + b) 0 (map sums args)
unfolding at
flat_sum_values none p args h e = absurd (ground arith)
flat_sum_values (some zero) p args h e = absurd (ground arith)
flat_sum_values (some (suc zero)) p args h e = absurd (ground arith)
flat_sum_values (some (suc (suc zero))) p args h e =
    ap (λ l. fold (λ a b. a + b) 0 (map sums l)) (ok-injective h.1)
flat_sum_values (some (suc (suc (suc zero)))) p args h e =
    ap (λ l. fold (λ a b. a + b) 0 (map sums l)) (ok-injective h.1)
flat_sum_values (some (suc (suc (suc (suc zero))))) p args h e =
    ap (λ l. fold (λ a b. a + b) 0 (map sums l)) (ok-injective h.1)
flat_sum_values (some (suc (suc (suc (suc (suc k)))))) p args h e = absurd (ground arith)

merge_cummutative_numeric_apply-val_example : sums (some 4) ≡ sums (some 3)
merge_cummutative_numeric_apply-val_example =
    merge_cummutative_numeric_apply-val (λ a b. a + b) 0 sums sum_graph flat_sum (some 3) (some 4)
      (operation ColumnOperation.add) (some 0 ∷ some 2 ∷ []) add_IsMonoid refl sum_node sum_children
      numeric_runs flat_sum_values
