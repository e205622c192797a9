-- ===== src/Query/Rules/Meaning.antt =====
-- What the logical operations of a query graph mean: SQL's three truth values.
use dist_storage.Prelude.{
  ◌≡◌, refl, List, [], ◌∷◌, ◌++◌, map, ok, ◌≢◌, arith, sym, ap, ◌∙◌, ℕ, zero, suc, ◌+◌, some, none,
  get_elem?, or_undefined-eq-ok,
}
use dist_storage.Query.Ops.{ColumnOperation, get_negated_operation}
use mathlib.Core.Path.{ap₂}
use mathlib.Core.Option.{some-injective}
use dist_storage.Query.Graph.{Node, Operation, Mapping, at}
use dist_storage.Query.Rules.{Nodes, demorgan_op}

pub data Truth : Type 0 where
  holds fails unknown : Truth

abbrev pub not3 : Truth → Truth
not3 holds = fails
not3 fails = holds
not3 unknown = unknown

abbrev pub and3 : Truth → Truth → Truth
and3 holds b = b
and3 fails b = fails
and3 unknown fails = fails
and3 unknown holds = unknown
and3 unknown unknown = unknown

abbrev pub or3 : Truth → Truth → Truth
or3 a b = not3 (and3 (not3 a) (not3 b))

abbrev pub xor3 : Truth → Truth → Truth
xor3 holds b = not3 b
xor3 fails b = b
xor3 unknown b = unknown

abbrev pub fold : {T : Type 0} → (T → T → T) → T → List T → T
fold f e [] = e
fold f e (v ∷ vs) = f v (fold f e vs)

abbrev pub first : List Truth → Truth
first [] = unknown
first (v ∷ vs) = v

-- The truth of an operation from those of its arguments; `p` gives that of a base predicate.
abbrev pub truth : ColumnOperation → (ColumnOperation → Truth) → List Truth → Truth
truth ColumnOperation.and p vs = fold and3 holds vs
truth ColumnOperation.or p vs = fold or3 fails vs
truth ColumnOperation.xor p vs = fold xor3 fails vs
truth ColumnOperation.nand p vs = not3 (fold and3 holds vs)
truth ColumnOperation.nor p vs = not3 (fold or3 fails vs)
truth ColumnOperation.xnor p vs = not3 (fold xor3 fails vs)
truth ColumnOperation.not p vs = not3 (first vs)
truth ColumnOperation.nop p vs = first vs
truth ColumnOperation.null p vs = unknown
truth ColumnOperation.neq p vs = not3 (p ColumnOperation.eq)
truth ColumnOperation.gte p vs = not3 (p ColumnOperation.lt)
truth ColumnOperation.lte p vs = not3 (p ColumnOperation.gt)
truth ColumnOperation.not_in p vs = not3 (p ColumnOperation.in_)
truth ColumnOperation.not_like p vs = not3 (p ColumnOperation.like)
truth ColumnOperation.not_ilike p vs = not3 (p ColumnOperation.ilike)
truth ColumnOperation.is_not_null p vs = not3 (p ColumnOperation.is_null)
truth op p vs = p op

-- How the data of a query decides the base predicates, such as the comparison of two columns.
abbrev pub Atoms : Type 0
Atoms = Operation → List Node → Truth

abbrev pub meaning : Atoms → Operation → List Node → List Truth → Truth
meaning atom o args vs = truth o.op (λ op. atom (record o { op = op }) args) vs

-- The truth values `val` of the nodes respect the meaning of every node.
abbrev pub IsModel : Atoms → Nodes → (Node → Truth) → Type 0
IsModel atom n val =
    (c : Node) (o : Operation) (args : List Node)
    → at n.operations c ≡ ok o
    → at n.graph_mapping c ≡ ok args
    → val c ≡ meaning atom o args (map val args)

not3-not3 : (a : Truth) → not3 (not3 a) ≡ a
not3-not3 a = ground arith

-- A negated operation has the negated truth value.
pub truth-negated :
    (op : ColumnOperation) (p : ColumnOperation → Truth) (vs : List Truth)
    → get_negated_operation op ≢ ColumnOperation.invalid
    → truth (get_negated_operation op) p vs ≡ not3 (truth op p vs)
unfolding get_negated_operation
truth-negated ColumnOperation.not p vs h = ground arith
truth-negated _ p vs h = ground arith

fold-demorgan : (vs : List Truth) → fold or3 fails (map not3 vs) ≡ not3 (fold and3 holds vs)
fold-demorgan [] = refl
fold-demorgan (v ∷ vs) = ground (arith, fold-demorgan vs)

fold-demorgan_or : (vs : List Truth) → fold and3 holds (map not3 vs) ≡ not3 (fold or3 fails vs)
fold-demorgan_or [] = refl
fold-demorgan_or (v ∷ vs) = ground (arith, fold-demorgan_or vs)

-- De Morgan's law for the operation that the rule picks.
pub truth-demorgan :
    (op op' : ColumnOperation) (p q : ColumnOperation → Truth) (vs : List Truth)
    → demorgan_op op ≡ ok op'
    → truth op' p (map not3 vs) ≡ truth op q vs
unfolding demorgan_op
truth-demorgan ColumnOperation.and op' p q vs h = ground (arith, fold-demorgan vs)
truth-demorgan ColumnOperation.or op' p q vs h = ground (arith, fold-demorgan_or vs)
truth-demorgan ColumnOperation.nand op' p q vs h = ground (arith, fold-demorgan vs)
truth-demorgan ColumnOperation.nor op' p q vs h = ground (arith, fold-demorgan_or vs)
truth-demorgan _ op' p q vs h = cc

-- The laws by which nested operations can be merged.
pub record IsMonoid {T : Type 0} (f : T → T → T) (e : T) : Type 0 where
  pub assoc : (a b c : T) → f (f a b) c ≡ f a (f b c)
  pub unit : (a : T) → f e a ≡ a

pub and3-IsMonoid : IsMonoid and3 holds
and3-IsMonoid = record { assoc = λ a b c. ground arith; unit = λ a. refl }

pub or3-IsMonoid : IsMonoid or3 fails
or3-IsMonoid = record { assoc = λ a b c. ground arith; unit = λ a. ground arith }

pub xor3-IsMonoid : IsMonoid xor3 fails
xor3-IsMonoid = record { assoc = λ a b c. ground arith; unit = λ a. refl }

pub fold-append :
    {T : Type 0} (f : T → T → T) (e : T) (xs ys : List T)
    → IsMonoid f e
    → fold f e (xs ++ ys) ≡ f (fold f e xs) (fold f e ys)
fold-append f e [] ys laws = sym (laws.unit (fold f e ys))
fold-append f e (x ∷ xs) ys laws =
    ap (f x) (fold-append f e xs ys laws) ∙ sym (laws.assoc x (fold f e xs) (fold f e ys))

-- A model, checked node by node.
abbrev pub Respects : Atoms → (Node → Truth) → ℕ → List Operation → Mapping → Type 0
Respects atom val k [] gm = Unit
Respects atom val k (o ∷ ops) [] = Unit
Respects atom val k (o ∷ ops) (args ∷ gm) =
    (val (some k) ≡ meaning atom o args (map val args)) × Respects atom val (k + 1) ops gm

Respects-get :
    (atom : Atoms) (val : Node → Truth) (k i : ℕ) (ops : List Operation) (gm : Mapping)
    (o : Operation) (args : List Node)
    → Respects atom val k ops gm
    → get_elem? ops i ≡ some o
    → get_elem? gm i ≡ some args
    → val (some (k + i)) ≡ meaning atom o args (map val args)
Respects-get atom val k i [] gm o args r ho hg = absurd (ground arith)
Respects-get atom val k i (p ∷ ops) [] o args r ho hg = absurd (ground arith)
Respects-get atom val k zero (p ∷ ops) (xs ∷ gm) o args r ho hg =
    let e : k + 0 ≡ k = omega arith in
    ap (λ n. val (some n)) e
    ∙ r.0
    ∙ ap₂ (λ q ys. meaning atom q ys (map val ys)) (some-injective _ _ ho) (some-injective _ _ hg)
Respects-get atom val k (suc i) (p ∷ ops) (xs ∷ gm) o args r ho hg =
    let e : k + suc i ≡ k + 1 + i = omega arith in
    ap (λ n. val (some n)) e ∙ Respects-get atom val (k + 1) i ops gm o args r.1 ho hg

pub Respects-IsModel :
    (atom : Atoms) (val : Node → Truth) (n : Nodes)
    → Respects atom val 0 n.operations n.graph_mapping
    → IsModel atom n val
unfolding at
Respects-IsModel atom val n r none o args ho hg = absurd (ground arith)
Respects-IsModel atom val n r (some i) o args ho hg =
    let e : i ≡ 0 + i = omega arith in
    ap (λ k. val (some k)) e
    ∙ Respects-get atom val 0 i n.operations n.graph_mapping o args r (or_undefined-eq-ok _ ho)
        (or_undefined-eq-ok _ hg)
