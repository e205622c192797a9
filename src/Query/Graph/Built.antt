-- ===== src/Query/Graph/Built.antt =====
-- The graphs that the functions of graph.h build from the empty graph, and what holds of them.
use dist_storage.Prelude.{
  ℕ, zero, suc, ◌≤◌, ◌≡◌, sym, none, some, List, [], ◌∷◌, ◌++◌, length, length-append, get_elem?,
  set, All, All-append, All-map_imp, ok, Bytes, arith, ◌⊎◌, inl, inr, or_undefined-eq-ok,
}
use mathlib.Core.Path.{subst}
use mathlib.Core.Option.{some-injective}
use dist_storage.Query.Ops.{ColumnOperation, ValueType, SequenceType}
use dist_storage.Query.Graph.{
  at, Node, Operation, Mapping, QueryGraph, append_name, set_node_name, append_int64_constant,
  append_float64_constant, append_string_constant, append_column, append_table, append_node,
}
use dist_storage.Query.Mapping.Edges.{InRange, IsClosed}

-- NODE_NONE or a number below `n`.
abbrev pub Within : ℕ → Node → Type 0
Within n c = (c ≡ none) ⊎ InRange n c

-- How many constants a type has.
abbrev pub constants : ℕ → ℕ → ℕ → ValueType → ℕ
constants z f s ValueType.int64 = z
constants z f s ValueType.float64 = f
constants z f s ValueType.string = s
constants z f s _ = 0

-- The name and the constant of an operation exist.
abbrev pub IsBound : ℕ → ℕ → ℕ → ℕ → Operation → Type 0
IsBound n z f s o = Within n o.name × Within (constants z f s o.type) o.const_id

module _ {Z F : Type 0} where
  pub record IsWellFormed (g : QueryGraph Z F) : Type 0 where
    pub sized : length g.graph_mapping ≡ length g.operations
    pub closed : IsClosed g.graph_mapping
    pub bound :
        All
          (IsBound
            (length g.names)
            (length g.int64_constants)
            (length g.float64_constants)
            (length g.string_constants))
          g.operations

  abbrev pub empty_graph : QueryGraph Z F
  empty_graph = record {
    int64_constants = [];
    int64_array_constants = [];
    float64_constants = [];
    float64_array_constants = [];
    string_constants = [];
    string_array_constants = [];
    names = [];
    operations = [];
    graph_mapping = [];
  }

  -- The nodes that a table or an operation is given exist.
  abbrev pub Given : QueryGraph Z F → List Node → Type 0
  Given g args = All (InRange (length g.operations)) args

  -- One call after the other.
  pub data Built : QueryGraph Z F → Type 0 where
    empty : Built empty_graph
    named : {g : QueryGraph Z F} (name : Bytes) → Built g → Built (append_name g name).0
    renamed :
        {g g' : QueryGraph Z F} (c : Node) (name : Bytes)
        → Built g
        → set_node_name g c name ≡ ok g'
        → Built g'
    int64 : {g : QueryGraph Z F} (value : Z) → Built g → Built (append_int64_constant g value).0
    float64 : {g : QueryGraph Z F} (value : F) → Built g → Built (append_float64_constant g value).0
    text : {g : QueryGraph Z F} (value : Bytes) → Built g → Built (append_string_constant g value).0
    column :
        {g : QueryGraph Z F} (name : Bytes) (type : ValueType)
        → Built g
        → Built (append_column g name type).0
    table :
        {g : QueryGraph Z F} (name : Bytes) (cols : List Node)
        → Given g cols
        → Built g
        → Built (append_table g name cols).0
    operation :
        {g : QueryGraph Z F} (df : Node) (op : ColumnOperation) (type : ValueType)
        (args : List Node) (sequence : SequenceType)
        → Given g args
        → Built g
        → Built (append_node g df op type args sequence).0

pub InRange-mono : (n m : ℕ) → n ≤ m → (c : Node) → InRange n c → InRange m c
InRange-mono n m h c (i, e, lt) = (i, e, omega arith)

Within-mono : (n m : ℕ) → n ≤ m → (c : Node) → Within n c → Within m c
Within-mono n m h c (inl e) = inl e
Within-mono n m h c (inr r) = inr (InRange-mono n m h c r)

constants_mono :
    (z z' f f' s s' : ℕ) (type : ValueType)
    → z ≤ z'
    → f ≤ f'
    → s ≤ s'
    → constants z f s type ≤ constants z' f' s' type
constants_mono z z' f f' s s' type a b c = ground arith

pub IsBound-mono :
    (n n' z z' f f' s s' : ℕ)
    → n ≤ n'
    → z ≤ z'
    → f ≤ f'
    → s ≤ s'
    → (o : Operation) → IsBound n z f s o
    → IsBound n' z' f' s' o
IsBound-mono n n' z z' f f' s s' a b c d o (x, y) = (
  Within-mono n n' a o.name x,
  Within-mono _ _ (constants_mono z z' f f' s s' o.type b c d) o.const_id y,
)

-- Pushing a node whose children exist keeps the mapping closed.
pub IsClosed-push :
    (g : Mapping) (args : List Node)
    → IsClosed g
    → All (InRange (length g)) args
    → IsClosed (g ++ args ∷ [])
IsClosed-push g args closed h =
    subst (λ n. All (All (InRange n)) (g ++ args ∷ [])) (sym (length-append g (args ∷ [])))
      (All-append _ g (args ∷ [])
        (All-map_imp _ _ g (λ cs. All-map_imp _ _ cs (InRange-mono _ _ (omega arith))) closed)
        (All-map_imp _ _ args (InRange-mono _ _ (omega arith)) h, tt))

pub All-set :
    (P : Operation → Type 0) (xs : List Operation) (i : ℕ) (o : Operation)
    → All P xs
    → P o
    → All P (set xs i o)
All-set P [] i o h p = tt
All-set P (x ∷ xs) zero o h p = (p, h.1)
All-set P (x ∷ xs) (suc i) o h p = (h.0, All-set P xs i o h.1 p)

pub All-get :
    {A : Type 0} (P : A → Type 0) (xs : List A) (i : ℕ) (x : A)
    → All P xs
    → get_elem? xs i ≡ some x
    → P x
All-get P [] i x h e = absurd (ground arith)
All-get P (y ∷ xs) zero x h e = subst P (some-injective _ _ e) h.0
All-get P (y ∷ xs) (suc i) x h e = All-get P xs i x h.1 e

-- What is read from a list has the property of its elements.
pub at-All :
    {A : Type 0} (P : A → Type 0) (xs : List A) (i : ℕ) (x : A)
    → All P xs
    → at xs (some i) ≡ ok x
    → P x
unfolding at
at-All P xs i x all e = All-get _ xs i x all (or_undefined-eq-ok (get_elem? xs i) e)
