-- ===== src/Query/Constants.antt =====
-- getNumericConstant of minion/planner/query/graph.h.
use dist_storage.Prelude.{
  ◌≡◌, none, some, Option, List, [], ◌∷◌, ◌++◌, length, get_elem?, get_elem?-push, ◌∙◌, Result, ok,
  throws, invalid_argument, ◌>>=◌, or_undefined, ap,
}
use dist_storage.Query.Ops.{ValueType, SequenceType}
use dist_storage.Query.Graph.{
  Node, Operation, QueryGraph, at, emplace_node, append_int64_constant, append_float64_constant,
}

module _ {A T : Type 0} where
  -- The check of a constant's number and its lookup; the conversion to Tvalue is `convert`.
  abbrev found_scalar : (A → T) → Option A → Result T
  found_scalar convert none = throws invalid_argument
  found_scalar convert (some a) = ok (convert a)

  unfoldable pub scalar_constant : (A → T) → List A → Node → Result T
  scalar_constant convert items none = throws invalid_argument
  scalar_constant convert items (some i) = found_scalar convert (get_elem? items i)

  -- An array counts as a number if it has one element.
  abbrev found_array : (A → T) → Option (List A) → Result T
  found_array convert (some (a ∷ [])) = ok (convert a)
  found_array convert _ = throws invalid_argument

  unfoldable pub array_constant : (A → T) → List (List A) → Node → Result T
  array_constant convert arrays none = throws invalid_argument
  array_constant convert arrays (some i) = found_array convert (get_elem? arrays i)

  scalar_pushed :
      (convert : A → T) (items : List A) (a : A)
      → scalar_constant convert (items ++ a ∷ []) (some (length items)) ≡ ok (convert a)
  unfolding scalar_constant
  scalar_pushed convert items a = ap (found_scalar convert) (get_elem?-push items a)

module _ {Z F T : Type 0} where
  -- The `switch` of getNumericConstant.
  unfoldable pub typed_constant :
      (Z → T) → (F → T) → QueryGraph Z F → Node → ValueType → SequenceType → Result T
  typed_constant of_int of_double g num ValueType.int64 SequenceType.array =
      array_constant of_int g.int64_array_constants num
  typed_constant of_int of_double g num ValueType.int64 _ =
      scalar_constant of_int g.int64_constants num
  typed_constant of_int of_double g num ValueType.float64 SequenceType.array =
      array_constant of_double g.float64_array_constants num
  typed_constant of_int of_double g num ValueType.float64 _ =
      scalar_constant of_double g.float64_constants num
  typed_constant of_int of_double g num _ _ = throws invalid_argument

  -- getNumericConstant
  unfoldable pub get_numeric_constant : (Z → T) → (F → T) → QueryGraph Z F → Operation → Result T
  get_numeric_constant of_int of_double g const_op =
      typed_constant of_int of_double g const_op.const_id const_op.type const_op.sequence

  -- A constant that appendInt64Constant or appendFloat64Constant has just added is read back by
  -- getNumericConstant from the node that the call returns, converted.
  pub append_int64_constant-get_numeric_constant :
      (of_int : Z → T) (of_double : F → T) (g : QueryGraph Z F) (z : Z) (x : F)
      → ((at (append_int64_constant g z).0.operations (append_int64_constant g z).1
            >>= get_numeric_constant of_int of_double (append_int64_constant g z).0)
          ≡ ok (of_int z))
        × ((at (append_float64_constant g x).0.operations (append_float64_constant g x).1
              >>= get_numeric_constant of_int of_double (append_float64_constant g x).0)
            ≡ ok (of_double x))
  unfolding append_int64_constant append_float64_constant emplace_node at get_numeric_constant
      typed_constant
  append_int64_constant-get_numeric_constant of_int of_double g z x = (
    ap (λ r. or_undefined r >>= get_numeric_constant of_int of_double (append_int64_constant g z).0)
          (get_elem?-push g.operations _)
        ∙ scalar_pushed of_int g.int64_constants z,
    ap
          (λ r.
            or_undefined r
            >>= get_numeric_constant of_int of_double (append_float64_constant g x).0)
          (get_elem?-push g.operations _)
        ∙ scalar_pushed of_double g.float64_constants x,
  )
