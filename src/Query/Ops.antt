-- ===== src/Query/Ops.antt =====
-- The enums of common/proto/query.proto and data.proto, and the classifications of operations in
-- minion/planner/query/graph.h.
use dist_storage.Prelude.{ℕ, Bool, true, false}

-- query::ColumnOperation
pub data ColumnOperation : Type 0 where
  const add sub mul div neg inv abs sqrt exp pow ln log : ColumnOperation
  not and or xor nand nor xnor : ColumnOperation
  eq neq gt lt gte lte in_ not_in like not_like ilike not_ilike : ColumnOperation
  is_null is_not_null null true_ false_ : ColumnOperation
  min max sum count count_distinct avg median std var : ColumnOperation
  column desc table df filter range group sort union nop invalid : ColumnOperation

-- data::ValueType
pub data ValueType : Type 0 where
  bool int8 uint8 int16 uint16 int32 uint32 int64 uint64 : ValueType
  float32 float64 string bytes any json : ValueType

-- data::SequenceType
pub data SequenceType : Type 0 where
  any single array : SequenceType

-- The number of an operation in query.proto.
unfoldable pub op_code : ColumnOperation → ℕ
op_code const = 0
op_code add = 1
op_code sub = 2
op_code mul = 3
op_code div = 4
op_code neg = 5
op_code inv = 6
op_code abs = 7
op_code sqrt = 8
op_code exp = 9
op_code pow = 10
op_code ln = 11
op_code log = 12
op_code not = 30
op_code and = 31
op_code or = 32
op_code xor = 35
op_code nand = 33
op_code nor = 34
op_code xnor = 36
op_code eq = 50
op_code neq = 51
op_code gt = 52
op_code lt = 53
op_code gte = 54
op_code lte = 55
op_code in_ = 56
op_code not_in = 57
op_code like = 58
op_code not_like = 59
op_code ilike = 60
op_code not_ilike = 61
op_code is_null = 62
op_code is_not_null = 63
op_code null = 90
op_code true_ = 91
op_code false_ = 92
op_code min = 104
op_code max = 105
op_code sum = 106
op_code count = 107
op_code count_distinct = 108
op_code avg = 109
op_code median = 110
op_code std = 111
op_code var = 112
op_code column = 250
op_code desc = 251
op_code table = 261
op_code df = 262
op_code filter = 263
op_code range = 264
op_code group = 265
op_code sort = 266
op_code union = 267
op_code nop = 400
op_code invalid = 500

-- getNegatedOperation
unfoldable pub get_negated_operation : ColumnOperation → ColumnOperation
get_negated_operation not = nop
get_negated_operation null = null
get_negated_operation and = nand
get_negated_operation or = nor
get_negated_operation xor = xnor
get_negated_operation nand = and
get_negated_operation nor = or
get_negated_operation xnor = xor
get_negated_operation gt = lte
get_negated_operation lt = gte
get_negated_operation gte = lt
get_negated_operation lte = gt
get_negated_operation eq = neq
get_negated_operation neq = eq
get_negated_operation in_ = not_in
get_negated_operation not_in = in_
get_negated_operation like = not_like
get_negated_operation not_like = like
get_negated_operation ilike = not_ilike
get_negated_operation not_ilike = ilike
get_negated_operation is_null = is_not_null
get_negated_operation is_not_null = is_null
get_negated_operation _ = invalid

-- isCummutative
unfoldable pub is_cummutative : ColumnOperation → Bool
is_cummutative and = true
is_cummutative nand = true
is_cummutative or = true
is_cummutative nor = true
is_cummutative xor = true
is_cummutative xnor = true
is_cummutative add = true
is_cummutative mul = true
is_cummutative min = true
is_cummutative max = true
is_cummutative avg = true
is_cummutative count = true
is_cummutative count_distinct = true
is_cummutative sum = true
is_cummutative median = true
is_cummutative var = true
is_cummutative std = true
is_cummutative _ = false

-- isTableOperation
unfoldable pub is_table_operation : ColumnOperation → Bool
is_table_operation table = true
is_table_operation df = true
is_table_operation filter = true
is_table_operation range = true
is_table_operation sort = true
is_table_operation union = true
is_table_operation _ = false

unfoldable pub ColumnOperation-discrete : Discrete ColumnOperation
ColumnOperation-discrete = hlevel
