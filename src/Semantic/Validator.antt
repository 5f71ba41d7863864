-- ===== src/Semantic/Validator.antt =====
-- src/altr_stream/query_engine/semantic/validator.py. An exception is named for its message.
use altr_stream.Base.{
  Text, text_gt, contains, ℤ, le_zero, lt_zero, Bool, true, false, ◌||◌, List, [], ◌∷◌, Option,
  none, some, ltb, length, is_some, not, if◌then◌else◌,
}
use altr_stream.Base.Result.{Result, ok, err, ◌>>◌, raise_if, for_each}
use altr_stream.Base.Python.{Python}
use altr_stream.Ast.{
  full_path, FieldSelection, Literal, Range, Element, Operator, Operand, FieldExpression,
  Expression, QueryOperation, MutationAssignment, CreateRecord, RankingClause, AltrQueryIr,
  field_expression, logical, negation, read, create, update, delete,
}

pub data SemanticError : Type 0 where
  assignments_not_allowed records_not_allowed projection_not_allowed : SemanticError
  where_not_allowed sort_not_allowed limit_not_allowed offset_not_allowed : SemanticError
  payload_missing record_empty where_missing : SemanticError
  duplicate_assignment duplicate_alias : Text → SemanticError
  ranking_count_not_positive limit_not_positive limit_with_ranking : SemanticError
  offset_negative sort_with_ranking : SemanticError
  string_operator_operand string_operator_element : SemanticError
  value_set_empty compound_too_short : SemanticError
  range_boolean_or_null range_reversed range_incompatible : SemanticError
  -- `float(start.value)` raises an OverflowError, which is no AltrQuerySemanticError
  overflow : SemanticError

abbrev pub Check : Type 0
Check = Result SemanticError (Unit {0})

-- `seen` is the loop's set of names; `duplicate` makes the exception.
unfoldable pub check_distinct : (Text → SemanticError) → List Text → List Text → Check
unfolding contains
check_distinct duplicate seen [] = ok tt
check_distinct duplicate seen (name ∷ names) =
    raise_if (contains name seen) (duplicate name) >> check_distinct duplicate (name ∷ seen) names

unfoldable pub aliases : List FieldSelection → List Text
aliases [] = []
aliases (s ∷ ss) = elim s.alias [ none ↦ aliases ss | some a ↦ a ∷ aliases ss ]

unfoldable pub validate_sort_and_ranking_mutual_exclusion : {F : Type 0} → AltrQueryIr F → Check
validate_sort_and_ranking_mutual_exclusion ir =
    if ltb 0 (length ir.sort) then raise_if (is_some ir.ranking) sort_with_ranking else ok tt

unfoldable pub validate_offset : Option ℤ → Check
validate_offset none = ok tt
validate_offset (some n) = raise_if (lt_zero n) offset_negative

unfoldable pub validate_limit : Option ℤ → Option RankingClause → Check
validate_limit none ranking = ok tt
validate_limit (some n) ranking =
    raise_if (le_zero n) limit_not_positive >> raise_if (is_some ranking) limit_with_ranking

unfoldable pub validate_ranking : Option RankingClause → Check
validate_ranking none = ok tt
validate_ranking (some r) = raise_if (le_zero r.count) ranking_count_not_positive

unfoldable pub validate_projections : List FieldSelection → Check
unfolding check_distinct aliases
validate_projections selections = check_distinct duplicate_alias [] (aliases selections)

abbrev pub assigned : {F : Type 0} → List (MutationAssignment F) → List Text
assigned [] = []
assigned (a ∷ as') = full_path a.field ∷ assigned as'

unfoldable pub validate_mutation_assignments : {F : Type 0} → List (MutationAssignment F) → Check
unfolding check_distinct
validate_mutation_assignments assignments =
    check_distinct duplicate_assignment [] (assigned assignments)

unfoldable pub is_boolean_or_null : {F : Type 0} → Literal F → Bool
is_boolean_or_null (Literal.boolean _) = true
is_boolean_or_null Literal.null = true
is_boolean_or_null _ = false

module _ {F : Type 0} where
  -- The bounds that are not both numeric.
  unfoldable pub compare_bounds : Literal F → Literal F → Check
  compare_bounds (Literal.string s) (Literal.string t) = raise_if (text_gt s t) range_reversed
  compare_bounds (Literal.temporal _ (some s)) (Literal.temporal _ (some t)) =
      raise_if (text_gt s t) range_reversed
  compare_bounds (Literal.temporal _ _) (Literal.temporal _ _) = ok tt
  compare_bounds _ _ = err range_incompatible

  unfoldable pub require_string_element : Element F → Check
  require_string_element (Element.literal (Literal.string _)) = ok tt
  require_string_element _ = err string_operator_element

  unfoldable pub validate_create_record : CreateRecord F → Check
  unfolding validate_mutation_assignments
  validate_create_record r = do
    raise_if (ltb (length r.assignments) 1) record_empty
    validate_mutation_assignments r.assignments

  unfoldable pub validate_records : List (CreateRecord F) → List (MutationAssignment F) → Check
  unfolding validate_create_record for_each validate_mutation_assignments
  validate_records [] [] = err payload_missing
  validate_records [] (a ∷ assignments) = validate_mutation_assignments (a ∷ assignments)
  validate_records (r ∷ records) assignments = for_each validate_create_record (r ∷ records)

  unfoldable pub reject_sort_and_paging : AltrQueryIr F → Check
  reject_sort_and_paging ir = do
    raise_if (ltb 0 (length ir.sort) || is_some ir.ranking) sort_not_allowed
    raise_if (is_some ir.limit) limit_not_allowed
    raise_if (is_some ir.offset) offset_not_allowed

  unfoldable pub validate_create : AltrQueryIr F → Check
  unfolding validate_records reject_sort_and_paging
  validate_create ir = do
    validate_records ir.records ir.assignments
    raise_if (ltb 0 (length ir.projection)) projection_not_allowed
    raise_if (is_some ir.where_clause) where_not_allowed
    reject_sort_and_paging ir

module _ {F : Type 0} ⦃py : Python F⦄ where
  -- `float(value)` of a numeric literal; `none` where the literal is not numeric
  unfoldable pub as_float : Literal F → Option (Option F)
  as_float (Literal.integer n) = some (py.float_of_int n)
  as_float (Literal.float x) = some (some x)
  as_float _ = none

  unfoldable pub compare_floats : Option F → Option F → Check
  compare_floats (some x) (some y) = raise_if (py.float_gt x y) range_reversed
  compare_floats _ _ = err overflow

  unfoldable pub compare_numeric : Option (Option F) → Option (Option F) → Check → Check
  compare_numeric (some x) (some y) otherwise = compare_floats x y
  compare_numeric _ _ otherwise = otherwise

  unfoldable pub validate_range : Range F → Check
  unfolding is_boolean_or_null as_float compare_floats compare_bounds compare_numeric
  validate_range r =
      raise_if (is_boolean_or_null r.start || is_boolean_or_null r.finish) range_boolean_or_null
      >> compare_numeric (as_float r.start) (as_float r.finish) (compare_bounds r.start r.finish)

  unfoldable pub validate_value_set_element : Element F → Check
  unfolding validate_range
  validate_value_set_element (Element.range r) = validate_range r
  validate_value_set_element (Element.compound_and cs) =
      raise_if (ltb (length cs) 2) compound_too_short
  validate_value_set_element (Element.comparison _) = ok tt
  validate_value_set_element (Element.literal _) = ok tt

  unfoldable pub validate_value_set : List (Element F) → Check
  unfolding validate_value_set_element for_each
  validate_value_set elements =
      raise_if (ltb (length elements) 1) value_set_empty
      >> for_each validate_value_set_element elements

  -- The first half of `_validate_field_expression`: the operand of a string operator.
  unfoldable pub validate_string_operand : Operand F → Check
  unfolding validate_value_set require_string_element for_each
  validate_string_operand (Operand.literal (Literal.string _)) = ok tt
  validate_string_operand (Operand.value_set elements) =
      validate_value_set elements >> for_each require_string_element elements
  validate_string_operand _ = err string_operator_operand

  -- The second half: the operand of any operator.
  unfoldable pub validate_operand : Operand F → Check
  unfolding validate_range validate_value_set
  validate_operand (Operand.range r) = validate_range r
  validate_operand (Operand.value_set elements) = validate_value_set elements
  validate_operand (Operand.literal _) = ok tt

  unfoldable pub validate_for_operator : Operator → Operand F → Check
  unfolding validate_string_operand
  validate_for_operator (Operator.string _) operand = validate_string_operand operand
  validate_for_operator (Operator.comparison _) operand = ok tt

  unfoldable pub validate_field_expression : FieldExpression F → Check
  unfolding validate_for_operator validate_operand
  validate_field_expression e =
      validate_for_operator e.operator e.operand >> validate_operand e.operand

  unfoldable pub validate_expression : Expression F → Check
  unfolding validate_field_expression
  validate_expression (field_expression e) = validate_field_expression e
  validate_expression (logical _ l r) = validate_expression l >> validate_expression r
  validate_expression (negation e) = validate_expression e

  unfoldable pub validate_where : Option (Expression F) → Check
  unfolding validate_expression
  validate_where none = ok tt
  validate_where (some e) = validate_expression e

  unfoldable pub validate_read : AltrQueryIr F → Check
  unfolding validate_projections validate_ranking validate_limit validate_offset
      validate_sort_and_ranking_mutual_exclusion validate_where
  validate_read ir = do
    raise_if (ltb 0 (length ir.assignments)) assignments_not_allowed
    validate_projections ir.projection
    validate_ranking ir.ranking
    validate_limit ir.limit ir.ranking
    validate_offset ir.offset
    validate_sort_and_ranking_mutual_exclusion ir
    validate_where ir.where_clause

  unfoldable pub validate_update : AltrQueryIr F → Check
  unfolding validate_mutation_assignments reject_sort_and_paging validate_where
  validate_update ir = do
    raise_if (ltb (length ir.assignments) 1) payload_missing
    raise_if (ltb 0 (length ir.records)) records_not_allowed
    validate_mutation_assignments ir.assignments
    raise_if (not (is_some ir.where_clause)) where_missing
    raise_if (ltb 0 (length ir.projection)) projection_not_allowed
    reject_sort_and_paging ir
    validate_where ir.where_clause

  unfoldable pub validate_delete : AltrQueryIr F → Check
  unfolding reject_sort_and_paging validate_where
  validate_delete ir = do
    raise_if (ltb 0 (length ir.assignments)) assignments_not_allowed
    raise_if (ltb 0 (length ir.projection)) projection_not_allowed
    reject_sort_and_paging ir
    validate_where ir.where_clause

  unfoldable pub validate_operation : QueryOperation → AltrQueryIr F → Check
  unfolding validate_read validate_create validate_update validate_delete
  validate_operation read ir = validate_read ir
  validate_operation create ir = validate_create ir
  validate_operation update ir = validate_update ir
  validate_operation delete ir = validate_delete ir

  unfoldable pub validate_ir : AltrQueryIr F → Check
  unfolding validate_operation
  validate_ir ir = validate_operation ir.operation ir
