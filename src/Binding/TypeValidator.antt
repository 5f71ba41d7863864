-- ===== src/Binding/TypeValidator.antt =====
-- src/altr_stream/query_engine/binding/type_validator.py. Every exception of the file is a
-- TypeCompatibilityError, here named for the rule that is broken.
use altr_stream.Base.{Bool, true, false, List, ◌&&◌, not, ltb, length, if◌then◌else◌}
use altr_stream.Base.Result.{Result, ok, err, ◌>>◌, raise_if, for_each}
use altr_stream.Schema.{StandardDataType}
use altr_stream.Ast.{
  FieldPath, Literal, Range, Constraint, Element, ComparisonOperator, Operator, Operand, eq, neq,
}
use altr_stream.BoundAst.{
  LogicalTypeCategory, BoundFieldPath, numeric, string, boolean, temporal, unknown,
}

pub data TypeCompatibilityError : Type 0 where
  ordering_with_null ordering_on_boolean range_on_boolean compound_on_boolean :
      TypeCompatibilityError
  string_operator_operand string_operator_field unsupported_type : TypeCompatibilityError
  incompatible_literal range_bounds null_not_allowed : TypeCompatibilityError

abbrev pub Check : Type 0
Check = Result TypeCompatibilityError (Unit {0})

unfoldable pub to_logical_category : StandardDataType → LogicalTypeCategory
to_logical_category StandardDataType.integer = numeric
to_logical_category StandardDataType.bigint = numeric
to_logical_category StandardDataType.smallint = numeric
to_logical_category StandardDataType.float = numeric
to_logical_category StandardDataType.decimal = numeric
to_logical_category StandardDataType.string = string
to_logical_category StandardDataType.uuid = string
to_logical_category StandardDataType.boolean = boolean
to_logical_category StandardDataType.date = temporal
to_logical_category StandardDataType.time = temporal
to_logical_category StandardDataType.timestamp = temporal
to_logical_category StandardDataType.timestamptz = temporal
to_logical_category _ = unknown

unfoldable pub same_category : LogicalTypeCategory → LogicalTypeCategory → Bool
same_category numeric numeric = true
same_category string string = true
same_category boolean boolean = true
same_category temporal temporal = true
same_category unknown unknown = true
same_category _ _ = false

unfoldable pub is_ordering : ComparisonOperator → Bool
is_ordering eq = false
is_ordering neq = false
is_ordering _ = true

-- FieldPath.is_nested
unfoldable pub is_nested : FieldPath → Bool
is_nested p = ltb 1 (length p.segments)

unfoldable pub validate_null_operand : Operator → Check
unfolding is_ordering
validate_null_operand (Operator.string _) = err string_operator_operand
validate_null_operand (Operator.comparison op) = raise_if (is_ordering op) ordering_with_null

module _ {F : Type 0} where
  unfoldable pub is_numeric_literal : Literal F → Bool
  is_numeric_literal (Literal.integer _) = true
  is_numeric_literal (Literal.float _) = true
  is_numeric_literal _ = false

  unfoldable pub is_string_literal : Literal F → Bool
  is_string_literal (Literal.string _) = true
  is_string_literal _ = false

  unfoldable pub is_boolean_literal : Literal F → Bool
  is_boolean_literal (Literal.boolean _) = true
  is_boolean_literal _ = false

  unfoldable pub is_temporal_literal : Literal F → Bool
  is_temporal_literal (Literal.temporal _ _) = true
  is_temporal_literal _ = false

  -- The branches on the literal's class that every check ends with; NULL passes.
  unfoldable pub check_literal : LogicalTypeCategory → Literal F → Check
  unfolding same_category
  check_literal c (Literal.integer _) =
      raise_if (not (same_category c numeric)) incompatible_literal
  check_literal c (Literal.float _) = raise_if (not (same_category c numeric)) incompatible_literal
  check_literal c (Literal.string _) = raise_if (not (same_category c string)) incompatible_literal
  check_literal c (Literal.boolean _) =
      raise_if (not (same_category c boolean)) incompatible_literal
  check_literal c (Literal.temporal _ _) =
      raise_if (not (same_category c temporal)) incompatible_literal
  check_literal c Literal.null = ok tt

  unfoldable pub validate_range : LogicalTypeCategory → Range F → Check
  unfolding is_numeric_literal is_string_literal is_temporal_literal
  validate_range boolean r = err range_on_boolean
  validate_range numeric r =
      raise_if (not (is_numeric_literal r.start && is_numeric_literal r.finish)) range_bounds
  validate_range string r =
      raise_if (not (is_string_literal r.start && is_string_literal r.finish)) range_bounds
  validate_range temporal r =
      raise_if (not (is_temporal_literal r.start && is_temporal_literal r.finish)) range_bounds
  validate_range unknown r = ok tt

  -- The branch on NULL in `_validate_comparison_constraint`, then the others.
  unfoldable pub check_constraint_value :
      ComparisonOperator → LogicalTypeCategory → Literal F → Check
  unfolding check_literal is_ordering
  check_constraint_value op c Literal.null = raise_if (is_ordering op) ordering_with_null
  check_constraint_value op c l = check_literal c l

  unfoldable pub validate_comparison_constraint : LogicalTypeCategory → Constraint F → Check
  unfolding check_constraint_value is_ordering same_category
  validate_comparison_constraint c constraint =
      raise_if (is_ordering constraint.operator && same_category c boolean) ordering_on_boolean
      >> check_constraint_value constraint.operator c constraint.value

  unfoldable pub validate_element : LogicalTypeCategory → Element F → Check
  unfolding validate_range validate_comparison_constraint check_literal for_each same_category
  validate_element c (Element.literal l) = check_literal c l
  validate_element c (Element.range r) = validate_range c r
  validate_element c (Element.comparison k) = validate_comparison_constraint c k
  validate_element c (Element.compound_and ks) =
      raise_if (same_category c boolean) compound_on_boolean
      >> for_each (validate_comparison_constraint c) ks

  unfoldable pub validate_value_set : LogicalTypeCategory → List (Element F) → Check
  unfolding validate_element for_each
  validate_value_set c elements = for_each (validate_element c) elements

  unfoldable pub validate_string_operand : LogicalTypeCategory → Operand F → Check
  unfolding validate_value_set
  validate_string_operand c (Operand.value_set elements) = validate_value_set c elements
  validate_string_operand c (Operand.literal (Literal.string _)) = ok tt
  validate_string_operand c _ = err string_operator_operand

  unfoldable pub validate_comparison_operand : LogicalTypeCategory → Operand F → Check
  unfolding validate_value_set validate_range check_literal
  validate_comparison_operand c (Operand.range r) = validate_range c r
  validate_comparison_operand c (Operand.value_set elements) = validate_value_set c elements
  validate_comparison_operand c (Operand.literal l) = check_literal c l

  -- Steps 3 to 5, by the class of the operator.
  unfoldable pub validate_for_operator : LogicalTypeCategory → Operator → Operand F → Check
  unfolding validate_string_operand validate_comparison_operand is_ordering same_category
  validate_for_operator c (Operator.string _) operand =
      raise_if (not (same_category c string)) string_operator_field
      >> validate_string_operand c operand
  validate_for_operator c (Operator.comparison op) operand =
      raise_if (is_ordering op && same_category c boolean) ordering_on_boolean
      >> validate_comparison_operand c operand

  -- Steps 1 and 2: NULL, then nested paths, then fields of unsupported types.
  unfoldable pub validate_field_operator_and_operand : BoundFieldPath → Operator → Operand F → Check
  unfolding validate_null_operand validate_for_operator is_nested same_category
  validate_field_operator_and_operand field op (Operand.literal Literal.null) =
      validate_null_operand op
  validate_field_operator_and_operand field op operand =
      if is_nested field.path
      then ok tt
      else raise_if (same_category field.logical_category unknown) unsupported_type
        >> validate_for_operator field.logical_category op operand

  unfoldable pub matches_category : LogicalTypeCategory → Literal F → Bool
  unfolding is_numeric_literal is_string_literal is_boolean_literal is_temporal_literal
  matches_category numeric l = is_numeric_literal l
  matches_category string l = is_string_literal l
  matches_category boolean l = is_boolean_literal l
  matches_category temporal l = is_temporal_literal l
  matches_category unknown l = false

  unfoldable pub validate_assignment_value : BoundFieldPath → Literal F → Check
  unfolding matches_category same_category
  validate_assignment_value field Literal.null = raise_if (not field.nullable) null_not_allowed
  validate_assignment_value field l =
      raise_if (same_category field.logical_category unknown) unsupported_type
      >> raise_if (not (matches_category field.logical_category l)) incompatible_literal
