-- ===== src/Lowering/InLists.antt =====
-- lowering/mysql.py and sqlite.py: `lower_field_expression` for a comparison operator. Value sets
-- become IN lists. The two have the same code, except for a compound constraint in `= {...}`.
use altr_stream.Base.{Text, codes, Bool, false, ◌&&◌, not, List, [], ◌∷◌, ◌++◌, map, if◌then◌else◌}
use altr_stream.Ast.{ComparisonOperator, Literal, Constraint, Element, Operand}
use altr_stream.Lowering.Sql.{Param, Lower, Host, Sql, text, add_param, ◌<>◌}
use altr_stream.Lowering.Dialect.{
  lit, Dialect, operator_text, invert_operator, is_date_only_literal, has_null, non_null,
  lower_literal, between, compare, is_null_test, is_not_null_test, grouped, null_comparison,
  or_null, in_list, with_day, within_day,
}

module _ {F : Type 0} where
  -- The test of `simple_scalars`.
  unfoldable pub is_simple : Bool → Element F → Bool
  unfolding is_date_only_literal
  is_simple is_timestamp (Element.literal Literal.null) = false
  is_simple is_timestamp (Element.literal l) = not (is_timestamp && is_date_only_literal l)
  is_simple is_timestamp _ = false

  unfoldable pub simple_scalars : Bool → List (Element F) → List (Literal F)
  unfolding is_simple
  simple_scalars t [] = []
  simple_scalars t (Element.literal l ∷ es) =
      let rest = simple_scalars t es in if is_simple t (Element.literal l) then l ∷ rest else rest
  simple_scalars t (_ ∷ es) = simple_scalars t es

  unfoldable pub other_elems : Bool → List (Element F) → List (Element F)
  unfolding is_simple
  other_elems t [] = []
  other_elems t (e ∷ es) = let rest = other_elems t es in if is_simple t e then rest else e ∷ rest

module _ {D F : Type 0} (host : Host D F) (d : Dialect D F)
    (compound_elem : Text → List (Constraint F) → Lower (Param D F) Sql) where
  -- The placeholders of `simple_scalars`, as a predicate if there are any.
  unfoldable pub scalars_part : Text → Text → List (Literal F) → List (Lower (Param D F) Sql)
  unfolding add_param in_list
  scalars_part col word [] = []
  scalars_part col word (l ∷ ls) =
      in_list d col word (map (λ x. add_param (d.convert x)) (l ∷ ls)) ∷ []

  unfoldable pub other_equal : Text → Element F → Lower (Param D F) Sql
  unfolding between compare within_day
  other_equal col (Element.range r) = between d col r
  other_equal col (Element.comparison c) = compare d col c.operator c.value
  other_equal col (Element.compound_and cs) = compound_elem col cs
  other_equal col (Element.literal l) = within_day host d col l

  unfoldable pub other_unequal : Text → Element F → Lower (Param D F) Sql
  unfolding text ◌<>◌ lower_literal compare invert_operator grouped with_day
  other_unequal col (Element.range r) =
      text col
      <> lit " NOT BETWEEN "
      <> lower_literal d r.start
      <> lit " AND "
      <> lower_literal d r.finish
  other_unequal col (Element.comparison c) = compare d col (invert_operator c.operator) c.value
  other_unequal col (Element.compound_and cs) =
      grouped d (codes " OR ") (map (λ c. compare d col (invert_operator c.operator) c.value) cs)
  other_unequal col (Element.literal l) = with_day host d l λ p1 p2.
      lit "("
      <> text col
      <> lit " < "
      <> p1
      <> lit " OR "
      <> text col
      <> lit " >= "
      <> p2
      <> lit ")"

  unfoldable pub parts_equal : Text → Bool → List (Element F) → List (Lower (Param D F) Sql)
  unfolding scalars_part simple_scalars other_equal other_elems non_null
  parts_equal col t es =
      scalars_part col (codes " IN ") (simple_scalars t (non_null es))
      ++ map (other_equal col) (other_elems t (non_null es))

  unfoldable pub parts_unequal : Text → Bool → List (Element F) → List (Lower (Param D F) Sql)
  unfolding scalars_part simple_scalars other_unequal other_elems non_null
  parts_unequal col t es =
      scalars_part col (codes " NOT IN ") (simple_scalars t (non_null es))
      ++ map (other_unequal col) (other_elems t (non_null es))

  -- The only predicate, or all of them in parentheses.
  unfoldable pub one_or_grouped : Text → List (Lower (Param D F) Sql) → Lower (Param D F) Sql
  unfolding grouped
  one_or_grouped sep (m ∷ []) = m
  one_or_grouped sep ms = grouped d sep ms

  unfoldable pub set_equal : Text → Bool → List (Element F) → Lower (Param D F) Sql
  unfolding parts_equal has_null is_null_test one_or_grouped
  set_equal col t es =
      let parts = parts_equal col t es in
      one_or_grouped (codes " OR ") (if has_null es then is_null_test d col ∷ parts else parts)

  unfoldable pub set_unequal : Text → Bool → List (Element F) → Lower (Param D F) Sql
  unfolding parts_unequal has_null is_null_test is_not_null_test one_or_grouped text ◌<>◌
  set_unequal col t es =
      let parts = parts_unequal col t es in
      if has_null es
      then one_or_grouped (codes " AND ") (is_not_null_test d col ∷ parts)
      else lit "("
        <> one_or_grouped (codes " AND ") parts
        <> lit " OR "
        <> is_null_test d col
        <> lit ")"

  -- A direct operand that is not NULL.
  unfoldable pub scalar_comparison :
      Text → Bool → ComparisonOperator → Literal F → Lower (Param D F) Sql
  unfolding is_date_only_literal within_day compare or_null
  scalar_comparison col t ComparisonOperator.eq l =
      if t && is_date_only_literal l
      then within_day host d col l
      else compare d col ComparisonOperator.eq l
  scalar_comparison col t ComparisonOperator.neq l = or_null d col ComparisonOperator.neq l
  scalar_comparison col t op l = compare d col op l

  unfoldable pub comparison_predicate :
      Text → Bool → ComparisonOperator → Operand F → Lower (Param D F) Sql
  unfolding null_comparison between set_equal set_unequal scalar_comparison text ◌<>◌ add_param
  comparison_predicate col t op (Operand.literal Literal.null) = null_comparison d col op
  comparison_predicate col t op (Operand.range r) = between d col r
  comparison_predicate col t ComparisonOperator.eq (Operand.value_set es) = set_equal col t es
  comparison_predicate col t ComparisonOperator.neq (Operand.value_set es) = set_unequal col t es
  comparison_predicate col t op (Operand.value_set es) =
      text col <> lit " " <> text (operator_text op) <> lit " " <> add_param Param.null
  comparison_predicate col t op (Operand.literal l) = scalar_comparison col t op l
