-- ===== src/Lowering/Postgres.antt =====
-- lowering/postgres.py: `lower_field_expression` for a comparison operator.
use altr_stream.Base.{
  Text, codes, Bool, true, false, ◌&&◌, ◌||◌, not, List, [], ◌∷◌, ◌++◌, map, none, some,
  if◌then◌else◌,
}
use altr_stream.Ast.{ComparisonOperator, Literal, Range, Element, Operand}
use altr_stream.Lowering.Sql.{Param, Lower, Host, Sql, text, add_param, ◌<>◌}
use altr_stream.Lowering.Dialect.{
  lit, Dialect, invert_operator, is_date_only_literal, has_null, non_null, lower_literal, between,
  compare, is_null_test, is_not_null_test, combined, null_comparison, or_null, compound, in_list,
  within_day,
}

module _ {F : Type 0} where
  -- The test of `all_simple_non_null`.
  unfoldable pub is_simple_non_null : Element F → Bool
  is_simple_non_null (Element.literal (Literal.temporal none (some s))) = true
  is_simple_non_null (Element.literal (Literal.temporal _ _)) = false
  is_simple_non_null (Element.literal Literal.null) = false
  is_simple_non_null (Element.literal _) = true
  is_simple_non_null _ = false

  unfoldable pub all_simple_non_null : List (Element F) → Bool
  unfolding is_simple_non_null
  all_simple_non_null [] = true
  all_simple_non_null (e ∷ es) = is_simple_non_null e && all_simple_non_null es

  abbrev pub is_date_only_element : Element F → Bool
  unfolding is_date_only_literal
  is_date_only_element (Element.literal l) = is_date_only_literal l
  is_date_only_element _ = false

  unfoldable pub has_date_only_temporals : List (Element F) → Bool
  has_date_only_temporals [] = false
  has_date_only_temporals (e ∷ es) = is_date_only_element e || has_date_only_temporals es

  -- The guard of the IN lists.
  unfoldable pub is_simple_set : Bool → List (Element F) → Bool
  unfolding all_simple_non_null has_date_only_temporals
  is_simple_set t es = all_simple_non_null es && not (t && has_date_only_temporals es)

module _ {D F : Type 0} (host : Host D F) (d : Dialect D F) where
  unfoldable pub placeholder : Element F → Lower (Param D F) Sql
  unfolding lower_literal text
  placeholder (Element.literal l) = lower_literal d l
  placeholder _ = text []

  -- The predicate of a simple set: the one for no element, for one, and for more.
  unfoldable pub simple_equal : Text → Bool → List (Element F) → Lower (Param D F) Sql
  unfolding text ◌<>◌ is_null_test in_list placeholder combined
  simple_equal col true [] = is_null_test d col
  simple_equal col true (e ∷ []) =
      lit "("
      <> text col
      <> lit " = "
      <> placeholder e
      <> lit " OR "
      <> is_null_test d col
      <> lit ")"
  simple_equal col true (e ∷ f ∷ es) =
      lit "("
      <> in_list d col (codes " IN ") (map placeholder (e ∷ f ∷ es))
      <> lit " OR "
      <> is_null_test d col
      <> lit ")"
  simple_equal col false [] = combined d (codes " OR ") []
  simple_equal col false (e ∷ es) = in_list d col (codes " IN ") (map placeholder (e ∷ es))

  unfoldable pub simple_unequal : Text → Bool → List (Element F) → Lower (Param D F) Sql
  unfolding text ◌<>◌ is_null_test is_not_null_test in_list placeholder combined
  simple_unequal col true [] = is_not_null_test d col
  simple_unequal col true (e ∷ []) =
      lit "("
      <> text col
      <> lit " != "
      <> placeholder e
      <> lit " AND "
      <> is_not_null_test d col
      <> lit ")"
  simple_unequal col true (e ∷ f ∷ es) =
      lit "("
      <> in_list d col (codes " NOT IN ") (map placeholder (e ∷ f ∷ es))
      <> lit " AND "
      <> is_not_null_test d col
      <> lit ")"
  simple_unequal col false [] = combined d (codes " AND ") []
  simple_unequal col false (e ∷ es) =
      lit "("
      <> in_list d col (codes " NOT IN ") (map placeholder (e ∷ es))
      <> lit " OR "
      <> is_null_test d col
      <> lit ")"

  -- A literal that is not NULL, compared for equality.
  unfoldable pub literal_equal : Text → Bool → Literal F → Lower (Param D F) Sql
  unfolding is_date_only_literal within_day compare
  literal_equal col t l =
      if t && is_date_only_literal l
      then within_day host d col l
      else compare d col ComparisonOperator.eq l

  unfoldable pub constraint_equal :
      Text → Bool → ComparisonOperator → Literal F → Lower (Param D F) Sql
  unfolding null_comparison literal_equal compare
  constraint_equal col t op Literal.null = null_comparison d col op
  constraint_equal col t ComparisonOperator.eq l = literal_equal col t l
  constraint_equal col t op l = compare d col op l

  -- One element of a mixed set under `=`.
  unfoldable pub element_equal : Text → Bool → Element F → Lower (Param D F) Sql
  unfolding is_null_test between compound literal_equal constraint_equal
  element_equal col t (Element.literal Literal.null) = is_null_test d col
  element_equal col t (Element.literal l) = literal_equal col t l
  element_equal col t (Element.range r) = between d col r
  element_equal col t (Element.comparison c) = constraint_equal col t c.operator c.value
  element_equal col t (Element.compound_and cs) = compound d col cs

  -- A constraint of a mixed set under `!=`: `> NULL` and its like leave nothing.
  unfoldable pub constraint_unequal :
      Text → ComparisonOperator → Literal F → List (Lower (Param D F) Sql)
  unfolding or_null invert_operator is_null_test is_not_null_test
  constraint_unequal col ComparisonOperator.eq Literal.null = is_not_null_test d col ∷ []
  constraint_unequal col ComparisonOperator.neq Literal.null = is_null_test d col ∷ []
  constraint_unequal col op Literal.null = []
  constraint_unequal col op l = or_null d col (invert_operator op) l ∷ []

  -- `({col} < {start} OR {col} > {end} OR {col} IS NULL)`
  unfoldable pub outside : Text → Range F → Lower (Param D F) Sql
  unfolding text ◌<>◌ lower_literal is_null_test
  outside col r =
      lit "("
      <> text col
      <> lit " < "
      <> lower_literal d r.start
      <> lit " OR "
      <> text col
      <> lit " > "
      <> lower_literal d r.finish
      <> lit " OR "
      <> is_null_test d col
      <> lit ")"

  -- One element of a mixed set under `!=`: a compound constraint leaves nothing.
  unfoldable pub element_unequal : Text → Element F → List (Lower (Param D F) Sql)
  unfolding or_null is_null_test is_not_null_test constraint_unequal outside
  element_unequal col (Element.literal Literal.null) = is_not_null_test d col ∷ []
  element_unequal col (Element.literal l) = or_null d col ComparisonOperator.neq l ∷ []
  element_unequal col (Element.range r) = outside col r ∷ []
  element_unequal col (Element.comparison c) = constraint_unequal col c.operator c.value
  element_unequal col (Element.compound_and cs) = []

  unfoldable pub elements_unequal : Text → List (Element F) → List (Lower (Param D F) Sql)
  unfolding element_unequal
  elements_unequal col [] = []
  elements_unequal col (e ∷ es) = element_unequal col e ++ elements_unequal col es

  -- The empty set has no placeholder, and takes the path of the mixed sets.
  unfoldable pub set_equal : Text → Bool → List (Element F) → Lower (Param D F) Sql
  unfolding is_simple_set non_null has_null simple_equal element_equal combined
  set_equal col t es =
      if is_simple_set t (non_null es)
      then simple_equal col (has_null es) (non_null es)
      else combined d (codes " OR ") (map (element_equal col t) es)

  unfoldable pub set_unequal : Text → Bool → List (Element F) → Lower (Param D F) Sql
  unfolding is_simple_set non_null has_null simple_unequal elements_unequal combined
  set_unequal col t es =
      if is_simple_set t (non_null es)
      then simple_unequal col (has_null es) (non_null es)
      else combined d (codes " AND ") (elements_unequal col es)

  -- A direct operand that is not NULL.
  unfoldable pub scalar_comparison :
      Text → Bool → ComparisonOperator → Literal F → Lower (Param D F) Sql
  unfolding literal_equal compare or_null
  scalar_comparison col t ComparisonOperator.eq l = literal_equal col t l
  scalar_comparison col t ComparisonOperator.neq (Literal.temporal k v) =
      compare d col ComparisonOperator.neq (Literal.temporal k v)
  scalar_comparison col t ComparisonOperator.neq l = or_null d col ComparisonOperator.neq l
  scalar_comparison col t op l = compare d col op l

  unfoldable pub comparison_predicate :
      Text → Bool → ComparisonOperator → Operand F → Lower (Param D F) Sql
  unfolding null_comparison between set_equal set_unequal scalar_comparison text ◌<>◌ add_param
  comparison_predicate col t op (Operand.literal Literal.null) = null_comparison d col op
  comparison_predicate col t op (Operand.range r) = between d col r
  comparison_predicate col t ComparisonOperator.eq (Operand.value_set es) = set_equal col t es
  comparison_predicate col t ComparisonOperator.neq (Operand.value_set es) = set_unequal col t es
  comparison_predicate col t op (Operand.value_set es) =
      text col <> lit " = " <> add_param Param.null
  comparison_predicate col t op (Operand.literal l) = scalar_comparison col t op l
