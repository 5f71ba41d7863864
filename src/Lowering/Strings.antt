-- ===== src/Lowering/Strings.antt =====
-- `lower_field_expression` for a string operator, which is the same code in the three lowerers.
use altr_stream.Base.{Text, codes, List, [], ◌∷◌, map, if◌then◌else◌}
use altr_stream.Ast.{StringOperator, Element, Operand}
use altr_stream.Lowering.Sql.{Param, Lower, Host, Sql, text, ◌<>◌}
use altr_stream.Lowering.Dialect.{
  lit, Dialect, has_null, non_null, lower_literal, between, like, is_null_test, is_not_null_test,
  grouped, combined, element_text, operand_text, starts_pattern, ends_pattern, has_pattern,
}

module _ {D F : Type 0} (host : Host D F) (d : Dialect D F) where
  -- One element of a value set under HAS.
  unfoldable pub has_element : Text → Element F → Lower (Param D F) Sql
  unfolding between like has_pattern
  has_element col (Element.range r) = between d col r
  has_element col e = like d col (codes " LIKE ") (has_pattern (element_text host e))

  -- One element of a value set under NOT HAS.
  unfoldable pub not_has_element : Text → Element F → Lower (Param D F) Sql
  unfolding ◌<>◌ text like lower_literal has_pattern
  not_has_element col (Element.range r) =
      lit "("
      <> text col
      <> lit " < "
      <> lower_literal d r.start
      <> lit " OR "
      <> text col
      <> lit " > "
      <> lower_literal d r.finish
      <> lit ")"
  not_has_element col e = like d col (codes " NOT LIKE ") (has_pattern (element_text host e))

  unfoldable pub has_any : Text → List (Element F) → Lower (Param D F) Sql
  unfolding has_element has_null non_null combined is_null_test
  has_any col es =
      let parts = map (has_element col) (non_null es) in
      combined d (codes " OR ") (if has_null es then is_null_test d col ∷ parts else parts)

  -- `({parts} AND|OR {col} IS ...)`, for the two tests that the parts may be joined with.
  unfoldable pub with_null_test :
      Lower (Param D F) Sql → List (Lower (Param D F) Sql) → Text → Lower (Param D F) Sql
  unfolding ◌<>◌ text grouped
  with_null_test test [] word = test
  with_null_test test (m ∷ []) word = lit "(" <> m <> text word <> test <> lit ")"
  with_null_test test (m ∷ l ∷ ms) word =
      lit "(" <> grouped d (codes " AND ") (m ∷ l ∷ ms) <> text word <> test <> lit ")"

  unfoldable pub has_none : Text → List (Element F) → Lower (Param D F) Sql
  unfolding not_has_element has_null non_null with_null_test is_null_test is_not_null_test
  has_none col es =
      let parts = map (not_has_element col) (non_null es) in
      if has_null es
      then with_null_test (is_not_null_test d col) parts (codes " AND ")
      else with_null_test (is_null_test d col) parts (codes " OR ")

  unfoldable pub string_predicate : Text → StringOperator → Operand F → Lower (Param D F) Sql
  unfolding has_any has_none like is_null_test ◌<>◌ starts_pattern ends_pattern has_pattern
  string_predicate col StringOperator.has (Operand.value_set es) = has_any col es
  string_predicate col StringOperator.not_has (Operand.value_set es) = has_none col es
  string_predicate col StringOperator.starts o =
      like d col (codes " LIKE ") (starts_pattern (operand_text host o))
  string_predicate col StringOperator.ends o =
      like d col (codes " LIKE ") (ends_pattern (operand_text host o))
  string_predicate col StringOperator.has o =
      like d col (codes " LIKE ") (has_pattern (operand_text host o))
  string_predicate col StringOperator.not_has o =
      lit "("
      <> like d col (codes " NOT LIKE ") (has_pattern (operand_text host o))
      <> lit " OR "
      <> is_null_test d col
      <> lit ")"
