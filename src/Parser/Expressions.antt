-- ===== src/Parser/Expressions.antt =====
-- WHERE blocks: operators and operands, and the expression grammar.
use altr_stream.Base.{
  ℕ, zero, suc, Bool, true, false, ◌||◌, List, [], ◌∷◌, Option, none, some, if◌then◌else◌,
}
use altr_stream.Base.Result.{ok, err}
use altr_stream.Base.Python.{Python}
use altr_stream.Ast.{
  ComparisonOperator, StringOperator, Literal, Range, Operator, Operand, LogicalOperator,
  Expression, field_expression, logical, negation,
}
use altr_stream.Tokens.{TokenType}
use altr_stream.Parser.Machine.{
  out_of_fuel, Parser, drop_one, check, is_at_end, advance, ◌>>=◌, ◌>>◌, pure, run, fail, consume,
  reject, reject_end, take_value,
}
use altr_stream.Parser.Values.{
  comparison_of, parse_literal, parse_string_literal, parse_field_path, parse_range_end,
  parse_value_set,
}

abbrev pub takes_set : ComparisonOperator → Bool
takes_set ComparisonOperator.eq = true
takes_set ComparisonOperator.neq = true
takes_set _ = false

module _ {F : Type 0} ⦃py : Python F⦄ where
  abbrev pub range_operand : Literal F → Option (Range F) → Operand F
  range_operand l none = Operand.literal l
  range_operand l (some r) = Operand.range r

  -- The operand of STARTS and ENDS.
  unfoldable pub parse_string_operand : StringOperator → Parser F (Operator × Operand F)
  unfolding parse_string_literal
  parse_string_operand op = do
    l ← parse_string_literal
    pure (Operator.string op, Operand.literal l)

  -- The operand of HAS and NOT HAS.
  unfoldable pub parse_has_operand : ℕ → StringOperator → Parser F (Operator × Operand F)
  unfolding parse_value_set parse_string_operand
  parse_has_operand f op ts =
      if check TokenType.lbrace ts
      then (run (advance ts)
          do es ← parse_value_set f; pure (Operator.string op, Operand.value_set es))
      else parse_string_operand op ts

  -- The operand of =, !=, >, <, >= and <=.
  unfoldable pub parse_comparison_operand : ℕ → ComparisonOperator → Parser F (Operator × Operand F)
  unfolding parse_value_set parse_literal parse_range_end fail
  parse_comparison_operand f op ts =
      if check TokenType.lbrace ts
      then (if takes_set op
          then (run (advance ts)
              do es ← parse_value_set f; pure (Operator.comparison op, Operand.value_set es))
          else fail "Comparison operator cannot accept a value set or group as right operand."
              (advance ts))
      else run ts do
        l ← parse_literal
        r ← parse_range_end l
        pure (Operator.comparison op, range_operand l r)

  unfoldable pub parse_operator_and_operand : ℕ → Parser F (Operator × Operand F)
  unfolding parse_string_operand parse_has_operand parse_comparison_operand consume take_value
      comparison_of
  parse_operator_and_operand f ts =
      if check TokenType.starts_kw ts
      then parse_string_operand StringOperator.starts (advance ts)
      else if check TokenType.ends_kw ts
      then parse_string_operand StringOperator.ends (advance ts)
      else if check TokenType.has_kw ts
      then parse_has_operand f StringOperator.has (advance ts)
      else if check TokenType.not_kw ts
      then (run (advance ts) do
        consume TokenType.has_kw "Expected 'HAS' after 'NOT'."
        parse_has_operand f StringOperator.not_has)
      else run ts do
        op ← take_value comparison_of "Expected operator after field."
        parse_comparison_operand f op

  unfoldable pub parse_atomic_field_expression : ℕ → Parser F (Expression F)
  unfolding parse_field_path parse_operator_and_operand
  parse_atomic_field_expression f = do
    field ← parse_field_path f
    o ← parse_operator_and_operand f
    pure (field_expression (record { field = field; operator = o.0; operand = o.1 }))

  unfoldable mutual
    pub parse_or : ℕ → Parser F (Expression F)
    parse_or zero ts = err out_of_fuel
    parse_or (suc f) ts = run ts do e ← parse_and f; parse_or_tail f e

    -- The loop of `_parse_or_expression`.
    pub parse_or_tail : ℕ → Expression F → Parser F (Expression F)
    parse_or_tail zero e ts = err out_of_fuel
    parse_or_tail (suc f) e ts =
        let more = run (advance ts) do
          reject_end "Expected expression after 'OR'."
          r ← parse_and f
          parse_or_tail f (logical LogicalOperator.or e r)
        in if check TokenType.or_kw ts then more else ok (e, ts)

    pub parse_and : ℕ → Parser F (Expression F)
    parse_and zero ts = err out_of_fuel
    parse_and (suc f) ts = run ts do e ← parse_not f; parse_and_tail f e

    -- The loop of `_parse_and_expression`.
    pub parse_and_tail : ℕ → Expression F → Parser F (Expression F)
    parse_and_tail zero e ts = err out_of_fuel
    parse_and_tail (suc f) e ts =
        let after_and = run (advance ts) do
          reject_end "Expected expression after 'AND'."
          r ← parse_not f
          parse_and_tail f (logical LogicalOperator.and e r)
        in let after_comma =
            run (advance ts) do r ← parse_not f; parse_and_tail f (logical LogicalOperator.and e r)
          in if check TokenType.and_kw ts
            then after_and
            else if check TokenType.comma ts
            then (if check TokenType.rbrace (drop_one ts)
                then fail "Unexpected trailing comma in WHERE block." ts
                else after_comma)
            else ok (e, ts)

    pub parse_not : ℕ → Parser F (Expression F)
    parse_not zero ts = err out_of_fuel
    parse_not (suc f) ts =
        let negated =
          run (advance ts)
            do reject_end "Expected expression after 'NOT'."; e ← parse_not f; pure (negation e)
        in let primary = parse_primary f ts in
          if check TokenType.not_kw ts then negated else primary

    pub parse_primary : ℕ → Parser F (Expression F)
    parse_primary zero ts = err out_of_fuel
    parse_primary (suc f) ts =
        let group = run (advance ts) do
          reject TokenType.rbrace "Condition group '{ }' cannot be empty."
          e ← parse_or f
          consume TokenType.rbrace "Expected '}' closing condition group."
          pure e
        in if check TokenType.lbrace ts
          then group
          else if check TokenType.identifier ts
          then parse_atomic_field_expression f ts
          else fail "Expected field expression, '{', or 'NOT'." ts

  -- The expressions of a WHERE block. There is no error where two stand side by side.
  unfoldable pub parse_conditions : ℕ → Parser F (List (Expression F))
  unfolding parse_or reject_end parse_atomic_field_expression
  parse_conditions zero ts = err out_of_fuel
  parse_conditions (suc f) ts =
      let more = run ts do
        e ← parse_or f
        λ rest.
            let again = run (advance rest) do es ← parse_conditions f; pure (e ∷ es)
            in let beside = run rest do es ← parse_conditions f; pure (e ∷ es)
              in if check TokenType.comma rest
                then (if check TokenType.rbrace (advance rest)
                    then ok (e ∷ [], advance rest)
                    else again)
                else if check TokenType.rbrace rest
                then ok (e ∷ [], rest)
                else beside
      in if check TokenType.rbrace ts || is_at_end ts then ok ([], ts) else more

  -- `combined`: the conditions joined by AND, from the left.
  abbrev pub conjoin : Expression F → List (Expression F) → Expression F
  conjoin e [] = e
  conjoin e (d ∷ es) = conjoin (logical LogicalOperator.and e d) es

  unfoldable pub combine : List (Expression F) → Parser F (Expression F)
  unfolding fail
  combine [] ts = fail "WHERE block cannot be empty." ts
  combine (e ∷ es) ts = ok (conjoin e es, ts)

  unfoldable pub parse_where_block : ℕ → Parser F (Expression F)
  unfolding consume reject parse_conditions combine
  parse_where_block f = do
    consume TokenType.lbrace "Expected '{' after 'WHERE'."
    reject TokenType.rbrace "WHERE block cannot be empty."
    es ← parse_conditions f
    consume TokenType.rbrace "Expected '}' closing WHERE block."
    combine es
