-- ===== src/Parser/Values.antt =====
-- Field paths, literals, ranges and value sets.

use altr_stream.Base.{
  Text, ℕ, zero, suc, pos, true, false, ◌||◌, List, [], ◌∷◌, Option, none, some, is_some,
  if◌then◌else◌,
}
use altr_stream.Base.Result.{ok, err}
use altr_stream.Base.Python.{Python}
use altr_stream.Ast.{
  ComparisonOperator, TemporalKeyword, FieldPath, Literal, Range, Constraint, Element,
}
use altr_stream.Tokens.{Kind, TokenType}
use altr_stream.Parser.Machine.{
  out_of_fuel, Parser, peek, check, is_at_end, advance, ◌>>=◌, ◌>>◌, pure, repeat, run, consume,
  reject, take_value, lax_separator,
}

module _ {F : Type 0} where
  unfoldable pub identifier_of : Kind F → Option Text
  identifier_of (Kind.identifier x) = some x
  identifier_of _ = none

  unfoldable pub string_of : Kind F → Option (Literal F)
  string_of (Kind.string s) = some (Literal.string s)
  string_of _ = none

  unfoldable pub literal_of : Kind F → Option (Literal F)
  literal_of (Kind.string s) = some (Literal.string s)
  literal_of (Kind.integer n) = some (Literal.integer (pos n))
  literal_of (Kind.float x) = some (Literal.float x)
  literal_of (Kind.temporal_literal s) = some (Literal.temporal none (some s))
  literal_of (Kind.fixed TokenType.true_kw) = some (Literal.boolean true)
  literal_of (Kind.fixed TokenType.false_kw) = some (Literal.boolean false)
  literal_of (Kind.fixed TokenType.null_kw) = some Literal.null
  literal_of (Kind.fixed TokenType.today_kw) =
      some (Literal.temporal (some TemporalKeyword.today) none)
  literal_of (Kind.fixed TokenType.now_kw) = some (Literal.temporal (some TemporalKeyword.now) none)
  literal_of _ = none

  -- `comp_map` and `op_map`
  unfoldable pub comparison_of : Kind F → Option ComparisonOperator
  comparison_of (Kind.fixed TokenType.eq) = some ComparisonOperator.eq
  comparison_of (Kind.fixed TokenType.neq) = some ComparisonOperator.neq
  comparison_of (Kind.fixed TokenType.gt) = some ComparisonOperator.gt
  comparison_of (Kind.fixed TokenType.lt) = some ComparisonOperator.lt
  comparison_of (Kind.fixed TokenType.gte) = some ComparisonOperator.gte
  comparison_of (Kind.fixed TokenType.lte) = some ComparisonOperator.lte
  comparison_of _ = none

module _ {F : Type 0} ⦃py : Python F⦄ where
  unfoldable pub parse_literal : Parser F (Literal F)
  unfolding take_value literal_of
  parse_literal = take_value literal_of "Expected literal value."

  unfoldable pub parse_string_literal : Parser F (Literal F)
  unfolding take_value string_of
  parse_string_literal = take_value string_of "Expected string literal in quotes."

  -- The segments after the first.
  unfoldable pub parse_segments : ℕ → Parser F (List Text)
  unfolding take_value identifier_of
  parse_segments zero ts = err out_of_fuel
  parse_segments (suc f) ts =
      let more = run (advance ts) do
        s ← take_value identifier_of "Expected field segment after '.'."
        rest ← parse_segments f
        pure (s ∷ rest)
      in if check TokenType.dot ts then more else ok ([], ts)

  unfoldable pub parse_field_path : ℕ → Parser F FieldPath
  unfolding take_value identifier_of parse_segments
  parse_field_path f = do
    s ← take_value identifier_of "Expected field name."
    rest ← parse_segments f
    pure (record { segments = s ∷ rest })

  -- After a literal: the end of a range, or nothing.
  unfoldable pub parse_range_end : Literal F → Parser F (Option (Range F))
  unfolding parse_literal
  parse_range_end start ts =
      if check TokenType.dotdot ts
      then (run (advance ts) do
        finish ← parse_literal
        pure (some (record { start = start; finish = finish; inclusive = true })))
      else ok (none, ts)

  unfoldable pub parse_comparison_constraint : Parser F (Constraint F)
  unfolding take_value comparison_of parse_literal
  parse_comparison_constraint = do
    op ← take_value comparison_of "Expected comparison constraint after '&'."
    l ← parse_literal
    pure (record { operator = op; value = l })

  -- The constraints after `&`.
  unfoldable pub parse_constraints : ℕ → Parser F (List (Constraint F))
  unfolding parse_comparison_constraint
  parse_constraints zero ts = err out_of_fuel
  parse_constraints (suc f) ts =
      let more =
        run (advance ts) do c ← parse_comparison_constraint; cs ← parse_constraints f; pure (c ∷ cs)
      in if check TokenType.ampersand ts then more else ok ([], ts)

  abbrev pub constraint_element : Constraint F → List (Constraint F) → Element F
  constraint_element c [] = Element.comparison c
  constraint_element c (d ∷ cs) = Element.compound_and (c ∷ d ∷ cs)

  abbrev pub literal_element : Literal F → Option (Range F) → Element F
  literal_element l none = Element.literal l
  literal_element l (some r) = Element.range r

  unfoldable pub parse_value_set_element : ℕ → Parser F (Element F)
  unfolding comparison_of parse_comparison_constraint parse_constraints parse_literal
      parse_range_end
  parse_value_set_element f ts =
      if is_some (comparison_of (peek ts).kind)
      then (run ts do
        c ← parse_comparison_constraint
        cs ← parse_constraints f
        pure (constraint_element c cs))
      else run ts do l ← parse_literal; r ← parse_range_end l; pure (literal_element l r)

  -- The elements up to the closing brace.
  unfoldable pub parse_elements : ℕ → Parser F (List (Element F))
  unfolding parse_value_set_element lax_separator
  parse_elements zero ts = err out_of_fuel
  parse_elements (suc f) ts =
      let more = run ts do
        e ← parse_value_set_element f
        again ← lax_separator TokenType.rbrace "Expected ',' or '}' in value set."
        es ← repeat again (parse_elements f)
        pure (e ∷ es)
      in if check TokenType.rbrace ts || is_at_end ts then ok ([], ts) else more

  -- After the opening brace.
  unfoldable pub parse_value_set : ℕ → Parser F (List (Element F))
  unfolding reject parse_elements consume
  parse_value_set f = do
    reject TokenType.rbrace "Value set '{ }' cannot be empty."
    es ← parse_elements f
    consume TokenType.rbrace "Expected '}' closing value set."
    pure es
