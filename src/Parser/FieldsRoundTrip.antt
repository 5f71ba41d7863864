-- ===== src/Parser/FieldsRoundTrip.antt =====
-- Paths, operators and operands that are printed are parsed back.
use altr_stream.Base.{
  Text, ℕ, zero, suc, ◌+◌, ◌≤◌, ◌<◌, ◌≡◌, refl, false, List, [], ◌∷◌, arith, length,
}
use altr_stream.Base.Result.{ok}
use altr_stream.Base.Python.{Python}
use altr_stream.Ast.{ComparisonOperator, StringOperator, Literal, Operator, Operand}
use altr_stream.Tokens.{Token, TokenType}
use altr_stream.Parser.Machine.{check, take_value, take_some, consume}
use altr_stream.Parser.Values.{
  string_of, comparison_of, identifier_of, parse_string_literal, parse_segments, parse_field_path,
  parse_range_end,
}
use altr_stream.Parser.Expressions.{
  parse_string_operand, parse_has_operand, parse_comparison_operand, parse_operator_and_operand,
}
use altr_stream.Parser.ConstraintsRoundTrip.{parse_literal-token, not_brace, parse_range_end-print}
use altr_stream.Parser.ValuesRoundTrip.{set_cost, parse_value_set-print, set_length}
use altr_stream.Parser.Printer.{
  token, word, literal_kind, print_operator, print_operand, HasTokens, print_segments, print_path,
  HasSegment,
}

module _ {F : Type 0} ⦃py : Python F⦄ where
  parse_segments-print :
      (f : ℕ) (ss : List Text) (ts : List (Token F))
      → length ss < f
      → check TokenType.dot ts ≡ false
      → parse_segments f (print_segments ss ts) ≡ ok (ss, ts)
  unfolding parse_segments take_value take_some identifier_of
  parse_segments-print zero ss ts h k = absurd (omega arith)
  parse_segments-print (suc f) [] ts h k = rw k refl
  parse_segments-print (suc f) (s ∷ ss) ts h k =
      rw (parse_segments-print f ss ts (omega arith) k) refl

  -- The calls that an operand nests.
  abbrev pub operand_cost : Operand F → ℕ
  operand_cost (Operand.value_set es) = set_cost es
  operand_cost _ = 0

  parse_comparison_operand-print :
      (f : ℕ) (op : ComparisonOperator) (o : Operand F) (rest : List (Token F))
      → HasTokens (Operator.comparison op) o
      → operand_cost o ≤ f
      → parse_comparison_operand f op (print_operand o (word TokenType.rbrace ∷ rest))
        ≡ ok ((Operator.comparison op, o), word TokenType.rbrace ∷ rest)
  unfolding parse_comparison_operand parse_range_end
  parse_comparison_operand-print f op (Operand.literal l) rest h c =
      rw
        (
          not_brace l (word TokenType.rbrace ∷ rest),
          parse_literal-token l (word TokenType.rbrace ∷ rest) h,
        )
        refl
  parse_comparison_operand-print f op (Operand.range r) rest h c =
      rw
        (
          not_brace r.start (
              word TokenType.dotdot ∷ token (literal_kind r.finish) ∷ word TokenType.rbrace ∷ rest),
          parse_literal-token r.start
              (word TokenType.dotdot ∷ token (literal_kind r.finish) ∷ word TokenType.rbrace ∷ rest)
              h.0,
          parse_range_end-print r (word TokenType.rbrace ∷ rest) h.1 h.2,
        )
        refl
  parse_comparison_operand-print f ComparisonOperator.eq (Operand.value_set es) rest h c =
      rw (parse_value_set-print f es (word TokenType.rbrace ∷ rest) h c) refl
  parse_comparison_operand-print f ComparisonOperator.neq (Operand.value_set es) rest h c =
      rw (parse_value_set-print f es (word TokenType.rbrace ∷ rest) h c) refl
  parse_comparison_operand-print f ComparisonOperator.gt (Operand.value_set es) rest h c = absurd h
  parse_comparison_operand-print f ComparisonOperator.lt (Operand.value_set es) rest h c = absurd h
  parse_comparison_operand-print f ComparisonOperator.gte (Operand.value_set es) rest h c = absurd h
  parse_comparison_operand-print f ComparisonOperator.lte (Operand.value_set es) rest h c = absurd h

  pub parse_operator_and_operand-print :
      (f : ℕ) (op : Operator) (o : Operand F) (rest : List (Token F))
      → HasTokens op o
      → operand_cost o ≤ f
      → parse_operator_and_operand f
          (print_operator op (print_operand o (word TokenType.rbrace ∷ rest)))
        ≡ ok ((op, o), word TokenType.rbrace ∷ rest)
  unfolding parse_operator_and_operand parse_string_operand parse_has_operand parse_string_literal
      take_value take_some string_of comparison_of consume
  parse_operator_and_operand-print f (Operator.comparison ComparisonOperator.eq) o rest h c =
      parse_comparison_operand-print f ComparisonOperator.eq o rest h c
  parse_operator_and_operand-print f (Operator.comparison ComparisonOperator.neq) o rest h c =
      parse_comparison_operand-print f ComparisonOperator.neq o rest h c
  parse_operator_and_operand-print f (Operator.comparison ComparisonOperator.gt) o rest h c =
      parse_comparison_operand-print f ComparisonOperator.gt o rest h c
  parse_operator_and_operand-print f (Operator.comparison ComparisonOperator.lt) o rest h c =
      parse_comparison_operand-print f ComparisonOperator.lt o rest h c
  parse_operator_and_operand-print f (Operator.comparison ComparisonOperator.gte) o rest h c =
      parse_comparison_operand-print f ComparisonOperator.gte o rest h c
  parse_operator_and_operand-print f (Operator.comparison ComparisonOperator.lte) o rest h c =
      parse_comparison_operand-print f ComparisonOperator.lte o rest h c
  parse_operator_and_operand-print f (Operator.string StringOperator.starts)
        (Operand.literal (Literal.string s)) rest h c =
      refl
  parse_operator_and_operand-print f (Operator.string StringOperator.ends)
        (Operand.literal (Literal.string s)) rest h c =
      refl
  parse_operator_and_operand-print f (Operator.string StringOperator.has)
        (Operand.literal (Literal.string s)) rest h c =
      refl
  parse_operator_and_operand-print f (Operator.string StringOperator.not_has)
        (Operand.literal (Literal.string s)) rest h c =
      refl
  parse_operator_and_operand-print f (Operator.string StringOperator.has) (Operand.value_set es)
        rest h c =
      rw (parse_value_set-print f es (word TokenType.rbrace ∷ rest) h c) refl
  parse_operator_and_operand-print f (Operator.string StringOperator.not_has) (Operand.value_set es)
        rest h c =
      rw (parse_value_set-print f es (word TokenType.rbrace ∷ rest) h c) refl
  parse_operator_and_operand-print f (Operator.string op) o rest h c = absurd h

  pub no_dot :
      (op : Operator) (rest : List (Token F)) → check TokenType.dot (print_operator op rest) ≡ false
  no_dot (Operator.comparison ComparisonOperator.eq) rest = refl
  no_dot (Operator.comparison ComparisonOperator.neq) rest = refl
  no_dot (Operator.comparison ComparisonOperator.gt) rest = refl
  no_dot (Operator.comparison ComparisonOperator.lt) rest = refl
  no_dot (Operator.comparison ComparisonOperator.gte) rest = refl
  no_dot (Operator.comparison ComparisonOperator.lte) rest = refl
  no_dot (Operator.string StringOperator.starts) rest = refl
  no_dot (Operator.string StringOperator.ends) rest = refl
  no_dot (Operator.string StringOperator.has) rest = refl
  no_dot (Operator.string StringOperator.not_has) rest = refl

  pub parse_path-print :
      (f : ℕ) (ss : List Text) (ts : List (Token F))
      → HasSegment ss
      → length ss ≤ f
      → check TokenType.dot ts ≡ false
      → parse_field_path f (print_path ss ts) ≡ ok (record { segments = ss }, ts)
  unfolding parse_field_path take_value take_some identifier_of
  parse_path-print f [] ts g h k = absurd g
  parse_path-print f (s ∷ ss) ts g h k = rw (parse_segments-print f ss ts (omega arith) k) refl

  pub operator_length :
      (op : Operator) (o : Operand F) (rest : List (Token F))
      → HasTokens op o
      → suc (operand_cost o + length rest) ≤ length (print_operator op (print_operand o rest))
  operator_length (Operator.comparison op) (Operand.literal l) rest h = omega arith
  operator_length (Operator.comparison op) (Operand.range r) rest h = omega arith
  operator_length (Operator.comparison ComparisonOperator.eq) (Operand.value_set (e ∷ es)) rest h =
      omega (arith, set_length (e ∷ es) rest h)
  operator_length (Operator.comparison ComparisonOperator.neq) (Operand.value_set (e ∷ es)) rest h =
      omega (arith, set_length (e ∷ es) rest h)
  operator_length (Operator.string StringOperator.has) (Operand.value_set (e ∷ es)) rest h =
      omega (arith, set_length (e ∷ es) rest h)
  operator_length (Operator.string StringOperator.not_has) (Operand.value_set (e ∷ es)) rest h =
      omega (arith, set_length (e ∷ es) rest h)
  operator_length (Operator.string StringOperator.starts) (Operand.literal l) rest h = omega arith
  operator_length (Operator.string StringOperator.ends) (Operand.literal l) rest h = omega arith
  operator_length (Operator.string StringOperator.has) (Operand.literal l) rest h = omega arith
  operator_length (Operator.string StringOperator.not_has) (Operand.literal l) rest h = omega arith
  operator_length (Operator.string op) o rest h = absurd h
  operator_length (Operator.comparison op) (Operand.value_set es) rest h = absurd h

  segments_length :
      (ss : List Text) (rest : List (Token F))
      → length ss + length rest ≤ length (print_segments ss rest)
  segments_length [] rest = omega arith
  segments_length (s ∷ ss) rest = omega (arith, segments_length ss rest)

  pub path_length :
      (ss : List Text) (rest : List (Token F))
      → length ss + length rest ≤ length (print_path ss rest)
  path_length [] rest = omega arith
  path_length (s ∷ ss) rest = omega (arith, segments_length ss rest)
