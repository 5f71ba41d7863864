-- ===== src/Parser/ConstraintsRoundTrip.antt =====
-- Literals, ranges and constraints that are printed are parsed back.
use Prim.Native.String.{String}
use altr_stream.Base.{
  ℕ, zero, suc, ◌<◌, ◌≡◌, refl, sym, pos, negsuc, true, false, List, [], ◌∷◌, none, some, is_some,
  arith, length,
}
use altr_stream.Base.Result.{ok}
use altr_stream.Base.Python.{Python}
use altr_stream.Ast.{ComparisonOperator, TemporalKeyword, Literal, Range, Constraint}
use altr_stream.Tokens.{Token, TokenType}
use altr_stream.Parser.Machine.{peek, check, is_at_end, take_value, take_some}
use altr_stream.Parser.Values.{
  literal_of, comparison_of, parse_literal, parse_range_end, parse_comparison_constraint,
  parse_constraints,
}
use altr_stream.Parser.Printer.{
  token, word, literal_kind, HasToken, comparison_type, print_constraint, print_constraints,
  IsPrintedConstraints,
}

module _ {F : Type 0} ⦃py : Python F⦄ where
  pub parse_literal-token :
      (l : Literal F) (rest : List (Token F))
      → HasToken l
      → parse_literal (token (literal_kind l) ∷ rest) ≡ ok (l, rest)
  unfolding parse_literal take_value take_some literal_of
  parse_literal-token (Literal.string s) rest h = refl
  parse_literal-token (Literal.integer (pos n)) rest h = refl
  parse_literal-token (Literal.integer (negsuc n)) rest h = absurd h
  parse_literal-token (Literal.float x) rest h = refl
  parse_literal-token (Literal.boolean true) rest h = refl
  parse_literal-token (Literal.boolean false) rest h = refl
  parse_literal-token Literal.null rest h = refl
  parse_literal-token (Literal.temporal (some TemporalKeyword.today) none) rest h = refl
  parse_literal-token (Literal.temporal (some TemporalKeyword.now) none) rest h = refl
  parse_literal-token (Literal.temporal (some k) (some s)) rest h = absurd h
  parse_literal-token (Literal.temporal none (some s)) rest h = refl
  parse_literal-token (Literal.temporal none none) rest h = absurd h

  pub literal_starts :
      (l : Literal F) (rest : List (Token F))
      → (check TokenType.lbrace (token (literal_kind l) ∷ rest) ≡ false)
        × (check TokenType.rbrace (token (literal_kind l) ∷ rest) ≡ false)
        × (is_at_end (token (literal_kind l) ∷ rest) ≡ false)
  literal_starts (Literal.string s) rest = (refl, refl, refl)
  literal_starts (Literal.integer (pos n)) rest = (refl, refl, refl)
  literal_starts (Literal.integer (negsuc n)) rest = (refl, refl, refl)
  literal_starts (Literal.float x) rest = (refl, refl, refl)
  literal_starts (Literal.boolean true) rest = (refl, refl, refl)
  literal_starts (Literal.boolean false) rest = (refl, refl, refl)
  literal_starts Literal.null rest = (refl, refl, refl)
  literal_starts (Literal.temporal (some TemporalKeyword.today) v) rest = (refl, refl, refl)
  literal_starts (Literal.temporal (some TemporalKeyword.now) v) rest = (refl, refl, refl)
  literal_starts (Literal.temporal none (some s)) rest = (refl, refl, refl)
  literal_starts (Literal.temporal none none) rest = (refl, refl, refl)

  pub not_brace :
      (l : Literal F) (rest : List (Token F))
      → check TokenType.lbrace (token (literal_kind l) ∷ rest) ≡ false
  not_brace l rest = (literal_starts l rest).0

  -- The end of a range, after its start.
  pub parse_range_end-print :
      (r : Range F) (rest : List (Token F))
      → HasToken r.finish
      → r.inclusive ≡ true
      → parse_range_end r.start (word TokenType.dotdot ∷ token (literal_kind r.finish) ∷ rest)
        ≡ ok (some r, rest)
  unfolding parse_range_end
  parse_range_end-print r rest h k =
      rw (parse_literal-token r.finish rest h)
        (λ i. ok (some (record { start = r.start; finish = r.finish; inclusive = sym k i }), rest))

  pub not_comparison : (l : Literal F) → is_some (comparison_of (literal_kind l)) ≡ false
  unfolding comparison_of
  not_comparison (Literal.string s) = refl
  not_comparison (Literal.integer (pos n)) = refl
  not_comparison (Literal.integer (negsuc n)) = refl
  not_comparison (Literal.float x) = refl
  not_comparison (Literal.boolean true) = refl
  not_comparison (Literal.boolean false) = refl
  not_comparison Literal.null = refl
  not_comparison (Literal.temporal (some TemporalKeyword.today) v) = refl
  not_comparison (Literal.temporal (some TemporalKeyword.now) v) = refl
  not_comparison (Literal.temporal none (some s)) = refl
  not_comparison (Literal.temporal none none) = refl

  pub is_comparison :
      (op : ComparisonOperator) (rest : List (Token F))
      → is_some (comparison_of (peek (word (comparison_type op) ∷ rest)).kind) ≡ true
  unfolding comparison_of
  is_comparison ComparisonOperator.eq rest = refl
  is_comparison ComparisonOperator.neq rest = refl
  is_comparison ComparisonOperator.gt rest = refl
  is_comparison ComparisonOperator.lt rest = refl
  is_comparison ComparisonOperator.gte rest = refl
  is_comparison ComparisonOperator.lte rest = refl

  take_comparison :
      (op : ComparisonOperator) (message : String) (rest : List (Token F))
      → take_value comparison_of message (word (comparison_type op) ∷ rest) ≡ ok (op, rest)
  unfolding take_value take_some comparison_of
  take_comparison ComparisonOperator.eq message rest = refl
  take_comparison ComparisonOperator.neq message rest = refl
  take_comparison ComparisonOperator.gt message rest = refl
  take_comparison ComparisonOperator.lt message rest = refl
  take_comparison ComparisonOperator.gte message rest = refl
  take_comparison ComparisonOperator.lte message rest = refl

  pub parse_constraint-print :
      (c : Constraint F) (rest : List (Token F))
      → HasToken c.value
      → parse_comparison_constraint (print_constraint c rest) ≡ ok (c, rest)
  unfolding parse_comparison_constraint
  parse_constraint-print c rest h =
      rw
        (
          take_comparison c.operator "Expected comparison constraint after '&'."
              (token (literal_kind c.value) ∷ rest),
          parse_literal-token c.value rest h,
        )
        refl

  pub parse_constraints-print :
      (f : ℕ) (cs : List (Constraint F)) (rest : List (Token F))
      → IsPrintedConstraints cs
      → length cs < f
      → check TokenType.ampersand rest ≡ false
      → parse_constraints f (print_constraints cs rest) ≡ ok (cs, rest)
  unfolding parse_constraints
  parse_constraints-print zero cs rest p h k = absurd (omega arith)
  parse_constraints-print (suc f) [] rest p h k = rw k refl
  parse_constraints-print (suc f) (c ∷ cs) rest p h k =
      rw
        (
          parse_constraint-print c (print_constraints cs rest) p.0,
          parse_constraints-print f cs rest p.1 (omega arith) k,
        )
        refl
