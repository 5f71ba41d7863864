-- ===== src/Parser/RoundTrip.antt =====
-- WHERE expressions, and a query, that are printed are parsed back.
use altr_stream.Base.{
  Text, ℕ, zero, suc, ◌+◌, ◌*◌, ◌≤◌, ◌<◌, ◌≡◌, refl, false, List, [], ◌∷◌, some, arith, length,
}
use altr_stream.Base.Result.{ok}
use altr_stream.Base.Python.{Python}
use altr_stream.Ast.{
  Operator, Operand, LogicalOperator, Expression, field_expression, logical, negation, AltrQueryIr,
  new_ir, delete,
}
use altr_stream.Tokens.{Token, TokenType}
use altr_stream.Parser.Machine.{
  check, is_at_end, take_value, take_some, consume, reject, reject_end,
  consume_terminating_semicolon,
}
use altr_stream.Parser.Values.{identifier_of}
use altr_stream.Parser.Expressions.{
  parse_atomic_field_expression, parse_or, parse_not, parse_conditions, combine, parse_where_block,
}
use altr_stream.Parser.Queries.{
  parse_where, reject_read_clauses, parse_delete, parse_query, enough, parse,
}
use altr_stream.Parser.FieldsRoundTrip.{
  operand_cost, parse_operator_and_operand-print, no_dot, parse_path-print, operator_length,
  path_length,
}
use altr_stream.Parser.Printer.{
  print_delete, word, print_operator, print_operand, HasTokens, print_path, connective, print,
  HasSegment, IsPrinted,
}

module _ {F : Type 0} ⦃py : Python F⦄ where
  path_not_close :
      (ss : List Text) (ts : List (Token F))
      → HasSegment ss
      → check TokenType.rbrace (print_path ss ts) ≡ false
  path_not_close [] ts h = absurd h
  path_not_close (s ∷ ss) ts h = refl

  -- The number of calls that the parser nests on what is printed, at most.
  abbrev pub cost : Expression F → ℕ
  cost (field_expression e) = 5 + (length e.field.segments + operand_cost e.operand)
  cost (negation e) = 5 + cost e
  cost (logical op l r) = 5 + (cost l + cost r)

  not_close :
      (e : Expression F) (ts : List (Token F))
      → IsPrinted e
      → check TokenType.rbrace (print e ts) ≡ false
  not_close (field_expression e) ts h = path_not_close e.field.segments _ h.0
  not_close (negation e) ts h = refl
  not_close (logical op l r) ts h = refl

  -- A field expression, through the levels of the grammar down to it.
  parse_not-field :
      (f : ℕ) (ss : List Text) (op : Operator) (o : Operand F) (k : List (Token F))
      → HasSegment ss
      → HasTokens op o
      → length ss ≤ f
      → operand_cost o ≤ f
      → parse_not
          (suc (suc f))
          (print_path ss (print_operator op (print_operand o (word TokenType.rbrace ∷ k))))
        ≡ ok (
          field_expression
              (record { field = record { segments = ss }; operator = op; operand = o }),
          word TokenType.rbrace ∷ k,
        )
  unfolding parse_or parse_atomic_field_expression
  parse_not-field f [] op o k g h l c = absurd g
  parse_not-field f (s ∷ ss) op o k g h l c =
      rw
        (
          parse_path-print f (s ∷ ss)
              (print_operator op (print_operand o (word TokenType.rbrace ∷ k))) tt l
              (no_dot op (print_operand o (word TokenType.rbrace ∷ k))),
          parse_operator_and_operand-print f op o k h c,
        )
        refl

  -- An expression in braces, where the parser reads it without them.
  parse_not-group :
      (f : ℕ) (e : Expression F) (k : List (Token F))
      → IsPrinted e
      → parse_or f (print e (word TokenType.rbrace ∷ k)) ≡ ok (e, word TokenType.rbrace ∷ k)
      → parse_not (suc (suc f)) (word TokenType.lbrace ∷ print e (word TokenType.rbrace ∷ k))
        ≡ ok (e, k)
  unfolding parse_or reject consume
  parse_not-group f e k p h = rw (not_close e (word TokenType.rbrace ∷ k) p, h) refl

  too_small : (e : Expression F) → cost e < 5 → ⊥
  too_small (field_expression e) h = omega arith
  too_small (negation e) h = omega arith
  too_small (logical op l r) h = omega arith

  parse_or-print :
      (f : ℕ) (e : Expression F) (k : List (Token F))
      → IsPrinted e
      → cost e ≤ f
      → parse_or f (print e (word TokenType.rbrace ∷ k)) ≡ ok (e, word TokenType.rbrace ∷ k)
  unfolding parse_or reject_end
  parse_or-print (suc (suc (suc (suc (suc f))))) (field_expression e) k p h =
      rw
        (parse_not-field (suc f) e.field.segments e.operator e.operand k p.0 p.1 (omega arith)
          (omega arith))
        refl
  parse_or-print (suc (suc (suc (suc (suc f))))) (negation e) k p h =
      rw
        (parse_not-group f e (word TokenType.rbrace ∷ k) p
          (parse_or-print f e (word TokenType.rbrace ∷ k) p (omega arith)))
        refl
  parse_or-print (suc (suc (suc (suc (suc f))))) (logical LogicalOperator.and l r) k p h =
      rw
        (
          parse_not-group (suc f) l _ p.0 (parse_or-print (suc f) l _ p.0 (omega arith)),
          parse_not-group f r _ p.1 (parse_or-print f r _ p.1 (omega arith)),
        )
        refl
  parse_or-print (suc (suc (suc (suc (suc f))))) (logical LogicalOperator.or l r) k p h =
      rw
        (
          parse_not-group (suc f) l _ p.0 (parse_or-print (suc f) l _ p.0 (omega arith)),
          parse_not-group f r _ p.1 (parse_or-print f r _ p.1 (omega arith)),
        )
        refl
  parse_or-print zero e k p h = absurd (too_small e (omega arith))
  parse_or-print (suc zero) e k p h = absurd (too_small e (omega arith))
  parse_or-print (suc (suc zero)) e k p h = absurd (too_small e (omega arith))
  parse_or-print (suc (suc (suc zero))) e k p h = absurd (too_small e (omega arith))
  parse_or-print (suc (suc (suc (suc zero)))) e k p h = absurd (too_small e (omega arith))

  path_not_end :
      (ss : List Text) (ts : List (Token F)) → HasSegment ss → is_at_end (print_path ss ts) ≡ false
  path_not_end [] ts h = absurd h
  path_not_end (s ∷ ss) ts h = refl

  not_end : (e : Expression F) (ts : List (Token F)) → IsPrinted e → is_at_end (print e ts) ≡ false
  not_end (field_expression e) ts h = path_not_end e.field.segments _ h.0
  not_end (negation e) ts h = refl
  not_end (logical op l r) ts h = refl

  parse_conditions-print :
      (f : ℕ) (e : Expression F) (k : List (Token F))
      → IsPrinted e
      → cost e < f
      → parse_conditions f (print e (word TokenType.rbrace ∷ k))
        ≡ ok (e ∷ [], word TokenType.rbrace ∷ k)
  unfolding parse_conditions
  parse_conditions-print zero e k p h = absurd (omega arith)
  parse_conditions-print (suc f) e k p h =
      rw
        (
          not_close e (word TokenType.rbrace ∷ k) p,
          not_end e (word TokenType.rbrace ∷ k) p,
          parse_or-print f e k p (omega arith),
        )
        refl

  parse_where_block-print :
      (f : ℕ) (e : Expression F) (k : List (Token F))
      → IsPrinted e
      → cost e < f
      → parse_where_block f (word TokenType.lbrace ∷ print e (word TokenType.rbrace ∷ k))
        ≡ ok (e, k)
  unfolding parse_where_block consume reject combine
  parse_where_block-print f e k p h =
      rw (not_close e (word TokenType.rbrace ∷ k) p, parse_conditions-print f e k p h) refl

  -- What is printed has enough tokens for its cost.
  cost_le :
      (e : Expression F) (rest : List (Token F))
      → IsPrinted e
      → cost e + 6 * length rest ≤ 6 * length (print e rest)
  cost_le (field_expression e) rest p = omega (
    arith,
    path_length e.field.segments (print_operator e.operator (print_operand e.operand rest)),
    operator_length e.operator e.operand rest p.1,
  )
  cost_le (negation e) rest p = omega (arith, cost_le e (word TokenType.rbrace ∷ rest) p)
  cost_le (logical op l r) rest p =
      let right = word TokenType.rbrace ∷ rest in
      let left =
        word TokenType.rbrace ∷ word (connective op) ∷ word TokenType.lbrace ∷ print r right in
      omega (arith, cost_le l left p.0, cost_le r right p.1)

  -- A DELETE query with a WHERE clause that is printed to tokens is parsed back: the parser returns
  -- the entity and the expression that were printed, where each path has a segment, no integer is
  -- negative, each temporal literal has a keyword or else a value, ranges are inclusive, value sets
  -- have an element and stand with =, !=, HAS and NOT HAS only, compound constraints have two parts
  -- or more, and the string operators have strings.
  pub parse-print_delete :
      (entity : Text) (e : Expression F)
      → IsPrinted e
      → parse (print_delete entity e)
        ≡ ok (let ir : AltrQueryIr F = new_ir delete entity in record ir { where_clause = some e })
  unfolding parse parse_query parse_delete parse_where reject_read_clauses reject consume take_value
      take_some identifier_of consume_terminating_semicolon
  parse-print_delete entity e p =
      let rest : List (Token F) =
        word TokenType.rbrace ∷ word TokenType.semicolon ∷ word TokenType.eof ∷ [] in
      rw
        (parse_where_block-print (enough (print_delete entity e)) e
          (word TokenType.semicolon ∷ word TokenType.eof ∷ []) p (omega (arith, cost_le e rest p)))
        refl
