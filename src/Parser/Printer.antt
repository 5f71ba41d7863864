-- ===== src/Parser/Printer.antt =====
-- A printer of WHERE expressions to tokens, with every operand of AND, OR and NOT in braces. It
-- has no form for literals that no token stands for.
use altr_stream.Base.{Text, pos, negsuc, true, false, ◌≡◌, List, [], ◌∷◌, none, some, All}
use altr_stream.Ast.{
  ComparisonOperator, StringOperator, TemporalKeyword, Literal, Range, Constraint, Element,
  Operator, Operand, LogicalOperator, Expression, field_expression, logical, negation,
}
use altr_stream.Tokens.{Kind, Token, TokenType}

abbrev pub comparison_type : ComparisonOperator → TokenType
comparison_type ComparisonOperator.eq = TokenType.eq
comparison_type ComparisonOperator.neq = TokenType.neq
comparison_type ComparisonOperator.gt = TokenType.gt
comparison_type ComparisonOperator.lt = TokenType.lt
comparison_type ComparisonOperator.gte = TokenType.gte
comparison_type ComparisonOperator.lte = TokenType.lte

abbrev pub connective : LogicalOperator → TokenType
connective LogicalOperator.and = TokenType.and_kw
connective LogicalOperator.or = TokenType.or_kw

abbrev pub HasSegment : List Text → Type 0
HasSegment [] = ⊥
HasSegment (s ∷ ss) = Unit

module _ {F : Type 0} where
  abbrev pub token : Kind F → Token F
  token kind = record { kind = kind; at = record { line = 1; column = 1 }; lexeme = [] }

  abbrev pub word : TokenType → Token F
  word t = token (Kind.fixed t)

  abbrev pub literal_kind : Literal F → Kind F
  literal_kind (Literal.string s) = Kind.string s
  literal_kind (Literal.integer (pos n)) = Kind.integer n
  literal_kind (Literal.integer (negsuc n)) = Kind.integer n
  literal_kind (Literal.float x) = Kind.float x
  literal_kind (Literal.boolean b) = elim b [
    | true ↦ Kind.fixed TokenType.true_kw
    | false ↦ Kind.fixed TokenType.false_kw
  ]
  literal_kind Literal.null = Kind.fixed TokenType.null_kw
  literal_kind (Literal.temporal (some TemporalKeyword.today) v) = Kind.fixed TokenType.today_kw
  literal_kind (Literal.temporal (some TemporalKeyword.now) v) = Kind.fixed TokenType.now_kw
  literal_kind (Literal.temporal none (some s)) = Kind.temporal_literal s
  literal_kind (Literal.temporal none none) = Kind.fixed TokenType.null_kw

  -- Literals that a token stands for: no negative integer, and a temporal literal has a keyword or
  -- a value.
  abbrev pub HasToken : Literal F → Type 0
  HasToken (Literal.integer (negsuc n)) = ⊥
  HasToken (Literal.temporal (some k) (some s)) = ⊥
  HasToken (Literal.temporal none none) = ⊥
  HasToken _ = Unit

  abbrev pub print_operator : Operator → List (Token F) → List (Token F)
  print_operator (Operator.comparison op) rest = word (comparison_type op) ∷ rest
  print_operator (Operator.string StringOperator.starts) rest = word TokenType.starts_kw ∷ rest
  print_operator (Operator.string StringOperator.ends) rest = word TokenType.ends_kw ∷ rest
  print_operator (Operator.string StringOperator.has) rest = word TokenType.has_kw ∷ rest
  print_operator (Operator.string StringOperator.not_has) rest =
      word TokenType.not_kw ∷ word TokenType.has_kw ∷ rest

  abbrev pub print_range : Range F → List (Token F) → List (Token F)
  print_range r rest =
      token (literal_kind r.start) ∷ word TokenType.dotdot ∷ token (literal_kind r.finish) ∷ rest

  abbrev pub print_constraint : Constraint F → List (Token F) → List (Token F)
  print_constraint c rest = word (comparison_type c.operator) ∷ token (literal_kind c.value) ∷ rest

  abbrev pub print_constraints : List (Constraint F) → List (Token F) → List (Token F)
  print_constraints [] rest = rest
  print_constraints (c ∷ cs) rest =
      word TokenType.ampersand ∷ print_constraint c (print_constraints cs rest)

  abbrev pub print_element : Element F → List (Token F) → List (Token F)
  print_element (Element.literal l) rest = token (literal_kind l) ∷ rest
  print_element (Element.range r) rest = print_range r rest
  print_element (Element.comparison c) rest = print_constraint c rest
  print_element (Element.compound_and []) rest = rest
  print_element (Element.compound_and (c ∷ cs)) rest =
      print_constraint c (print_constraints cs rest)

  -- The elements with commas between them, and the closing brace.
  abbrev pub print_elements : List (Element F) → List (Token F) → List (Token F)
  print_elements [] rest = word TokenType.rbrace ∷ rest
  print_elements (e ∷ []) rest = print_element e (word TokenType.rbrace ∷ rest)
  print_elements (e ∷ d ∷ es) rest =
      print_element e (word TokenType.comma ∷ print_elements (d ∷ es) rest)

  abbrev pub print_operand : Operand F → List (Token F) → List (Token F)
  print_operand (Operand.literal l) rest = token (literal_kind l) ∷ rest
  print_operand (Operand.range r) rest = print_range r rest
  print_operand (Operand.value_set es) rest = word TokenType.lbrace ∷ print_elements es rest

  abbrev pub IsPrintedRange : Range F → Type 0
  IsPrintedRange r = HasToken r.start × HasToken r.finish × (r.inclusive ≡ true)

  abbrev pub IsPrintedConstraints : List (Constraint F) → Type 0
  IsPrintedConstraints cs = All (λ c. HasToken c.value) cs

  abbrev pub IsPrintedElement : Element F → Type 0
  IsPrintedElement (Element.literal l) = HasToken l
  IsPrintedElement (Element.range r) = IsPrintedRange r
  IsPrintedElement (Element.comparison c) = HasToken c.value
  IsPrintedElement (Element.compound_and (c ∷ d ∷ cs)) = IsPrintedConstraints (c ∷ d ∷ cs)
  IsPrintedElement (Element.compound_and _) = ⊥

  abbrev pub IsPrintedSet : List (Element F) → Type 0
  IsPrintedSet [] = ⊥
  IsPrintedSet (e ∷ es) = All IsPrintedElement (e ∷ es)

  -- The pairs of an operator and an operand that are printed.
  abbrev pub HasTokens : Operator → Operand F → Type 0
  HasTokens (Operator.comparison op) (Operand.literal l) = HasToken l
  HasTokens (Operator.comparison op) (Operand.range r) = IsPrintedRange r
  HasTokens (Operator.comparison ComparisonOperator.eq) (Operand.value_set es) = IsPrintedSet es
  HasTokens (Operator.comparison ComparisonOperator.neq) (Operand.value_set es) = IsPrintedSet es
  HasTokens (Operator.string op) (Operand.literal (Literal.string s)) = Unit
  HasTokens (Operator.string StringOperator.has) (Operand.value_set es) = IsPrintedSet es
  HasTokens (Operator.string StringOperator.not_has) (Operand.value_set es) = IsPrintedSet es
  HasTokens op o = ⊥

  abbrev pub print_segments : List Text → List (Token F) → List (Token F)
  print_segments [] rest = rest
  print_segments (s ∷ ss) rest =
      word TokenType.dot ∷ token (Kind.identifier s) ∷ print_segments ss rest

  abbrev pub print_path : List Text → List (Token F) → List (Token F)
  print_path [] rest = rest
  print_path (s ∷ ss) rest = token (Kind.identifier s) ∷ print_segments ss rest

  abbrev pub print : Expression F → List (Token F) → List (Token F)
  print (field_expression e) rest =
      print_path e.field.segments (print_operator e.operator (print_operand e.operand rest))
  print (negation e) rest =
      word TokenType.not_kw ∷ word TokenType.lbrace ∷ print e (word TokenType.rbrace ∷ rest)
  print (logical op l r) rest =
      word TokenType.lbrace
      ∷ print l (
          word TokenType.rbrace
          ∷ word (connective op)
          ∷ word TokenType.lbrace
          ∷ print r (word TokenType.rbrace ∷ rest))

  abbrev pub IsPrinted : Expression F → Type 0
  IsPrinted (field_expression e) = HasSegment e.field.segments × HasTokens e.operator e.operand
  IsPrinted (negation e) = IsPrinted e
  IsPrinted (logical op l r) = IsPrinted l × IsPrinted r

  -- DELETE with a WHERE clause, as the lexer hands it over.
  abbrev pub print_delete : Text → Expression F → List (Token F)
  print_delete entity e =
      word TokenType.delete_kw
      ∷ token (Kind.identifier entity)
      ∷ word TokenType.where_kw
      ∷ word TokenType.lbrace
      ∷ print e (word TokenType.rbrace ∷ word TokenType.semicolon ∷ word TokenType.eof ∷ [])
