-- ===== src/Parser/ValuesRoundTrip.antt =====
-- Value sets that are printed are parsed back.

use altr_stream.Base.{ℕ, zero, suc, ◌+◌, ◌≤◌, ◌≡◌, refl, false, List, [], ◌∷◌, arith, length, All}
use altr_stream.Base.Result.{ok}
use altr_stream.Base.Python.{Python}
use altr_stream.Ast.{ComparisonOperator, Constraint, Element}
use altr_stream.Tokens.{Token, TokenType}
use altr_stream.Parser.Machine.{check, is_at_end, consume, reject, lax_separator}
use altr_stream.Parser.Values.{
  parse_range_end, parse_value_set_element, parse_elements, parse_value_set,
}
use altr_stream.Parser.ConstraintsRoundTrip.{
  parse_literal-token, literal_starts, parse_range_end-print, not_comparison, is_comparison,
  parse_constraint-print, parse_constraints-print,
}
use altr_stream.Parser.Printer.{
  token, word, literal_kind, comparison_type, print_constraints, print_element, print_elements,
  IsPrintedElement, IsPrintedSet,
}

module _ {F : Type 0} ⦃py : Python F⦄ where
  -- The calls that an element nests.
  abbrev pub element_cost : Element F → ℕ
  element_cost (Element.compound_and cs) = length cs
  element_cost _ = 1

  parse_element-print :
      (f : ℕ) (e : Element F) (rest : List (Token F))
      → IsPrintedElement e
      → element_cost e ≤ f
      → check TokenType.ampersand rest ≡ false
      → check TokenType.dotdot rest ≡ false
      → parse_value_set_element f (print_element e rest) ≡ ok (e, rest)
  unfolding parse_value_set_element parse_range_end
  parse_element-print f (Element.literal l) rest p h a d =
      rw (not_comparison l, parse_literal-token l rest p, d) refl
  parse_element-print f (Element.range r) rest p h a d =
      rw
        (
          not_comparison r.start,
          parse_literal-token r.start (word TokenType.dotdot ∷ token (literal_kind r.finish) ∷ rest)
              p.0,
          parse_range_end-print r rest p.1 p.2,
        )
        refl
  parse_element-print f (Element.comparison c) rest p h a d =
      rw
        (
          is_comparison c.operator rest,
          parse_constraint-print c rest p,
          parse_constraints-print f [] rest tt (omega arith) a,
        )
        refl
  parse_element-print f (Element.compound_and (c ∷ d' ∷ cs)) rest p h a d =
      rw
        (
          is_comparison c.operator rest,
          parse_constraint-print c (print_constraints (d' ∷ cs) rest) p.0,
          parse_constraints-print f (d' ∷ cs) rest p.1 (omega arith) a,
        )
        refl
  parse_element-print f (Element.compound_and (c ∷ [])) rest p h a d = absurd p
  parse_element-print f (Element.compound_and []) rest p h a d = absurd p

  constraint_starts :
      (op : ComparisonOperator) (rest : List (Token F))
      → (check TokenType.rbrace (word (comparison_type op) ∷ rest) ≡ false)
        × (is_at_end (word (comparison_type op) ∷ rest) ≡ false)
  constraint_starts ComparisonOperator.eq rest = (refl, refl)
  constraint_starts ComparisonOperator.neq rest = (refl, refl)
  constraint_starts ComparisonOperator.gt rest = (refl, refl)
  constraint_starts ComparisonOperator.lt rest = (refl, refl)
  constraint_starts ComparisonOperator.gte rest = (refl, refl)
  constraint_starts ComparisonOperator.lte rest = (refl, refl)

  element_starts :
      (e : Element F) (rest : List (Token F))
      → IsPrintedElement e
      → (check TokenType.rbrace (print_element e rest) ≡ false)
        × (is_at_end (print_element e rest) ≡ false)
  element_starts (Element.literal l) rest p = let s = literal_starts l rest in (s.1, s.2)
  element_starts (Element.range r) rest p =
      let s =
        literal_starts r.start (word TokenType.dotdot ∷ token (literal_kind r.finish) ∷ rest) in
      (s.1, s.2)
  element_starts (Element.comparison c) rest p =
      constraint_starts c.operator (token (literal_kind c.value) ∷ rest)
  element_starts (Element.compound_and (c ∷ cs)) rest p =
      constraint_starts c.operator (token (literal_kind c.value) ∷ print_constraints cs rest)
  element_starts (Element.compound_and []) rest p = absurd p

  elements_start :
      (e : Element F) (es : List (Element F)) (rest : List (Token F))
      → IsPrintedElement e
      → (check TokenType.rbrace (print_elements (e ∷ es) rest) ≡ false)
        × (is_at_end (print_elements (e ∷ es) rest) ≡ false)
  elements_start e [] rest p = element_starts e _ p
  elements_start e (d ∷ es) rest p = element_starts e _ p

  abbrev pub set_cost : List (Element F) → ℕ
  set_cost [] = 1
  set_cost (e ∷ es) = suc (element_cost e + set_cost es)

  parse_elements-print :
      (f : ℕ) (e : Element F) (es : List (Element F)) (rest : List (Token F))
      → All IsPrintedElement (e ∷ es)
      → set_cost (e ∷ es) ≤ f
      → parse_elements f (print_elements (e ∷ es) rest) ≡ ok (e ∷ es, word TokenType.rbrace ∷ rest)
  unfolding parse_elements lax_separator
  parse_elements-print zero e es rest p h = absurd (omega arith)
  parse_elements-print (suc f) e [] rest p h =
      let s = element_starts e (word TokenType.rbrace ∷ rest) p.0 in
      rw
        (
          s.0,
          s.1,
          parse_element-print f e (word TokenType.rbrace ∷ rest) p.0 (omega arith) refl refl,
        )
        refl
  parse_elements-print (suc f) e (d ∷ es) rest p h =
      let more = word TokenType.comma ∷ print_elements (d ∷ es) rest in
      let s = element_starts e more p.0 in
      rw
        (
          s.0,
          s.1,
          parse_element-print f e more p.0 (omega arith) refl refl,
          (elements_start d es rest p.1.0).0,
          parse_elements-print f d es rest p.1 (omega arith),
        )
        refl

  pub parse_value_set-print :
      (f : ℕ) (es : List (Element F)) (rest : List (Token F))
      → IsPrintedSet es
      → set_cost es ≤ f
      → parse_value_set f (print_elements es rest) ≡ ok (es, rest)
  unfolding parse_value_set reject consume
  parse_value_set-print f [] rest p h = absurd p
  parse_value_set-print f (e ∷ es) rest p h =
      rw ((elements_start e es rest p.0).0, parse_elements-print f e es rest p h) refl

  constraints_length :
      (cs : List (Constraint F)) (rest : List (Token F))
      → length cs + length rest ≤ length (print_constraints cs rest)
  constraints_length [] rest = omega arith
  constraints_length (c ∷ cs) rest = omega (arith, constraints_length cs rest)

  element_length :
      (e : Element F) (rest : List (Token F))
      → IsPrintedElement e
      → element_cost e + length rest ≤ length (print_element e rest)
  element_length (Element.literal l) rest p = omega arith
  element_length (Element.range r) rest p = omega arith
  element_length (Element.comparison c) rest p = omega arith
  element_length (Element.compound_and (c ∷ cs)) rest p = omega (arith, constraints_length cs rest)
  element_length (Element.compound_and []) rest p = absurd p

  pub set_length :
      (es : List (Element F)) (rest : List (Token F))
      → All IsPrintedElement es
      → set_cost es + length rest ≤ suc (length (print_elements es rest))
  set_length [] rest p = omega arith
  set_length (e ∷ []) rest p = omega (arith, element_length e (word TokenType.rbrace ∷ rest) p.0)
  set_length (e ∷ d ∷ es) rest p = omega (
    arith,
    element_length e (word TokenType.comma ∷ print_elements (d ∷ es) rest) p.0,
    set_length (d ∷ es) rest p.1,
  )
