-- ===== src/Lowering/Markers/PostgresSets.antt =====
-- The markers of the comparisons of the PostgreSQL lowerer.
use altr_stream.Base.{Text, codes, Bool, true, false, List, [], ◌∷◌, map, All, All-append}
use altr_stream.Ast.{ComparisonOperator, Literal, Range, Element, Operand}
use altr_stream.Lowering.Sql.{Host}
use altr_stream.Lowering.Dialect.{Dialect, has_null, non_null, in_list}
use altr_stream.Lowering.Postgres.{
  placeholder, simple_equal, simple_unequal, literal_equal, constraint_equal, element_equal,
  constraint_unequal, outside, element_unequal, elements_unequal, is_simple_set, set_equal,
  set_unequal, scalar_comparison, comparison_predicate,
}
use altr_stream.Lowering.Markers.{Marks, Marks-if, Marks-text, All-Marks-map}
use altr_stream.Lowering.Markers.Parts.{
  part_rules, Marks-combined, Marks-is_null_test, Marks-is_not_null_test, Marks-in_list,
  Marks-or_is_null, Marks-and_not_null, Marks-lower_literal, Marks-compound,
}

module _ {D F : Type 0} (host : Host D F) (d : Dialect D F) where
  Marks-placeholder : (e : Element F) → Marks (placeholder host d e)
  unfolding placeholder
  Marks-placeholder (Element.literal l) = Marks-lower_literal d l
  Marks-placeholder _ = Marks-text []

  Marks-placeholders :
      (col word : Text) (es : List (Element F))
      → Marks (in_list d col word (map (placeholder host d) es))
  Marks-placeholders col word es =
      Marks-in_list d col word _ (All-Marks-map (placeholder host d) es Marks-placeholder)

  Marks-simple_equal :
      (col : Text) (b : Bool) (es : List (Element F)) → Marks (simple_equal host d col b es)
  unfolding simple_equal
  Marks-simple_equal col true [] = Marks-is_null_test d col
  Marks-simple_equal col true (e ∷ []) = search (part_rules, Marks-placeholder) depth 12
  Marks-simple_equal col true (e ∷ f ∷ es) =
      Marks-or_is_null d col _ (Marks-placeholders col (codes " IN ") (e ∷ f ∷ es))
  Marks-simple_equal col false [] = Marks-text _
  Marks-simple_equal col false (e ∷ es) = Marks-placeholders col (codes " IN ") (e ∷ es)

  Marks-simple_unequal :
      (col : Text) (b : Bool) (es : List (Element F)) → Marks (simple_unequal host d col b es)
  unfolding simple_unequal
  Marks-simple_unequal col true [] = Marks-is_not_null_test d col
  Marks-simple_unequal col true (e ∷ []) = search (part_rules, Marks-placeholder) depth 12
  Marks-simple_unequal col true (e ∷ f ∷ es) =
      Marks-and_not_null d col _ (Marks-placeholders col (codes " NOT IN ") (e ∷ f ∷ es))
  Marks-simple_unequal col false [] = Marks-text _
  Marks-simple_unequal col false (e ∷ es) =
      Marks-or_is_null d col _ (Marks-placeholders col (codes " NOT IN ") (e ∷ es))

  Marks-literal_equal :
      (col : Text) (t : Bool) (l : Literal F) → Marks (literal_equal host d col t l)
  unfolding literal_equal
  Marks-literal_equal col t l = search part_rules

  Marks-constraint_equal :
      (col : Text) (t : Bool) (op : ComparisonOperator) (l : Literal F)
      → Marks (constraint_equal host d col t op l)
  unfolding constraint_equal
  Marks-constraint_equal col t op Literal.null = search part_rules
  Marks-constraint_equal col t ComparisonOperator.eq l = Marks-literal_equal col t l
  Marks-constraint_equal col t op l = search part_rules

  Marks-element_equal :
      (col : Text) (t : Bool) (e : Element F) → Marks (element_equal host d col t e)
  unfolding element_equal
  Marks-element_equal col t (Element.literal Literal.null) = Marks-is_null_test d col
  Marks-element_equal col t (Element.literal l) = Marks-literal_equal col t l
  Marks-element_equal col t (Element.range r) = search part_rules
  Marks-element_equal col t (Element.comparison c) = Marks-constraint_equal col t c.operator c.value
  Marks-element_equal col t (Element.compound_and cs) = Marks-compound d col cs

  Marks-outside : (col : Text) (r : Range F) → Marks (outside host d col r)
  unfolding outside
  Marks-outside col r = search part_rules depth 12

  Marks-constraint_unequal :
      (col : Text) (op : ComparisonOperator) (l : Literal F)
      → All Marks (constraint_unequal host d col op l)
  unfolding constraint_unequal
  Marks-constraint_unequal col ComparisonOperator.eq Literal.null =
      (Marks-is_not_null_test d col, tt)
  Marks-constraint_unequal col ComparisonOperator.neq Literal.null = (Marks-is_null_test d col, tt)
  Marks-constraint_unequal col op Literal.null = tt
  Marks-constraint_unequal col op l = (search part_rules, tt)

  Marks-element_unequal : (col : Text) (e : Element F) → All Marks (element_unequal host d col e)
  unfolding element_unequal
  Marks-element_unequal col (Element.literal Literal.null) = (Marks-is_not_null_test d col, tt)
  Marks-element_unequal col (Element.literal l) = (search part_rules, tt)
  Marks-element_unequal col (Element.range r) = (Marks-outside col r, tt)
  Marks-element_unequal col (Element.comparison c) = Marks-constraint_unequal col c.operator c.value
  Marks-element_unequal col (Element.compound_and cs) = tt

  Marks-elements_unequal :
      (col : Text) (es : List (Element F)) → All Marks (elements_unequal host d col es)
  unfolding elements_unequal
  Marks-elements_unequal col [] = tt
  Marks-elements_unequal col (e ∷ es) =
      All-append Marks (element_unequal host d col e) (elements_unequal host d col es)
        (Marks-element_unequal col e) (Marks-elements_unequal col es)

  Marks-set_equal :
      (col : Text) (t : Bool) (es : List (Element F)) → Marks (set_equal host d col t es)
  unfolding set_equal
  Marks-set_equal col t es =
      Marks-if (is_simple_set t (non_null es)) _ _
        (Marks-simple_equal col (has_null es) (non_null es))
        (Marks-combined d _ (map (element_equal host d col t) es)
          (All-Marks-map _ es (Marks-element_equal col t)))

  Marks-set_unequal :
      (col : Text) (t : Bool) (es : List (Element F)) → Marks (set_unequal host d col t es)
  unfolding set_unequal
  Marks-set_unequal col t es =
      Marks-if (is_simple_set t (non_null es)) _ _
        (Marks-simple_unequal col (has_null es) (non_null es))
        (Marks-combined d _ (elements_unequal host d col es) (Marks-elements_unequal col es))

  Marks-scalar_comparison :
      (col : Text) (t : Bool) (op : ComparisonOperator) (l : Literal F)
      → Marks (scalar_comparison host d col t op l)
  unfolding scalar_comparison
  Marks-scalar_comparison col t ComparisonOperator.eq l = Marks-literal_equal col t l
  Marks-scalar_comparison col t ComparisonOperator.neq (Literal.temporal k v) = search part_rules
  Marks-scalar_comparison col t ComparisonOperator.neq l = search part_rules
  Marks-scalar_comparison col t op l = search part_rules

  pub Marks-postgres :
      (col : Text) (t : Bool) (op : ComparisonOperator) (o : Operand F)
      → Marks (comparison_predicate host d col t op o)
  unfolding comparison_predicate
  Marks-postgres col t op (Operand.literal Literal.null) = search part_rules
  Marks-postgres col t op (Operand.range r) = search part_rules
  Marks-postgres col t ComparisonOperator.eq (Operand.value_set es) = Marks-set_equal col t es
  Marks-postgres col t ComparisonOperator.neq (Operand.value_set es) = Marks-set_unequal col t es
  Marks-postgres col t _ (Operand.value_set es) = search part_rules depth 8
  Marks-postgres col t op (Operand.literal l) = Marks-scalar_comparison col t op l
