-- ===== src/Lowering/Markers/Comparisons.antt =====
-- The markers of the comparisons of the three lowerers.
use altr_stream.Base.{Text, codes, Bool, List, [], ◌∷◌, map, All, All-append}
use altr_stream.Ast.{ComparisonOperator, Literal, Constraint, Element, Operand}
use altr_stream.Lowering.Sql.{Param, Lower, Host, Sql, add_param}
use altr_stream.Lowering.Dialect.{Dialect, has_null, non_null, is_not_null_test, invert_operator}
use altr_stream.Lowering.InLists
use altr_stream.Lowering.Markers.{Marks, Marks-if, Marks-add_param, All-Marks-map}
use altr_stream.Lowering.Markers.Parts.{
  part_rules, Marks-with_day, Marks-grouped, Marks-is_null_test, Marks-is_not_null_test,
  Marks-in_list, Marks-compare, Marks-or_is_null,
}
use altr_stream.Lowering.Markers.Predicates.{All-Marks-if}

module _ {D F : Type 0} (host : Host D F) (d : Dialect D F)
    (compound_elem : Text → List (Constraint F) → Lower (Param D F) Sql)
    (Marks-compound_elem : (col : Text) (cs : List (Constraint F))
      → Marks (compound_elem col cs)) where
  Marks-scalars_part :
      (col word : Text) (ls : List (Literal F))
      → All Marks (InLists.scalars_part host d compound_elem col word ls)
  unfolding InLists.scalars_part
  Marks-scalars_part col word [] = tt
  Marks-scalars_part col word (l ∷ ls) =
      let parts =
        All-Marks-map (λ x. add_param (d.convert x)) (l ∷ ls)
          (λ x. Marks-add_param (d.convert x)) in
      (Marks-in_list d col word (map (λ x. add_param (d.convert x)) (l ∷ ls)) parts, tt)

  Marks-other_equal :
      (col : Text) (e : Element F) → Marks (InLists.other_equal host d compound_elem col e)
  unfolding InLists.other_equal
  Marks-other_equal col (Element.compound_and cs) = Marks-compound_elem col cs
  Marks-other_equal col _ = search part_rules

  Marks-other_unequal :
      (col : Text) (e : Element F) → Marks (InLists.other_unequal host d compound_elem col e)
  unfolding InLists.other_unequal
  Marks-other_unequal col (Element.range r) = search part_rules depth 8
  Marks-other_unequal col (Element.comparison c) = search part_rules
  Marks-other_unequal col (Element.compound_and cs) =
      Marks-grouped d _ _
        (All-Marks-map _ cs λ c. Marks-compare d col (invert_operator c.operator) c.value)
  Marks-other_unequal col (Element.literal l) =
      Marks-with_day host d l _ λ m1 m2 h1 h2. search part_rules depth 12

  Marks-one_or_grouped :
      (sep : Text) (ms : List (Lower (Param D F) Sql))
      → All Marks ms
      → Marks (InLists.one_or_grouped host d compound_elem sep ms)
  unfolding InLists.one_or_grouped
  Marks-one_or_grouped sep [] h = Marks-grouped d sep [] h
  Marks-one_or_grouped sep (m ∷ []) h = h.0
  Marks-one_or_grouped sep (m ∷ l ∷ ms) h = Marks-grouped d sep (m ∷ l ∷ ms) h

  Marks-parts_equal :
      (col : Text) (t : Bool) (es : List (Element F))
      → All Marks (InLists.parts_equal host d compound_elem col t es)
  unfolding InLists.parts_equal
  Marks-parts_equal col t es =
      let scalars = InLists.simple_scalars t (non_null es) in
      let others = InLists.other_elems t (non_null es) in
      All-append Marks (InLists.scalars_part host d compound_elem col (codes " IN ") scalars)
        (map (InLists.other_equal host d compound_elem col) others)
        (Marks-scalars_part col (codes " IN ") scalars)
        (All-Marks-map (InLists.other_equal host d compound_elem col) others
          (Marks-other_equal col))

  Marks-parts_unequal :
      (col : Text) (t : Bool) (es : List (Element F))
      → All Marks (InLists.parts_unequal host d compound_elem col t es)
  unfolding InLists.parts_unequal
  Marks-parts_unequal col t es =
      let scalars = InLists.simple_scalars t (non_null es) in
      let others = InLists.other_elems t (non_null es) in
      All-append Marks (InLists.scalars_part host d compound_elem col (codes " NOT IN ") scalars)
        (map (InLists.other_unequal host d compound_elem col) others)
        (Marks-scalars_part col (codes " NOT IN ") scalars)
        (All-Marks-map (InLists.other_unequal host d compound_elem col) others
          (Marks-other_unequal col))

  Marks-set_equal :
      (col : Text) (t : Bool) (es : List (Element F))
      → Marks (InLists.set_equal host d compound_elem col t es)
  unfolding InLists.set_equal
  Marks-set_equal col t es =
      Marks-one_or_grouped _ _
        (All-Marks-if (has_null es) _ _ (Marks-is_null_test d col) (Marks-parts_equal col t es))

  Marks-set_unequal :
      (col : Text) (t : Bool) (es : List (Element F))
      → Marks (InLists.set_unequal host d compound_elem col t es)
  unfolding InLists.set_unequal
  Marks-set_unequal col t es =
      let parts = Marks-parts_unequal col t es in
      let joined_parts = Marks-one_or_grouped (codes " AND ") _ parts in
      Marks-if (has_null es) _ _
        (Marks-one_or_grouped _
          (is_not_null_test d col ∷ InLists.parts_unequal host d compound_elem col t es)
          (Marks-is_not_null_test d col, parts))
        (Marks-or_is_null d col _ joined_parts)

  Marks-scalar_comparison :
      (col : Text) (t : Bool) (op : ComparisonOperator) (l : Literal F)
      → Marks (InLists.scalar_comparison host d compound_elem col t op l)
  unfolding InLists.scalar_comparison
  Marks-scalar_comparison col t ComparisonOperator.eq l = search part_rules
  Marks-scalar_comparison col t ComparisonOperator.neq l = search part_rules
  Marks-scalar_comparison col t _ l = search part_rules

  pub Marks-in_lists :
      (col : Text) (t : Bool) (op : ComparisonOperator) (o : Operand F)
      → Marks (InLists.comparison_predicate host d compound_elem col t op o)
  unfolding InLists.comparison_predicate
  Marks-in_lists col t op (Operand.literal Literal.null) = search part_rules
  Marks-in_lists col t op (Operand.range r) = search part_rules
  Marks-in_lists col t ComparisonOperator.eq (Operand.value_set es) = Marks-set_equal col t es
  Marks-in_lists col t ComparisonOperator.neq (Operand.value_set es) = Marks-set_unequal col t es
  Marks-in_lists col t _ (Operand.value_set es) = search part_rules depth 8
  Marks-in_lists col t op (Operand.literal l) = Marks-scalar_comparison col t op l
