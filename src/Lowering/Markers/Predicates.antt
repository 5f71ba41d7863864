-- ===== src/Lowering/Markers/Predicates.antt =====
-- The markers of the predicates of the three lowerers.
use altr_stream.Base.{Text, Bool, true, false, List, [], ◌∷◌, All, if◌then◌else◌}
use altr_stream.Ast.{StringOperator, Element, Operand}
use altr_stream.Lowering.Sql.{Param, Lower, Host, Sql}
use altr_stream.Lowering.Dialect.{Dialect, has_null, non_null}
use altr_stream.Lowering.Strings.{
  has_element, not_has_element, has_any, has_none, with_null_test, string_predicate,
}
use altr_stream.Lowering.Markers.{Marks, Marks-if, All-Marks-map}
use altr_stream.Lowering.Markers.Parts.{
  part_rules, Marks-combined, Marks-is_null_test, Marks-is_not_null_test,
}

module _ {P : Type 0} where
  -- A test in front of the others, or not.
  pub All-Marks-if :
      (b : Bool) (m : Lower P Sql) (ms : List (Lower P Sql))
      → Marks m
      → All Marks ms
      → All Marks (if b then m ∷ ms else ms)
  All-Marks-if true m ms h hs = (h, hs)
  All-Marks-if false m ms h hs = hs

module _ {D F : Type 0} (host : Host D F) (d : Dialect D F) where
  Marks-has_element : (col : Text) (e : Element F) → Marks (has_element host d col e)
  unfolding has_element
  Marks-has_element col (Element.range r) = search part_rules
  Marks-has_element col _ = search part_rules

  Marks-not_has_element : (col : Text) (e : Element F) → Marks (not_has_element host d col e)
  unfolding not_has_element
  Marks-not_has_element col (Element.range r) = search part_rules depth 12
  Marks-not_has_element col _ = search part_rules

  Marks-has_any : (col : Text) (es : List (Element F)) → Marks (has_any host d col es)
  unfolding has_any
  Marks-has_any col es = Marks-combined d _ _ (
      All-Marks-if (has_null es) _ _ (Marks-is_null_test d col)
        (All-Marks-map _ (non_null es) (Marks-has_element col)))

  Marks-with_null_test :
      (test : Lower (Param D F) Sql) (ms : List (Lower (Param D F) Sql)) (word : Text)
      → Marks test
      → All Marks ms
      → Marks (with_null_test host d test ms word)
  unfolding with_null_test
  Marks-with_null_test test [] word h hs = h
  Marks-with_null_test test (m ∷ []) word h hs = search part_rules depth 12
  Marks-with_null_test test (m ∷ l ∷ ms) word h hs = search part_rules depth 12

  Marks-has_none : (col : Text) (es : List (Element F)) → Marks (has_none host d col es)
  unfolding has_none
  Marks-has_none col es =
      let parts =
        All-Marks-map (not_has_element host d col) (non_null es) (Marks-not_has_element col) in
      Marks-if (has_null es) _ _ (Marks-with_null_test _ _ _ (Marks-is_not_null_test d col) parts)
        (Marks-with_null_test _ _ _ (Marks-is_null_test d col) parts)

  pub Marks-string_predicate :
      (col : Text) (op : StringOperator) (o : Operand F) → Marks (string_predicate host d col op o)
  unfolding string_predicate
  Marks-string_predicate col StringOperator.has (Operand.value_set es) = Marks-has_any col es
  Marks-string_predicate col StringOperator.not_has (Operand.value_set es) = Marks-has_none col es
  Marks-string_predicate col StringOperator.starts _ = search part_rules
  Marks-string_predicate col StringOperator.ends _ = search part_rules
  Marks-string_predicate col StringOperator.has _ = search part_rules
  Marks-string_predicate col StringOperator.not_has _ = search part_rules depth 8
