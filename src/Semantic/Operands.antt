-- ===== src/Semantic/Operands.antt =====
-- What the validator accepts as an operand and as a WHERE tree.
use altr_stream.Base.{
  ◌≡◌, ◌↔◌, refl, false, List, [], ◌∷◌, Option, none, some, All, ◌≤◌, length, arith, Bool,
}
use altr_stream.Base.Result.{◌>>◌, Passes, Passes-raise_if, Passes-for_each}
use altr_stream.Base.Python.{Python}
use altr_stream.Ast.{
  Literal, Range, Element, Operator, Operand, Expression, field_expression, logical, negation,
}
use altr_stream.Semantic.Validator.{
  compare_floats, validate_range, validate_value_set_element, validate_value_set,
  require_string_element, validate_string_operand, validate_operand, validate_for_operator,
  validate_field_expression, validate_expression, validate_where,
}
use altr_stream.Semantic.WellFormed.{
  Ordered, GoodElement, GoodSet, IsString, GoodOperand, GoodExpression, GoodWhere,
}
use altr_stream.Semantic.Checks.{and_then, pass, reject, raise_empty}

module _ {F : Type 0} ⦃py : Python F⦄ where
  pub floats_iff :
      (x y : Option F)
      → Passes (compare_floats x y)
        ↔ ((a : F) × (b : F) × (x ≡ some a) × (y ≡ some b) × (py.float_gt a b ≡ false))
  unfolding compare_floats
  floats_iff (some x) (some y) = (
    λ h. (x, y, refl, refl, (Passes-raise_if _ _).0 h),
    λ h. (Passes-raise_if _ _).1 (cc (h.2, h.3, h.4)),
  )
  floats_iff none y = (λ h. cc, λ h. cc (h.2))
  floats_iff (some x) none = (λ h. cc, λ h. cc (h.3))

  pub bounds_iff :
      (s t : Literal F) (inclusive : Bool)
      → Passes (validate_range (record { start = s; finish = t; inclusive = inclusive }))
        ↔ Ordered s t
  unfolding validate_range
  bounds_iff (Literal.string s) (Literal.string t) i = Passes-raise_if _ _
  bounds_iff (Literal.float x) (Literal.float y) i = Passes-raise_if _ _
  bounds_iff (Literal.integer m) (Literal.integer n) i = floats_iff _ _
  bounds_iff (Literal.integer m) (Literal.float y) i =
      let e = floats_iff (py.float_of_int m) (some y) in
      (λ h. let (a, b, p, q, r) = e.0 h in (a, p, cc), λ h. e.1 (h.0, y, h.1, refl, h.2))
  bounds_iff (Literal.float x) (Literal.integer n) i =
      let e = floats_iff (some x) (py.float_of_int n) in
      (λ h. let (a, b, p, q, r) = e.0 h in (b, q, cc), λ h. e.1 (x, h.0, refl, h.1, h.2))
  bounds_iff (Literal.temporal k (some s)) (Literal.temporal l (some t)) i = Passes-raise_if _ _
  bounds_iff (Literal.temporal k (some s)) (Literal.temporal l none) i = pass tt
  bounds_iff (Literal.temporal k none) (Literal.temporal l t) i = pass tt
  bounds_iff s t i = (λ h. cc, λ h. absurd h)

  pub range_iff : (r : Range F) → Passes (validate_range r) ↔ Ordered r.start r.finish
  range_iff r = bounds_iff r.start r.finish r.inclusive

  pub element_iff : (e : Element F) → Passes (validate_value_set_element e) ↔ GoodElement e
  unfolding validate_value_set_element
  element_iff (Element.range r) = range_iff r
  element_iff (Element.compound_and cs) = (λ h. ground arith, λ h. ground arith)
  element_iff (Element.comparison c) = pass tt
  element_iff (Element.literal l) = pass tt

  pub value_set_iff : (es : List (Element F)) → Passes (validate_value_set es) ↔ GoodSet es
  unfolding validate_value_set
  value_set_iff es = and_then (raise_empty es _) (Passes-for_each _ GoodElement es element_iff)

  pub IsString-element_iff : (e : Element F) → Passes (require_string_element e) ↔ IsString e
  unfolding require_string_element
  IsString-element_iff (Element.literal (Literal.string s)) = pass tt
  IsString-element_iff e = reject _ (λ h. h)

  -- A set of strings meets the conditions on any set.
  IsString-GoodElement : (es : List (Element F)) → All IsString es → All GoodElement es
  IsString-GoodElement [] h = tt
  IsString-GoodElement (Element.literal l ∷ es) h = (tt, IsString-GoodElement es h.1)
  IsString-GoodElement (e ∷ es) h = absurd h.0

  pub IsString-set_iff :
      (es : List (Element F))
      → Passes (validate_string_operand (Operand.value_set es) >> validate_value_set es)
        ↔ ((1 ≤ length es) × All IsString es)
  unfolding validate_string_operand
  IsString-set_iff es =
      let e =
        and_then (and_then (value_set_iff es) (Passes-for_each _ IsString es IsString-element_iff))
          (value_set_iff es) in
      (
        λ h. let p = e.0 h in (p.1.0, p.0.1),
        λ h. let good : GoodSet es = (h.0, IsString-GoodElement es h.1) in e.1 ((good, h.1), good),
      )

  pub operand_iff :
      (op : Operator) (o : Operand F)
      → Passes (validate_for_operator op o >> validate_operand o) ↔ GoodOperand op o
  unfolding validate_for_operator validate_operand validate_string_operand
  operand_iff (Operator.string op) (Operand.literal (Literal.string s)) = pass tt
  operand_iff (Operator.string op) (Operand.value_set es) = IsString-set_iff es
  operand_iff (Operator.string op) o = reject _ (λ h. h)
  operand_iff (Operator.comparison op) (Operand.literal l) = pass tt
  operand_iff (Operator.comparison op) (Operand.value_set es) = value_set_iff es
  operand_iff (Operator.comparison op) (Operand.range r) = range_iff r

  pub expression_iff : (e : Expression F) → Passes (validate_expression e) ↔ GoodExpression e
  unfolding validate_expression validate_field_expression
  expression_iff (field_expression e) = operand_iff e.operator e.operand
  expression_iff (logical op l r) = and_then (expression_iff l) (expression_iff r)
  expression_iff (negation e) = expression_iff e

  pub where_iff : (w : Option (Expression F)) → Passes (validate_where w) ↔ GoodWhere w
  unfolding validate_where
  where_iff none = pass tt
  where_iff (some e) = expression_iff e
