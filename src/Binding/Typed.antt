-- ===== src/Binding/Typed.antt =====
-- The binder's type check is sound: the literals that a bound query compares or assigns are of the
-- category of their field.
use altr_stream.Base.{
  ◌≡◌, ◌≢◌, refl, Bool, true, false, List, [], ◌∷◌, ◌++◌, All, All-append, ◌&&◌, not, arith,
}
use altr_stream.Base.Result.{
  raise_if, for_each, Passes, Passes->>, Passes-raise_if, Passes-for_each, not-Passes->>-err,
}
use altr_stream.Ast.{Literal, Range, Constraint, Element, Operator, Operand}
use altr_stream.BoundAst.{LogicalTypeCategory, numeric, string, boolean, temporal, unknown}
use altr_stream.Binding.TypeValidator.{
  Check, same_category, is_numeric_literal, is_string_literal, is_boolean_literal,
  is_temporal_literal, check_literal, validate_range, check_constraint_value,
  validate_comparison_constraint, validate_element, validate_value_set, validate_string_operand,
  validate_comparison_operand, validate_for_operator,
}

module _ {F : Type 0} where
  -- NULL is of every category.
  abbrev pub Fits : LogicalTypeCategory → Literal F → Type 0
  Fits c (Literal.integer _) = c ≡ numeric
  Fits c (Literal.float _) = c ≡ numeric
  Fits c (Literal.string _) = c ≡ string
  Fits c (Literal.boolean _) = c ≡ boolean
  Fits c (Literal.temporal _ _) = c ≡ temporal
  Fits c Literal.null = Unit

  abbrev constraint_literals : List (Constraint F) → List (Literal F)
  constraint_literals [] = []
  constraint_literals (k ∷ ks) = k.value ∷ constraint_literals ks

  abbrev element_literals : Element F → List (Literal F)
  element_literals (Element.literal l) = l ∷ []
  element_literals (Element.range r) = r.start ∷ r.finish ∷ []
  element_literals (Element.comparison k) = k.value ∷ []
  element_literals (Element.compound_and ks) = constraint_literals ks

  abbrev set_literals : List (Element F) → List (Literal F)
  set_literals [] = []
  set_literals (e ∷ es) = element_literals e ++ set_literals es

  -- Every literal that stands in an operand.
  abbrev pub literals : Operand F → List (Literal F)
  literals (Operand.literal l) = l ∷ []
  literals (Operand.range r) = r.start ∷ r.finish ∷ []
  literals (Operand.value_set es) = set_literals es

pub same_category_sound : (c d : LogicalTypeCategory) → not (same_category c d) ≡ false → c ≡ d
unfolding same_category
same_category_sound c d h = ground arith

pub both : (a b : Bool) → not (a && b) ≡ false → (a ≡ true) × (b ≡ true)
both a b h = (ground arith, ground arith)

-- What passes a loop of checks passes each.
pub each :
    {A : Type 0} (f : A → Check) (xs : List A) → Passes (for_each f xs) → All (λ x. Passes (f x)) xs
each f xs h = (Passes-for_each f (λ x. Passes (f x)) xs (λ x. ((λ p. p), (λ p. p)))).0 h

pub unknown_ne : (c : LogicalTypeCategory) → same_category c unknown ≡ false → c ≢ unknown
unfolding same_category
unknown_ne c h e = ground arith

module _ {F : Type 0} where
  pub check_literal-Fits :
      (c : LogicalTypeCategory) (l : Literal F) → Passes (check_literal c l) → Fits c l
  unfolding check_literal
  check_literal-Fits c (Literal.integer n) h = same_category_sound c _ ((Passes-raise_if _ _).0 h)
  check_literal-Fits c (Literal.float x) h = same_category_sound c _ ((Passes-raise_if _ _).0 h)
  check_literal-Fits c (Literal.string s) h = same_category_sound c _ ((Passes-raise_if _ _).0 h)
  check_literal-Fits c (Literal.boolean b) h = same_category_sound c _ ((Passes-raise_if _ _).0 h)
  check_literal-Fits c (Literal.temporal k v) h =
      same_category_sound c _ ((Passes-raise_if _ _).0 h)
  check_literal-Fits c Literal.null h = tt

  pub numeric-Fits : (l : Literal F) → is_numeric_literal l ≡ true → Fits numeric l
  unfolding is_numeric_literal
  numeric-Fits (Literal.integer n) h = refl
  numeric-Fits (Literal.float n) h = refl
  numeric-Fits l h = cc

  pub string-Fits : (l : Literal F) → is_string_literal l ≡ true → Fits string l
  unfolding is_string_literal
  string-Fits (Literal.string n) h = refl
  string-Fits l h = cc

  pub boolean-Fits : (l : Literal F) → is_boolean_literal l ≡ true → Fits boolean l
  unfolding is_boolean_literal
  boolean-Fits (Literal.boolean n) h = refl
  boolean-Fits l h = cc

  pub temporal-Fits : (l : Literal F) → is_temporal_literal l ≡ true → Fits temporal l
  unfolding is_temporal_literal
  temporal-Fits (Literal.temporal k v) h = refl
  temporal-Fits l h = cc

  range-Fits :
      (c : LogicalTypeCategory) (r : Range F)
      → c ≢ unknown
      → Passes (validate_range c r)
      → Fits c r.start × Fits c r.finish
  unfolding validate_range
  range-Fits numeric r k h =
      let (p, q) = both _ _ ((Passes-raise_if _ _).0 h) in
      (numeric-Fits r.start p, numeric-Fits r.finish q)
  range-Fits string r k h =
      let (p, q) = both _ _ ((Passes-raise_if _ _).0 h) in
      (string-Fits r.start p, string-Fits r.finish q)
  range-Fits temporal r k h =
      let (p, q) = both _ _ ((Passes-raise_if _ _).0 h) in
      (temporal-Fits r.start p, temporal-Fits r.finish q)
  range-Fits boolean r k h = cc
  range-Fits unknown r k h = absurd (k refl)

  constraint-Fits :
      (c : LogicalTypeCategory) (k : Constraint F)
      → Passes (validate_comparison_constraint c k)
      → Fits c k.value
  unfolding validate_comparison_constraint
  constraint-Fits c k h = value k.value ((Passes->> (raise_if _ _) _).0 h).1
    where
      value : (l : Literal F) → Passes (check_constraint_value k.operator c l) → Fits c l
      value Literal.null e = tt
      value (Literal.integer n) e = check_literal-Fits c (Literal.integer n) e
      value l e = check_literal-Fits c l e

  constraints-Fits :
      (c : LogicalTypeCategory) (ks : List (Constraint F))
      → All (λ k. Passes (validate_comparison_constraint c k)) ks
      → All (Fits c) (constraint_literals ks)
  constraints-Fits c [] h = tt
  constraints-Fits c (k ∷ ks) h = (constraint-Fits c k h.0, constraints-Fits c ks h.1)

  element-Fits :
      (c : LogicalTypeCategory) (e : Element F)
      → c ≢ unknown
      → Passes (validate_element c e)
      → All (Fits c) (element_literals e)
  unfolding validate_element
  element-Fits c (Element.literal l) k h = (check_literal-Fits c l h, tt)
  element-Fits c (Element.range r) k h = let (p, q) = range-Fits c r k h in (p, (q, tt))
  element-Fits c (Element.comparison x) k h = (constraint-Fits c x h, tt)
  element-Fits c (Element.compound_and ks) k h =
      constraints-Fits c ks (each _ ks ((Passes->> (raise_if _ _) _).0 h).1)

  set-Fits :
      (c : LogicalTypeCategory) (es : List (Element F))
      → c ≢ unknown
      → All (λ e. Passes (validate_element c e)) es
      → All (Fits c) (set_literals es)
  set-Fits c [] k h = tt
  set-Fits c (e ∷ es) k h =
      All-append (Fits c) (element_literals e) (set_literals es) (element-Fits c e k h.0)
        (set-Fits c es k h.1)

  value_set-Fits :
      (c : LogicalTypeCategory) (es : List (Element F))
      → c ≢ unknown
      → Passes (validate_value_set c es)
      → All (Fits c) (set_literals es)
  unfolding validate_value_set
  value_set-Fits c es k h = set-Fits c es k (each _ es h)

  pub operand-Fits :
      (c : LogicalTypeCategory) (op : Operator) (o : Operand F)
      → c ≢ unknown
      → Passes (validate_for_operator c op o)
      → All (Fits c) (literals o)
  unfolding validate_for_operator validate_string_operand validate_comparison_operand
  operand-Fits c (Operator.string s) (Operand.value_set es) k h =
      value_set-Fits c es k ((Passes->> (raise_if _ _) _).0 h).1
  operand-Fits c (Operator.string s) (Operand.literal (Literal.string t)) k h =
      (same_category_sound c _ ((Passes-raise_if _ _).0 ((Passes->> (raise_if _ _) _).0 h).0), tt)
  operand-Fits c (Operator.string s) (Operand.literal Literal.null) k h = (tt, tt)
  operand-Fits c (Operator.string s) o k h = absurd (not-Passes->>-err (raise_if _ _) _ h)
  operand-Fits c (Operator.comparison s) (Operand.range r) k h =
      let (p, q) = range-Fits c r k ((Passes->> (raise_if _ _) _).0 h).1 in (p, (q, tt))
  operand-Fits c (Operator.comparison s) (Operand.value_set es) k h =
      value_set-Fits c es k ((Passes->> (raise_if _ _) _).0 h).1
  operand-Fits c (Operator.comparison s) (Operand.literal l) k h =
      (check_literal-Fits c l ((Passes->> (raise_if _ _) _).0 h).1, tt)
