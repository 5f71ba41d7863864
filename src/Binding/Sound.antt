-- ===== src/Binding/Sound.antt =====
-- The binder is sound for types: what a bound query compares or assigns fits its field.
use altr_stream.Base.{
  ◌≡◌, ◌⊎◌, inl, inr, refl, true, false, List, [], ◌∷◌, Option, none, some, All, not, arith,
  Bool-cases, if◌then◌else◌,
}
use altr_stream.Base.Result.{
  Result, ok, err, ◌>>◌, raise_if, Passes, Passes->>, Passes-raise_if, >>=-eq-ok, ok-injective,
}
use altr_stream.Schema.{EntitySchema, SourceSchema}
use altr_stream.Ast.{
  Literal, Operator, Operand, Expression, MutationAssignment, CreateRecord, QueryOperation, create,
  update, AltrQueryIr, field_expression, logical, negation,
}
use altr_stream.BoundAst.{
  LogicalTypeCategory, BoundFieldPath, BoundMutationAssignment, BoundCreateRecord, BoundExpression,
  BoundAltrQueryIr, numeric, string, boolean, temporal, unknown,
}
use altr_stream.Binding.TypeValidator.{
  Check, same_category, is_nested, validate_for_operator, validate_field_operator_and_operand,
  matches_category, validate_assignment_value, unsupported_type,
}
use altr_stream.Binding.Binder.{
  checked, bind_field, bind_assignment, bind_field_expression, bind_expression, bind_where,
  bind_altrql, traverse, records_to_bind, bind_record, bind_records, bind_assignments,
}
use altr_stream.Binding.Resolver.{BindError}
use altr_stream.Binding.Kept.{bind_altrql-Bound}
use altr_stream.Binding.Typed.{
  Fits, literals, operand-Fits, unknown_ne, numeric-Fits, string-Fits, boolean-Fits, temporal-Fits,
}

checked-Passes : (c : Check) {u : Unit {0}} → checked c ≡ ok u → Passes c
checked-Passes (ok tt) h = refl
checked-Passes (err e) h = cc

-- What `f` makes of each item, the whole traversal makes.
traverse-All :
    {A B : Type 0} (f : A → Result BindError B) (P : B → Type 0)
    → ((x : A) (y : B) → f x ≡ ok y → P y)
    → (xs : List A) {ys : List B} → traverse f xs ≡ ok ys
    → All P ys
unfolding traverse
traverse-All f P make [] h = rw (← ok-injective h) tt
traverse-All f P make (x ∷ xs) h =
    let (y, p, q) = >>=-eq-ok (f x) _ h in
    let (zs, r, s) = >>=-eq-ok (traverse f xs) _ q in
    rw (← ok-injective s) (make x y p, traverse-All f P make xs r)

module _ {F : Type 0} where
  -- A comparison with a column's own value has literals of the column's category, or NULL. One
  -- with a path inside a JSON column is not checked.
  abbrev pub TypedField : BoundFieldPath → Operand F → Type 0
  TypedField field o =
      (is_nested field.path ≡ true) ⊎ All (Fits field.logical_category) (literals o)

  abbrev pub TypedExpression : BoundExpression F → Type 0
  TypedExpression (BoundExpression.field_expression e) = TypedField e.field e.operand
  TypedExpression (BoundExpression.logical _ l r) = TypedExpression l × TypedExpression r
  TypedExpression (BoundExpression.negation e) = TypedExpression e

  abbrev pub TypedWhere : Option (BoundExpression F) → Type 0
  TypedWhere none = Unit
  TypedWhere (some e) = TypedExpression e

  -- NULL is assigned only where the column allows it, and any other value fits.
  abbrev pub Assignable : BoundFieldPath → Literal F → Type 0
  Assignable field Literal.null = field.nullable ≡ true
  Assignable field l = Fits field.logical_category l

  abbrev pub TypedAssignment : BoundMutationAssignment F → Type 0
  TypedAssignment a = Assignable a.field a.value

  own_column :
      (field : BoundFieldPath) (op : Operator) (o : Operand F)
      → Passes (
          if is_nested field.path
          then ok tt
          else raise_if (same_category field.logical_category unknown) unsupported_type
            >> validate_for_operator field.logical_category op o)
      → TypedField field o
  own_column field op o h = elim (Bool-cases (is_nested field.path)) [
    | inl nested ↦ inl nested
    | inr own ↦
        let k = (Passes->> (raise_if _ _) _).0 (rw own at h) in
        inr (operand-Fits _ op o (unknown_ne _ ((Passes-raise_if _ _).0 k.0)) k.1)
  ]

  operand_typed :
      (field : BoundFieldPath) (op : Operator) (o : Operand F)
      → Passes (validate_field_operator_and_operand field op o)
      → TypedField field o
  unfolding validate_field_operator_and_operand
  operand_typed field op (Operand.literal Literal.null) h = inr (tt, tt)
  operand_typed field op o h = own_column field op o h

  category-Fits :
      (c : LogicalTypeCategory) (l : Literal F) → not (matches_category c l) ≡ false → Fits c l
  unfolding matches_category
  category-Fits numeric l h = numeric-Fits l (ground arith)
  category-Fits string l h = string-Fits l (ground arith)
  category-Fits boolean l h = boolean-Fits l (ground arith)
  category-Fits temporal l h = temporal-Fits l (ground arith)
  category-Fits unknown l h = cc

  value-Assignable :
      (field : BoundFieldPath) (v : Literal F)
      → Passes (validate_assignment_value field v)
      → Assignable field v
  unfolding validate_assignment_value
  value-Assignable field Literal.null h = ground arith
  value-Assignable field v h =
      category-Fits _ v ((Passes-raise_if _ _).0 ((Passes->> (raise_if _ _) _).0 h).1)

  module _ (entity : EntitySchema) where
    expression_typed :
        (e : Expression F) (b : BoundExpression F)
        → bind_expression entity e ≡ ok b
        → TypedExpression b
    unfolding bind_expression bind_field_expression
    expression_typed (field_expression e) b h =
        let (c, p, q) = >>=-eq-ok (bind_field_expression entity e) _ h in
        let (f, r, s) = >>=-eq-ok (bind_field entity e.field) _ p in
        let (u, t, v) =
          >>=-eq-ok (checked (validate_field_operator_and_operand f e.operator e.operand)) _ s in
        rw (← ok-injective q, ← ok-injective v)
          (operand_typed f e.operator e.operand (checked-Passes _ t))
    expression_typed (negation e) b h =
        let (c, p, q) = >>=-eq-ok (bind_expression entity e) _ h in
        rw (← ok-injective q) (expression_typed e c p)
    expression_typed (logical op l r) b h =
        let (c, p, q) = >>=-eq-ok (bind_expression entity l) _ h in
        let (d, t, u) = >>=-eq-ok (bind_expression entity r) _ q in
        rw (← ok-injective u) (expression_typed l c p, expression_typed r d t)

    where_typed :
        (w : Option (Expression F)) (b : Option (BoundExpression F))
        → bind_where entity w ≡ ok b
        → TypedWhere b
    unfolding bind_where
    where_typed none b h = rw (← ok-injective h) tt
    where_typed (some e) b h =
        let (c, p, q) = >>=-eq-ok (bind_expression entity e) _ h in
        rw (← ok-injective q) (expression_typed e c p)

    assignment_typed :
        (a : MutationAssignment F) (b : BoundMutationAssignment F)
        → bind_assignment entity a ≡ ok b
        → TypedAssignment b
    unfolding bind_assignment
    assignment_typed a b h =
        let (f, p, q) = >>=-eq-ok (bind_field entity a.field) _ h in
        let (u, r, s) = >>=-eq-ok (checked (validate_assignment_value f a.value)) _ q in
        rw (← ok-injective s) (value-Assignable f a.value (checked-Passes _ r))

    record_typed :
        (r : CreateRecord F) (b : BoundCreateRecord F)
        → bind_record entity r ≡ ok b
        → All TypedAssignment b.assignments
    unfolding bind_record
    record_typed r b h =
        let (as', p, q) = >>=-eq-ok (traverse (bind_assignment entity) r.assignments) _ h in
        rw (← ok-injective q) (traverse-All _ TypedAssignment assignment_typed r.assignments p)

    records_typed :
        (ir : AltrQueryIr F) (op : QueryOperation) (bs : List (BoundCreateRecord F))
        → bind_records entity ir op ≡ ok bs
        → All (λ r. All TypedAssignment r.assignments) bs
    unfolding bind_records
    records_typed ir create bs h =
        traverse-All _ _ record_typed (records_to_bind ir.records ir.assignments) h
    records_typed ir op bs h = rw (← ok-injective h) tt

    assignments_typed :
        (ir : AltrQueryIr F) (op : QueryOperation) (bs : List (BoundMutationAssignment F))
        → bind_assignments entity ir op ≡ ok bs
        → All TypedAssignment bs
    unfolding bind_assignments
    assignments_typed ir update bs h = traverse-All _ _ assignment_typed _ h
    assignments_typed ir op bs h = rw (← ok-injective h) tt

  -- In a query that is bound, each comparison with a column has literals of the column's category
  -- or NULL, and each assigned value has the category of its field, or is NULL where the field
  -- is nullable. Comparisons with nested paths are left out.
  pub bind_altrql_typed :
      (ir : AltrQueryIr F) (schema : SourceSchema) (b : BoundAltrQueryIr F)
      → bind_altrql ir schema ≡ ok b
      → TypedWhere b.where_clause
        × All TypedAssignment b.assignments
        × All (λ r. All TypedAssignment r.assignments) b.records
  bind_altrql_typed ir schema b h =
      let r = bind_altrql-Bound ir schema b h in
      (
        where_typed r.entity ir.where_clause b.where_clause r.where_clause,
        assignments_typed r.entity ir ir.operation b.assignments r.assignments,
        records_typed r.entity ir ir.operation b.records r.records,
      )
