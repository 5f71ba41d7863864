-- ===== src/Binding/Erase.antt =====
-- Binding only annotates: without the annotations the bound query is the query.
use altr_stream.Base.{◌≡◌, refl, ap, List, [], ◌∷◌, Option, none, some, map}
use altr_stream.Base.Result.{Result, ok, >>=-eq-ok, ok-injective}
use altr_stream.Schema.{EntitySchema}
use altr_stream.Ast.{
  FieldPath, FieldSelection, Expression, MutationAssignment, CreateRecord, SortClause,
  RankingClause, field_expression, logical, negation,
}
use altr_stream.BoundAst.{
  BoundFieldPath, BoundFieldSelection, BoundMutationAssignment, BoundCreateRecord, BoundExpression,
  BoundSortClause, BoundRankingClause,
}
use altr_stream.Binding.TypeValidator.{
  validate_field_operator_and_operand, validate_assignment_value,
}
use altr_stream.Binding.Resolver.{BindError, resolve_field_path}
use altr_stream.Binding.Binder.{
  traverse, checked, annotate, bind_field, bind_selection, bind_sort, bind_ranking, bind_assignment,
  bind_record, bind_field_expression, bind_expression, bind_where,
}

abbrev pub erase_selection : BoundFieldSelection → FieldSelection
erase_selection s = record { path = s.field.path; alias = s.alias }

abbrev pub erase_sort : BoundSortClause → SortClause
erase_sort s = record { field = s.field.path; direction = s.direction }

abbrev pub erase_ranking : Option BoundRankingClause → Option RankingClause
erase_ranking none = none
erase_ranking (some r) =
    some (record { direction = r.direction; count = r.count; field = r.field.path })

module _ {F : Type 0} where
  abbrev pub erase_assignment : BoundMutationAssignment F → MutationAssignment F
  erase_assignment a = record { field = a.field.path; value = a.value }

  abbrev pub erase_record : BoundCreateRecord F → CreateRecord F
  erase_record r = record { assignments = map erase_assignment r.assignments }

  abbrev pub erase_expression : BoundExpression F → Expression F
  erase_expression (BoundExpression.field_expression e) =
      field_expression (record { field = e.field.path; operator = e.operator; operand = e.operand })
  erase_expression (BoundExpression.logical op l r) =
      logical op (erase_expression l) (erase_expression r)
  erase_expression (BoundExpression.negation e) = negation (erase_expression e)

  abbrev pub erase_where : Option (BoundExpression F) → Option (Expression F)
  erase_where none = none
  erase_where (some e) = some (erase_expression e)

-- What `f` keeps of each item, the whole traversal keeps.
pub traverse-map :
    {A B : Type 0} (f : A → Result BindError B) (g : B → A)
    → ((x : A) (y : B) → f x ≡ ok y → g y ≡ x)
    → (xs : List A) {ys : List B} → traverse f xs ≡ ok ys
    → map g ys ≡ xs
unfolding traverse
traverse-map f g keep [] h = rw (← ok-injective h) refl
traverse-map f g keep (x ∷ xs) h =
    let (y, p, q) = >>=-eq-ok (f x) _ h in
    let (zs, r, s) = >>=-eq-ok (traverse f xs) _ q in
    rw (← ok-injective s) (cc (keep x y p, traverse-map f g keep xs r))

module _ (entity : EntitySchema) where
  pub path-bind_field :
      (path : FieldPath) (b : BoundFieldPath) → bind_field entity path ≡ ok b → b.path ≡ path
  unfolding bind_field annotate
  path-bind_field path b h =
      let (f, p, q) = >>=-eq-ok (resolve_field_path path entity) _ h in rw (← ok-injective q) refl

  pub selection_kept :
      (s : FieldSelection) (b : BoundFieldSelection)
      → bind_selection entity s ≡ ok b
      → erase_selection b ≡ s
  unfolding bind_selection
  selection_kept s b h =
      let (f, p, q) = >>=-eq-ok (bind_field entity s.path) _ h in
      rw (← ok-injective q) (λ i. record { path = path-bind_field s.path f p i; alias = s.alias })

  pub sort_kept :
      (s : SortClause) (b : BoundSortClause) → bind_sort entity s ≡ ok b → erase_sort b ≡ s
  unfolding bind_sort
  sort_kept s b h =
      let (f, p, q) = >>=-eq-ok (bind_field entity s.field) _ h in
      rw (← ok-injective q)
        (λ i. record { field = path-bind_field s.field f p i; direction = s.direction })

  pub ranking_kept :
      (r : Option RankingClause) (b : Option BoundRankingClause)
      → bind_ranking entity r ≡ ok b
      → erase_ranking b ≡ r
  unfolding bind_ranking
  ranking_kept none b h = rw (← ok-injective h) refl
  ranking_kept (some r) b h =
      let (f, p, q) = >>=-eq-ok (bind_field entity r.field) _ h in
      rw (← ok-injective q) (λ i. some (record {
        direction = r.direction;
        count = r.count;
        field = path-bind_field r.field f p i;
      }))

module _ {F : Type 0} (entity : EntitySchema) where
  pub assignment_kept :
      (a : MutationAssignment F) (b : BoundMutationAssignment F)
      → bind_assignment entity a ≡ ok b
      → erase_assignment b ≡ a
  unfolding bind_assignment
  assignment_kept a b h =
      let (f, p, q) = >>=-eq-ok (bind_field entity a.field) _ h in
      let (u, r, s) = >>=-eq-ok (checked (validate_assignment_value f a.value)) _ q in
      rw (← ok-injective s)
        (λ i. record { field = path-bind_field entity a.field f p i; value = a.value })

  pub record_kept :
      (r : CreateRecord F) (b : BoundCreateRecord F)
      → bind_record entity r ≡ ok b
      → erase_record b ≡ r
  unfolding bind_record
  record_kept r b h =
      let (as', p, q) = >>=-eq-ok (traverse (bind_assignment entity) r.assignments) _ h in
      rw (← ok-injective q) (λ i. record {
        assignments = traverse-map _ erase_assignment assignment_kept r.assignments p i;
      })

  expression_kept :
      (e : Expression F) (b : BoundExpression F)
      → bind_expression entity e ≡ ok b
      → erase_expression b ≡ e
  unfolding bind_expression bind_field_expression
  expression_kept (field_expression e) b h =
      let (c, p, q) = >>=-eq-ok (bind_field_expression entity e) _ h in
      let (f, r, s) = >>=-eq-ok (bind_field entity e.field) _ p in
      let (u, t, v) =
        >>=-eq-ok (checked (validate_field_operator_and_operand f e.operator e.operand)) _ s in
      rw (← ok-injective q, ← ok-injective v)
        (λ i. field_expression (record {
          field = path-bind_field entity e.field f r i;
          operator = e.operator;
          operand = e.operand;
        }))
  expression_kept (negation e) b h =
      let (c, p, q) = >>=-eq-ok (bind_expression entity e) _ h in
      rw (← ok-injective q) (ap negation (expression_kept e c p))
  expression_kept (logical op l r) b h =
      let (c, p, q) = >>=-eq-ok (bind_expression entity l) _ h in
      let (d, t, u) = >>=-eq-ok (bind_expression entity r) _ q in
      rw (← ok-injective u) (cc (expression_kept l c p, expression_kept r d t))

  pub where_kept :
      (w : Option (Expression F)) (b : Option (BoundExpression F))
      → bind_where entity w ≡ ok b
      → erase_where b ≡ w
  unfolding bind_where
  where_kept none b h = rw (← ok-injective h) refl
  where_kept (some e) b h =
      let (c, p, q) = >>=-eq-ok (bind_expression entity e) _ h in
      rw (← ok-injective q) (ap some (expression_kept e c p))
