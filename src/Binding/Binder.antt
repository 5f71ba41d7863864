-- ===== src/Binding/Binder.antt =====
-- src/altr_stream/query_engine/binding/binder.py
use altr_stream.Base.{Text, List, [], ◌∷◌, Option, none, some, if◌then◌else◌}
use altr_stream.Base.Result.{Result, ok, err, ◌>>=◌, ◌>>◌}
use altr_stream.Schema.{FieldSchema, EntitySchema, SourceSchema}
use altr_stream.Ast.{
  FieldPath, FieldSelection, FieldExpression, Expression, MutationAssignment, CreateRecord,
  SortClause, RankingClause, QueryOperation, AltrQueryIr, field_expression, logical, negation,
  create, update,
}
use altr_stream.BoundAst.{
  BoundFieldPath, BoundFieldSelection, BoundMutationAssignment, BoundCreateRecord, BoundEntity,
  BoundFieldExpression, BoundExpression, BoundSortClause, BoundRankingClause, BoundAltrQueryIr,
}
use altr_stream.Binding.TypeValidator.{
  Check, to_logical_category, validate_field_operator_and_operand, validate_assignment_value,
}
use altr_stream.Binding.Resolver.{BindError, incompatible, resolve_entity, resolve_field_path}

-- `[f(x) for x in xs]`, where the first exception ends the loop.
unfoldable pub traverse :
    {A B : Type 0} → (A → Result BindError B) → List A → Result BindError (List B)
traverse f [] = ok []
traverse f (x ∷ xs) = do y ← f x; ys ← traverse f xs; ok (y ∷ ys)

-- A check of the type validator, run while binding.
abbrev pub checked : Check → Result BindError (Unit {0})
checked (ok u) = ok u
checked (err e) = err (incompatible e)

unfoldable pub annotate : FieldPath → FieldSchema → BoundFieldPath
unfolding to_logical_category
annotate path f = record {
  path = path;
  data_type = f.data_type;
  logical_category = to_logical_category f.data_type;
  native_type = f.native_data_type;
  nullable = f.nullable;
  is_primary_key = f.is_primary_key;
}

module _ (entity : EntitySchema) where
  unfoldable pub bind_field : FieldPath → Result BindError BoundFieldPath
  unfolding annotate resolve_field_path
  bind_field path = do f ← resolve_field_path path entity; ok (annotate path f)

  unfoldable pub bind_selection : FieldSelection → Result BindError BoundFieldSelection
  unfolding bind_field
  bind_selection s = do field ← bind_field s.path; ok (record { field = field; alias = s.alias })

  unfoldable pub bind_sort : SortClause → Result BindError BoundSortClause
  unfolding bind_field
  bind_sort s = do
    field ← bind_field s.field
    ok (record { field = field; direction = s.direction })

  unfoldable pub bind_ranking : Option RankingClause → Result BindError (Option BoundRankingClause)
  unfolding bind_field
  bind_ranking none = ok none
  bind_ranking (some r) = do
    field ← bind_field r.field
    ok (some (record { direction = r.direction; count = r.count; field = field }))

module _ {F : Type 0} where
  unfoldable pub records_to_bind :
      List (CreateRecord F) → List (MutationAssignment F) → List (CreateRecord F)
  records_to_bind (r ∷ rs) assignments = r ∷ rs
  records_to_bind [] (a ∷ assignments) = record { assignments = a ∷ assignments } ∷ []
  records_to_bind [] [] = []

module _ {F : Type 0} (entity : EntitySchema) where
  unfoldable pub bind_assignment :
      MutationAssignment F → Result BindError (BoundMutationAssignment F)
  unfolding bind_field validate_assignment_value
  bind_assignment a = do
    field ← bind_field entity a.field
    checked (validate_assignment_value field a.value)
    ok (record { field = field; value = a.value })

  unfoldable pub bind_record : CreateRecord F → Result BindError (BoundCreateRecord F)
  unfolding bind_assignment traverse
  bind_record r = do
    assignments ← traverse bind_assignment r.assignments
    ok (record { assignments = assignments })

  unfoldable pub bind_records :
      AltrQueryIr F → QueryOperation → Result BindError (List (BoundCreateRecord F))
  unfolding bind_record records_to_bind traverse
  bind_records ir create = traverse bind_record (records_to_bind ir.records ir.assignments)
  bind_records ir _ = ok []

  unfoldable pub bind_assignments :
      AltrQueryIr F → QueryOperation → Result BindError (List (BoundMutationAssignment F))
  unfolding bind_assignment traverse
  bind_assignments ir update = traverse bind_assignment ir.assignments
  bind_assignments ir _ = ok []

  unfoldable pub bind_field_expression :
      FieldExpression F → Result BindError (BoundFieldExpression F)
  unfolding bind_field validate_field_operator_and_operand
  bind_field_expression e = do
    field ← bind_field entity e.field
    checked (validate_field_operator_and_operand field e.operator e.operand)
    ok (record { field = field; operator = e.operator; operand = e.operand })

  unfoldable pub bind_expression : Expression F → Result BindError (BoundExpression F)
  unfolding bind_field_expression
  bind_expression (field_expression e) = do
    b ← bind_field_expression e
    ok (BoundExpression.field_expression b)
  bind_expression (negation e) = do b ← bind_expression e; ok (BoundExpression.negation b)
  bind_expression (logical op l r) = do
    bl ← bind_expression l
    br ← bind_expression r
    ok (BoundExpression.logical op bl br)

  unfoldable pub bind_where : Option (Expression F) → Result BindError (Option (BoundExpression F))
  unfolding bind_expression
  bind_where none = ok none
  bind_where (some e) = do b ← bind_expression e; ok (some b)

unfoldable pub key_names : List FieldSchema → List Text
key_names [] = []
key_names (f ∷ fs) = if f.is_primary_key then f.name ∷ key_names fs else key_names fs

unfoldable pub entity_key : List Text → List FieldSchema → List Text
unfolding key_names
entity_key (k ∷ ks) fields = k ∷ ks
entity_key [] fields = key_names fields

unfoldable pub bind_entity : EntitySchema → BoundEntity
unfolding entity_key
bind_entity e = record {
  name = e.name;
  namespace = e.namespace;
  entity_type = e.entity_type;
  comment = e.comment;
  primary_key = entity_key e.primary_key e.fields;
}

unfoldable pub bind_altrql :
    {F : Type 0} → AltrQueryIr F → SourceSchema → Result BindError (BoundAltrQueryIr F)
unfolding resolve_entity bind_entity bind_selection bind_records bind_assignments bind_where
    bind_sort bind_ranking traverse
bind_altrql ir schema = do
  entity ← resolve_entity ir.entity schema
  projection ← traverse (bind_selection entity) ir.projection
  records ← bind_records entity ir ir.operation
  assignments ← bind_assignments entity ir ir.operation
  where_clause ← bind_where entity ir.where_clause
  sort ← traverse (bind_sort entity) ir.sort
  ranking ← bind_ranking entity ir.ranking
  ok (record {
    operation = ir.operation;
    entity = bind_entity entity;
    projection = projection;
    where_clause = where_clause;
    assignments = assignments;
    records = records;
    sort = sort;
    ranking = ranking;
    limit = ir.limit;
    offset = ir.offset;
    source_id = schema.source_id;
    source_name = schema.source_name;
  })
