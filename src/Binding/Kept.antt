-- ===== src/Binding/Kept.antt =====
-- The steps of a successful binding, and what the bound query keeps of the query.
use altr_stream.Base.{
  ◌≡◌, refl, sym, ap, ◌∙◌, List, [], ◌∷◌, map, Text, text_eq, text_eq_iff, Bool-cases, inl, inr,
}
use altr_stream.Base.Result.{ok, >>=-eq-ok, ok-injective}
use altr_stream.Schema.{EntitySchema, SourceSchema}
use altr_stream.Ast.{MutationAssignment, CreateRecord, QueryOperation, AltrQueryIr, create, update}
use altr_stream.BoundAst.{BoundMutationAssignment, BoundCreateRecord, BoundAltrQueryIr}
use altr_stream.Binding.Resolver.{find_entity, resolve_entity}
use altr_stream.Binding.Binder.{
  traverse, bind_selection, bind_sort, bind_ranking, records_to_bind, bind_records,
  bind_assignments, bind_where, bind_altrql, bind_entity,
}
use altr_stream.Binding.Erase.{
  erase_selection, erase_sort, erase_ranking, erase_assignment, erase_record, erase_where,
  traverse-map, selection_kept, sort_kept, ranking_kept, assignment_kept, record_kept, where_kept,
}

-- The steps of a run of `bind_altrql` that returns `b`.
pub record Bound {F : Type 0} (ir : AltrQueryIr F) (schema : SourceSchema) (b : BoundAltrQueryIr F)
    : Type 0 where
  pub entity : EntitySchema
  pub resolved : resolve_entity ir.entity schema ≡ ok entity
  pub entity_bound : bind_entity entity ≡ b.entity
  pub projection : traverse (bind_selection entity) ir.projection ≡ ok b.projection
  pub records : bind_records entity ir ir.operation ≡ ok b.records
  pub assignments : bind_assignments entity ir ir.operation ≡ ok b.assignments
  pub where_clause : bind_where entity ir.where_clause ≡ ok b.where_clause
  pub sort : traverse (bind_sort entity) ir.sort ≡ ok b.sort
  pub ranking : bind_ranking entity ir.ranking ≡ ok b.ranking
  pub operation : b.operation ≡ ir.operation
  pub limit : b.limit ≡ ir.limit
  pub offset : b.offset ≡ ir.offset
  pub source_id : b.source_id ≡ schema.source_id

pub bind_altrql-Bound :
    {F : Type 0} (ir : AltrQueryIr F) (schema : SourceSchema) (b : BoundAltrQueryIr F)
    → bind_altrql ir schema ≡ ok b
    → Bound ir schema b
unfolding bind_altrql
bind_altrql-Bound ir schema b h =
    let (entity, p₁, h₁) = >>=-eq-ok (resolve_entity ir.entity schema) _ h in
    let (projection, p₂, h₂) = >>=-eq-ok (traverse (bind_selection entity) ir.projection) _ h₁ in
    let (records, p₃, h₃) = >>=-eq-ok (bind_records entity ir ir.operation) _ h₂ in
    let (assignments, p₄, h₄) = >>=-eq-ok (bind_assignments entity ir ir.operation) _ h₃ in
    let (where_clause, p₅, h₅) = >>=-eq-ok (bind_where entity ir.where_clause) _ h₄ in
    let (sort, p₆, h₆) = >>=-eq-ok (traverse (bind_sort entity) ir.sort) _ h₅ in
    let (ranking, p₇, h₇) = >>=-eq-ok (bind_ranking entity ir.ranking) _ h₆ in
    rw (← ok-injective h₇) (record {
      entity = entity;
      resolved = p₁;
      entity_bound = refl;
      projection = p₂;
      records = p₃;
      assignments = p₄;
      where_clause = p₅;
      sort = p₆;
      ranking = p₇;
      operation = refl;
      limit = refl;
      offset = refl;
      source_id = refl;
    })

name-find_entity :
    (name : Text) (es : List EntitySchema) (e : EntitySchema)
    → find_entity name es ≡ ok e
    → e.name ≡ name
unfolding find_entity
name-find_entity name [] e h = cc
name-find_entity name (d ∷ es) e h = elim (Bool-cases (text_eq d.name name)) [
  | inl p ↦ rw (← ok-injective (rw p at h)) ((text_eq_iff d.name name).0 p)
  | inr p ↦ name-find_entity name es e (rw p at h)
]

module _ {F : Type 0} where
  -- The records and the assignments that a query of this kind carries.
  abbrev pub carried_records : QueryOperation → AltrQueryIr F → List (CreateRecord F)
  carried_records create ir = records_to_bind ir.records ir.assignments
  carried_records _ ir = []

  abbrev pub carried_assignments : QueryOperation → AltrQueryIr F → List (MutationAssignment F)
  carried_assignments update ir = ir.assignments
  carried_assignments _ ir = []

  records_kept :
      (entity : EntitySchema) (ir : AltrQueryIr F) (op : QueryOperation)
      (bs : List (BoundCreateRecord F))
      → bind_records entity ir op ≡ ok bs
      → map erase_record bs ≡ carried_records op ir
  unfolding bind_records
  records_kept entity ir create bs h = traverse-map _ erase_record (record_kept entity) _ h
  records_kept entity ir op bs h = rw (← ok-injective h) refl

  assignments_kept :
      (entity : EntitySchema) (ir : AltrQueryIr F) (op : QueryOperation)
      (bs : List (BoundMutationAssignment F))
      → bind_assignments entity ir op ≡ ok bs
      → map erase_assignment bs ≡ carried_assignments op ir
  unfolding bind_assignments
  assignments_kept entity ir update bs h =
      traverse-map _ erase_assignment (assignment_kept entity) _ h
  assignments_kept entity ir op bs h = rw (← ok-injective h) refl

  -- The bound query without its annotations.
  abbrev pub erase : BoundAltrQueryIr F → AltrQueryIr F
  erase b = record {
    operation = b.operation;
    entity = b.entity.name;
    projection = map erase_selection b.projection;
    where_clause = erase_where b.where_clause;
    assignments = map erase_assignment b.assignments;
    records = map erase_record b.records;
    sort = map erase_sort b.sort;
    ranking = erase_ranking b.ranking;
    limit = b.limit;
    offset = b.offset;
  }

  -- The bound entity bears the name that the query asks for.
  entity_kept :
      (ir : AltrQueryIr F) (schema : SourceSchema) (b : BoundAltrQueryIr F)
      → Bound ir schema b
      → b.entity.name ≡ ir.entity
  unfolding resolve_entity bind_entity
  entity_kept ir schema b r =
      sym (ap (λ e. e.name) r.entity_bound)
      ∙ name-find_entity ir.entity schema.entities r.entity r.resolved

  -- A query that is bound comes back whole when the annotations are erased: its entity, every field
  -- path, operator, operand, clause and count is the query's own. Of records and assignments it keeps
  -- those that its operation carries.
  pub erase-bind_altrql :
      (ir : AltrQueryIr F) (schema : SourceSchema) (b : BoundAltrQueryIr F)
      → bind_altrql ir schema ≡ ok b
      → erase b ≡ record ir {
        records = carried_records ir.operation ir;
        assignments = carried_assignments ir.operation ir;
      }
  erase-bind_altrql ir schema b h =
      let r = bind_altrql-Bound ir schema b h in
      λ i. record {
        operation = r.operation i;
        entity = entity_kept ir schema b r i;
        projection =
            traverse-map _ erase_selection (selection_kept r.entity) ir.projection r.projection i;
        where_clause = where_kept r.entity ir.where_clause b.where_clause r.where_clause i;
        assignments = assignments_kept r.entity ir ir.operation b.assignments r.assignments i;
        records = records_kept r.entity ir ir.operation b.records r.records i;
        sort = traverse-map _ erase_sort (sort_kept r.entity) ir.sort r.sort i;
        ranking = ranking_kept r.entity ir.ranking b.ranking r.ranking i;
        limit = r.limit i;
        offset = r.offset i;
      }
