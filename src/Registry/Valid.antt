-- ===== src/Registry/Valid.antt =====
-- Which mappings the validation accepts.
use altr_stream.Base.{
  Text, Bool, true, false, List, [], ◌∷◌, Option, none, some, All, ◌≡◌, ◌≢◌, ◌↔◌, refl,
  if◌then◌else◌,
}
use altr_stream.Base.Result.{Result, ok, err}
use altr_stream.Schema.{FieldSchema, EntitySchema, SourceSchema, are_datatypes_compatible}
use altr_stream.Mapping.{
  Casing, LogicalField, LogicalEntity, LogicalModel, FieldMapping, EntityMapping, SourceMapping,
  or_find,
}
use altr_stream.Registry.{Sources}
use altr_stream.Registry.Service.{logical_entity_of}
use altr_stream.Registry.Validation.{
  Problem, physical_entity, physical_field, logical_field_of, types_problem, field_problem,
  first_problem, fields_problem, found_problem, entity_problem, entities_problem, schema_problem,
  source_problem, schema_of, mapping_problem,
}

module _ (casing : Casing) where
  -- The field and the column are there, and the column can hold the field's values.
  pub record FieldValid (entity : LogicalEntity) (physical : EntitySchema) (fm : FieldMapping)
      : Type 0 where
    pub field : LogicalField
    pub column : FieldSchema
    pub has_field : logical_field_of casing entity fm ≡ some field
    pub has_column : physical_field casing physical fm.physical_field_name ≡ some column
    pub fits : are_datatypes_compatible field.data_type column.data_type ≡ true

  -- The entity and the table are there, and some field is mapped, all of them validly.
  pub record EntityValid (model : LogicalModel) (schema : SourceSchema) (em : EntityMapping)
      : Type 0 where
    pub entity : LogicalEntity
    pub table : EntitySchema
    pub has_entity : logical_entity_of casing model em ≡ some entity
    pub has_table : physical_entity casing schema em ≡ some table
    pub some_field : em.field_mappings ≢ []
    pub fields_valid : All (FieldValid entity table) em.field_mappings

  -- The source has a schema, and some entity is mapped, all of them validly.
  pub record MappingValid (sources : Sources) (model : LogicalModel) (mapping : SourceMapping)
      : Type 0 where
    pub name : Text
    pub schema : SourceSchema
    pub has_source : sources.name_of mapping.source_id ≡ some name
    pub has_schema :
        schema_of casing sources mapping.source_id (sources.latest_schema mapping.source_id)
        ≡ ok schema
    pub some_entity : mapping.entity_mappings ≢ []
    pub entities_valid : All (EntityValid model schema) mapping.entity_mappings

  or_find-none : {A : Type 0} (p q : Option A) → (or_find p q ≡ none) ↔ ((p ≡ none) × (q ≡ none))
  or_find-none none q = (λ h. (refl, h), λ h. h.1)
  or_find-none (some a) q = (λ h. cc, λ h. cc (h.0))

  first_problem-none :
      {A : Type 0} (P : A → Type 0) (check : A → Option Problem) (xs : List A)
      → ((x : A) → (check x ≡ none) ↔ P x)
      → (first_problem casing check xs ≡ none) ↔ All P xs
  unfolding first_problem
  first_problem-none P check [] f = (λ h. tt, λ h. refl)
  first_problem-none P check (x ∷ xs) f =
      let both = or_find-none (check x) (first_problem casing check xs) in
      let rest = first_problem-none P check xs f in
      (λ h. let c = both.0 h in ((f x).0 c.0, rest.0 c.1), λ h. both.1 ((f x).1 h.0, rest.1 h.1))

  if_none : {A : Type 0} (b : Bool) (x : A) → (if b then none else some x) ≡ none → b ≡ true
  if_none true x h = refl
  if_none false x h = cc

  types_problem-valid :
      (entity : LogicalEntity) (physical : EntitySchema) (fm : FieldMapping)
      (l : Option LogicalField) (p : Option FieldSchema)
      → logical_field_of casing entity fm ≡ l
      → physical_field casing physical fm.physical_field_name ≡ p
      → types_problem casing fm l p ≡ none
      → FieldValid entity physical fm
  unfolding types_problem
  types_problem-valid entity physical fm none p e f h = cc
  types_problem-valid entity physical fm (some l) none e f h = cc
  types_problem-valid entity physical fm (some l) (some p) e f h = record {
    field = l;
    column = p;
    has_field = e;
    has_column = f;
    fits = if_none (are_datatypes_compatible l.data_type p.data_type) (Problem.incompatible fm) h;
  }

  types_problem-none :
      (fm : FieldMapping) (l : LogicalField) (p : FieldSchema)
      → are_datatypes_compatible l.data_type p.data_type ≡ true
      → types_problem casing fm (some l) (some p) ≡ none
  unfolding types_problem
  types_problem-none fm l p h = rw h refl

  field_problem-none :
      (entity : LogicalEntity) (physical : EntitySchema) (fm : FieldMapping)
      → (field_problem casing entity physical fm ≡ none) ↔ FieldValid entity physical fm
  unfolding field_problem
  field_problem-none entity physical fm = (
    types_problem-valid entity physical fm (logical_field_of casing entity fm)
        (physical_field casing physical fm.physical_field_name) refl refl,
    λ v. rw (v.has_field, v.has_column) (types_problem-none fm v.field v.column v.fits),
  )

  fields_problem-none :
      (em : EntityMapping) (entity : LogicalEntity) (physical : EntitySchema)
      (fms : List FieldMapping)
      → (fields_problem casing em entity physical fms ≡ none)
        ↔ ((fms ≢ []) × All (FieldValid entity physical) fms)
  unfolding fields_problem
  fields_problem-none em entity physical [] = (λ h. cc, λ h. absurd (h.0 refl))
  fields_problem-none em entity physical (fm ∷ fms) =
      let each =
        first_problem-none (FieldValid entity physical) (field_problem casing entity physical)
          (fm ∷ fms) (field_problem-none entity physical) in
      (λ h. (λ e. cc, each.0 h), λ h. each.1 h.1)

  found_problem-valid :
      (model : LogicalModel) (schema : SourceSchema) (em : EntityMapping)
      (entity : Option LogicalEntity) (table : Option EntitySchema)
      → logical_entity_of casing model em ≡ entity
      → physical_entity casing schema em ≡ table
      → found_problem casing em entity table ≡ none
      → EntityValid model schema em
  unfolding found_problem
  found_problem-valid model schema em none t e f h = cc
  found_problem-valid model schema em (some l) none e f h = cc
  found_problem-valid model schema em (some l) (some t) e f h =
      let (nonempty, valid) = (fields_problem-none em l t em.field_mappings).0 h in
      record {
        entity = l;
        table = t;
        has_entity = e;
        has_table = f;
        some_field = nonempty;
        fields_valid = valid;
      }

  found_problem-none :
      (model : LogicalModel) (schema : SourceSchema) (em : EntityMapping)
      (v : EntityValid model schema em)
      → found_problem casing em (some v.entity) (some v.table) ≡ none
  unfolding found_problem
  found_problem-none model schema em v =
      (fields_problem-none em v.entity v.table em.field_mappings).1 (v.some_field, v.fields_valid)

  entity_problem-none :
      (model : LogicalModel) (schema : SourceSchema) (em : EntityMapping)
      → (entity_problem casing model schema em ≡ none) ↔ EntityValid model schema em
  unfolding entity_problem
  entity_problem-none model schema em = (
    found_problem-valid model schema em (logical_entity_of casing model em)
        (physical_entity casing schema em) refl refl,
    λ v. rw (v.has_entity, v.has_table) (found_problem-none model schema em v),
  )

  entities_problem-none :
      (model : LogicalModel) (schema : SourceSchema) (ems : List EntityMapping)
      → (entities_problem casing model schema ems ≡ none)
        ↔ ((ems ≢ []) × All (EntityValid model schema) ems)
  unfolding entities_problem
  entities_problem-none model schema [] = (λ h. cc, λ h. absurd (h.0 refl))
  entities_problem-none model schema (em ∷ ems) =
      let each =
        first_problem-none (EntityValid model schema) (entity_problem casing model schema)
          (em ∷ ems) (entity_problem-none model schema) in
      (λ h. (λ e. cc, each.0 h), λ h. each.1 h.1)

  source_problem-valid :
      (sources : Sources) (model : LogicalModel) (mapping : SourceMapping) (name : Option Text)
      (schema : Result Text SourceSchema)
      → sources.name_of mapping.source_id ≡ name
      → schema_of casing sources mapping.source_id (sources.latest_schema mapping.source_id)
        ≡ schema
      → source_problem casing model mapping name schema ≡ none
      → MappingValid sources model mapping
  unfolding source_problem schema_problem
  source_problem-valid sources model mapping none schema e f h = cc
  source_problem-valid sources model mapping (some n) (err message) e f h = cc
  source_problem-valid sources model mapping (some n) (ok schema) e f h =
      let (nonempty, valid) = (entities_problem-none model schema mapping.entity_mappings).0 h in
      record {
        name = n;
        schema = schema;
        has_source = e;
        has_schema = f;
        some_entity = nonempty;
        entities_valid = valid;
      }

  source_problem-none :
      (sources : Sources) (model : LogicalModel) (mapping : SourceMapping)
      (v : MappingValid sources model mapping)
      → source_problem casing model mapping (some v.name) (ok v.schema) ≡ none
  unfolding source_problem schema_problem
  source_problem-none sources model mapping v =
      (entities_problem-none model v.schema mapping.entity_mappings).1
        (v.some_entity, v.entities_valid)

  -- The validation finds no problem exactly where the source has a schema, some entity is mapped, and
  -- every mapped entity has its logical entity, its table and some field, each field with its logical
  -- field and a column of a compatible type.
  pub mapping_problem-MappingValid :
      (sources : Sources) (model : LogicalModel) (mapping : SourceMapping)
      → (mapping_problem casing sources model mapping ≡ none) ↔ MappingValid sources model mapping
  unfolding mapping_problem
  mapping_problem-MappingValid sources model mapping = (
    source_problem-valid sources model mapping (sources.name_of mapping.source_id)
        (schema_of casing sources mapping.source_id (sources.latest_schema mapping.source_id)) refl
        refl,
    λ v. rw (v.has_source, v.has_schema) (source_problem-none sources model mapping v),
  )
