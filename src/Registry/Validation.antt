-- ===== src/Registry/Validation.antt =====
-- `validate_source_mapping` of application/registry_service.py.
use altr_stream.Base.{
  Text, codes, text_eq, Bool, false, ◌&&◌, ◌||◌, List, [], ◌∷◌, Option, none, some, if◌then◌else◌,
}
use altr_stream.Base.Result.{Result, ok, err}
use altr_stream.Schema.{
  FieldSchema, EntitySchema, SourceSchema, get_field, are_datatypes_compatible,
}
use altr_stream.Mapping.{
  Casing, LogicalField, LogicalEntity, LogicalModel, MappingStatus, FieldMapping, EntityMapping,
  SourceMapping, find, or_find, same_lower, get_field_by_id, get_field_by_name,
}
use altr_stream.Registry.{Sources, Action, ◌>>=◌, pure}
use altr_stream.Registry.Repository.{store_mapping}
use altr_stream.Registry.Activate.{get_source_mapping}
use altr_stream.Registry.Service.{get_model, logical_entity_of}

-- Why a mapping is not valid; the messages of the code name the same things.
pub data Problem : Type 0 where
  source_missing : Problem
  discovery_failed : Text → Problem
  no_entities : Problem
  logical_entity_missing physical_entity_missing no_fields : EntityMapping → Problem
  logical_field_missing physical_field_missing incompatible : FieldMapping → Problem

module _ (casing : Casing) where
  -- The entities of the schema with the name, of the namespace if some are, and the first of them.
  unfoldable pub in_namespace : EntityMapping → EntitySchema → Bool
  unfolding text_eq
  in_namespace em e =
      text_eq em.physical_namespace []
      || same_lower casing e.namespace em.physical_namespace
      || text_eq em.physical_namespace (codes "public")
      || text_eq em.physical_namespace (codes "main")
      || text_eq em.physical_namespace (codes "default")

  unfoldable pub physical_entity : SourceSchema → EntityMapping → Option EntitySchema
  unfolding find in_namespace
  physical_entity schema em =
      or_find
        (find (λ e. same_lower casing e.name em.physical_entity_name && in_namespace em e)
          schema.entities)
        (find (λ e. same_lower casing e.name em.physical_entity_name) schema.entities)

  -- By its name, or by its name in lower case.
  unfoldable pub physical_field : EntitySchema → Text → Option FieldSchema
  unfolding get_field find
  physical_field entity name =
      or_find (get_field entity name) (find (λ f. same_lower casing f.name name) entity.fields)

  unfoldable pub logical_field_of : LogicalEntity → FieldMapping → Option LogicalField
  unfolding get_field_by_id get_field_by_name
  logical_field_of entity fm =
      or_find (get_field_by_id casing entity fm.logical_field_id)
        (get_field_by_name casing entity fm.logical_field_name)

  unfoldable pub types_problem :
      FieldMapping → Option LogicalField → Option FieldSchema → Option Problem
  unfolding are_datatypes_compatible
  types_problem fm none p = some (Problem.logical_field_missing fm)
  types_problem fm (some l) none = some (Problem.physical_field_missing fm)
  types_problem fm (some l) (some p) =
      if are_datatypes_compatible l.data_type p.data_type
      then none
      else some (Problem.incompatible fm)

  unfoldable pub field_problem : LogicalEntity → EntitySchema → FieldMapping → Option Problem
  unfolding types_problem logical_field_of physical_field
  field_problem entity physical fm =
      types_problem fm (logical_field_of entity fm) (physical_field physical fm.physical_field_name)

  -- The loop over the fields: the first problem.
  unfoldable pub first_problem : {A : Type 0} → (A → Option Problem) → List A → Option Problem
  first_problem check [] = none
  first_problem check (x ∷ xs) = or_find (check x) (first_problem check xs)

  unfoldable pub fields_problem :
      EntityMapping → LogicalEntity → EntitySchema → List FieldMapping → Option Problem
  unfolding first_problem field_problem
  fields_problem em entity physical [] = some (Problem.no_fields em)
  fields_problem em entity physical (fm ∷ fms) =
      first_problem (field_problem entity physical) (fm ∷ fms)

  unfoldable pub found_problem :
      EntityMapping → Option LogicalEntity → Option EntitySchema → Option Problem
  unfolding fields_problem
  found_problem em none physical = some (Problem.logical_entity_missing em)
  found_problem em (some entity) none = some (Problem.physical_entity_missing em)
  found_problem em (some entity) (some physical) =
      fields_problem em entity physical em.field_mappings

  unfoldable pub entity_problem : LogicalModel → SourceSchema → EntityMapping → Option Problem
  unfolding found_problem logical_entity_of physical_entity
  entity_problem model schema em =
      found_problem em (logical_entity_of casing model em) (physical_entity schema em)

  unfoldable pub entities_problem :
      LogicalModel → SourceSchema → List EntityMapping → Option Problem
  unfolding first_problem entity_problem
  entities_problem model schema [] = some Problem.no_entities
  entities_problem model schema (em ∷ ems) = first_problem (entity_problem model schema) (em ∷ ems)

  unfoldable pub schema_problem :
      LogicalModel → SourceMapping → Result Text SourceSchema → Option Problem
  unfolding entities_problem
  schema_problem model mapping (err message) = some (Problem.discovery_failed message)
  schema_problem model mapping (ok schema) = entities_problem model schema mapping.entity_mappings

  -- The latest schema, or a discovered one.
  abbrev pub schema_of : Sources → Text → Option SourceSchema → Result Text SourceSchema
  schema_of sources source_id none = sources.discover source_id
  schema_of sources source_id (some schema) = ok schema

  -- The name of the source says that it is there.
  unfoldable pub source_problem :
      LogicalModel → SourceMapping → Option Text → Result Text SourceSchema → Option Problem
  unfolding schema_problem
  source_problem model mapping none schema = some Problem.source_missing
  source_problem model mapping (some name) schema = schema_problem model mapping schema

  unfoldable pub mapping_problem : Sources → LogicalModel → SourceMapping → Option Problem
  unfolding source_problem
  mapping_problem sources model mapping =
      source_problem model mapping (sources.name_of mapping.source_id)
        (schema_of sources mapping.source_id (sources.latest_schema mapping.source_id))

  -- The status that a validation leaves, and its message, by the text of a problem.
  unfoldable pub status_after : Option Problem → MappingStatus
  status_after none = MappingStatus.validated
  status_after (some Problem.no_entities) = MappingStatus.draft
  status_after (some p) = MappingStatus.error

  abbrev pub message_after : (Problem → Text) → Option Problem → Option Text
  message_after text none = none
  message_after text (some p) = some (text p)

  unfoldable pub validated_as : (Problem → Text) → Option Problem → SourceMapping → SourceMapping
  unfolding status_after
  validated_as text problem mapping = record mapping {
    status = status_after problem;
    error_message = message_after text problem;
  }

  unfoldable pub validate_source_mapping :
      Sources → (Problem → Text) → Text → Action (Option Problem × SourceMapping)
  unfolding get_source_mapping get_model mapping_problem validated_as store_mapping
  validate_source_mapping sources text mapping_id = do
    mapping ← get_source_mapping mapping_id
    model ← get_model casing mapping.logical_model_id
    let problem = mapping_problem sources model mapping
    updated ← store_mapping false (validated_as text problem mapping)
    pure (problem, updated)
