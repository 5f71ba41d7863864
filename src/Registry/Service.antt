-- ===== src/Registry/Service.antt =====
-- The calls of application/registry_service.py on models and mappings. A new row's id is an argument.
use altr_stream.Base.{
  Text, text_eq, Bool, true, false, ◌&&◌, not, List, [], ◌∷◌, map, Option, none, some, is_some,
  if◌then◌else◌,
}
use altr_stream.Mapping.{
  Casing, LogicalEntity, LogicalModel, MappingStatus, MappingProvenance, FieldMapping,
  EntityMapping, SourceMapping, is_active, is_validated, find, or_find, same_lower, get_field_by_id,
  get_field_by_name, get_entity_by_id, get_entity_by_name,
}
use altr_stream.Registry.{RegistryError, Sources, Action, ◌>>=◌, ◌>>◌, pure, or_raise}
use altr_stream.Registry.Activate.{raise_when, get_source_mapping}
use altr_stream.Registry.Repository.{
  get_model_by_id, get_model_by_name, list_models, insert_model, store_model, list_source_mappings,
  insert_mapping, store_mapping, insert_entity_mapping,
}

abbrev pub or_keep : {A : Type 0} → Option A → A → A
or_keep none a = a
or_keep (some b) a = b

module _ (casing : Casing) where
  abbrev pub model_or : Text → Option LogicalModel → List LogicalModel → Action LogicalModel
  unfolding find
  model_or model_id (some m) models = pure m
  model_or model_id none models =
      or_raise (find (λ m. same_lower casing m.name model_id) models)
        (RegistryError.model_not_found model_id)

  -- By id, by name, or by name in lower case.
  unfoldable pub get_model : Text → Action LogicalModel
  unfolding find get_model_by_id get_model_by_name list_models
  get_model model_id = do
    by_id ← get_model_by_id model_id
    by_name ← get_model_by_name model_id
    models ← list_models
    model_or model_id (or_find by_id by_name) models

  unfoldable pub create_model : LogicalModel → Action LogicalModel
  unfolding get_model_by_name insert_model
  create_model model = do
    existing ← get_model_by_name model.name
    raise_when (is_some existing) (RegistryError.model_already_exists model.name)
    insert_model model

  -- Another model has the name.
  abbrev pub is_taken : Text → Option LogicalModel → Bool
  unfolding text_eq
  is_taken model_id none = false
  is_taken model_id (some m) = not (text_eq m.id model_id)

  unfoldable pub renamed : Text → Option Text → LogicalModel → Action LogicalModel
  unfolding get_model_by_name text_eq
  renamed model_id none model = pure model
  renamed model_id (some []) model = pure model
  renamed model_id (some (c ∷ name)) model =
      if text_eq (c ∷ name) model.name then pure model else (do
        existing ← get_model_by_name (c ∷ name)
        raise_when (is_taken model_id existing) (RegistryError.model_already_exists (c ∷ name))
        pure (record model { name = c ∷ name }))

  unfoldable pub update_model : Text → Option Text → Option Text → Option Text → Action LogicalModel
  unfolding get_model renamed store_model
  update_model model_id name version description = do
    model ← get_model model_id
    model ← renamed model_id name model
    store_model (record model {
      version = or_keep version model.version;
      description = or_find description model.description;
    })

  -- The names that the model has for what a mapping names.
  abbrev pub named_field : LogicalEntity → FieldMapping → FieldMapping
  unfolding get_field_by_id get_field_by_name
  named_field entity fm =
      elim (or_find (get_field_by_id casing entity fm.logical_field_id)
        (get_field_by_name casing entity fm.logical_field_name)) [
          | none ↦ fm
          | some f ↦ record fm { logical_field_name = f.name }
        ]

  unfoldable pub logical_entity_of : LogicalModel → EntityMapping → Option LogicalEntity
  unfolding get_entity_by_id get_entity_by_name
  logical_entity_of model em =
      or_find (get_entity_by_id casing model em.logical_entity_id)
        (get_entity_by_name casing model em.logical_entity_name)

  unfoldable pub named_entity : LogicalModel → EntityMapping → EntityMapping
  unfolding logical_entity_of get_field_by_id get_field_by_name
  named_entity model em = elim (logical_entity_of model em) [
    | none ↦ em
    | some entity ↦ record em {
      logical_entity_name = entity.name;
      field_mappings = map (named_field entity) em.field_mappings;
    }
  ]

  abbrev pub initial_status : MappingStatus → MappingStatus
  initial_status status = if is_active status then MappingStatus.draft else status

  -- `mapping` has the new id, and the arguments of the call.
  unfoldable pub create_source_mapping : Sources → SourceMapping → Action SourceMapping
  unfolding get_model list_source_mappings find text_eq named_entity insert_mapping
  create_source_mapping sources mapping = do
    model ← get_model mapping.logical_model_id
    source ←
        or_raise (sources.name_of mapping.source_id)
          (RegistryError.source_not_found mapping.source_id)
    existing ← list_source_mappings (some mapping.logical_model_id) (some mapping.source_id)
    raise_when (is_some (find (λ m. text_eq m.version mapping.version) existing))
        (RegistryError.duplicate_mapping mapping.logical_model_id mapping.source_id mapping.version)
    insert_mapping (record mapping {
      status = initial_status mapping.status;
      error_message = none;
      entity_mappings = map (named_entity model) mapping.entity_mappings;
    })

  -- The end of `update_source_mapping`: new entity mappings, or a new status.
  unfoldable pub update_content :
      Option (List EntityMapping) → Option MappingStatus → SourceMapping → Action SourceMapping
  unfolding get_model named_entity store_mapping
  update_content (some ems) status mapping = do
    model ← get_model mapping.logical_model_id
    store_mapping true (record mapping {
      entity_mappings = map (named_entity model) ems;
      status = MappingStatus.draft;
      error_message = none;
    })
  update_content none none mapping = store_mapping false mapping
  update_content none (some status) mapping = do
    raise_when (is_active status && not (is_validated mapping.status))
        RegistryError.direct_activation
    store_mapping false (record mapping { status = status })

  unfoldable pub update_source_mapping :
      Text
      → Option Text
      → Option MappingStatus
      → Option MappingProvenance
      → Option Text
      → Option (List EntityMapping)
      → Action SourceMapping
  unfolding get_source_mapping update_content
  update_source_mapping mapping_id version status provenance error_message ems = do
    mapping ← get_source_mapping mapping_id
    update_content ems status (record mapping {
      version = or_keep version mapping.version;
      provenance = or_keep provenance mapping.provenance;
      error_message = or_find error_message mapping.error_message;
    })

  -- `em` has the new id, and the arguments of the call.
  unfoldable pub add_entity_mapping : EntityMapping → Action EntityMapping
  unfolding get_source_mapping get_model get_entity_by_id get_field_by_id get_field_by_name
      insert_entity_mapping store_mapping
  add_entity_mapping em = do
    mapping ← get_source_mapping em.source_mapping_id
    model ← get_model mapping.logical_model_id
    entity ←
        or_raise (get_entity_by_id casing model em.logical_entity_id)
          (RegistryError.entity_not_found em.logical_entity_id)
    created ← insert_entity_mapping (record em {
      logical_entity_id = entity.id;
      logical_entity_name = entity.name;
      field_mappings = map (named_field entity) em.field_mappings;
    })
    stored ←
        store_mapping false (record mapping { status = MappingStatus.draft; error_message = none })
    pure created
