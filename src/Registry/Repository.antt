-- ===== src/Registry/Repository.antt =====
-- The calls of infrastructure/database/registry_repository.py. Rows that a removal leaves behind and
-- that no row above them loads are not kept.
use altr_stream.Base.{
  Text, text_eq, Bool, true, false, ◌&&◌, not, List, [], ◌∷◌, ◌++◌, map, Option, none, some,
  if◌then◌else◌,
}
use altr_stream.Base.Result.{ok}
use altr_stream.Mapping.{LogicalModel, FieldMapping, EntityMapping, SourceMapping, find}
use altr_stream.Registry.{RegistryError, Action, ◌>>=◌, ◌>>◌, pure, raise, or_raise, gets}

unfoldable pub filter {ℓ} : {A : Type ℓ} → (A → Bool) → List A → List A
filter test [] = []
filter test (x ∷ xs) = let rest = filter test xs in if test x then x ∷ rest else rest

abbrev pub set_models : (List LogicalModel → List LogicalModel) → Action (Unit {0})
set_models f s = (ok tt, record s { models = f s.models })

abbrev pub set_mappings : (List SourceMapping → List SourceMapping) → Action (Unit {0})
set_mappings f s = (ok tt, record s { mappings = f s.mappings })

-- Models.
unfoldable pub get_model_by_id : Text → Action (Option LogicalModel)
unfolding find text_eq
get_model_by_id model_id = gets (λ s. find (λ m. text_eq m.id model_id) s.models)

unfoldable pub get_model_by_name : Text → Action (Option LogicalModel)
unfolding find text_eq
get_model_by_name name = gets (λ s. find (λ m. text_eq m.name name) s.models)

unfoldable pub list_models : Action (List LogicalModel)
list_models = gets (λ s. s.models)

unfoldable pub insert_model : LogicalModel → Action LogicalModel
insert_model model = set_models (λ ms. model ∷ ms) >> pure model

unfoldable pub other_models : Text → List LogicalModel → List LogicalModel
unfolding filter text_eq
other_models model_id = filter (λ m. not (text_eq m.id model_id))

-- `update_model`: the name, version and description of the row with the model's id
unfoldable pub store_model : LogicalModel → Action LogicalModel
unfolding find text_eq other_models
store_model model = do
  found ← gets (λ s. find (λ m. text_eq m.id model.id) s.models)
  row ← or_raise found (RegistryError.model_not_found model.id)
  let updated = record row {
    name = model.name;
    version = model.version;
    description = model.description;
  }
  set_models (λ ms. updated ∷ other_models model.id ms)
  pure updated

-- `delete_model`. The database removes the mappings of the model if it enforces foreign keys.
unfoldable pub remove_model : Bool → Text → Action Bool
unfolding filter text_eq other_models
remove_model enforces model_id = do
  found ← get_model_by_id model_id
  set_models (other_models model_id)
  set_mappings (filter (λ m. not (enforces && text_eq m.logical_model_id model_id)))
  pure (elim found [ none ↦ false | some m ↦ true ])

-- Mappings.
unfoldable pub get_source_mapping_by_id : Text → Action (Option SourceMapping)
unfolding find text_eq
get_source_mapping_by_id mapping_id = gets (λ s. find (λ m. text_eq m.id mapping_id) s.mappings)

-- An optional filter: an empty text filters nothing.
unfoldable pub selects : Option Text → Text → Bool
unfolding text_eq
selects none value = true
selects (some []) value = true
selects (some (c ∷ s)) value = text_eq value (c ∷ s)

unfoldable pub list_source_mappings : Option Text → Option Text → Action (List SourceMapping)
unfolding filter selects
list_source_mappings logical_model_id source_id = gets (λ s.
    filter (λ m. selects logical_model_id m.logical_model_id && selects source_id m.source_id)
      s.mappings)

-- `create_source_mapping`
unfoldable pub insert_mapping : SourceMapping → Action SourceMapping
insert_mapping mapping = set_mappings (λ ms. mapping ∷ ms) >> pure mapping

unfoldable pub other_mappings : Text → List SourceMapping → List SourceMapping
unfolding filter text_eq
other_mappings mapping_id = filter (λ m. not (text_eq m.id mapping_id))

-- The columns that `update_source_mapping` writes, and the entity mappings if they are replaced.
unfoldable pub written : Bool → SourceMapping → SourceMapping → SourceMapping
written replace mapping row = record row {
  version = mapping.version;
  status = mapping.status;
  provenance = mapping.provenance;
  error_message = mapping.error_message;
  entity_mappings = if replace then mapping.entity_mappings else row.entity_mappings;
}

unfoldable pub store_row : Bool → SourceMapping → Option SourceMapping → Action SourceMapping
unfolding written other_mappings
store_row replace mapping none = raise (RegistryError.source_mapping_not_found mapping.id)
store_row replace mapping (some row) = do
  set_mappings (λ ms. written replace mapping row ∷ other_mappings mapping.id ms)
  pure (written replace mapping row)

-- `update_source_mapping`
unfoldable pub store_mapping : Bool → SourceMapping → Action SourceMapping
unfolding get_source_mapping_by_id store_row
store_mapping replace mapping = do
  found ← get_source_mapping_by_id mapping.id
  store_row replace mapping found

-- `delete_source_mapping`
unfoldable pub remove_mapping : Text → Action Bool
unfolding get_source_mapping_by_id other_mappings
remove_mapping mapping_id = do
  found ← get_source_mapping_by_id mapping_id
  set_mappings (other_mappings mapping_id)
  pure (elim found [ none ↦ false | some m ↦ true ])

-- `add_entity_mapping`: the mapping that it belongs to is touched
unfoldable pub insert_entity_mapping : EntityMapping → Action EntityMapping
unfolding get_source_mapping_by_id other_mappings
insert_entity_mapping em = do
  found ← get_source_mapping_by_id em.source_mapping_id
  set_mappings (λ ms. elim found [
    | none ↦ ms
    | some row ↦
        record row { entity_mappings = row.entity_mappings ++ em ∷ [] }
        ∷ other_mappings em.source_mapping_id ms
  ])
  pure em

unfoldable pub without_entity : Text → SourceMapping → SourceMapping
unfolding filter text_eq
without_entity em_id m = record m {
  entity_mappings = filter (λ em. not (text_eq em.id em_id)) m.entity_mappings;
}

abbrev pub has_entity : Text → SourceMapping → Bool
unfolding find text_eq
has_entity em_id m = elim (find (λ em. text_eq em.id em_id) m.entity_mappings) [
  | none ↦ false
  | some em ↦ true
]

-- `delete_entity_mapping`
unfoldable pub remove_entity_mapping : Text → Action Bool
unfolding find text_eq without_entity
remove_entity_mapping em_id = do
  found ← gets (λ s. find (has_entity em_id) s.mappings)
  set_mappings (map (without_entity em_id))
  pure (elim found [ none ↦ false | some m ↦ true ])

unfoldable pub with_field : FieldMapping → SourceMapping → SourceMapping
unfolding text_eq
with_field fm m = record m {
  entity_mappings =
      map
        (λ em.
          if text_eq em.id fm.entity_mapping_id
          then record em { field_mappings = em.field_mappings ++ fm ∷ [] }
          else em)
        m.entity_mappings;
}

-- `add_field_mapping`
unfoldable pub insert_field_mapping : FieldMapping → Action FieldMapping
unfolding with_field
insert_field_mapping fm = set_mappings (map (with_field fm)) >> pure fm

unfoldable pub without_field : Text → SourceMapping → SourceMapping
unfolding filter text_eq
without_field fm_id m = record m { entity_mappings = map shortened m.entity_mappings }
  where
    shortened : EntityMapping → EntityMapping
    shortened em = record em {
      field_mappings = filter (λ fm. not (text_eq fm.id fm_id)) em.field_mappings;
    }

-- `delete_field_mapping`
unfoldable pub remove_field_mapping : Text → Action (Unit {0})
unfolding without_field
remove_field_mapping fm_id = set_mappings (map (without_field fm_id))
