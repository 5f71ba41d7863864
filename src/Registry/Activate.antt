-- ===== src/Registry/Activate.antt =====
-- Sessions, and the activation of a mapping, of application/registry_service.py.
use altr_stream.Base.{
  Text, text_eq, Bool, true, false, ◌&&◌, not, List, [], ◌∷◌, Option, none, some,
}
use altr_stream.Base.Result.{ok, err}
use altr_stream.Mapping.{MappingStatus, SourceMapping, is_active, is_validated}
use altr_stream.Registry.{RegistryError, Action, ◌>>=◌, ◌>>◌, pure, raise, or_raise}
use altr_stream.Registry.Repository.{get_source_mapping_by_id, list_source_mappings, store_mapping}

-- `get_session`: an exception rolls the session back.
unfoldable pub in_session : {A : Type 0} → Action A → Action A
in_session m s = let (r, t) = m s in elim r [ ok a ↦ (ok a, t) | err e ↦ (err e, s) ]

abbrev pub raise_when : Bool → RegistryError → Action (Unit {0})
raise_when true e = raise e
raise_when false e = pure tt

unfoldable pub get_source_mapping : Text → Action SourceMapping
unfolding get_source_mapping_by_id
get_source_mapping mapping_id = do
  found ← get_source_mapping_by_id mapping_id
  or_raise found (RegistryError.source_mapping_not_found mapping_id)

-- The test and the body of the loop over the mappings of the model.
unfoldable pub competes : SourceMapping → SourceMapping → Bool
unfolding text_eq
competes mapping other =
    not (text_eq other.id mapping.id)
    && text_eq other.source_id mapping.source_id
    && is_active other.status

unfoldable pub demote_if : SourceMapping → Bool → Action (Unit {0})
unfolding store_mapping
demote_if other true =
    store_mapping false (record other { status = MappingStatus.validated }) >> pure tt
demote_if other false = pure tt

unfoldable pub demote : SourceMapping → List SourceMapping → Action (Unit {0})
unfolding competes demote_if
demote mapping [] = pure tt
demote mapping (other ∷ others) = demote_if other (competes mapping other) >> demote mapping others

unfoldable pub activated : SourceMapping → SourceMapping
activated mapping = record mapping { status = MappingStatus.active; error_message = none }

-- What follows the test of the status.
unfoldable pub activate_validated : SourceMapping → Action SourceMapping
unfolding list_source_mappings demote store_mapping activated
activate_validated mapping = do
  all_mappings ← list_source_mappings (some mapping.logical_model_id) none
  demote mapping all_mappings
  store_mapping false (activated mapping)

unfoldable pub activate_found : Bool → SourceMapping → Action SourceMapping
unfolding activate_validated
activate_found true mapping = activate_validated mapping
activate_found false mapping = raise (RegistryError.not_validated mapping.status)

abbrev pub activate_if : Text → Option SourceMapping → Action SourceMapping
unfolding activate_found
activate_if mapping_id none = raise (RegistryError.source_mapping_not_found mapping_id)
activate_if mapping_id (some mapping) = activate_found (is_validated mapping.status) mapping

unfoldable pub activate_source_mapping : Text → Action SourceMapping
unfolding get_source_mapping_by_id activate_found
activate_source_mapping mapping_id = do
  found ← get_source_mapping_by_id mapping_id
  activate_if mapping_id found
