-- ===== src/Registry.antt =====
-- src/altr_stream/application/registry_service.py over infrastructure/database/registry_repository.py:
-- the store of logical models and source mappings, and the calls on it.
pub mod Repository
pub mod Activate
pub mod Service
pub mod Validation
pub mod Valid
pub mod OneActive
pub mod Demotion
pub mod Activation
use altr_stream.Base.{Text, List, Option, none, some}
use altr_stream.Base.Result.{Result, ok, err}
use altr_stream.Mapping.{LogicalModel, SourceMapping, MappingStatus}
use altr_stream.Schema.{SourceSchema}

pub data RegistryError : Type 0 where
  model_already_exists : Text → RegistryError
  model_not_found entity_not_found field_not_found source_not_found : Text → RegistryError
  source_mapping_not_found : Text → RegistryError
  entity_exists field_exists : Text → Text → RegistryError
  duplicate_mapping : (model source version : Text) → RegistryError
  not_validated : MappingStatus → RegistryError
  direct_activation : RegistryError

-- The rows of the database, nested as they are loaded, the most recently updated first. Each write
-- of a row that sets `updated_at` puts it in front.
pub record Store : Type 0 where
  pub models : List LogicalModel
  pub mappings : List SourceMapping

-- A call: it returns or raises, and what was written stays written.
abbrev pub Action : Type 0 → Type 0
Action A = Store → Result RegistryError A × Store

infixl 5 ◌>>=◌ ◌>>◌
abbrev pub ◌>>=◌ : {A B : Type 0} → Action A → (A → Action B) → Action B
◌>>=◌ m f s = let (r, t) = m s in elim r [ ok a ↦ f a t | err e ↦ (err e, t) ]

abbrev pub ◌>>◌ : {A B : Type 0} → Action A → Action B → Action B
m >> k = m >>= λ _. k

module _ {A : Type 0} where
  abbrev pub pure : A → Action A
  pure a s = (ok a, s)

  abbrev pub raise : RegistryError → Action A
  raise e s = (err e, s)

  abbrev pub or_raise : Option A → RegistryError → Action A
  or_raise none e = raise e
  or_raise (some a) e = pure a

  abbrev pub gets : (Store → A) → Action A
  gets f s = (ok (f s), s)

-- What the registry asks of the sources: their names, and their schemas, read or discovered, where
-- a discovery may raise with a message.
pub record Sources : Type 0 where
  pub name_of : Text → Option Text
  pub latest_schema : Text → Option SourceSchema
  pub discover : Text → Result Text SourceSchema
