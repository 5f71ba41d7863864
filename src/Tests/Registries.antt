-- ===== src/Tests/Registries.antt =====
-- A registry with two mappings of one model and source, and the registry's theorems there.
use altr_stream.Base.{
  Text, ℕ, All, codes, text_eq, true, false, [], ◌∷◌, map, none, some, ◌≡◌, ◌↔◌, refl,
}
use altr_stream.Base.Result.{ok, err}
use altr_stream.Schema.{StandardDataType}
use altr_stream.Mapping.{
  Casing, LogicalField, LogicalEntity, LogicalModel, MappingStatus, MappingProvenance,
  EntityMapping, SourceMapping,
}
use altr_stream.Registry.{Store, Sources}
use altr_stream.Registry.Activate.{activate_source_mapping}
use altr_stream.Registry.OneActive.{clash, OneActive}
use altr_stream.Registry.Activation.{activate_source_mapping-OneActive}
use altr_stream.Ast.{AltrQueryIr, QueryOperation, new_ir}
use altr_stream.Merger.{leaf_of, get, put}
use altr_stream.Merger.Merge.{out_column}
use altr_stream.Resolving.{resolve_logical_ir}
use altr_stream.Resolving.Columns.{Named, columns-resolve_logical_ir}
use altr_stream.Tests.Merges.{numbers}
use altr_stream.Registry.Validation.{mapping_problem}
use altr_stream.Registry.Valid.{MappingValid, mapping_problem-MappingValid}

abbrev casing : Casing
casing = record { lower = λ s. s; strip = λ s. s }

abbrev name_field : LogicalField
name_field = record {
  id = codes "f1";
  logical_entity_id = codes "e1";
  name = codes "name";
  data_type = StandardDataType.string;
  is_primary_key = false;
  nullable = true;
}

abbrev users : LogicalEntity
users = record {
  id = codes "e1";
  logical_model_id = codes "m1";
  name = codes "users";
  description = none;
  fields = name_field ∷ [];
}

abbrev model : LogicalModel
model = record {
  id = codes "m1";
  name = codes "crm";
  version = codes "1.0.0";
  description = none;
  entities = users ∷ [];
}

abbrev users_mapping : EntityMapping
users_mapping = record {
  id = codes "em1";
  source_mapping_id = codes "a";
  logical_entity_id = codes "e1";
  logical_entity_name = codes "users";
  physical_entity_name = codes "t_users";
  physical_namespace = codes "public";
  field_mappings =
      record {
        id = codes "fm1";
        entity_mapping_id = codes "em1";
        logical_field_id = codes "f1";
        logical_field_name = codes "name";
        physical_field_name = codes "c_name";
        transformation_rule = none;
      }
      ∷ [];
}

abbrev mapping_with : Text → MappingStatus → SourceMapping
mapping_with id status = record {
  id = id;
  logical_model_id = codes "m1";
  source_id = codes "s1";
  version = id;
  status = status;
  provenance = MappingProvenance.user;
  error_message = none;
  entity_mappings = users_mapping ∷ [];
}

abbrev store : Store
store = record {
  models = model ∷ [];
  mappings =
      mapping_with (codes "a") MappingStatus.active
      ∷ mapping_with (codes "b") MappingStatus.validated
      ∷ [];
}

abbrev sources : Sources
sources = record {
  name_of = λ s. some (codes "db");
  latest_schema = λ s. some (record {
    source_id = codes "s1";
    source_name = codes "db";
    entities =
        record {
          name = codes "t_users";
          namespace = codes "public";
          entity_type = codes "TABLE";
          comment = none;
          primary_key = [];
          fields =
              record {
                name = codes "c_name";
                data_type = StandardDataType.uuid;
                native_data_type = codes "uuid";
                nullable = true;
                is_primary_key = false;
              }
              ∷ [];
        }
        ∷ [];
  });
  discover = λ s. err (codes "not reachable");
}

statuses_after :
    map (λ m. m.status) (activate_source_mapping (codes "b") store).1.mappings
    ≡ MappingStatus.active ∷ MappingStatus.validated ∷ []
unfolding activate_source_mapping text_eq
statuses_after = refl

store-OneActive : OneActive store.mappings
unfolding clash
store-OneActive = ((refl, tt), (tt, tt))

activate_source_mapping-OneActive_example :
    OneActive (activate_source_mapping (codes "b") store).1.mappings
activate_source_mapping-OneActive_example =
    activate_source_mapping-OneActive (codes "b") store store-OneActive

is_valid :
    mapping_problem casing sources model (mapping_with (codes "a") MappingStatus.draft) ≡ none
unfolding mapping_problem text_eq
is_valid = refl

mapping_problem-MappingValid_example :
    (mapping_problem casing sources model (mapping_with (codes "a") MappingStatus.draft) ≡ none)
    ↔ MappingValid casing sources model (mapping_with (codes "a") MappingStatus.draft)
mapping_problem-MappingValid_example =
    mapping_problem-MappingValid casing sources model (mapping_with (codes "a") MappingStatus.draft)

-- GET users { name }
abbrev names_query : AltrQueryIr ℕ
names_query = record (new_ir QueryOperation.read (codes "users")) {
  projection = record { path = record { segments = codes "name" ∷ [] }; alias = none } ∷ [];
}

-- GET t_users { c_name AS name }
abbrev resolved_query : AltrQueryIr ℕ
resolved_query = record (new_ir QueryOperation.read (codes "t_users")) {
  projection =
      record { path = record { segments = codes "c_name" ∷ [] }; alias = some (codes "name") } ∷ [];
}

resolves :
    resolve_logical_ir casing names_query (mapping_with (codes "a") MappingStatus.active)
    ≡ ok resolved_query
unfolding resolve_logical_ir text_eq leaf_of get put
resolves = refl

names_query-Named : All Named names_query.projection
unfolding leaf_of
names_query-Named = (record { leaf = λ e. cc; alias = λ e. cc }, tt)

columns-resolve_logical_ir_example :
    map (out_column numbers) resolved_query.projection
    ≡ map (out_column numbers) names_query.projection
columns-resolve_logical_ir_example =
    columns-resolve_logical_ir numbers casing names_query resolved_query
      (mapping_with (codes "a") MappingStatus.active) names_query-Named resolves
