-- ===== src/Mapping.antt =====
-- src/altr_stream/domain/logical.py and mapping.py: logical models, and the mappings of their entities
-- and fields to the tables and columns of a source. Timestamps are left out.
use altr_stream.Base.{
  Text, text_eq, ◌==◌, Bool, true, false, List, [], ◌∷◌, Option, none, some, if◌then◌else◌,
}
use altr_stream.Schema.{StandardDataType}

-- str.lower and str.strip
pub record Casing : Type 0 where
  pub lower : Text → Text
  pub strip : Text → Text

pub record LogicalField : Type 0 where
  pub id : Text
  pub logical_entity_id : Text
  pub name : Text
  pub data_type : StandardDataType
  pub is_primary_key : Bool
  pub nullable : Bool

pub record LogicalEntity : Type 0 where
  pub id : Text
  pub logical_model_id : Text
  pub name : Text
  pub description : Option Text
  pub fields : List LogicalField

pub record LogicalModel : Type 0 where
  pub id : Text
  pub name : Text
  pub version : Text
  pub description : Option Text
  pub entities : List LogicalEntity

pub data MappingStatus : Type 0 where
  draft active validated error : MappingStatus

pub data MappingProvenance : Type 0 where
  user altr_align system : MappingProvenance

pub record FieldMapping : Type 0 where
  pub id : Text
  pub entity_mapping_id : Text
  pub logical_field_id : Text
  pub logical_field_name : Text
  pub physical_field_name : Text
  pub transformation_rule : Option Text

pub record EntityMapping : Type 0 where
  pub id : Text
  pub source_mapping_id : Text
  pub logical_entity_id : Text
  pub logical_entity_name : Text
  pub physical_entity_name : Text
  pub physical_namespace : Text
  pub field_mappings : List FieldMapping

pub record SourceMapping : Type 0 where
  pub id : Text
  pub logical_model_id : Text
  pub source_id : Text
  pub version : Text
  pub status : MappingStatus
  pub provenance : MappingProvenance
  pub error_message : Option Text
  pub entity_mappings : List EntityMapping

-- `mapping.status == MappingStatus.ACTIVE`, and so on
abbrev pub is_active : MappingStatus → Bool
is_active MappingStatus.active = true
is_active _ = false

abbrev pub is_validated : MappingStatus → Bool
is_validated MappingStatus.validated = true
is_validated _ = false

-- `for x in xs: if test(x): return x`
unfoldable pub find {ℓ} : {A : Type ℓ} → (A → Bool) → List A → Option A
find test [] = none
find test (x ∷ xs) = let rest = find test xs in if test x then some x else rest

abbrev pub or_find {ℓ} : {A : Type ℓ} → Option A → Option A → Option A
or_find none q = q
or_find (some a) q = some a

-- `s.rstrip("s")`
unfoldable pub rstrip_s : Text → Text
rstrip_s [] = []
rstrip_s (c ∷ s) = keep (rstrip_s s)
  where
    keep : Text → Text
    keep [] = if c == b's' then [] else c ∷ []
    keep (d ∷ t) = c ∷ d ∷ t

abbrev pub given : Text → Bool
given [] = false
given (c ∷ s) = true

module _ (casing : Casing) where
  abbrev pub same_lower : Text → Text → Bool
  unfolding text_eq
  same_lower s t = text_eq (casing.lower s) (casing.lower t)

  -- Equal in lower case, up to letters s at the end.
  unfoldable pub same_stem : Text → Text → Bool
  unfolding text_eq rstrip_s
  same_stem s t = text_eq (rstrip_s (casing.lower s)) (rstrip_s (casing.lower t))

  -- By the exact name, then in lower case, then by the stem.
  unfoldable pub find_by_name {ℓ} : {A : Type ℓ} → (A → Text) → Text → List A → Option A
  unfolding find same_stem text_eq
  find_by_name name_of [] xs = none
  find_by_name name_of (c ∷ name) xs = or_find (find (λ x. text_eq (name_of x) (c ∷ name)) xs) (
      or_find (find (λ x. same_lower (name_of x) (c ∷ name)) xs)
        (find (λ x. same_stem (name_of x) (c ∷ name)) xs))

  -- LogicalEntity.get_field_by_id, get_field_by_name
  unfoldable pub get_field_by_id : LogicalEntity → Text → Option LogicalField
  unfolding find text_eq
  get_field_by_id entity field_id = find (λ f. text_eq f.id field_id) entity.fields

  unfoldable pub get_field_by_name : LogicalEntity → Text → Option LogicalField
  unfolding find_by_name
  get_field_by_name entity field_name = find_by_name (λ f. f.name) field_name entity.fields

  -- LogicalModel.get_entity_by_id, get_entity_by_name
  unfoldable pub get_entity_by_id : LogicalModel → Text → Option LogicalEntity
  unfolding find text_eq
  get_entity_by_id model entity_id = find (λ e. text_eq e.id entity_id) model.entities

  unfoldable pub get_entity_by_name : LogicalModel → Text → Option LogicalEntity
  unfolding find_by_name
  get_entity_by_name model entity_name = find_by_name (λ e. e.name) entity_name model.entities
