-- ===== src/Schema.antt =====
-- src/altr_stream/domain/schema.py: the snapshot of a source's schema that a query is bound to.
-- Descriptive fields that the query engine never reads (constraints, default values, positions,
-- versions, metadata) are left out.
use altr_stream.Base.{
  Text, text_eq, ℕ, ◌==◌, Bool, true, false, ◌||◌, List, [], ◌∷◌, Option, none, some, if◌then◌else◌,
}

pub data StandardDataType : Type 0 where
  string integer bigint smallint float decimal boolean : StandardDataType
  date time timestamp timestamptz json array binary uuid other : StandardDataType

pub record FieldSchema : Type 0 where
  pub name : Text
  pub data_type : StandardDataType
  pub native_data_type : Text
  pub nullable : Bool
  pub is_primary_key : Bool

pub record EntitySchema : Type 0 where
  pub name : Text
  pub namespace : Text
  pub entity_type : Text
  pub comment : Option Text
  pub primary_key : List Text
  pub fields : List FieldSchema

pub record SourceSchema : Type 0 where
  pub source_id : Text
  pub source_name : Text
  pub entities : List EntitySchema

unfoldable pub find_field : Text → List FieldSchema → Option FieldSchema
find_field name [] = none
find_field name (f ∷ fs) = if text_eq f.name name then some f else find_field name fs

-- EntitySchema.get_field
unfoldable pub get_field : EntitySchema → Text → Option FieldSchema
unfolding find_field
get_field entity name = find_field name entity.fields

-- A number for each type, and the equality of types.
abbrev data_type_code : StandardDataType → ℕ
data_type_code StandardDataType.string = 0
data_type_code StandardDataType.integer = 1
data_type_code StandardDataType.bigint = 2
data_type_code StandardDataType.smallint = 3
data_type_code StandardDataType.float = 4
data_type_code StandardDataType.decimal = 5
data_type_code StandardDataType.boolean = 6
data_type_code StandardDataType.date = 7
data_type_code StandardDataType.time = 8
data_type_code StandardDataType.timestamp = 9
data_type_code StandardDataType.timestamptz = 10
data_type_code StandardDataType.json = 11
data_type_code StandardDataType.array = 12
data_type_code StandardDataType.binary = 13
data_type_code StandardDataType.uuid = 14
data_type_code StandardDataType.other = 15

unfoldable pub same_type : StandardDataType → StandardDataType → Bool
same_type s t = data_type_code s == data_type_code t

-- INTEGER_TYPES, FLOAT_TYPES and so on, which are disjoint: the set that a type is in.
pub data TypeSet : Type 0 where
  integers floats strings booleans temporals jsons binaries arrays no_set : TypeSet

unfoldable pub type_set : StandardDataType → TypeSet
type_set StandardDataType.integer = TypeSet.integers
type_set StandardDataType.bigint = TypeSet.integers
type_set StandardDataType.smallint = TypeSet.integers
type_set StandardDataType.float = TypeSet.floats
type_set StandardDataType.decimal = TypeSet.floats
type_set StandardDataType.string = TypeSet.strings
type_set StandardDataType.uuid = TypeSet.strings
type_set StandardDataType.boolean = TypeSet.booleans
type_set StandardDataType.date = TypeSet.temporals
type_set StandardDataType.time = TypeSet.temporals
type_set StandardDataType.timestamp = TypeSet.temporals
type_set StandardDataType.timestamptz = TypeSet.temporals
type_set StandardDataType.json = TypeSet.jsons
type_set StandardDataType.binary = TypeSet.binaries
type_set StandardDataType.array = TypeSet.arrays
type_set StandardDataType.other = TypeSet.no_set

-- Which sets a physical type may be in for a logical type of a set.
unfoldable pub sets_compatible : TypeSet → TypeSet → Bool
sets_compatible TypeSet.integers TypeSet.integers = true
sets_compatible TypeSet.floats TypeSet.floats = true
sets_compatible TypeSet.floats TypeSet.integers = true
sets_compatible TypeSet.strings TypeSet.strings = true
sets_compatible TypeSet.booleans TypeSet.booleans = true
sets_compatible TypeSet.temporals TypeSet.temporals = true
sets_compatible TypeSet.jsons TypeSet.jsons = true
sets_compatible TypeSet.binaries TypeSet.binaries = true
sets_compatible TypeSet.arrays TypeSet.arrays = true
sets_compatible _ _ = false

-- `are_datatypes_compatible` of two types
unfoldable pub are_datatypes_compatible : StandardDataType → StandardDataType → Bool
unfolding same_type type_set sets_compatible
are_datatypes_compatible logical physical =
    same_type logical physical || sets_compatible (type_set logical) (type_set physical)
