-- ===== src/Binding/Resolver.antt =====
-- src/altr_stream/query_engine/binding/resolver.py
use altr_stream.Base.{Text, text_eq, List, [], ◌∷◌, Option, none, some, if◌then◌else◌}
use altr_stream.Base.Result.{Result, ok, err}
use altr_stream.Schema.{FieldSchema, EntitySchema, SourceSchema, get_field}
use altr_stream.Ast.{FieldPath, full_path}
use altr_stream.Binding.TypeValidator.{TypeCompatibilityError}

pub data BindError : Type 0 where
  unknown_entity : Text → BindError
  unknown_field : Text → BindError
  incompatible : TypeCompatibilityError → BindError
  -- `segments[0]` of a path with no segment
  index_error : BindError

unfoldable pub find_entity : Text → List EntitySchema → Result BindError EntitySchema
find_entity name [] = err (unknown_entity name)
find_entity name (e ∷ es) = if text_eq e.name name then ok e else find_entity name es

unfoldable pub resolve_entity : Text → SourceSchema → Result BindError EntitySchema
unfolding find_entity
resolve_entity name schema = find_entity name schema.entities

unfoldable pub or_unknown : Text → Option FieldSchema → Result BindError FieldSchema
or_unknown name none = err (unknown_field name)
or_unknown name (some f) = ok f

-- The whole path as a column's name, or else the column of its first segment.
unfoldable pub or_root :
    List Text → Text → EntitySchema → Option FieldSchema → Result BindError FieldSchema
unfolding or_unknown get_field
or_root segments name entity (some f) = ok f
or_root [] name entity none = err index_error
or_root (root ∷ _) name entity none = or_unknown name (get_field entity root)

unfoldable pub resolve_segments : List Text → Text → EntitySchema → Result BindError FieldSchema
unfolding or_unknown or_root get_field
resolve_segments (s ∷ []) name entity = or_unknown s (get_field entity s)
resolve_segments segments name entity = or_root segments name entity (get_field entity name)

unfoldable pub resolve_field_path : FieldPath → EntitySchema → Result BindError FieldSchema
unfolding resolve_segments full_path
resolve_field_path path entity = resolve_segments path.segments (full_path path) entity
