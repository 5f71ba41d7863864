-- ===== src/Resolving/Columns.antt =====
-- A resolved query has the output columns of the logical one.
use altr_stream.Base.{
  Text, text_eq, text_eq_iff, List, [], ◌∷◌, map, Option, none, some, All, ◌≡◌, ◌≢◌, refl, sym, ap,
  ◌∙◌, inl, inr, Bool-cases,
}
use altr_stream.Base.Result.{ok, ok-injective}
use altr_stream.Ast.{FieldPath, FieldSelection, AltrQueryIr}
use altr_stream.Mapping.{Casing, EntityMapping, SourceMapping, find}
use altr_stream.Merger.{Values, Dict, leaf_of, path_leaf}
use altr_stream.Merger.Merge.{out_column}
use altr_stream.Resolving.{
  resolve_path, resolved_alias, resolve_selection, resolve_with, resolve_found, resolve_logical_ir,
  maps_entity, add_aliases, field_map_from,
}

-- The last segment of the path, and the alias if there is one, are not empty.
pub record Named (sel : FieldSelection) : Type 0 where
  pub leaf : path_leaf sel.path.segments ≢ []
  pub alias : sel.alias ≢ some []

module _ {V : Type 0} (values : Values V) (casing : Casing) where
  -- `alias or leaf`
  abbrev column : Option Text → Text → Text
  column (some (c ∷ a)) leaf = c ∷ a
  column _ leaf = leaf

  column_given : (leaf other : Text) → leaf ≢ [] → column (some leaf) other ≡ leaf
  column_given [] other h = absurd (h refl)
  column_given (c ∷ s) other h = refl

  out_column-column :
      (path : FieldPath) (alias : Option Text)
      → out_column values (record { path = path; alias = alias })
        ≡ column alias (path_leaf path.segments)
  unfolding leaf_of
  out_column-column path none = refl
  out_column-column path (some []) = refl
  out_column-column path (some (c ∷ a)) = refl

  column-resolved_alias :
      (resolved path : FieldPath) (alias : Option Text)
      → path_leaf path.segments ≢ []
      → alias ≢ some []
      → column (resolved_alias casing resolved path alias) (path_leaf resolved.segments)
        ≡ column alias (path_leaf path.segments)
  unfolding resolved_alias
  column-resolved_alias resolved path (some []) h k = absurd (k refl)
  column-resolved_alias resolved path (some (c ∷ a)) h k = refl
  column-resolved_alias resolved path none h k =
      elim (Bool-cases (text_eq (path_leaf resolved.segments) (path_leaf path.segments))) [
        | inl same ↦
            rw same ((text_eq_iff (path_leaf resolved.segments) (path_leaf path.segments)).0 same)
        | inr differs ↦
            rw differs (column_given (path_leaf path.segments) (path_leaf resolved.segments) h)
      ]

  out_column-resolve_selection :
      (d : Dict Text) (sel : FieldSelection)
      → Named sel
      → out_column values (resolve_selection casing d sel) ≡ out_column values sel
  unfolding resolve_selection
  out_column-resolve_selection d sel h =
      out_column-column (resolve_path casing d sel.path)
        (resolved_alias casing (resolve_path casing d sel.path) sel.path sel.alias)
      ∙ column-resolved_alias (resolve_path casing d sel.path) sel.path sel.alias h.leaf h.alias
      ∙ sym (out_column-column sel.path sel.alias)

  map-resolve_selection :
      (d : Dict Text) (sels : List FieldSelection)
      → All Named sels
      → map (out_column values) (map (resolve_selection casing d) sels)
        ≡ map (out_column values) sels
  map-resolve_selection d [] h = refl
  map-resolve_selection d (sel ∷ sels) h =
      rw (out_column-resolve_selection d sel h.0, map-resolve_selection d sels h.1) refl

  columns-resolve_found :
      {F : Type 0} (ir resolved : AltrQueryIr F) (model_id : Text) (em : Option EntityMapping)
      → All Named ir.projection
      → resolve_found casing model_id em ir ≡ ok resolved
      → map (out_column values) resolved.projection ≡ map (out_column values) ir.projection
  unfolding resolve_found resolve_with
  columns-resolve_found ir resolved model_id none h e = cc
  columns-resolve_found ir resolved model_id (some em) h e =
      sym (ap (λ r. map (out_column values) r.projection) (ok-injective e))
      ∙ map-resolve_selection
          (add_aliases casing (field_map_from casing [] em.field_mappings) ir.projection)
          ir.projection h

  -- Where no name of the projection is empty, a query that is resolved against a mapping has the output
  -- columns of the logical query, in its order, whatever the columns of the source are called.
  pub columns-resolve_logical_ir :
      {F : Type 0} (ir resolved : AltrQueryIr F) (mapping : SourceMapping)
      → All Named ir.projection
      → resolve_logical_ir casing ir mapping ≡ ok resolved
      → map (out_column values) resolved.projection ≡ map (out_column values) ir.projection
  unfolding resolve_logical_ir
  columns-resolve_logical_ir ir resolved mapping h e =
      columns-resolve_found ir resolved mapping.logical_model_id
        (find (maps_entity casing ir.entity) mapping.entity_mappings) h e
