-- ===== src/Resolving.antt =====
-- `resolve_logical_ir` of query_engine/binding/logical_resolver.py: a query on logical names becomes one
-- on the names of a mapping's source.
pub mod Columns
use altr_stream.Base.{
  Text, text_eq, Bool, true, false, ◌&&◌, ◌||◌, List, [], ◌∷◌, map, Option, none, some, is_some,
  if◌then◌else◌,
}
use altr_stream.Base.Result.{Result, ok, err}
use altr_stream.Ast.{
  FieldPath, FieldSelection, Literal, FieldExpression, Expression, MutationAssignment, CreateRecord,
  SortClause, RankingClause, AltrQueryIr,
}
use altr_stream.Mapping.{
  Casing, FieldMapping, EntityMapping, SourceMapping, find, or_find, given, rstrip_s,
}
use altr_stream.Merger.{Dict, get, put, leaf_of, path_leaf}

-- LogicalEntityNotFoundError: the entity and the model
pub data ResolveError : Type 0 where
  entity_not_found : Text → Text → ResolveError

-- `path.root`, of a path with a segment
abbrev pub path_root : List Text → Text
path_root [] = []
path_root (s ∷ ss) = s

module _ (casing : Casing) where
  -- `name.lower() if name else ""`
  abbrev pub lower_or_empty : Text → Text
  lower_or_empty [] = []
  lower_or_empty (c ∷ s) = casing.lower (c ∷ s)

  abbrev pub stem_is : Text → Text → Bool
  unfolding text_eq rstrip_s
  stem_is name target = given name && text_eq (rstrip_s name) target

  -- The entity mapping is of the entity, by one of its names.
  unfoldable pub maps_entity : Text → EntityMapping → Bool
  unfolding text_eq rstrip_s
  maps_entity entity em =
      let target_clean = rstrip_s (casing.lower (casing.strip entity)) in
      let log_name = lower_or_empty em.logical_entity_name in
      let phys_name = lower_or_empty em.physical_entity_name in
      let log_id = lower_or_empty em.logical_entity_id in
      text_eq log_name (casing.lower entity)
      || text_eq log_id (casing.lower entity)
      || text_eq phys_name (casing.lower entity)
      || stem_is log_name target_clean
      || stem_is phys_name target_clean

  -- The four keys of each field mapping, the later ones over the earlier.
  unfoldable pub field_map_from : Dict Text → List FieldMapping → Dict Text
  unfolding put
  field_map_from d [] = d
  field_map_from d (fm ∷ fms) =
      field_map_from
        (put fm.physical_field_name fm.physical_field_name (
          put (casing.lower fm.physical_field_name) fm.physical_field_name (
            put fm.logical_field_id fm.physical_field_name
              (put (casing.lower fm.logical_field_name) fm.physical_field_name d))))
        fms

  abbrev pub put_alias : Text → Option Text → Dict Text → Dict Text
  unfolding put
  put_alias alias none d = d
  put_alias alias (some column) d = put (casing.lower alias) column d

  -- An alias stands for the column of its field.
  abbrev pub with_alias : FieldSelection → Dict Text → Dict Text
  unfolding get put
  with_alias sel d = elim sel.alias [
    | some (c ∷ alias) ↦
        put_alias (c ∷ alias) (get (casing.lower (path_root sel.path.segments)) d) d
    | _ ↦ d
  ]

  unfoldable pub add_aliases : Dict Text → List FieldSelection → Dict Text
  unfolding get put
  add_aliases d [] = d
  add_aliases d (sel ∷ sels) = add_aliases (with_alias sel d) sels

  -- The first segment becomes a column, if there is one.
  abbrev pub with_root : Option Text → FieldPath → FieldPath
  with_root none p = p
  with_root (some column) p = elim p.segments [
    | [] ↦ p
    | s ∷ ss ↦ record { segments = column ∷ ss }
  ]

  -- `_resolve_field_path`: in lower case, or as it is
  unfoldable pub resolve_path : Dict Text → FieldPath → FieldPath
  unfolding get
  resolve_path d p =
      with_root
        (or_find (get (casing.lower (path_root p.segments)) d) (get (path_root p.segments) d)) p

  module _ {F : Type 0} where
    -- `_resolve_expression`
    unfoldable pub resolve_expression : Dict Text → Expression F → Expression F
    unfolding resolve_path
    resolve_expression d (Expression.field_expression e) =
        Expression.field_expression
          (record { field = resolve_path d e.field; operator = e.operator; operand = e.operand })
    resolve_expression d (Expression.logical op l r) =
        Expression.logical op (resolve_expression d l) (resolve_expression d r)
    resolve_expression d (Expression.negation e) = Expression.negation (resolve_expression d e)

    unfoldable pub resolve_where : Dict Text → Option (Expression F) → Option (Expression F)
    unfolding resolve_expression
    resolve_where d none = none
    resolve_where d (some e) = some (resolve_expression d e)

    unfoldable pub resolve_assignment : Dict Text → MutationAssignment F → MutationAssignment F
    unfolding resolve_path
    resolve_assignment d a = record { field = resolve_path d a.field; value = a.value }

    unfoldable pub resolve_record : Dict Text → CreateRecord F → CreateRecord F
    unfolding resolve_assignment
    resolve_record d r = record { assignments = map (resolve_assignment d) r.assignments }

  -- The alias of a column that is not spelled like its field.
  unfoldable pub resolved_alias : FieldPath → FieldPath → Option Text → Option Text
  unfolding leaf_of text_eq
  resolved_alias resolved path (some alias) = some alias
  resolved_alias resolved path none =
      if text_eq (path_leaf resolved.segments) (path_leaf path.segments)
      then none
      else some (path_leaf path.segments)

  unfoldable pub resolve_selection : Dict Text → FieldSelection → FieldSelection
  unfolding resolve_path resolved_alias
  resolve_selection d sel = record {
    path = resolve_path d sel.path;
    alias = resolved_alias (resolve_path d sel.path) sel.path sel.alias;
  }

  unfoldable pub resolve_sort : Dict Text → SortClause → SortClause
  unfolding resolve_path
  resolve_sort d s = record { field = resolve_path d s.field; direction = s.direction }

  unfoldable pub resolve_ranking : Dict Text → Option RankingClause → Option RankingClause
  unfolding resolve_path
  resolve_ranking d none = none
  resolve_ranking d (some r) =
      some (record { direction = r.direction; count = r.count; field = resolve_path d r.field })

  unfoldable pub resolve_with : {F : Type 0} → EntityMapping → AltrQueryIr F → AltrQueryIr F
  unfolding field_map_from add_aliases resolve_selection resolve_where resolve_assignment
      resolve_record resolve_sort resolve_ranking
  resolve_with em ir =
      let d = add_aliases (field_map_from [] em.field_mappings) ir.projection in
      record {
        operation = ir.operation;
        entity = em.physical_entity_name;
        projection = map (resolve_selection d) ir.projection;
        where_clause = resolve_where d ir.where_clause;
        assignments = map (resolve_assignment d) ir.assignments;
        records = map (resolve_record d) ir.records;
        sort = map (resolve_sort d) ir.sort;
        ranking = resolve_ranking d ir.ranking;
        limit = ir.limit;
        offset = ir.offset;
      }

  unfoldable pub resolve_found :
      {F : Type 0}
      → Text
      → Option EntityMapping
      → AltrQueryIr F
      → Result ResolveError (AltrQueryIr F)
  unfolding resolve_with
  resolve_found model_id none ir = err (ResolveError.entity_not_found ir.entity model_id)
  resolve_found model_id (some em) ir = ok (resolve_with em ir)

  unfoldable pub resolve_logical_ir :
      {F : Type 0} → AltrQueryIr F → SourceMapping → Result ResolveError (AltrQueryIr F)
  unfolding find maps_entity resolve_found
  resolve_logical_ir ir mapping =
      resolve_found mapping.logical_model_id (find (maps_entity ir.entity) mapping.entity_mappings)
        ir
