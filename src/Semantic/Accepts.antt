-- ===== src/Semantic/Accepts.antt =====
-- The validator accepts exactly the well-formed queries.
use altr_stream.Base.{◌≡◌, ◌≢◌, ◌↔◌, refl, List, [], ◌∷◌, Option, none, some, is_some, not, arith}
use altr_stream.Base.Result.{raise_if, Passes, Passes-for_each}
use altr_stream.Base.Python.{Python}
use altr_stream.Ast.{
  MutationAssignment, CreateRecord, AltrQueryIr, QueryOperation, read, create, update, delete,
}
use altr_stream.Semantic.Validator.{
  SemanticError, aliases, assigned, validate_projections, validate_mutation_assignments,
  validate_read, validate_create_record, validate_records, validate_create, validate_update,
  validate_delete, validate_operation, validate_ir,
}
use altr_stream.Semantic.WellFormed.{
  GoodRecord, GoodRecords, IsGoodRead, HasNoReadClause, IsGoodCreate, IsGoodUpdate, IsGoodDelete,
  WellFormedAs, WellFormed,
}
use altr_stream.Semantic.Checks.{
  and_then, raise_nonempty, raise_empty, raise_some, distinct, ranking_iff, offset_iff, limit_iff,
  exclusion_iff, no_read_clause_iff,
}
use altr_stream.Semantic.Operands.{where_iff}

raise_none :
    {A : Type 0} (o : Option A) (e : SemanticError)
    → Passes (raise_if (not (is_some o)) e) ↔ (o ≢ none)
raise_none none e = (λ h. cc, λ h. absurd (h refl))
raise_none (some a) e = (λ h. λ p. cc, λ h. refl)

module _ {F : Type 0} where
  -- The four conditions on sorting and paging, as the validator groups them.
  abbrev NoPaging : AltrQueryIr F → Type 0
  NoPaging ir = ((ir.sort ≡ []) × (ir.ranking ≡ none)) × ((ir.limit ≡ none) × (ir.offset ≡ none))

  no_read_clause : {ir : AltrQueryIr F} → ir.projection ≡ [] → NoPaging ir → HasNoReadClause ir
  no_read_clause p n = record {
    projection = p;
    sort = n.0.0;
    ranking = n.0.1;
    limit = n.1.0;
    offset = n.1.1;
  }

  paging : {ir : AltrQueryIr F} → HasNoReadClause ir → NoPaging ir
  paging h = ((h.sort, h.ranking), (h.limit, h.offset))

  record_iff : (r : CreateRecord F) → Passes (validate_create_record r) ↔ GoodRecord r
  unfolding validate_create_record validate_mutation_assignments
  record_iff r = and_then (raise_empty r.assignments _) (distinct _ (assigned r.assignments))

  records_iff :
      (rs : List (CreateRecord F)) (as' : List (MutationAssignment F))
      → Passes (validate_records rs as') ↔ GoodRecords rs as'
  unfolding validate_records validate_mutation_assignments
  records_iff [] [] = (λ h. cc, λ h. absurd (omega arith))
  records_iff [] (a ∷ as') =
      let e = distinct SemanticError.duplicate_assignment (assigned (a ∷ as')) in
      (λ h. (omega arith, e.0 h), λ h. e.1 h.1)
  records_iff (r ∷ rs) as' = Passes-for_each _ GoodRecord (r ∷ rs) record_iff

  create_iff : (ir : AltrQueryIr F) → Passes (validate_create ir) ↔ IsGoodCreate ir
  unfolding validate_create
  create_iff ir =
      let e = and_then (records_iff ir.records ir.assignments) (
        and_then (raise_nonempty ir.projection SemanticError.projection_not_allowed) (
          and_then (raise_some ir.where_clause SemanticError.where_not_allowed)
            (no_read_clause_iff ir))) in
      (
        λ h.
            let (r, (p, (w, n))) = e.0 h in
            record { records = r; where_clause = w; rest = no_read_clause p n },
        λ g. e.1 (g.records, (g.rest.projection, (g.where_clause, paging g.rest))),
      )

module _ {F : Type 0} ⦃py : Python F⦄ where
  read_iff : (ir : AltrQueryIr F) → Passes (validate_read ir) ↔ IsGoodRead ir
  unfolding validate_read validate_projections
  read_iff ir =
      let e = and_then (raise_nonempty ir.assignments SemanticError.assignments_not_allowed) (
        and_then (distinct SemanticError.duplicate_alias (aliases ir.projection)) (
          and_then (ranking_iff ir.ranking) (
            and_then (limit_iff ir.limit ir.ranking) (
              and_then (offset_iff ir.offset)
                (and_then (exclusion_iff ir) (where_iff ir.where_clause)))))) in
      (
        λ h.
            let (a, (p, (r, ((l, lr), (o, (x, w)))))) = e.0 h in
            record {
              assignments = a;
              aliases = p;
              ranking = r;
              limit = l;
              limit_or_ranking = lr;
              offset = o;
              sort_or_ranking = x;
              where_clause = w;
            },
        λ g. e.1 (
          g.assignments,
          (
            g.aliases,
            (
              g.ranking,
              ((g.limit, g.limit_or_ranking), (g.offset, (g.sort_or_ranking, g.where_clause))),
            ),
          ),
        ),
      )

  update_iff : (ir : AltrQueryIr F) → Passes (validate_update ir) ↔ IsGoodUpdate ir
  unfolding validate_update validate_mutation_assignments
  update_iff ir =
      let e = and_then (raise_empty ir.assignments SemanticError.payload_missing) (
        and_then (raise_nonempty ir.records SemanticError.records_not_allowed) (
          and_then (distinct SemanticError.duplicate_assignment (assigned ir.assignments)) (
            and_then (raise_none ir.where_clause SemanticError.where_missing) (
              and_then (raise_nonempty ir.projection SemanticError.projection_not_allowed)
                (and_then (no_read_clause_iff ir) (where_iff ir.where_clause)))))) in
      (
        λ h.
            let (a, (r, (d, (hw, (p, (n, w)))))) = e.0 h in
            record {
              nonempty = a;
              records = r;
              assignments = d;
              has_where = hw;
              where_clause = w;
              rest = no_read_clause p n;
            },
        λ g. e.1 (
          g.nonempty,
          (
            g.records,
            (g.assignments, (g.has_where, (g.rest.projection, (paging g.rest, g.where_clause)))),
          ),
        ),
      )

  delete_iff : (ir : AltrQueryIr F) → Passes (validate_delete ir) ↔ IsGoodDelete ir
  unfolding validate_delete
  delete_iff ir =
      let e = and_then (raise_nonempty ir.assignments SemanticError.assignments_not_allowed) (
        and_then (raise_nonempty ir.projection SemanticError.projection_not_allowed)
          (and_then (no_read_clause_iff ir) (where_iff ir.where_clause))) in
      (
        λ h.
            let (a, (p, (n, w))) = e.0 h in
            record { assignments = a; where_clause = w; rest = no_read_clause p n },
        λ g. e.1 (g.assignments, (g.rest.projection, (paging g.rest, g.where_clause))),
      )

  operation_iff :
      (op : QueryOperation) (ir : AltrQueryIr F)
      → Passes (validate_operation op ir) ↔ WellFormedAs op ir
  unfolding validate_operation
  operation_iff read ir = read_iff ir
  operation_iff create ir = create_iff ir
  operation_iff update ir = update_iff ir
  operation_iff delete ir = delete_iff ir

  -- The validator passes on a query exactly when the query is well formed.
  pub validate_ir-WellFormed : (ir : AltrQueryIr F) → Passes (validate_ir ir) ↔ WellFormed ir
  unfolding validate_ir
  validate_ir-WellFormed ir = operation_iff ir.operation ir
