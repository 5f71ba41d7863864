-- ===== src/Semantic/Idempotent.antt =====
-- What `normalize_ir` keeps: it is idempotent, and a well-formed query stays well formed.
use altr_stream.Base.{◌≡◌, refl, ap, List, [], ◌∷◌, Option, none, some}
use altr_stream.Base.Result.{Passes}
use altr_stream.Base.Python.{Python}
use altr_stream.Ast.{
  Expression, QueryOperation, MutationAssignment, CreateRecord, AltrQueryIr, field_expression,
  logical, negation, read, create, update, delete,
}
use altr_stream.Semantic.Normalizer.{
  normalize_expression, normalize_where, copy_records, normalize_records, normalize_ir,
}
use altr_stream.Semantic.Validator.{validate_ir}
use altr_stream.Semantic.WellFormed.{GoodRecords, HasNoReadClause, WellFormedAs}
use altr_stream.Semantic.Accepts.{validate_ir-WellFormed}

module _ {F : Type 0} where
  normalize_expression_self : (e : Expression F) → normalize_expression e ≡ e
  unfolding normalize_expression
  normalize_expression_self (field_expression e) = refl
  normalize_expression_self (negation e) = ap negation (normalize_expression_self e)
  normalize_expression_self (logical op l r) =
      cc (normalize_expression_self l, normalize_expression_self r)

  normalize_where_self : (w : Option (Expression F)) → normalize_where w ≡ w
  unfolding normalize_where
  normalize_where_self none = refl
  normalize_where_self (some e) = ap some (normalize_expression_self e)

  copy_records_self : (rs : List (CreateRecord F)) → copy_records rs ≡ rs
  unfolding copy_records
  copy_records_self [] = refl
  copy_records_self (r ∷ rs) = ap (λ l. r ∷ l) (copy_records_self rs)

  normalize_records_idem :
      (op : QueryOperation) (rs : List (CreateRecord F)) (as' : List (MutationAssignment F))
      → normalize_records op (normalize_records op rs as') as' ≡ normalize_records op rs as'
  unfolding normalize_records
  normalize_records_idem op (r ∷ rs) as' = cc (copy_records_self (r ∷ rs))
  normalize_records_idem create [] (a ∷ as') = refl
  normalize_records_idem create [] [] = refl
  normalize_records_idem op [] as' = refl

  -- Normalizing twice is normalizing once.
  pub normalize_ir_idem : (ir : AltrQueryIr F) → normalize_ir (normalize_ir ir) ≡ normalize_ir ir
  unfolding normalize_ir
  normalize_ir_idem ir = λ i. record {
    operation = ir.operation;
    entity = ir.entity;
    projection = ir.projection;
    where_clause = normalize_where_self (normalize_where ir.where_clause) i;
    assignments = ir.assignments;
    records = normalize_records_idem ir.operation ir.records ir.assignments i;
    sort = ir.sort;
    ranking = ir.ranking;
    limit = ir.limit;
    offset = ir.offset;
  }

  GoodRecords-normalize_records :
      (rs : List (CreateRecord F)) (as' : List (MutationAssignment F))
      → GoodRecords rs as'
      → GoodRecords (normalize_records create rs as') as'
  unfolding normalize_records
  GoodRecords-normalize_records (r ∷ rs) as' h = rw copy_records_self h
  GoodRecords-normalize_records [] (a ∷ as') h = (h, tt)
  GoodRecords-normalize_records [] [] h = h

  no_update_records :
      (op : QueryOperation) (rs : List (CreateRecord F)) (as' : List (MutationAssignment F))
      → op ≡ update
      → rs ≡ []
      → normalize_records op rs as' ≡ []
  unfolding normalize_records
  no_update_records update [] as' e h = refl
  no_update_records update (r ∷ rs) as' e h = cc
  no_update_records op rs as' e h = cc

  -- No READ clause is added.
  HasNoReadClause-normalize_ir :
      {ir : AltrQueryIr F} → HasNoReadClause ir → HasNoReadClause (normalize_ir ir)
  unfolding normalize_ir
  HasNoReadClause-normalize_ir h = record {
    projection = h.projection;
    sort = h.sort;
    ranking = h.ranking;
    limit = h.limit;
    offset = h.offset;
  }

module _ {F : Type 0} ⦃py : Python F⦄ where
  well_formed_as :
      (op : QueryOperation) (ir : AltrQueryIr F)
      → ir.operation ≡ op
      → WellFormedAs op ir
      → WellFormedAs op (normalize_ir ir)
  unfolding normalize_ir
  well_formed_as read ir e h = record {
    assignments = h.assignments;
    aliases = h.aliases;
    ranking = h.ranking;
    limit = h.limit;
    limit_or_ranking = h.limit_or_ranking;
    offset = h.offset;
    sort_or_ranking = h.sort_or_ranking;
    where_clause = rw normalize_where_self h.where_clause;
  }
  well_formed_as create ir e h = record {
    records = rw e (GoodRecords-normalize_records ir.records ir.assignments h.records);
    where_clause = rw normalize_where_self h.where_clause;
    rest = HasNoReadClause-normalize_ir h.rest;
  }
  well_formed_as update ir e h = record {
    nonempty = h.nonempty;
    records = no_update_records ir.operation ir.records ir.assignments e h.records;
    assignments = h.assignments;
    has_where = rw normalize_where_self h.has_where;
    where_clause = rw normalize_where_self h.where_clause;
    rest = HasNoReadClause-normalize_ir h.rest;
  }
  well_formed_as delete ir e h = record {
    assignments = h.assignments;
    where_clause = rw normalize_where_self h.where_clause;
    rest = HasNoReadClause-normalize_ir h.rest;
  }

  -- A query that passes the validator still passes once it is normalized.
  pub validate_ir-normalize_ir :
      (ir : AltrQueryIr F) → Passes (validate_ir ir) → Passes (validate_ir (normalize_ir ir))
  unfolding normalize_ir
  validate_ir-normalize_ir ir h =
      (validate_ir-WellFormed (normalize_ir ir)).1
        (well_formed_as ir.operation ir refl ((validate_ir-WellFormed ir).0 h))
