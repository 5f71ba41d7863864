-- ===== src/Semantic/Normalizer.antt =====
-- src/altr_stream/query_engine/semantic/normalizer.py
use altr_stream.Base.{List, [], ◌∷◌, Option, none, some}
use altr_stream.Ast.{
  Expression, QueryOperation, MutationAssignment, CreateRecord, AltrQueryIr, field_expression,
  logical, negation, create,
}

module _ {F : Type 0} where
  unfoldable pub normalize_expression : Expression F → Expression F
  normalize_expression (field_expression e) =
      field_expression (record { field = e.field; operator = e.operator; operand = e.operand })
  normalize_expression (negation e) = negation (normalize_expression e)
  normalize_expression (logical op l r) =
      logical op (normalize_expression l) (normalize_expression r)

  unfoldable pub normalize_where : Option (Expression F) → Option (Expression F)
  unfolding normalize_expression
  normalize_where none = none
  normalize_where (some e) = some (normalize_expression e)

  unfoldable pub copy_records : List (CreateRecord F) → List (CreateRecord F)
  copy_records [] = []
  copy_records (r ∷ rs) = record { assignments = r.assignments } ∷ copy_records rs

  unfoldable pub normalize_records :
      QueryOperation → List (CreateRecord F) → List (MutationAssignment F) → List (CreateRecord F)
  unfolding copy_records
  normalize_records operation (r ∷ rs) assignments = copy_records (r ∷ rs)
  normalize_records create [] (a ∷ assignments) = record { assignments = a ∷ assignments } ∷ []
  normalize_records _ [] _ = []

  unfoldable pub normalize_ir : AltrQueryIr F → AltrQueryIr F
  unfolding normalize_where normalize_records
  normalize_ir ir = record {
    operation = ir.operation;
    entity = ir.entity;
    projection = ir.projection;
    where_clause = normalize_where ir.where_clause;
    assignments = ir.assignments;
    records = normalize_records ir.operation ir.records ir.assignments;
    sort = ir.sort;
    ranking = ir.ranking;
    limit = ir.limit;
    offset = ir.offset;
  }
