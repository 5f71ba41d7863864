-- ===== src/Classification.antt =====
-- src/altr_stream/query_engine/classification/: what a bound query may change, and whether it must
-- be confirmed. The human-readable `description` is left out.
pub mod Confirmation
use altr_stream.Base.{Text, Bool, true, false, Option, none, some}
use altr_stream.Ast.{QueryOperation, read, create, update, delete}
use altr_stream.BoundAst.{BoundExpression, BoundAltrQueryIr}

pub data MutationScope : Type 0 where
  not_applicable constrained mass : MutationScope

pub record MutationClassification : Type 0 where
  pub operation : QueryOperation
  pub mutation_scope : MutationScope
  pub requires_confirmation : Bool
  pub entity : Text

-- `if query.where is None`, in the branches of UPDATE and DELETE
unfoldable pub classify_mutation :
    {F : Type 0} → QueryOperation → Text → Option (BoundExpression F) → MutationClassification
classify_mutation operation entity none = record {
  operation = operation;
  mutation_scope = mass;
  requires_confirmation = true;
  entity = entity;
}
classify_mutation operation entity (some _) = record {
  operation = operation;
  mutation_scope = constrained;
  requires_confirmation = false;
  entity = entity;
}

abbrev harmless : QueryOperation → Text → MutationClassification
harmless operation entity = record {
  operation = operation;
  mutation_scope = not_applicable;
  requires_confirmation = false;
  entity = entity;
}

unfoldable pub classify :
    {F : Type 0} → QueryOperation → BoundAltrQueryIr F → MutationClassification
unfolding classify_mutation
classify read query = harmless read query.entity.name
classify create query = harmless create query.entity.name
classify update query = classify_mutation update query.entity.name query.where_clause
classify delete query = classify_mutation delete query.entity.name query.where_clause

unfoldable pub classify_query : {F : Type 0} → BoundAltrQueryIr F → MutationClassification
unfolding classify
classify_query query = classify query.operation query
