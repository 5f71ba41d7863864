-- ===== src/BoundAst.antt =====
-- src/altr_stream/query_engine/domain/bound_ast.py: a query whose names are resolved in a schema.
use altr_stream.Base.{Text, ℤ, Bool, List, Option}
use altr_stream.Schema.{StandardDataType}
use altr_stream.Ast.{
  FieldPath, Literal, Operator, Operand, LogicalOperator, QueryOperation, SortDirection,
  RankingDirection,
}

pub data LogicalTypeCategory : Type 0 where
  numeric string boolean temporal unknown : LogicalTypeCategory

pub record BoundFieldPath : Type 0 where
  pub path : FieldPath
  pub data_type : StandardDataType
  pub logical_category : LogicalTypeCategory
  pub native_type : Text
  pub nullable : Bool
  pub is_primary_key : Bool

pub record BoundFieldSelection : Type 0 where
  pub field : BoundFieldPath
  pub alias : Option Text

pub record BoundMutationAssignment (F : Type 0) : Type 0 where
  pub field : BoundFieldPath
  pub value : Literal F

pub record BoundCreateRecord (F : Type 0) : Type 0 where
  pub assignments : List (BoundMutationAssignment F)

pub record BoundEntity : Type 0 where
  pub name : Text
  pub namespace : Text
  pub entity_type : Text
  pub comment : Option Text
  pub primary_key : List Text

pub record BoundFieldExpression (F : Type 0) : Type 0 where
  pub field : BoundFieldPath
  pub operator : Operator
  pub operand : Operand F

pub data BoundExpression (F : Type 0) : Type 0 where
  field_expression : BoundFieldExpression F → BoundExpression F
  logical : LogicalOperator → BoundExpression F → BoundExpression F → BoundExpression F
  negation : BoundExpression F → BoundExpression F

pub record BoundSortClause : Type 0 where
  pub field : BoundFieldPath
  pub direction : SortDirection

pub record BoundRankingClause : Type 0 where
  pub direction : RankingDirection
  pub count : ℤ
  pub field : BoundFieldPath

pub record BoundAltrQueryIr (F : Type 0) : Type 0 where
  pub operation : QueryOperation
  pub entity : BoundEntity
  pub projection : List BoundFieldSelection
  pub where_clause : Option (BoundExpression F)
  pub assignments : List (BoundMutationAssignment F)
  pub records : List (BoundCreateRecord F)
  pub sort : List BoundSortClause
  pub ranking : Option BoundRankingClause
  pub limit : Option ℤ
  pub offset : Option ℤ
  pub source_id : Text
  pub source_name : Text
