-- ===== src/Ast.antt =====
-- src/altr_stream/query_engine/domain/operators.py and ast.py: the intermediate representation
-- (IR) of an AltrQL query. `F` is the type of floats.
use altr_stream.Base.{Text, codes, join, ℤ, Bool, List, [], Option, none}

pub data ComparisonOperator : Type 0 where
  eq neq gt lt gte lte : ComparisonOperator

pub data StringOperator : Type 0 where
  starts ends has not_has : StringOperator

pub data SortDirection : Type 0 where
  asc desc : SortDirection

pub data RankingDirection : Type 0 where
  top bottom : RankingDirection

pub data TemporalKeyword : Type 0 where
  today now : TemporalKeyword

pub record FieldPath : Type 0 where
  pub segments : List Text

unfoldable pub full_path : FieldPath → Text
full_path p = join (codes ".") p.segments

pub record FieldSelection : Type 0 where
  pub path : FieldPath
  pub alias : Option Text

pub data Literal (F : Type 0) : Type 0 where
  string : Text → Literal F
  integer : ℤ → Literal F
  float : F → Literal F
  boolean : Bool → Literal F
  null : Literal F
  -- the keyword and the value
  temporal : Option TemporalKeyword → Option Text → Literal F

pub record Range (F : Type 0) : Type 0 where
  pub start : Literal F
  pub finish : Literal F
  pub inclusive : Bool

pub record Constraint (F : Type 0) : Type 0 where
  pub operator : ComparisonOperator
  pub value : Literal F

pub data Element (F : Type 0) : Type 0 where
  literal : Literal F → Element F
  range : Range F → Element F
  comparison : Constraint F → Element F
  compound_and : List (Constraint F) → Element F

pub data Operator : Type 0 where
  comparison : ComparisonOperator → Operator
  string : StringOperator → Operator

pub data Operand (F : Type 0) : Type 0 where
  literal : Literal F → Operand F
  value_set : List (Element F) → Operand F
  range : Range F → Operand F

pub data LogicalOperator : Type 0 where
  and or : LogicalOperator

pub record FieldExpression (F : Type 0) : Type 0 where
  pub field : FieldPath
  pub operator : Operator
  pub operand : Operand F

pub data Expression (F : Type 0) : Type 0 where
  field_expression : FieldExpression F → Expression F
  logical : LogicalOperator → Expression F → Expression F → Expression F
  negation : Expression F → Expression F

pub data QueryOperation : Type 0 where
  read create update delete : QueryOperation

pub record MutationAssignment (F : Type 0) : Type 0 where
  pub field : FieldPath
  pub value : Literal F

pub record CreateRecord (F : Type 0) : Type 0 where
  pub assignments : List (MutationAssignment F)

pub record SortClause : Type 0 where
  pub field : FieldPath
  pub direction : SortDirection

pub record RankingClause : Type 0 where
  pub direction : RankingDirection
  pub count : ℤ
  pub field : FieldPath

pub record AltrQueryIr (F : Type 0) : Type 0 where
  pub operation : QueryOperation
  pub entity : Text
  pub projection : List FieldSelection
  pub where_clause : Option (Expression F)
  pub assignments : List (MutationAssignment F)
  pub records : List (CreateRecord F)
  pub sort : List SortClause
  pub ranking : Option RankingClause
  pub limit : Option ℤ
  pub offset : Option ℤ

-- The IR with the defaults of every field but the first two.
abbrev pub new_ir : {F : Type 0} → QueryOperation → Text → AltrQueryIr F
new_ir operation entity = record {
  operation = operation;
  entity = entity;
  projection = [];
  where_clause = none;
  assignments = [];
  records = [];
  sort = [];
  ranking = none;
  limit = none;
  offset = none;
}
