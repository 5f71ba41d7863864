-- ===== src/Semantic/WellFormed.antt =====
-- An independent description of the queries that the validator accepts: what each kind of query
-- may hold, distinct names, bounds of ranges in order.
use altr_stream.Base.{
  Text, text_gt, ℤ, le_zero, lt_zero, ◌≡◌, ◌≢◌, ◌⊎◌, false, List, [], ◌∷◌, Option, none, some, All,
  ◌≤◌, length,
}
use altr_stream.Base.Python.{Python}
use altr_stream.Ast.{
  Literal, Element, Operator, Operand, Expression, MutationAssignment, CreateRecord, RankingClause,
  AltrQueryIr, field_expression, logical, negation, QueryOperation, read, create, update, delete,
}
use altr_stream.Semantic.Validator.{aliases, assigned}

-- `name` is none of the names.
abbrev pub Fresh : Text → List Text → Type 0
Fresh name names = All (λ other. name ≢ other) names

-- The names differ from one another.
abbrev pub Distinct : List Text → Type 0
Distinct [] = Unit
Distinct (name ∷ names) = Fresh name names × Distinct names

abbrev pub IsPositive : Option ℤ → Type 0
IsPositive none = Unit
IsPositive (some n) = le_zero n ≡ false

abbrev pub IsNonnegative : Option ℤ → Type 0
IsNonnegative none = Unit
IsNonnegative (some n) = lt_zero n ≡ false

abbrev pub IsPositiveRanking : Option RankingClause → Type 0
IsPositiveRanking none = Unit
IsPositiveRanking (some r) = le_zero r.count ≡ false

module _ {F : Type 0} where
  abbrev pub IsString : Element F → Type 0
  IsString (Element.literal (Literal.string _)) = Unit
  IsString _ = ⊥

  abbrev pub GoodRecord : CreateRecord F → Type 0
  GoodRecord r = (1 ≤ length r.assignments) × Distinct (assigned r.assignments)

  abbrev pub GoodRecords : List (CreateRecord F) → List (MutationAssignment F) → Type 0
  GoodRecords [] assignments = (1 ≤ length assignments) × Distinct (assigned assignments)
  GoodRecords (r ∷ records) assignments = All GoodRecord (r ∷ records)

  -- No projection, SORT, TOP/BOTTOM, LIMIT or OFFSET.
  pub record HasNoReadClause (ir : AltrQueryIr F) : Type 0 where
    pub projection : ir.projection ≡ []
    pub sort : ir.sort ≡ []
    pub ranking : ir.ranking ≡ none
    pub limit : ir.limit ≡ none
    pub offset : ir.offset ≡ none

  pub record IsGoodCreate (ir : AltrQueryIr F) : Type 0 where
    pub records : GoodRecords ir.records ir.assignments
    pub where_clause : ir.where_clause ≡ none
    pub rest : HasNoReadClause ir

module _ {F : Type 0} ⦃py : Python F⦄ where
  -- The start of a range is at most its end, where the two are of one ordered kind. A bound that
  -- is an integer must have a float value.
  abbrev pub Ordered : Literal F → Literal F → Type 0
  Ordered (Literal.integer m) (Literal.integer n) =
      (x : F) × (y : F) × (py.float_of_int m ≡ some x)
      × (py.float_of_int n ≡ some y)
      × (py.float_gt x y ≡ false)
  Ordered (Literal.integer m) (Literal.float y) =
      (x : F) × (py.float_of_int m ≡ some x) × (py.float_gt x y ≡ false)
  Ordered (Literal.float x) (Literal.integer n) =
      (y : F) × (py.float_of_int n ≡ some y) × (py.float_gt x y ≡ false)
  Ordered (Literal.float x) (Literal.float y) = py.float_gt x y ≡ false
  Ordered (Literal.string s) (Literal.string t) = text_gt s t ≡ false
  Ordered (Literal.temporal _ (some s)) (Literal.temporal _ (some t)) = text_gt s t ≡ false
  Ordered (Literal.temporal _ _) (Literal.temporal _ _) = Unit
  Ordered _ _ = ⊥

  abbrev pub GoodElement : Element F → Type 0
  GoodElement (Element.range r) = Ordered r.start r.finish
  GoodElement (Element.compound_and cs) = 2 ≤ length cs
  GoodElement _ = Unit

  abbrev pub GoodSet : List (Element F) → Type 0
  GoodSet elements = (1 ≤ length elements) × All GoodElement elements

  -- A string operator takes a string, or a set of strings.
  abbrev pub GoodOperand : Operator → Operand F → Type 0
  GoodOperand (Operator.string _) (Operand.literal (Literal.string _)) = Unit
  GoodOperand (Operator.string _) (Operand.value_set elements) =
      (1 ≤ length elements) × All IsString elements
  GoodOperand (Operator.string _) _ = ⊥
  GoodOperand (Operator.comparison _) (Operand.range r) = Ordered r.start r.finish
  GoodOperand (Operator.comparison _) (Operand.value_set elements) = GoodSet elements
  GoodOperand (Operator.comparison _) (Operand.literal _) = Unit

  abbrev pub GoodExpression : Expression F → Type 0
  GoodExpression (field_expression e) = GoodOperand e.operator e.operand
  GoodExpression (logical _ l r) = GoodExpression l × GoodExpression r
  GoodExpression (negation e) = GoodExpression e

  abbrev pub GoodWhere : Option (Expression F) → Type 0
  GoodWhere none = Unit
  GoodWhere (some e) = GoodExpression e

  -- A READ query holds no assignments, and at most one of SORT and TOP/BOTTOM, and of LIMIT and
  -- TOP/BOTTOM.
  pub record IsGoodRead (ir : AltrQueryIr F) : Type 0 where
    pub assignments : ir.assignments ≡ []
    pub aliases : Distinct (aliases ir.projection)
    pub ranking : IsPositiveRanking ir.ranking
    pub limit : IsPositive ir.limit
    pub limit_or_ranking : (ir.limit ≡ none) ⊎ (ir.ranking ≡ none)
    pub offset : IsNonnegative ir.offset
    pub sort_or_ranking : (ir.sort ≡ []) ⊎ (ir.ranking ≡ none)
    pub where_clause : GoodWhere ir.where_clause

  pub record IsGoodUpdate (ir : AltrQueryIr F) : Type 0 where
    pub nonempty : 1 ≤ length ir.assignments
    pub records : ir.records ≡ []
    pub assignments : Distinct (assigned ir.assignments)
    pub has_where : ir.where_clause ≢ none
    pub where_clause : GoodWhere ir.where_clause
    pub rest : HasNoReadClause ir

  pub record IsGoodDelete (ir : AltrQueryIr F) : Type 0 where
    pub assignments : ir.assignments ≡ []
    pub where_clause : GoodWhere ir.where_clause
    pub rest : HasNoReadClause ir

  abbrev pub WellFormedAs : QueryOperation → AltrQueryIr F → Type 0
  WellFormedAs read = IsGoodRead
  WellFormedAs create = IsGoodCreate
  WellFormedAs update = IsGoodUpdate
  WellFormedAs delete = IsGoodDelete

  abbrev pub WellFormed : AltrQueryIr F → Type 0
  WellFormed ir = WellFormedAs ir.operation ir
