-- ===== src/Lowering/Queries.antt =====
-- `lower` of the three lowerers: expressions, the clauses of a statement, the groups of a CREATE.
use altr_stream.Base.{
  Text, codes, Bool, false, ◌&&◌, ℤ, List, [], ◌∷◌, ◌++◌, map, Option, none, some, ◌==◌,
  if◌then◌else◌,
}
use altr_stream.Ast.{
  LogicalOperator, SortDirection, RankingDirection, ComparisonOperator, Operator, Operand,
}
use altr_stream.BoundAst.{
  BoundFieldSelection, BoundMutationAssignment, BoundExpression, BoundFieldExpression,
  BoundSortClause, BoundRankingClause, BoundAltrQueryIr,
}
use altr_stream.Lowering.Sql.{Param, Lower, Host, Sql, raw, text, ◌<>◌, joined, edited, render}
use altr_stream.Lowering.Dialect.{
  lit, Dialect, is_timestamp, with_column, at_column, at_leaf, lower_literal,
}
use altr_stream.Lowering.Strings.{string_predicate}

-- A column under a comparison operator, of a timestamp type or not.
abbrev pub Comparing : Type 0 → Type 0 → Type 0
Comparing D F = Text → Bool → ComparisonOperator → Operand F → Lower (Param D F) Sql

abbrev pub logical_text : LogicalOperator → Text
logical_text LogicalOperator.and = codes "AND"
logical_text LogicalOperator.or = codes "OR"

-- `s.endswith(")")`
unfoldable pub ends_with_close : Text → Bool
ends_with_close [] = false
ends_with_close (c ∷ []) = c == b')'
ends_with_close (c ∷ d ∷ s) = ends_with_close (d ∷ s)

-- `s.startswith("(")`
unfoldable pub starts_with_open : Text → Bool
starts_with_open [] = false
starts_with_open (c ∷ s) = c == b'('

abbrev pub ranking_text : RankingDirection → Text
ranking_text RankingDirection.top = codes " DESC"
ranking_text RankingDirection.bottom = codes " ASC"

abbrev pub direction_text : SortDirection → Text
direction_text SortDirection.asc = codes " ASC"
direction_text SortDirection.desc = codes " DESC"

abbrev pub limit_val : {F : Type 0} → BoundAltrQueryIr F → Option ℤ
limit_val q = elim q.ranking [ some r ↦ some r.count | none ↦ q.limit ]

module _ {D F : Type 0} (d : Dialect D F) where
  -- `NOT x`, with x in parentheses unless its text starts and ends with one
  unfoldable pub negated : Sql → Sql
  unfolding render starts_with_open ends_with_close
  negated sql =
      let s = render d.show_marker sql in
      if starts_with_open s && ends_with_close s
      then raw (codes "NOT ") ∷ sql
      else raw (codes "NOT (") ∷ (sql ++ raw (codes ")") ∷ [])

  -- `{column} = {literal}`
  unfoldable pub set_item : BoundMutationAssignment F → Lower (Param D F) Sql
  unfolding at_leaf ◌<>◌ text lower_literal
  set_item a =
      at_leaf d a.field.path.segments λ col. text col <> lit " = " <> lower_literal d a.value

  -- An alias that is the empty text is none.
  unfoldable pub aliased : Option Text → Text → Lower (Param D F) Sql
  unfolding ◌<>◌ text
  aliased (some (c ∷ s)) col = text col <> lit " AS " <> text (d.quote_ident (c ∷ s))
  aliased _ col = text col

  unfoldable pub select_item : BoundFieldSelection → Lower (Param D F) Sql
  unfolding at_column aliased
  select_item sel = with_column d sel.field (aliased sel.alias)

  unfoldable pub select_clause : List BoundFieldSelection → Lower (Param D F) Sql
  unfolding select_item ◌<>◌ text joined
  select_clause [] = lit "SELECT *"
  select_clause (s ∷ ss) = lit "SELECT " <> joined (codes ", ") (map select_item (s ∷ ss))

  unfoldable pub sort_item : BoundSortClause → Lower (Param D F) Sql
  unfolding at_column ◌<>◌ text
  sort_item s =
      with_column d s.field
        λ col. text col <> text (direction_text s.direction) <> text (d.null_order s.direction)

  unfoldable pub ranking_items : Option BoundRankingClause → List (Lower (Param D F) Sql)
  unfolding at_column ◌<>◌ text
  ranking_items none = []
  ranking_items (some r) =
      with_column d r.field (λ col. text col <> text (ranking_text r.direction)) ∷ []

  unfoldable pub key_item : Text → Lower (Param D F) Sql
  unfolding text ◌<>◌
  key_item name = text (d.quote_ident name) <> lit " ASC"

  -- The primary key orders what has neither a ranking nor a sort.
  unfoldable pub order_by_items :
      Option BoundRankingClause → List BoundSortClause → List Text → List (Lower (Param D F) Sql)
  unfolding ranking_items sort_item key_item
  order_by_items none [] primary_key = map key_item primary_key
  order_by_items ranking sort primary_key = ranking_items ranking ++ map sort_item sort

  unfoldable pub order_by_clause : List (Lower (Param D F) Sql) → List (Lower (Param D F) Sql)
  unfolding ◌<>◌ text joined
  order_by_clause [] = []
  order_by_clause (m ∷ ms) = (lit "ORDER BY " <> joined (codes ", ") (m ∷ ms)) ∷ []

module _ {D F : Type 0} (host : Host D F) (d : Dialect D F) (comparing : Comparing D F) where
  unfoldable pub predicate : Text → Bool → Operator → Operand F → Lower (Param D F) Sql
  unfolding string_predicate
  predicate col t (Operator.string op) operand = string_predicate host d col op operand
  predicate col t (Operator.comparison op) operand = comparing col t op operand

  unfoldable pub lower_field_expression : BoundFieldExpression F → Lower (Param D F) Sql
  unfolding at_column predicate is_timestamp
  lower_field_expression e =
      with_column d e.field
        λ col. predicate col (is_timestamp e.field.data_type) e.operator e.operand

  unfoldable pub lower_expression : BoundExpression F → Lower (Param D F) Sql
  unfolding lower_field_expression negated ◌<>◌ text edited
  lower_expression (BoundExpression.field_expression e) = lower_field_expression e
  lower_expression (BoundExpression.logical op l r) =
      lit "("
      <> lower_expression l
      <> lit " "
      <> text (logical_text op)
      <> lit " "
      <> lower_expression r
      <> lit ")"
  lower_expression (BoundExpression.negation e) = edited (negated d) (lower_expression e)

  -- A clause, or nothing.
  unfoldable pub where_sql : Option (BoundExpression F) → Lower (Param D F) Sql
  unfolding lower_expression ◌<>◌ text
  where_sql none = text []
  where_sql (some e) = lit " WHERE " <> lower_expression e

  unfoldable pub lower_update : BoundAltrQueryIr F → Lower (Param D F) Sql
  unfolding ◌<>◌ text joined set_item where_sql
  lower_update q =
      lit "UPDATE "
      <> text (d.target_table q.entity)
      <> lit " SET "
      <> joined (codes ", ") (map (set_item d) q.assignments)
      <> where_sql q.where_clause
      <> text d.returning
      <> lit ";"

  unfoldable pub lower_delete : BoundAltrQueryIr F → Lower (Param D F) Sql
  unfolding ◌<>◌ text where_sql
  lower_delete q =
      lit "DELETE FROM "
      <> text (d.target_table q.entity)
      <> where_sql q.where_clause
      <> text d.returning
      <> lit ";"

  unfoldable pub number_clause : Text → Option ℤ → List (Lower (Param D F) Sql)
  unfolding ◌<>◌ text
  number_clause word none = []
  number_clause word (some n) = (text word <> text (host.str_of_int n)) ∷ []

  unfoldable pub where_parts : Option (BoundExpression F) → List (Lower (Param D F) Sql)
  unfolding lower_expression ◌<>◌ text
  where_parts none = []
  where_parts (some e) = (lit "WHERE " <> lower_expression e) ∷ []

  unfoldable pub lower_read : BoundAltrQueryIr F → Lower (Param D F) Sql
  unfolding select_clause where_parts order_by_items order_by_clause number_clause joined ◌<>◌ text
  lower_read q =
      joined (codes " ") (
        select_clause d q.projection
        ∷ (lit "FROM " <> text (d.target_table q.entity))
        ∷ (where_parts q.where_clause
            ++ (order_by_clause d (order_by_items d q.ranking q.sort q.entity.primary_key)
                ++ (number_clause (codes "LIMIT ") (limit_val q)
                    ++ number_clause (codes "OFFSET ") q.offset))))
      <> lit ";"
