-- ===== src/Lowering/Markers/Statements.antt =====
-- The markers of whole statements.
use altr_stream.Base.{
  Text, codes, Bool, true, false, ◌&&◌, ℤ, List, [], ◌∷◌, ◌++◌, append-nil, map, All, All-append,
  Option, none, some, ◌≡◌, refl, if◌then◌else◌,
}
use altr_stream.Ast.{ComparisonOperator, Operator, Operand}
use altr_stream.BoundAst.{
  BoundFieldSelection, BoundMutationAssignment, BoundExpression, BoundFieldExpression,
  BoundSortClause, BoundRankingClause, BoundAltrQueryIr,
}
use altr_stream.Lowering.Sql.{Param, Lower, Host, Sql, raw, text, ◌<>◌, render, markers}
use altr_stream.Lowering.Dialect.{lit, Dialect, lower_literal, is_timestamp}
use altr_stream.Lowering.Queries.{
  Comparing, starts_with_open, ends_with_close, predicate, lower_field_expression, negated,
  lower_expression, where_sql, set_item, lower_update, lower_delete, ranking_text, direction_text,
  aliased, select_item, select_clause, sort_item, ranking_items, key_item, order_by_items,
  order_by_clause, number_clause, where_parts, limit_val, lower_read,
}
use altr_stream.Lowering.Markers.{
  Marks, Marks-text, Marks-<>, Marks-joined, Marks-edited, All-Marks-map, markers-++,
}
use altr_stream.Lowering.Markers.Parts.{mark_rules, part_rules, Marks-at_column, Marks-at_leaf}
use altr_stream.Lowering.Markers.Predicates.{Marks-string_predicate}

Marks-infix :
    {P : Type 0} (m l : Lower P Sql) (word : Text)
    → Marks m
    → Marks l
    → Marks (lit "(" <> m <> lit " " <> text word <> lit " " <> l <> lit ")")
Marks-infix m l word h k = search mark_rules depth 10

module _ {D F : Type 0} (host : Host D F) (d : Dialect D F) (comparing : Comparing D F)
    (Marks-comparing : (col : Text) (t : Bool) (op : ComparisonOperator) (o : Operand F)
      → Marks (comparing col t op o)) where
  Marks-predicate :
      (col : Text) (t : Bool) (op : Operator) (o : Operand F)
      → Marks (predicate host d comparing col t op o)
  unfolding predicate
  Marks-predicate col t (Operator.string op) o = Marks-string_predicate host d col op o
  Marks-predicate col t (Operator.comparison op) o = Marks-comparing col t op o

  Marks-lower_field_expression :
      (e : BoundFieldExpression F) → Marks (lower_field_expression host d comparing e)
  unfolding lower_field_expression
  Marks-lower_field_expression e =
      Marks-at_column d _ _
        λ col. Marks-predicate col (is_timestamp e.field.data_type) e.operator e.operand

  markers-negated : (a : Sql) → markers (negated d a) ≡ markers a
  unfolding negated markers
  markers-negated a =
      cases (starts_with_open (render d.show_marker a) && ends_with_close (render d.show_marker a))
    where
      cases :
          (b : Bool)
          → markers (
              if b
              then raw (codes "NOT ") ∷ a
              else raw (codes "NOT (") ∷ (a ++ raw (codes ")") ∷ []))
            ≡ markers a
      cases true = refl
      cases false = rw (markers-++ a (raw (codes ")") ∷ []), append-nil)

  Marks-lower_expression : (e : BoundExpression F) → Marks (lower_expression host d comparing e)
  unfolding lower_expression
  Marks-lower_expression (BoundExpression.field_expression e) = Marks-lower_field_expression e
  Marks-lower_expression (BoundExpression.logical op l r) =
      let left = Marks-lower_expression l in
      let right = Marks-lower_expression r in Marks-infix _ _ _ left right
  Marks-lower_expression (BoundExpression.negation e) =
      Marks-edited _ _ markers-negated (Marks-lower_expression e)

  Marks-where_sql : (w : Option (BoundExpression F)) → Marks (where_sql host d comparing w)
  unfolding where_sql
  Marks-where_sql none = Marks-text []
  Marks-where_sql (some e) = search (part_rules, Marks-lower_expression)

  Marks-set_item : (a : BoundMutationAssignment F) → Marks (set_item d a)
  unfolding set_item
  Marks-set_item a =
      Marks-at_leaf d a.field.path.segments
        (λ col. text col <> lit " = " <> lower_literal d a.value) λ col. search part_rules

  pub Marks-lower_update : (q : BoundAltrQueryIr F) → Marks (lower_update host d comparing q)
  unfolding lower_update
  Marks-lower_update q = search (part_rules, Marks-set_item, Marks-where_sql) depth 12

  pub Marks-lower_delete : (q : BoundAltrQueryIr F) → Marks (lower_delete host d comparing q)
  unfolding lower_delete
  Marks-lower_delete q = search (part_rules, Marks-where_sql) depth 10

  Marks-aliased : (alias : Option Text) (col : Text) → Marks (aliased d alias col)
  unfolding aliased
  Marks-aliased none col = Marks-text col
  Marks-aliased (some []) col = Marks-text col
  Marks-aliased (some (c ∷ s)) col = search part_rules

  Marks-select_item : (s : BoundFieldSelection) → Marks (select_item d s)
  unfolding select_item
  Marks-select_item s = Marks-at_column d _ _ (Marks-aliased s.alias)

  Marks-select_clause : (ss : List BoundFieldSelection) → Marks (select_clause d ss)
  unfolding select_clause
  Marks-select_clause [] = Marks-text _
  Marks-select_clause (s ∷ ss) = search (part_rules, Marks-select_item)

  Marks-sort_item : (s : BoundSortClause) → Marks (sort_item d s)
  unfolding sort_item
  Marks-sort_item s =
      Marks-at_column d s.field.path.segments
        (λ col. text col <> text (direction_text s.direction) <> text (d.null_order s.direction))
        λ col. search part_rules

  Marks-ranking_items : (r : Option BoundRankingClause) → All Marks (ranking_items d r)
  unfolding ranking_items
  Marks-ranking_items none = tt
  Marks-ranking_items (some r) = (
    Marks-at_column d r.field.path.segments (λ col. text col <> text (ranking_text r.direction))
        (λ col. search part_rules),
    tt,
  )

  Marks-key_item : (name : Text) → Marks (key_item d name)
  unfolding key_item
  Marks-key_item name = search part_rules

  Marks-sorted :
      (r : Option BoundRankingClause) (ss : List BoundSortClause)
      → All Marks (ranking_items d r ++ map (sort_item d) ss)
  Marks-sorted r ss =
      All-append Marks (ranking_items d r) (map (sort_item d) ss) (Marks-ranking_items r)
        (All-Marks-map _ ss Marks-sort_item)

  Marks-order_by_items :
      (r : Option BoundRankingClause) (ss : List BoundSortClause) (key : List Text)
      → All Marks (order_by_items d r ss key)
  unfolding order_by_items
  Marks-order_by_items none [] key = All-Marks-map _ key Marks-key_item
  Marks-order_by_items none (s ∷ ss) key = Marks-sorted none (s ∷ ss)
  Marks-order_by_items (some r) ss key = Marks-sorted (some r) ss

  Marks-order_by_clause :
      (ms : List (Lower (Param D F) Sql)) → All Marks ms → All Marks (order_by_clause d ms)
  unfolding order_by_clause
  Marks-order_by_clause [] h = tt
  Marks-order_by_clause (m ∷ ms) h = (search part_rules, tt)

  Marks-number_clause :
      (word : Text) (n : Option ℤ) → All Marks (number_clause host d comparing word n)
  unfolding number_clause
  Marks-number_clause word none = tt
  Marks-number_clause word (some n) = (search part_rules, tt)

  Marks-where_parts : (w : Option (BoundExpression F)) → All Marks (where_parts host d comparing w)
  unfolding where_parts
  Marks-where_parts none = tt
  Marks-where_parts (some e) = (search (part_rules, Marks-lower_expression), tt)

  pub Marks-lower_read : (q : BoundAltrQueryIr F) → Marks (lower_read host d comparing q)
  unfolding lower_read
  Marks-lower_read q =
      let clauses =
        where_parts host d comparing q.where_clause
        ++ (order_by_clause d (order_by_items d q.ranking q.sort q.entity.primary_key)
            ++ (number_clause host d comparing (codes "LIMIT ") (limit_val q)
                ++ number_clause host d comparing (codes "OFFSET ") q.offset)) in
      let parts =
        select_clause d q.projection ∷ (lit "FROM " <> text (d.target_table q.entity)) ∷ clauses in
      let from_part =
        Marks-<> (lit "FROM ") (text (d.target_table q.entity)) (Marks-text _) (Marks-text _) in
      let order =
        Marks-order_by_clause (order_by_items d q.ranking q.sort q.entity.primary_key)
          (Marks-order_by_items q.ranking q.sort q.entity.primary_key) in
      let limits =
        All-append Marks (number_clause host d comparing (codes "LIMIT ") (limit_val q)) _
          (Marks-number_clause (codes "LIMIT ") (limit_val q))
          (Marks-number_clause (codes "OFFSET ") q.offset) in
      let rest =
        All-append Marks (where_parts host d comparing q.where_clause) _
          (Marks-where_parts q.where_clause)
          (All-append Marks
            (order_by_clause d (order_by_items d q.ranking q.sort q.entity.primary_key)) _ order
            limits) in
      Marks-<> _ _ (Marks-joined _ parts (Marks-select_clause q.projection, (from_part, rest)))
        (Marks-text _)
