-- ===== src/Lowering/Markers/Parts.antt =====
-- The markers of what the lowerers share.
use Prim.Native.String.{String}
use altr_stream.Base.{Text, codes, List, [], ◌∷◌, All, Option, none, some}
use altr_stream.Ast.{ComparisonOperator, TemporalKeyword, Literal, Range, Constraint}
use altr_stream.Lowering.Sql.{Param, Lower, Host, Sql, text, ◌<>◌}
use altr_stream.Lowering.Dialect.{
  lit, Dialect, at_column, at_leaf, at_day, lower_literal, between, compare, like, is_null_test,
  is_not_null_test, grouped, combined, null_comparison, or_null, compound, in_list,
  parse_date_only_range, date_text, with_day, within_day,
}
use altr_stream.Lowering.Markers.{
  Marks, Marks-raise, Marks-text, Marks-add_param, Marks-<>, Marks-if, Marks-joined, All-Marks-map,
}

pub Marks-lit : {P : Type 0} (s : String) → Marks {P = P} (lit s)
unfolding text
Marks-lit s = Marks-text (codes s)

pub ruleset mark_rules = (
  Marks-raise, Marks-text, Marks-lit, Marks-add_param, Marks-<>, Marks-if, Marks-joined,
  All-Marks-map,
)

module _ {D F : Type 0} (d : Dialect D F) where
  pub Marks-at_column :
      (segments : List Text) (k : Text → Lower (Param D F) Sql)
      → ((col : Text) → Marks (k col))
      → Marks (at_column d segments k)
  unfolding at_column
  Marks-at_column [] k h = Marks-raise _
  Marks-at_column (s ∷ []) k h = h _
  Marks-at_column (s ∷ t ∷ ts) k h = h _

  pub Marks-at_leaf :
      (segments : List Text) (k : Text → Lower (Param D F) Sql)
      → ((col : Text) → Marks (k col))
      → Marks (at_leaf d segments k)
  unfolding at_leaf
  Marks-at_leaf [] k h = Marks-raise _
  Marks-at_leaf (s ∷ ss) k h = h _

  pub Marks-lower_literal : (l : Literal F) → Marks (lower_literal d l)
  unfolding lower_literal
  Marks-lower_literal (Literal.temporal (some TemporalKeyword.today) v) = search mark_rules
  Marks-lower_literal (Literal.temporal (some TemporalKeyword.now) v) = search mark_rules
  Marks-lower_literal (Literal.temporal none (some s)) = search mark_rules
  Marks-lower_literal (Literal.temporal none none) = search mark_rules
  Marks-lower_literal _ = search mark_rules

  pub Marks-between : (col : Text) (r : Range F) → Marks (between d col r)
  unfolding between
  Marks-between col r = search (mark_rules, Marks-lower_literal)

  pub Marks-compare :
      (col : Text) (op : ComparisonOperator) (l : Literal F) → Marks (compare d col op l)
  unfolding compare
  Marks-compare col op l = search (mark_rules, Marks-lower_literal)

  pub Marks-like : (col words pattern' : Text) → Marks (like d col words pattern')
  unfolding like
  Marks-like col words pattern' = search mark_rules

  pub Marks-is_null_test : (col : Text) → Marks (is_null_test d col)
  unfolding is_null_test
  Marks-is_null_test col = search mark_rules

  pub Marks-is_not_null_test : (col : Text) → Marks (is_not_null_test d col)
  unfolding is_not_null_test
  Marks-is_not_null_test col = search mark_rules

  pub Marks-grouped :
      (sep : Text) (ms : List (Lower (Param D F) Sql)) → All Marks ms → Marks (grouped d sep ms)
  unfolding grouped
  Marks-grouped sep ms h = search mark_rules

  pub Marks-combined :
      (sep : Text) (ms : List (Lower (Param D F) Sql)) → All Marks ms → Marks (combined d sep ms)
  unfolding combined
  Marks-combined sep [] h = Marks-text _
  Marks-combined sep (m ∷ []) h = h.0
  Marks-combined sep (m ∷ l ∷ ms) h = Marks-grouped sep (m ∷ l ∷ ms) h

  pub Marks-null_comparison :
      (col : Text) (op : ComparisonOperator) → Marks (null_comparison d col op)
  unfolding null_comparison
  Marks-null_comparison col ComparisonOperator.eq = Marks-is_null_test col
  Marks-null_comparison col ComparisonOperator.neq = Marks-is_not_null_test col
  Marks-null_comparison col _ = search Marks-compare

  pub Marks-or_null :
      (col : Text) (op : ComparisonOperator) (l : Literal F) → Marks (or_null d col op l)
  unfolding or_null
  Marks-or_null col op l = search (mark_rules, Marks-compare, Marks-is_null_test)

  pub Marks-or_is_null :
      (col : Text) (m : Lower (Param D F) Sql)
      → Marks m
      → Marks (lit "(" <> m <> lit " OR " <> is_null_test d col <> lit ")")
  Marks-or_is_null col m h = search (mark_rules, Marks-is_null_test) depth 8

  pub Marks-and_not_null :
      (col : Text) (m : Lower (Param D F) Sql)
      → Marks m
      → Marks (lit "(" <> m <> lit " AND " <> is_not_null_test d col <> lit ")")
  Marks-and_not_null col m h = search (mark_rules, Marks-is_not_null_test) depth 8

  pub Marks-compound : (col : Text) (cs : List (Constraint F)) → Marks (compound d col cs)
  unfolding compound
  Marks-compound col cs =
      Marks-grouped _ _ (All-Marks-map _ cs λ c. Marks-compare col c.operator c.value)

  pub Marks-in_list :
      (col word : Text) (ms : List (Lower (Param D F) Sql))
      → All Marks ms
      → Marks (in_list d col word ms)
  unfolding in_list
  Marks-in_list col word ms h = search (mark_rules, Marks-grouped)

module _ {D F : Type 0} (host : Host D F) (d : Dialect D F) where
  pub Marks-with_day :
      (l : Literal F) (k : Lower (Param D F) Sql → Lower (Param D F) Sql → Lower (Param D F) Sql)
      → ((m1 m2 : Lower (Param D F) Sql) → Marks m1 → Marks m2 → Marks (k m1 m2))
      → Marks (with_day host d l k)
  unfolding with_day at_day
  Marks-with_day l k h = at_day-Marks (parse_date_only_range host (date_text host l))
    where
      at_day-Marks : (day : Option (D × D)) → Marks (at_day host d (date_text host l) day k)
      at_day-Marks none = Marks-raise _
      at_day-Marks (some (start, end)) = h _ _ (Marks-add_param _) (Marks-add_param _)

  pub Marks-within_day : (col : Text) (l : Literal F) → Marks (within_day host d col l)
  unfolding within_day
  Marks-within_day col l = Marks-with_day l _ λ m1 m2 h1 h2. search mark_rules depth 12

pub ruleset part_rules = (
  mark_rules, Marks-at_column, Marks-at_leaf, Marks-lower_literal, Marks-between, Marks-compare,
  Marks-like, Marks-is_null_test, Marks-is_not_null_test, Marks-grouped, Marks-combined,
  Marks-null_comparison, Marks-or_null, Marks-compound, Marks-in_list, Marks-within_day,
)
