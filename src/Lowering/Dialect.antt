-- ===== src/Lowering/Dialect.antt =====
-- What the three lowerers share: identifiers, literals, string operators and LIKE patterns.
use Prim.Native.String.{String}
use altr_stream.Base.{
  Text, codes, ℕ, Bool, true, false, ◌||◌, ◌&&◌, not, List, [], ◌∷◌, ◌++◌, map, Option, none, some,
  ◌==◌, if◌then◌else◌,
}
use altr_stream.Schema.{StandardDataType}
use altr_stream.Ast.{
  ComparisonOperator, TemporalKeyword, SortDirection, Literal, Range, Constraint, Element, Operand,
}
use altr_stream.BoundAst.{BoundFieldPath, BoundEntity}
use altr_stream.Lexer.Scan.{one_of}
use altr_stream.Lowering.Sql.{
  Param, Lower, index_error, date_error, Host, Sql, raise, text, add_param, ◌<>◌, joined,
}

abbrev pub lit : {P : Type 0} → String → Lower P Sql
unfolding text
lit s = text (codes s)

-- `val.replace(chr(c), by)`
unfoldable pub replace : ℕ → Text → Text → Text
replace c by [] = []
replace c by (d ∷ s) = if d == c then by ++ replace c by s else d ∷ replace c by s

-- `_escape_like_operand`
unfoldable pub escape_like_operand : Text → Text
unfolding replace
escape_like_operand val =
    replace b'_' (92 ∷ b'_' ∷ []) (replace b'%' (92 ∷ b'%' ∷ []) (replace 92 (92 ∷ 92 ∷ []) val))

unfoldable pub invert_operator : ComparisonOperator → ComparisonOperator
invert_operator ComparisonOperator.eq = ComparisonOperator.neq
invert_operator ComparisonOperator.neq = ComparisonOperator.eq
invert_operator ComparisonOperator.gt = ComparisonOperator.lte
invert_operator ComparisonOperator.lt = ComparisonOperator.gte
invert_operator ComparisonOperator.gte = ComparisonOperator.lt
invert_operator ComparisonOperator.lte = ComparisonOperator.gt

-- `op.value`
abbrev pub operator_text : ComparisonOperator → Text
operator_text ComparisonOperator.eq = codes "="
operator_text ComparisonOperator.neq = codes "!="
operator_text ComparisonOperator.gt = codes ">"
operator_text ComparisonOperator.lt = codes "<"
operator_text ComparisonOperator.gte = codes ">="
operator_text ComparisonOperator.lte = codes "<="

unfoldable pub is_timestamp : StandardDataType → Bool
is_timestamp StandardDataType.timestamp = true
is_timestamp StandardDataType.timestamptz = true
is_timestamp _ = false

unfoldable pub last_segment : Text → List Text → Text
last_segment s [] = s
last_segment s (t ∷ ts) = last_segment t ts

-- What differs between the lowerers. A `Param` stands for a driver's value.
pub record Dialect (D F : Type 0) : Type 0 where
  pub name : Text
  pub quote_ident : Text → Text
  pub target_table : BoundEntity → Text
  -- the column of a nested path: its root, quoted, and its other segments
  pub nested : Text → List Text → Text
  pub today : Text
  pub now : Text
  -- the clause after a LIKE pattern
  pub escape_clause : Text
  -- `_convert_literal_to_parameter`
  pub convert : Literal F → Param D F
  -- the value of a start of day, as a parameter
  pub day_param : D → Param D F
  -- what follows an INSERT, UPDATE or DELETE
  pub returning : Text
  pub null_order : SortDirection → Text
  pub show_marker : ℕ → Text

module _ {F : Type 0} where
  -- `_is_date_only_literal`
  unfoldable pub is_date_only_literal : Literal F → Bool
  unfolding one_of
  is_date_only_literal (Literal.temporal none (some s)) = not (one_of b'T' s) && not (one_of 32 s)
  is_date_only_literal _ = false

  abbrev pub is_null : Element F → Bool
  is_null (Element.literal Literal.null) = true
  is_null _ = false

  -- `len(null_elems) > 0`
  unfoldable pub has_null : List (Element F) → Bool
  has_null [] = false
  has_null (e ∷ es) = is_null e || has_null es

  -- `non_null_elems`
  unfoldable pub non_null : List (Element F) → List (Element F)
  non_null [] = []
  non_null (e ∷ es) = if is_null e then non_null es else e ∷ non_null es

module _ {D F : Type 0} (d : Dialect D F) where
  -- `lower_field_path`, for what is made with the column
  unfoldable pub at_column : List Text → (Text → Lower (Param D F) Sql) → Lower (Param D F) Sql
  at_column [] k = raise index_error
  at_column (s ∷ []) k = k (d.quote_ident s)
  at_column (s ∷ t ∷ ts) k = k (d.nested (d.quote_ident s) (t ∷ ts))

  abbrev pub with_column : BoundFieldPath → (Text → Lower (Param D F) Sql) → Lower (Param D F) Sql
  unfolding at_column
  with_column field k = at_column field.path.segments k

  -- `quote_ident(path.leaf)`, for what is made with it
  unfoldable pub at_leaf : List Text → (Text → Lower (Param D F) Sql) → Lower (Param D F) Sql
  unfolding last_segment
  at_leaf [] k = raise index_error
  at_leaf (s ∷ ss) k = k (d.quote_ident (last_segment s ss))

  unfoldable pub lower_literal : Literal F → Lower (Param D F) Sql
  unfolding text add_param
  lower_literal (Literal.temporal (some TemporalKeyword.today) v) = text d.today
  lower_literal (Literal.temporal (some TemporalKeyword.now) v) = text d.now
  lower_literal (Literal.temporal none (some s)) =
      add_param (d.convert (Literal.temporal none (some s)))
  lower_literal (Literal.temporal none none) = lit "NULL"
  lower_literal Literal.null = lit "NULL"
  lower_literal l = add_param (d.convert l)

  -- `{col} BETWEEN {start} AND {end}`
  unfoldable pub between : Text → Range F → Lower (Param D F) Sql
  unfolding text ◌<>◌ lower_literal
  between col r =
      text col <> lit " BETWEEN " <> lower_literal r.start <> lit " AND " <> lower_literal r.finish

  -- `{col} {op} {literal}`
  unfoldable pub compare : Text → ComparisonOperator → Literal F → Lower (Param D F) Sql
  unfolding text ◌<>◌ lower_literal
  compare col op l = text col <> lit " " <> text (operator_text op) <> lit " " <> lower_literal l

  -- `{col} LIKE {add_param(pattern)} ESCAPE '\'`, with the words before the pattern
  unfoldable pub like : Text → Text → Text → Lower (Param D F) Sql
  unfolding text ◌<>◌ add_param
  like col words pattern' =
      text col <> text words <> add_param (Param.string pattern') <> text d.escape_clause

  unfoldable pub is_null_test : Text → Lower (Param D F) Sql
  unfolding text ◌<>◌
  is_null_test col = text col <> lit " IS NULL"

  unfoldable pub is_not_null_test : Text → Lower (Param D F) Sql
  unfolding text ◌<>◌
  is_not_null_test col = text col <> lit " IS NOT NULL"

  -- `({sep.join(parts)})`
  unfoldable pub grouped : Text → List (Lower (Param D F) Sql) → Lower (Param D F) Sql
  unfolding text ◌<>◌ joined
  grouped sep parts = lit "(" <> joined sep parts <> lit ")"

  -- The parts joined, in parentheses if there are two or more, and "1=1" if there is none.
  unfoldable pub combined : Text → List (Lower (Param D F) Sql) → Lower (Param D F) Sql
  unfolding text grouped
  combined sep [] = lit "1=1"
  combined sep (m ∷ []) = m
  combined sep (m ∷ l ∷ ms) = grouped sep (m ∷ l ∷ ms)

  -- A comparison with NULL.
  unfoldable pub null_comparison : Text → ComparisonOperator → Lower (Param D F) Sql
  unfolding is_null_test is_not_null_test compare
  null_comparison col ComparisonOperator.eq = is_null_test col
  null_comparison col ComparisonOperator.neq = is_not_null_test col
  null_comparison col op = compare col op Literal.null

  -- `({col} != {literal} OR {col} IS NULL)`, for any operator
  unfoldable pub or_null : Text → ComparisonOperator → Literal F → Lower (Param D F) Sql
  unfolding text ◌<>◌ compare is_null_test
  or_null col op l = lit "(" <> compare col op l <> lit " OR " <> is_null_test col <> lit ")"

  -- `({col} op {c} AND ...)` over the constraints of a compound constraint
  unfoldable pub compound : Text → List (Constraint F) → Lower (Param D F) Sql
  unfolding compare grouped
  compound col cs = grouped (codes " AND ") (map (λ c. compare col c.operator c.value) cs)

  -- `{col} {word} ({placeholders})`
  unfoldable pub in_list : Text → Text → List (Lower (Param D F) Sql) → Lower (Param D F) Sql
  unfolding text ◌<>◌ grouped
  in_list col word parts = text col <> text word <> grouped (codes ", ") parts

module _ {D F : Type 0} (host : Host D F) where
  abbrev pub next_of : D → Option D → Option (D × D)
  next_of start none = none
  next_of start (some end) = some (start, end)

  abbrev pub day_of : Option D → Option (D × D)
  day_of none = none
  day_of (some start) = next_of start (host.next_day start)

  -- `_parse_date_only_range`, `none` where it raises
  unfoldable pub parse_date_only_range : Text → Option (D × D)
  parse_date_only_range s = day_of (host.midnight s)

  -- The date of a date-only literal.
  abbrev pub date_text : Literal F → Text
  date_text (Literal.temporal k (some s)) = s
  date_text _ = []

  -- `({col} >= {p1} AND {col} < {p2})`, or what else is made of the two parameters of a day.
  unfoldable pub at_day :
      Dialect D F
      → Text
      → Option (D × D)
      → (Lower (Param D F) Sql → Lower (Param D F) Sql → Lower (Param D F) Sql)
      → Lower (Param D F) Sql
  unfolding add_param
  at_day d s none k = raise (date_error s)
  at_day d s (some (start, end)) k = k (add_param (d.day_param start)) (add_param (d.day_param end))

  unfoldable pub with_day :
      Dialect D F
      → Literal F
      → (Lower (Param D F) Sql → Lower (Param D F) Sql → Lower (Param D F) Sql)
      → Lower (Param D F) Sql
  unfolding parse_date_only_range at_day
  with_day d l k = at_day d (date_text l) (parse_date_only_range (date_text l)) k

  unfoldable pub within_day : Dialect D F → Text → Literal F → Lower (Param D F) Sql
  unfolding with_day text ◌<>◌
  within_day d col l = with_day d l λ p1 p2.
      lit "("
      <> text col
      <> lit " >= "
      <> p1
      <> lit " AND "
      <> text col
      <> lit " < "
      <> p2
      <> lit ")"

  -- `str(getattr(literal, "value", ""))`
  abbrev pub value_text : Literal F → Text
  value_text (Literal.string s) = s
  value_text Literal.null = []
  value_text l = host.str_of_value l

  -- `str(getattr(elem, "value", ""))`
  abbrev pub element_text : Element F → Text
  element_text (Element.literal l) = value_text l
  element_text (Element.comparison c) = host.str_of_object c.value
  element_text _ = []

  -- `str(getattr(operand, "value", ""))` of an operand
  abbrev pub operand_text : Operand F → Text
  operand_text (Operand.literal l) = value_text l
  operand_text _ = []

unfoldable pub starts_pattern : Text → Text
unfolding escape_like_operand
starts_pattern s = escape_like_operand s ++ b'%' ∷ []

unfoldable pub ends_pattern : Text → Text
unfolding escape_like_operand
ends_pattern s = b'%' ∷ escape_like_operand s

unfoldable pub has_pattern : Text → Text
unfolding escape_like_operand
has_pattern s = b'%' ∷ (escape_like_operand s ++ b'%' ∷ [])
