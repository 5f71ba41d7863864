-- ===== src/Parser/Clauses.antt =====
-- Projections, SORT, TOP/BOTTOM, LIMIT and OFFSET.
use Prim.Native.String.{String}
use altr_stream.Base.{
  Text, ℕ, zero, suc, ℤ, pos, Bool, true, false, ◌||◌, List, [], ◌∷◌, Option, none, some, is_some,
  if◌then◌else◌,
}
use altr_stream.Base.Result.{ok, err}
use altr_stream.Base.Python.{Python}
use altr_stream.Ast.{FieldSelection, SortDirection, RankingDirection, SortClause, RankingClause}
use altr_stream.Tokens.{Kind, TokenType}
use altr_stream.Parser.Machine.{
  out_of_fuel, Parser, check, is_at_end, advance, ◌>>=◌, ◌>>◌, pure, repeat, run, fail, consume,
  reject, take_value,
}
use altr_stream.Parser.Values.{identifier_of, parse_field_path}

module _ {F : Type 0} where
  unfoldable pub integer_of : Kind F → Option ℤ
  integer_of (Kind.integer n) = some (pos n)
  integer_of _ = none

  unfoldable pub direction_of : Kind F → Option SortDirection
  direction_of (Kind.fixed TokenType.asc_kw) = some SortDirection.asc
  direction_of (Kind.fixed TokenType.desc_kw) = some SortDirection.desc
  direction_of _ = none

module _ {F : Type 0} ⦃py : Python F⦄ where
  unfoldable pub parse_alias : Parser F (Option Text)
  unfolding take_value identifier_of
  parse_alias ts =
      if check TokenType.as_kw ts
      then (run (advance ts)
          do a ← take_value identifier_of "Expected alias identifier after 'AS'."; pure (some a))
      else ok (none, ts)

  -- After a selection: `true` if another follows; the closing parenthesis is passed.
  unfoldable pub projection_separator : Parser F Bool
  unfolding fail
  projection_separator ts =
      if check TokenType.comma ts
      then (if check TokenType.rparen (advance ts)
          then fail "Unexpected trailing comma in projection list." (advance ts)
          else ok (true, advance ts))
      else if check TokenType.rparen ts
      then ok (false, advance ts)
      else fail "Expected ',' or ')' in projection list." ts

  unfoldable pub parse_selections : ℕ → Parser F (List FieldSelection)
  unfolding parse_field_path parse_alias projection_separator
  parse_selections zero ts = err out_of_fuel
  parse_selections (suc f) ts = run ts do
    path ← parse_field_path f
    alias ← parse_alias
    again ← projection_separator
    rest ← repeat again (parse_selections f)
    pure (record { path = path; alias = alias } ∷ rest)

  -- `_parse_projection_list`, after the opening parenthesis
  unfoldable pub parse_projection_list : ℕ → Parser F (List FieldSelection)
  unfolding parse_selections
  parse_projection_list f ts =
      if check TokenType.rparen ts then ok ([], advance ts) else parse_selections f ts

  unfoldable pub parse_projection : ℕ → Parser F (List FieldSelection)
  unfolding parse_projection_list
  parse_projection f ts =
      if check TokenType.lparen ts then parse_projection_list f (advance ts) else ok ([], ts)

  -- After a sort clause: a comma, the end, or another field without a comma.
  unfoldable pub sort_separator : Parser F Bool
  unfolding fail
  sort_separator ts =
      if check TokenType.comma ts
      then (if check TokenType.rbrace (advance ts)
          then ok (false, advance ts)
          else ok (true, advance ts))
      else if check TokenType.rbrace ts
      then ok (false, ts)
      else if check TokenType.identifier ts
      then ok (true, ts)
      else fail "Expected ',' or '}' in SORT block." ts

  unfoldable pub parse_sort_clauses : ℕ → Parser F (List SortClause)
  unfolding parse_field_path take_value direction_of sort_separator
  parse_sort_clauses zero ts = err out_of_fuel
  parse_sort_clauses (suc f) ts =
      let more = run ts do
        field ← parse_field_path f
        direction ← take_value direction_of "Expected 'ASC' or 'DESC' sort direction."
        again ← sort_separator
        rest ← repeat again (parse_sort_clauses f)
        pure (record { field = field; direction = direction } ∷ rest)
      in if check TokenType.rbrace ts || is_at_end ts then ok ([], ts) else more

  unfoldable pub parse_sort_block : ℕ → Parser F (List SortClause)
  unfolding consume reject parse_sort_clauses
  parse_sort_block f = do
    consume TokenType.lbrace "Expected '{' after 'SORT'."
    reject TokenType.rbrace "SORT block cannot be empty."
    clauses ← parse_sort_clauses f
    consume TokenType.rbrace "Expected '}' closing SORT block."
    pure clauses

  unfoldable pub parse_ranking_clause : ℕ → RankingDirection → Parser F RankingClause
  unfolding take_value integer_of consume parse_field_path
  parse_ranking_clause f direction = do
    count ← take_value integer_of "Expected count integer after TOP/BOTTOM."
    consume TokenType.by_kw "Expected 'BY' after count in ranking clause."
    field ← parse_field_path f
    pure (record { direction = direction; count = count; field = field })

-- The variables of the SORT and TOP/BOTTOM loop.
pub record Order : Type 0 where
  pub sort : List SortClause
  pub ranking : Option RankingClause
  pub has_sort : Bool
  pub has_ranking : Bool

-- The variables of the LIMIT and OFFSET loop.
pub record Paging : Type 0 where
  pub limit : Option ℤ
  pub offset : Option ℤ

module _ {F : Type 0} ⦃py : Python F⦄ where
  abbrev combined : Parser F Order
  combined = fail "Cannot combine 'SORT' with 'TOP'/'BOTTOM' ranking clause in AltrQL v0.1."

  -- One round at SORT.
  unfoldable pub parse_sort_round : ℕ → Order → Parser F Order
  unfolding parse_sort_block fail
  parse_sort_round f o ts =
      if o.has_ranking
      then combined ts
      else run (advance ts) do
        clauses ← parse_sort_block f
        pure (record {
          sort = clauses;
          ranking = o.ranking;
          has_sort = true;
          has_ranking = o.has_ranking;
        })

  -- One round at TOP or BOTTOM.
  unfoldable pub parse_ranking_round : ℕ → Order → RankingDirection → Parser F Order
  unfolding parse_ranking_clause fail
  parse_ranking_round f o direction ts =
      if o.has_sort
      then combined ts
      else run (advance ts) do
        r ← parse_ranking_clause f direction
        pure (record { sort = o.sort; ranking = some r; has_sort = o.has_sort; has_ranking = true })

  unfoldable pub parse_order : ℕ → Order → Parser F Order
  unfolding parse_sort_round parse_ranking_round
  parse_order zero o ts = err out_of_fuel
  parse_order (suc f) o ts =
      let after_sort = run ts do o' ← parse_sort_round f o; parse_order f o'
      in let after_top =
          run ts do o' ← parse_ranking_round f o RankingDirection.top; parse_order f o'
        in let after_bottom =
            run ts do o' ← parse_ranking_round f o RankingDirection.bottom; parse_order f o'
          in if check TokenType.sort_kw ts
            then after_sort
            else if check TokenType.top_kw ts
            then after_top
            else if check TokenType.bottom_kw ts
            then after_bottom
            else ok (o, ts)

  -- One round at LIMIT or OFFSET: the value there was, and the two messages.
  unfoldable pub parse_count : Option ℤ → String → String → Parser F ℤ
  unfolding take_value integer_of fail
  parse_count old duplicate expected ts =
      if is_some old then fail duplicate ts else take_value integer_of expected ts

  unfoldable pub parse_paging : ℕ → Paging → Parser F Paging
  unfolding parse_count
  parse_paging zero p ts = err out_of_fuel
  parse_paging (suc f) p ts =
      let after_limit = run (advance ts) do
        n ←
            parse_count p.limit "Duplicate 'LIMIT' clause in query."
              "Expected integer value after 'LIMIT'."
        parse_paging f (record { limit = some n; offset = p.offset })
      in let after_offset = run (advance ts) do
        n ←
            parse_count p.offset "Duplicate 'OFFSET' clause in query."
              "Expected integer value after 'OFFSET'."
        parse_paging f (record { limit = p.limit; offset = some n })
        in if check TokenType.limit_kw ts
          then after_limit
          else if check TokenType.offset_kw ts
          then after_offset
          else ok (p, ts)
