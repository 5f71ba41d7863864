-- ===== src/Parser/ClausesEnd.antt =====
-- The parsers of projections, sorting, ranking and paging never run out of fuel.
use altr_stream.Base.{
  ℕ, zero, suc, ◌-◌, ◌≤◌, ◌<◌, refl, ℤ, ◌||◌, List, [], ◌∷◌, Option, arith, length, is_some,
}
use Prim.Native.String.{String}
use altr_stream.Base.Python.{Python}
use altr_stream.Ast.{RankingDirection}
use altr_stream.Tokens.{Token, TokenType}
use altr_stream.Parser.Machine.{check, is_at_end, advance, take_value, take_some}
use altr_stream.Parser.Values.{identifier_of, parse_field_path}
use altr_stream.Parser.Clauses.{
  integer_of, direction_of, parse_alias, projection_separator, parse_selections,
  parse_projection_list, parse_projection, sort_separator, parse_sort_clauses, parse_sort_block,
  parse_ranking_clause, Order, Paging, parse_sort_round, parse_ranking_round, parse_order,
  parse_count, parse_paging,
}
use altr_stream.Parser.Progress.{
  Ends, ends, Ends-mono, Ends-if, Ends-bind, Ends-repeat, advance_le, pass_token, more_tokens,
  fail-Ends, consume-Ends, reject-Ends, take_value-Ends,
}
use altr_stream.Parser.ValuesEnd.{parse_field_path-Ends}

module _ {F : Type 0} ⦃py : Python F⦄ where
  parse_alias-Ends : (n : ℕ) (ts : List (Token F)) → length ts ≤ n → Ends n (parse_alias ts)
  unfolding parse_alias
  parse_alias-Ends n ts h =
      Ends-if (check TokenType.as_kw ts)
        (λ c.
          let passed = pass_token n TokenType.as_kw ts c refl h in
          Ends-bind (take_value-Ends identifier_of _ n (advance ts) refl (omega arith))
            λ a rest l. ends l)
        (λ _. ends h)

  projection_separator-Ends :
      (n : ℕ) (ts : List (Token F)) → length ts ≤ n → Ends n (projection_separator ts)
  unfolding projection_separator
  projection_separator-Ends n ts h =
      let shorter : length (advance ts) ≤ n = omega (arith, advance_le ts) in
      Ends-if (check TokenType.comma ts)
        (λ _.
          Ends-if (check TokenType.rparen (advance ts)) (λ _. fail-Ends _ n (advance ts))
            (λ _. ends shorter))
        (λ _. Ends-if (check TokenType.rparen ts) (λ _. ends shorter) (λ _. fail-Ends _ n ts))

  parse_selections-Ends :
      (f n : ℕ) (ts : List (Token F)) → length ts ≤ n → n < f → Ends n (parse_selections f ts)
  unfolding parse_selections parse_field_path take_value take_some identifier_of
  parse_selections-Ends zero n ts h k = absurd (omega arith)
  parse_selections-Ends (suc f) n [] h k = fail-Ends "Expected field name." n []
  parse_selections-Ends (suc f) n (t ∷ ts) h k =
      Ends-bind (parse_field_path-Ends f (n - 1) (t ∷ ts) (omega arith) (omega arith)) λ p rest l.
        Ends-bind (parse_alias-Ends (n - 1) rest l) λ a rest l.
          Ends-bind (projection_separator-Ends (n - 1) rest l) λ again rest l.
            Ends-bind
              (Ends-repeat again (parse_selections f) rest l
                (λ _. parse_selections-Ends f (n - 1) rest l (omega arith)))
              λ cs rest l. ends {rest = rest} (omega arith)

  pub parse_projection-Ends :
      (f n : ℕ) (ts : List (Token F)) → length ts ≤ n → n < f → Ends n (parse_projection f ts)
  unfolding parse_projection parse_projection_list
  parse_projection-Ends f n ts h k =
      let shorter : length (advance ts) ≤ n = omega (arith, advance_le ts) in
      let again : length (advance (advance ts)) ≤ n = omega (arith, advance_le (advance ts)) in
      Ends-if (check TokenType.lparen ts)
        (λ _.
          Ends-if (check TokenType.rparen (advance ts)) (λ _. ends again)
            (λ _. parse_selections-Ends f n (advance ts) shorter (omega arith)))
        (λ _. ends h)

  sort_separator-Ends : (n : ℕ) (ts : List (Token F)) → length ts ≤ n → Ends n (sort_separator ts)
  unfolding sort_separator
  sort_separator-Ends n ts h =
      let shorter : length (advance ts) ≤ n = omega (arith, advance_le ts) in
      Ends-if (check TokenType.comma ts)
        (λ _. Ends-if (check TokenType.rbrace (advance ts)) (λ _. ends shorter) (λ _. ends shorter))
        (λ _.
          Ends-if (check TokenType.rbrace ts) (λ _. ends h)
            (λ _. Ends-if (check TokenType.identifier ts) (λ _. ends h) (λ _. fail-Ends _ n ts)))

  parse_sort_clauses-Ends :
      (f n : ℕ) (ts : List (Token F)) → length ts ≤ n → n < f → Ends n (parse_sort_clauses f ts)
  unfolding parse_sort_clauses
  parse_sort_clauses-Ends zero n ts h k = absurd (omega arith)
  parse_sort_clauses-Ends (suc f) n ts h k =
      Ends-if (check TokenType.rbrace ts || is_at_end ts) (λ _. ends h)
        (λ more.
          let some_left = more_tokens (check TokenType.rbrace ts) ts more in
          Ends-bind (parse_field_path-Ends f (n - 1) ts (omega arith) (omega arith)) λ p rest l.
            Ends-bind (take_value-Ends direction_of _ (n - 1) rest refl (omega arith)) λ d rest l.
              Ends-bind (sort_separator-Ends (n - 1) rest l) λ again rest l.
                Ends-bind
                  (Ends-repeat again (parse_sort_clauses f) rest l
                    (λ _. parse_sort_clauses-Ends f (n - 1) rest l (omega arith)))
                  λ cs rest l. ends {rest = rest} (omega arith))

  parse_sort_block-Ends :
      (f n : ℕ) (ts : List (Token F)) → length ts ≤ n → n < f → Ends n (parse_sort_block f ts)
  unfolding parse_sort_block
  parse_sort_block-Ends f n ts h k =
      Ends-bind (consume-Ends TokenType.lbrace _ n ts refl (omega arith)) λ _ rest l.
        Ends-bind (reject-Ends TokenType.rbrace _ n rest l) λ _ rest l.
          Ends-bind (parse_sort_clauses-Ends f n rest l k) λ cs rest l.
            Ends-bind (consume-Ends TokenType.rbrace _ n rest refl (omega arith)) λ _ rest l. ends l

  parse_ranking_clause-Ends :
      (f n : ℕ) (d : RankingDirection) (ts : List (Token F))
      → length ts ≤ n
      → n < f
      → Ends n (parse_ranking_clause f d ts)
  unfolding parse_ranking_clause
  parse_ranking_clause-Ends f n d ts h k =
      Ends-bind (take_value-Ends integer_of _ n ts refl (omega arith)) λ c rest l.
        Ends-bind (consume-Ends TokenType.by_kw _ n rest refl (omega arith))
          λ _ rest l. Ends-bind (parse_field_path-Ends f n rest (omega arith) k) λ p rest l. ends l

  parse_sort_round-Ends :
      (f n : ℕ) (o : Order) (ts : List (Token F))
      → length (advance ts) ≤ n
      → n < f
      → Ends n (parse_sort_round f o ts)
  unfolding parse_sort_round
  parse_sort_round-Ends f n o ts h k =
      Ends-if o.has_ranking (λ _. fail-Ends _ n ts)
        (λ _. Ends-bind (parse_sort_block-Ends f n (advance ts) h k) λ cs rest l. ends l)

  parse_ranking_round-Ends :
      (f n : ℕ) (o : Order) (d : RankingDirection) (ts : List (Token F))
      → length (advance ts) ≤ n
      → n < f
      → Ends n (parse_ranking_round f o d ts)
  unfolding parse_ranking_round
  parse_ranking_round-Ends f n o d ts h k =
      Ends-if o.has_sort (λ _. fail-Ends _ n ts)
        (λ _. Ends-bind (parse_ranking_clause-Ends f n d (advance ts) h k) λ cs rest l. ends l)

  pub parse_order-Ends :
      (f n : ℕ) (o : Order) (ts : List (Token F))
      → length ts ≤ n
      → n < f
      → Ends n (parse_order f o ts)
  unfolding parse_order
  parse_order-Ends zero n o ts h k = absurd (omega arith)
  parse_order-Ends (suc f) n o ts h k =
      Ends-if (check TokenType.sort_kw ts)
        (λ c.
          let passed = pass_token n TokenType.sort_kw ts c refl h in
          Ends-bind (parse_sort_round-Ends f (n - 1) o ts (omega arith) (omega arith)) λ o' rest l.
            Ends-mono {m = n - 1} (omega arith)
              (parse_order-Ends f (n - 1) o' rest l (omega arith)))
        (λ _.
          Ends-if (check TokenType.top_kw ts)
            (λ c.
              let passed = pass_token n TokenType.top_kw ts c refl h in
              Ends-bind (parse_ranking_round-Ends f (n - 1) o _ ts (omega arith) (omega arith))
                λ o' rest l.
                  Ends-mono {m = n - 1} (omega arith)
                    (parse_order-Ends f (n - 1) o' rest l (omega arith)))
            (λ _.
              Ends-if (check TokenType.bottom_kw ts)
                (λ c.
                  let passed = pass_token n TokenType.bottom_kw ts c refl h in
                  Ends-bind (parse_ranking_round-Ends f (n - 1) o _ ts (omega arith) (omega arith))
                    λ o' rest l.
                      Ends-mono {m = n - 1} (omega arith)
                        (parse_order-Ends f (n - 1) o' rest l (omega arith)))
                (λ _. ends h)))

  parse_count-Ends :
      (old : Option ℤ) (duplicate expected : String) (n : ℕ) (ts : List (Token F))
      → length ts ≤ n
      → Ends n (parse_count old duplicate expected ts)
  unfolding parse_count
  parse_count-Ends old duplicate expected n ts h =
      Ends-if (is_some old) (λ _. fail-Ends _ n ts)
        (λ _. take_value-Ends integer_of _ n ts refl (omega arith))

  pub parse_paging-Ends :
      (f n : ℕ) (p : Paging) (ts : List (Token F))
      → length ts ≤ n
      → n < f
      → Ends n (parse_paging f p ts)
  unfolding parse_paging
  parse_paging-Ends zero n p ts h k = absurd (omega arith)
  parse_paging-Ends (suc f) n p ts h k =
      Ends-if (check TokenType.limit_kw ts)
        (λ c.
          let passed = pass_token n TokenType.limit_kw ts c refl h in
          Ends-bind (parse_count-Ends p.limit _ _ (n - 1) (advance ts) (omega arith)) λ c rest l.
            Ends-mono {m = n - 1} (omega arith)
              (parse_paging-Ends f (n - 1) _ rest l (omega arith)))
        (λ _.
          Ends-if (check TokenType.offset_kw ts)
            (λ c.
              let passed = pass_token n TokenType.offset_kw ts c refl h in
              Ends-bind (parse_count-Ends p.offset _ _ (n - 1) (advance ts) (omega arith))
                λ c rest l.
                  Ends-mono {m = n - 1} (omega arith)
                    (parse_paging-Ends f (n - 1) _ rest l (omega arith)))
            (λ _. ends h))
