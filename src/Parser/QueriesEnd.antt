-- ===== src/Parser/QueriesEnd.antt =====
-- A query is parsed within the fuel that the entry point gives.
use altr_stream.Base.{ℕ, ◌+◌, ◌*◌, ◌≤◌, ◌<◌, ◌≢◌, refl, List, arith, length}
use Prim.Native.String.{String}
use altr_stream.Base.Result.{Result, err}
use altr_stream.Base.Python.{Python}
use altr_stream.Ast.{AltrQueryIr}
use altr_stream.Tokens.{Token, TokenType}
use altr_stream.Parser.Machine.{
  ParseError, out_of_fuel, check, is_at_end, advance, consume_terminating_semicolon,
}
use altr_stream.Parser.Values.{identifier_of}
use altr_stream.Parser.Queries.{
  parse_where, reject_read_clauses, parse_get, parse_create, parse_update, parse_delete,
  parse_query, enough, query_of, parse,
}
use altr_stream.Parser.Progress.{
  Ends, ends, raised, Ends-if, Ends-bind, advance_le, fail-Ends, consume-Ends, reject-Ends,
  require-Ends, take_value-Ends,
}
use altr_stream.Parser.ExpressionsEnd.{parse_where_block-Ends}
use altr_stream.Parser.ClausesEnd.{parse_projection-Ends, parse_order-Ends, parse_paging-Ends}
use altr_stream.Parser.PayloadsEnd.{parse_create_payload-Ends, parse_mutation_payload-Ends}

module _ {F : Type 0} ⦃py : Python F⦄ where
  parse_where-Ends :
      (f n : ℕ) (ts : List (Token F)) → length ts ≤ n → 6 * n + 4 < f → Ends n (parse_where f ts)
  unfolding parse_where
  parse_where-Ends f n ts h k =
      let shorter : length (advance ts) ≤ n = omega (arith, advance_le ts) in
      Ends-if (check TokenType.where_kw ts)
        (λ _. Ends-bind (parse_where_block-Ends f n (advance ts) shorter k) λ e rest l. ends l)
        (λ _. ends h)

  reject_read_clauses-Ends :
      (sort limit offset : String) (n : ℕ) (ts : List (Token F))
      → length ts ≤ n
      → Ends n (reject_read_clauses sort limit offset ts)
  unfolding reject_read_clauses
  reject_read_clauses-Ends sort limit offset n ts h =
      Ends-bind (reject-Ends TokenType.sort_kw sort n ts h) λ _ rest l.
        Ends-bind (reject-Ends TokenType.top_kw sort n rest l) λ _ rest l.
          Ends-bind (reject-Ends TokenType.bottom_kw sort n rest l) λ _ rest l.
            Ends-bind (reject-Ends TokenType.limit_kw limit n rest l)
              λ _ rest l. reject-Ends TokenType.offset_kw offset n rest l

  consume_terminating_semicolon-Ends :
      (n : ℕ) (ts : List (Token F)) → length ts ≤ n → Ends n (consume_terminating_semicolon ts)
  unfolding consume_terminating_semicolon
  consume_terminating_semicolon-Ends n ts h =
      Ends-bind (consume-Ends TokenType.semicolon _ n ts refl (omega arith))
        λ _ rest l. Ends-if (is_at_end rest) (λ _. ends l) (λ _. fail-Ends _ n rest)

  parse_get-Ends :
      (f n : ℕ) (ts : List (Token F)) → length ts ≤ n → 6 * n + 4 < f → Ends n (parse_get f ts)
  unfolding parse_get
  parse_get-Ends f n ts h k =
      Ends-bind (take_value-Ends identifier_of _ n ts refl (omega arith)) λ e rest l.
        Ends-bind (parse_projection-Ends f n rest l (omega arith)) λ p rest l.
          Ends-bind (parse_where-Ends f n rest l k) λ w rest l.
            Ends-bind (parse_order-Ends f n _ rest l (omega arith)) λ o rest l.
              Ends-bind (parse_paging-Ends f n _ rest l (omega arith)) λ g rest l.
                Ends-bind (consume_terminating_semicolon-Ends n rest l) λ _ rest l. ends l

  parse_create-Ends :
      (f n : ℕ) (ts : List (Token F)) → length ts ≤ n → 6 * n + 4 < f → Ends n (parse_create f ts)
  unfolding parse_create
  parse_create-Ends f n ts h k =
      Ends-bind (take_value-Ends identifier_of _ n ts refl (omega arith)) λ e rest l.
        Ends-bind (require-Ends TokenType.lparen _ n rest l) λ _ rest l.
          Ends-bind (parse_create_payload-Ends f n rest l (omega arith)) λ rs rest l.
            Ends-bind (reject-Ends TokenType.where_kw _ n rest l) λ _ rest l.
              Ends-bind (reject_read_clauses-Ends _ _ _ n rest l) λ _ rest l.
                Ends-bind (consume_terminating_semicolon-Ends n rest l) λ _ rest l. ends l

  parse_update-Ends :
      (f n : ℕ) (ts : List (Token F)) → length ts ≤ n → 6 * n + 4 < f → Ends n (parse_update f ts)
  unfolding parse_update
  parse_update-Ends f n ts h k =
      Ends-bind (take_value-Ends identifier_of _ n ts refl (omega arith)) λ e rest l.
        Ends-bind (require-Ends TokenType.lparen _ n rest l) λ _ rest l.
          Ends-bind (parse_mutation_payload-Ends f n rest l (omega arith)) λ ms rest l.
            Ends-bind (consume-Ends TokenType.where_kw _ n rest refl (omega arith)) λ _ rest l.
              Ends-bind (parse_where_block-Ends f n rest l k) λ w rest l.
                Ends-bind (reject_read_clauses-Ends _ _ _ n rest l) λ _ rest l.
                  Ends-bind (consume_terminating_semicolon-Ends n rest l) λ _ rest l. ends l

  parse_delete-Ends :
      (f n : ℕ) (ts : List (Token F)) → length ts ≤ n → 6 * n + 4 < f → Ends n (parse_delete f ts)
  unfolding parse_delete
  parse_delete-Ends f n ts h k =
      Ends-bind (take_value-Ends identifier_of _ n ts refl (omega arith)) λ e rest l.
        Ends-bind (reject-Ends TokenType.lparen _ n rest l) λ _ rest l.
          Ends-bind (parse_where-Ends f n rest l k) λ w rest l.
            Ends-bind (reject_read_clauses-Ends _ _ _ n rest l)
              λ _ rest l. Ends-bind (consume_terminating_semicolon-Ends n rest l) λ _ rest l. ends l

  parse_query-Ends :
      (f n : ℕ) (ts : List (Token F)) → length ts ≤ n → 6 * n + 4 < f → Ends n (parse_query f ts)
  unfolding parse_query
  parse_query-Ends f n ts h k =
      let shorter : length (advance ts) ≤ n = omega (arith, advance_le ts) in
      Ends-if (check TokenType.get_kw ts) (λ _. parse_get-Ends f n (advance ts) shorter k)
        (λ _.
          Ends-if (check TokenType.create_kw ts) (λ _. parse_create-Ends f n (advance ts) shorter k)
            (λ _.
              Ends-if (check TokenType.update_kw ts)
                (λ _. parse_update-Ends f n (advance ts) shorter k)
                (λ _.
                  Ends-if (check TokenType.delete_kw ts)
                    (λ _. parse_delete-Ends f n (advance ts) shorter k) (λ _. fail-Ends _ n ts))))

  query_of-ne :
      {n : ℕ} {r : Result ParseError (AltrQueryIr F × List (Token F))}
      → Ends n r
      → query_of r ≢ err out_of_fuel
  query_of-ne (ends h) = λ e. cc
  query_of-ne (raised h) = λ e. h (cc)

  -- The parser returns on every list of tokens: the fuel that its entry point gives is enough, so
  -- the result is a query or an error of the source, never the error that stands for lost fuel.
  pub parse-ne-out_of_fuel : (ts : List (Token F)) → parse ts ≢ err out_of_fuel
  unfolding parse
  parse-ne-out_of_fuel ts =
      query_of-ne (parse_query-Ends (enough ts) (length ts) ts (omega arith) (omega arith))
