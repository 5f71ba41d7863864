-- ===== src/Parser/Queries.antt =====
-- The four kinds of query, and the entry point.
use Prim.Native.String.{String}
use altr_stream.Base.{ℕ, ◌+◌, ◌*◌, false, List, [], Option, none, some, if◌then◌else◌, length}
use altr_stream.Base.Result.{Result, ok, err}
use altr_stream.Base.Python.{Python}
use altr_stream.Ast.{Expression, AltrQueryIr, new_ir, read, create, update, delete}
use altr_stream.Tokens.{Token, TokenType}
use altr_stream.Parser.Machine.{
  ParseError, Parser, check, advance, ◌>>=◌, ◌>>◌, pure, run, fail, consume, reject, require,
  take_value, consume_terminating_semicolon,
}
use altr_stream.Parser.Values.{identifier_of}
use altr_stream.Parser.Expressions.{parse_where_block}
use altr_stream.Parser.Clauses.{Order, Paging, parse_projection, parse_order, parse_paging}
use altr_stream.Parser.Payloads.{parse_create_payload, parse_mutation_payload}

abbrev pub no_order : Order
no_order = record { sort = []; ranking = none; has_sort = false; has_ranking = false }

abbrev pub no_paging : Paging
no_paging = record { limit = none; offset = none }

module _ {F : Type 0} ⦃py : Python F⦄ where
  unfoldable pub parse_where : ℕ → Parser F (Option (Expression F))
  unfolding parse_where_block
  parse_where f ts =
      if check TokenType.where_kw ts
      then (run (advance ts) do e ← parse_where_block f; pure (some e))
      else ok (none, ts)

  -- The clauses that only GET takes, after WHERE.
  unfoldable pub reject_read_clauses : String → String → String → Parser F (Unit {0})
  unfolding reject
  reject_read_clauses sort limit offset = do
    reject TokenType.sort_kw sort
    reject TokenType.top_kw sort
    reject TokenType.bottom_kw sort
    reject TokenType.limit_kw limit
    reject TokenType.offset_kw offset

  unfoldable pub parse_get : ℕ → Parser F (AltrQueryIr F)
  unfolding take_value identifier_of parse_projection parse_where parse_order parse_paging
      consume_terminating_semicolon
  parse_get f = do
    entity ← take_value identifier_of "Expected entity name after 'GET'."
    projection ← parse_projection f
    where_clause ← parse_where f
    order ← parse_order f no_order
    paging ← parse_paging f no_paging
    consume_terminating_semicolon
    pure (record {
      operation = read;
      entity = entity;
      projection = projection;
      where_clause = where_clause;
      assignments = [];
      records = [];
      sort = order.sort;
      ranking = order.ranking;
      limit = paging.limit;
      offset = paging.offset;
    })

  unfoldable pub parse_create : ℕ → Parser F (AltrQueryIr F)
  unfolding take_value identifier_of require parse_create_payload reject reject_read_clauses
      consume_terminating_semicolon
  parse_create f = do
    entity ← take_value identifier_of "Expected entity name after 'CREATE'."
    require TokenType.lparen "Expected '(' starting mutation payload after entity."
    records ← parse_create_payload f
    reject TokenType.where_kw "WHERE clause is not supported on 'CREATE' operations."
    reject_read_clauses "SORT / ranking clauses are not supported on 'CREATE' operations."
        "LIMIT clause is not supported on 'CREATE' operations."
        "OFFSET clause is not supported on 'CREATE' operations."
    consume_terminating_semicolon
    (let ir : AltrQueryIr F = new_ir create entity in pure (record ir { records = records }))

  unfoldable pub parse_update : ℕ → Parser F (AltrQueryIr F)
  unfolding take_value identifier_of require parse_mutation_payload consume parse_where_block
      reject_read_clauses consume_terminating_semicolon
  parse_update f = do
    entity ← take_value identifier_of "Expected entity name after 'UPDATE'."
    require TokenType.lparen "Expected '(' starting mutation payload after entity."
    assignments ← parse_mutation_payload f
    consume TokenType.where_kw
        "Expected 'WHERE' clause after mutation payload in 'UPDATE' operations."
    e ← parse_where_block f
    reject_read_clauses "SORT / ranking clauses are not supported on 'UPDATE' operations."
        "LIMIT clause is not supported on 'UPDATE' operations."
        "OFFSET clause is not supported on 'UPDATE' operations."
    consume_terminating_semicolon
    (let ir : AltrQueryIr F = new_ir update entity in
        pure (record ir { assignments = assignments; where_clause = some e }))

  unfoldable pub parse_delete : ℕ → Parser F (AltrQueryIr F)
  unfolding take_value identifier_of reject parse_where reject_read_clauses
      consume_terminating_semicolon
  parse_delete f = do
    entity ← take_value identifier_of "Expected entity name after 'DELETE'."
    reject TokenType.lparen "Mutation assignment payloads are not supported on 'DELETE' operations."
    where_clause ← parse_where f
    reject_read_clauses "SORT / ranking clauses are not supported on 'DELETE' operations."
        "LIMIT clause is not supported on 'DELETE' operations."
        "OFFSET clause is not supported on 'DELETE' operations."
    consume_terminating_semicolon
    (let ir : AltrQueryIr F = new_ir delete entity in
        pure (record ir { where_clause = where_clause }))

  unfoldable pub parse_query : ℕ → Parser F (AltrQueryIr F)
  unfolding parse_get parse_create parse_update parse_delete fail
  parse_query f ts =
      if check TokenType.get_kw ts
      then parse_get f (advance ts)
      else if check TokenType.create_kw ts
      then parse_create f (advance ts)
      else if check TokenType.update_kw ts
      then parse_update f (advance ts)
      else if check TokenType.delete_kw ts
      then parse_delete f (advance ts)
      else fail "Expected 'GET', 'CREATE', 'UPDATE', or 'DELETE' keyword at beginning of query." ts

  -- No call nests more than six deep for each token that it passes.
  abbrev pub enough : List (Token F) → ℕ
  enough ts = 6 * length ts + 10

  -- `parse` leaves the cursor behind.
  abbrev pub query_of :
      Result ParseError (AltrQueryIr F × List (Token F)) → Result ParseError (AltrQueryIr F)
  query_of (ok (ir, rest)) = ok ir
  query_of (err e) = err e

  unfoldable pub parse : List (Token F) → Result ParseError (AltrQueryIr F)
  unfolding parse_query
  parse ts = query_of (parse_query (enough ts) ts)
