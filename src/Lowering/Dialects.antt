-- ===== src/Lowering/Dialects.antt =====
-- The three lowerers: lowering/postgres.py, mysql.py and sqlite.py.
use altr_stream.Base.{
  Text, codes, text_eq, true, false, ◌||◌, List, [], ◌∷◌, ◌++◌, ℤ, Option, none, some,
  if◌then◌else◌, join,
}
use altr_stream.Base.Result.{Result}
use altr_stream.Ast.{Literal, SortDirection}
use altr_stream.BoundAst.{BoundEntity, BoundAltrQueryIr}
use altr_stream.Lexer.Scan.{one_of}
use altr_stream.Lowering.Sql.{Param, Host, LowerError, unbound_local, raise}
use altr_stream.Lowering.Dialect.{Dialect, replace, compound}
use altr_stream.Lowering.InLists
use altr_stream.Lowering.Postgres
use altr_stream.Lowering.Queries.{Comparing}
use altr_stream.Lowering.Creates.{PhysicalQueryResult, lower}

-- `namespace.name`, both quoted
abbrev pub qualified : (Text → Text) → BoundEntity → Text
qualified quote entity = quote entity.namespace ++ (b'.' ∷ quote entity.name)

-- The chain of a nested path in PostgreSQL, after its root.
unfoldable pub arrows : List Text → Text
arrows [] = []
arrows (k ∷ []) = codes "->>'" ++ (k ++ codes "'")
arrows (k ∷ l ∷ ks) = codes "->'" ++ (k ++ (codes "'" ++ arrows (l ∷ ks)))

-- `"$." + ".".join(segments[1:])`, in quotes and in a call
abbrev pub json_call : Text → Text → Text → List Text → Text
unfolding join
json_call open_call close_call root keys =
    open_call ++ (root ++ (codes ", '$." ++ (join (codes ".") keys ++ (codes "'" ++ close_call))))

-- `quote_ident` of MySQL
unfoldable pub backticked : Text → Text
unfolding replace
backticked s = b'`' ∷ (replace b'`' (b'`' ∷ b'`' ∷ []) s ++ b'`' ∷ [])

-- `quote_ident` of SQLite
unfoldable pub doubled : Text → Text
unfolding replace
doubled s = b'"' ∷ (replace b'"' (b'"' ∷ b'"' ∷ []) s ++ b'"' ∷ [])

module _ {D F : Type 0} (host : Host D F) where
  abbrev pub datetime_or_text : Text → Option D → Param D F
  datetime_or_text s none = Param.string s
  datetime_or_text s (some v) = Param.datetime v

  abbrev pub date_or_text : Text → Option D → Param D F
  date_or_text s none = Param.string s
  date_or_text s (some v) = Param.date s

  -- The value of a literal that is not temporal.
  abbrev pub plain_param : Literal F → Param D F
  plain_param (Literal.string s) = Param.string s
  plain_param (Literal.integer n) = Param.integer n
  plain_param (Literal.float x) = Param.float x
  plain_param (Literal.boolean b) = Param.boolean b
  plain_param (Literal.temporal k (some s)) = Param.string s
  plain_param _ = Param.null

  unfoldable pub postgres_param : Literal F → Param D F
  unfolding one_of
  postgres_param (Literal.temporal k (some s)) =
      if one_of b'T' s || one_of 32 s
      then datetime_or_text s (host.datetime_of s)
      else date_or_text s (host.midnight s)
  postgres_param l = plain_param l

  unfoldable pub sqlite_param : Literal F → Param D F
  sqlite_param (Literal.boolean true) = Param.integer (ℤ.pos 1)
  sqlite_param (Literal.boolean false) = Param.integer (ℤ.pos 0)
  sqlite_param l = plain_param l

  unfoldable pub postgres : Dialect D F
  unfolding text_eq arrows postgres_param
  postgres = record {
    name = codes "postgresql";
    quote_ident = λ s. b'"' ∷ (s ++ b'"' ∷ []);
    target_table = λ e.
        if text_eq e.namespace []
        then b'"' ∷ (e.name ++ b'"' ∷ [])
        else qualified (λ s. b'"' ∷ (s ++ b'"' ∷ [])) e;
    nested = λ root keys. root ++ arrows keys;
    today = codes "CURRENT_DATE";
    now = codes "CURRENT_TIMESTAMP";
    escape_clause = codes " ESCAPE '\\'";
    convert = postgres_param;
    day_param = Param.datetime;
    returning = codes " RETURNING *";
    null_order = λ dir. elim dir [
      | SortDirection.asc ↦ codes " NULLS FIRST"
      | SortDirection.desc ↦ codes " NULLS LAST"
    ];
    show_marker = λ n. b'$' ∷ host.str_of_int (ℤ.pos n);
  }

  unfoldable pub mysql : Dialect D F
  unfolding text_eq backticked join
  mysql = record {
    name = codes "mysql";
    quote_ident = backticked;
    target_table = λ e.
        if text_eq e.namespace [] || text_eq (host.lower_case e.namespace) (codes "default")
        then backticked e.name
        else qualified backticked e;
    nested = json_call (codes "JSON_UNQUOTE(JSON_EXTRACT(") (codes "))");
    today = codes "CURDATE()";
    now = codes "NOW()";
    escape_clause = codes " ESCAPE '\\\\'";
    convert = plain_param;
    day_param = λ d. Param.string (host.isoformat d);
    returning = [];
    null_order = λ _. [];
    show_marker = λ _. codes "%s";
  }

  unfoldable pub sqlite : Dialect D F
  unfolding doubled join sqlite_param
  sqlite = record {
    name = codes "sqlite";
    quote_ident = doubled;
    target_table = λ e. doubled e.name;
    nested = json_call (codes "json_extract(") (codes ")");
    today = codes "DATE('now')";
    now = codes "DATETIME('now')";
    escape_clause = codes " ESCAPE '\\'";
    convert = sqlite_param;
    day_param = λ d. Param.string (host.isoformat d);
    returning = codes " RETURNING *";
    null_order = λ _. [];
    show_marker = λ _. codes "?";
  }

  unfoldable pub postgres_comparing : Comparing D F
  unfolding postgres Postgres.comparison_predicate
  postgres_comparing = Postgres.comparison_predicate host postgres

  unfoldable pub mysql_comparing : Comparing D F
  unfolding mysql InLists.comparison_predicate compound
  mysql_comparing = InLists.comparison_predicate host mysql (compound mysql)

  -- The comprehension reads `elem`, which no statement has bound on this path.
  unfoldable pub sqlite_comparing : Comparing D F
  unfolding sqlite InLists.comparison_predicate
  sqlite_comparing = InLists.comparison_predicate host sqlite (λ col cs. raise unbound_local)

  unfoldable pub lower_postgres : BoundAltrQueryIr F → Result LowerError (PhysicalQueryResult D F)
  unfolding lower postgres postgres_comparing
  lower_postgres = lower host postgres postgres_comparing

  unfoldable pub lower_mysql : BoundAltrQueryIr F → Result LowerError (PhysicalQueryResult D F)
  unfolding lower mysql mysql_comparing
  lower_mysql = lower host mysql mysql_comparing

  unfoldable pub lower_sqlite : BoundAltrQueryIr F → Result LowerError (PhysicalQueryResult D F)
  unfolding lower sqlite sqlite_comparing
  lower_sqlite = lower host sqlite sqlite_comparing
