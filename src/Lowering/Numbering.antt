-- ===== src/Lowering/Numbering.antt =====
-- The parameters of the statements that the three lowerers return.
use altr_stream.Base.{All, ◌≡◌}
use altr_stream.Base.Result.{ok}
use altr_stream.BoundAst.{BoundAltrQueryIr}
use altr_stream.Lowering.Sql.{Host}
use altr_stream.Lowering.Dialect.{compound}
use altr_stream.Lowering.Creates.{PhysicalQueryResult, queries_of}
use altr_stream.Lowering.Dialects.{
  postgres, mysql, sqlite, postgres_comparing, mysql_comparing, sqlite_comparing, lower_postgres,
  lower_mysql, lower_sqlite,
}
use altr_stream.Lowering.Markers.{Marks-raise}
use altr_stream.Lowering.Markers.Parts.{Marks-compound}
use altr_stream.Lowering.Markers.Comparisons.{Marks-in_lists}
use altr_stream.Lowering.Markers.PostgresSets.{Marks-postgres}
use altr_stream.Lowering.Markers.Results.{InOrder, lower-InOrder}

module _ {D F : Type 0} (host : Host D F) where
  -- In every query that the PostgreSQL lowerer returns, of any operation, the parameter markers read
  -- from left to right are $1, $2, and so on, up to the number of the query's parameters.
  pub lower_postgres-InOrder :
      (q : BoundAltrQueryIr F) (out : PhysicalQueryResult D F)
      → lower_postgres host q ≡ ok out
      → All InOrder (queries_of out)
  unfolding lower_postgres postgres_comparing
  lower_postgres-InOrder q out =
      lower-InOrder host (postgres host) (postgres_comparing host)
        (Marks-postgres host (postgres host)) q out

  -- In every query that the MySQL lowerer returns there is one positional marker for each parameter,
  -- and the k-th marker from the left is the one that was made for the k-th parameter.
  pub lower_mysql-InOrder :
      (q : BoundAltrQueryIr F) (out : PhysicalQueryResult D F)
      → lower_mysql host q ≡ ok out
      → All InOrder (queries_of out)
  unfolding lower_mysql mysql_comparing
  lower_mysql-InOrder q out =
      lower-InOrder host (mysql host) (mysql_comparing host)
        (Marks-in_lists host (mysql host) (compound (mysql host)) (Marks-compound (mysql host))) q
        out

  -- In every query that the SQLite lowerer returns there is one positional marker for each parameter,
  -- and the k-th marker from the left is the one that was made for the k-th parameter.
  pub lower_sqlite-InOrder :
      (q : BoundAltrQueryIr F) (out : PhysicalQueryResult D F)
      → lower_sqlite host q ≡ ok out
      → All InOrder (queries_of out)
  unfolding lower_sqlite sqlite_comparing
  lower_sqlite-InOrder q out =
      lower-InOrder host (sqlite host) (sqlite_comparing host)
        (Marks-in_lists host (sqlite host) _ (λ col cs. Marks-raise _)) q out
