-- ===== src/Tests/Statements.antt =====
-- The lowerers at concrete queries.
use altr_stream.Base.{
  Text, codes, text_eq, ℕ, ◌+◌, ℤ, true, false, ◌≡◌, ◌↔◌, refl, List, [], ◌∷◌, none, some, All,
}
use altr_stream.Base.Result.{Result, ok, err}
use altr_stream.Schema.{StandardDataType}
use altr_stream.Ast.{
  Literal, Element, Operand, Operator, ComparisonOperator, StringOperator, LogicalOperator,
  QueryOperation,
}
use altr_stream.BoundAst.{
  LogicalTypeCategory, BoundFieldPath, BoundEntity, BoundExpression, BoundCreateRecord,
  BoundAltrQueryIr,
}
use altr_stream.Lowering.Sql.{LowerError, Host, render}
use altr_stream.Lowering.Dialect.{starts_pattern, ends_pattern, has_pattern}
use altr_stream.Lowering.Creates.{
  PhysicalQueryResult, PhysicalQuery, queries_of, Row, with_columns, group_records,
}
use altr_stream.Lowering.Dialects.{sqlite_comparing, lower_postgres, lower_mysql, lower_sqlite}
use altr_stream.Lowering.Like.{Likes, like_tokens, Begins, Ends, Holds, escape_like_operand-Likes}
use altr_stream.Lowering.Groups.{ungrouped, IsUniform, Alternating, group_records-with_columns}
use altr_stream.Lowering.Markers.Results.{InOrder}
use altr_stream.Lowering.Raising.{first, later, sqlite_comparing-HasCompound}
use altr_stream.Lowering.Numbering.{
  lower_postgres-InOrder, lower_mysql-InOrder, lower_sqlite-InOrder,
}

abbrev digits : ℤ → Text
digits (ℤ.pos n) = (48 + n) ∷ []
digits (ℤ.negsuc n) = b'-' ∷ (49 + n) ∷ []

-- Dates and floats are texts and numbers, numbers have one digit.
abbrev plain_host : Host Text ℕ
plain_host = record {
  datetime_of = λ s. some s;
  midnight = λ s. some s;
  next_day = λ s. some s;
  isoformat = λ s. s;
  str_of_int = digits;
  str_of_value = λ l. codes "?";
  str_of_object = λ l. codes "?";
  lower_case = λ s. s;
}

abbrev column : Text → BoundFieldPath
column name = record {
  path = record { segments = name ∷ [] };
  data_type = StandardDataType.string;
  logical_category = LogicalTypeCategory.string;
  native_type = codes "text";
  nullable = true;
  is_primary_key = false;
}

abbrev people : BoundEntity
people = record {
  name = codes "people";
  namespace = codes "public";
  entity_type = codes "table";
  comment = none;
  primary_key = codes "id" ∷ [];
}

-- DELETE people where name = {"a", NULL, "b"} or name starts "c%"
abbrev a_or_b : BoundExpression ℕ
a_or_b =
    BoundExpression.logical LogicalOperator.or
      (BoundExpression.field_expression record {
        field = column (codes "name");
        operator = Operator.comparison ComparisonOperator.eq;
        operand = Operand.value_set (
            Element.literal (Literal.string (codes "a"))
            ∷ Element.literal Literal.null
            ∷ Element.literal (Literal.string (codes "b"))
            ∷ []);
      })
      (BoundExpression.field_expression record {
        field = column (codes "name");
        operator = Operator.string StringOperator.starts;
        operand = Operand.literal (Literal.string (codes "c%"));
      })

abbrev delete_people : BoundAltrQueryIr ℕ
delete_people = record {
  operation = QueryOperation.delete;
  entity = people;
  projection = [];
  where_clause = some a_or_b;
  assignments = [];
  records = [];
  sort = [];
  ranking = none;
  limit = none;
  offset = none;
  source_id = codes "s1";
  source_name = codes "main";
}

abbrev out_of : {A : Type 0} {E : Type 0} → A → Result E A → A
out_of a (ok x) = x
out_of a (err e) = a

abbrev no_query : PhysicalQueryResult Text ℕ
no_query =
    PhysicalQueryResult.batch
      record { dialect = []; queries = []; source_id = []; source_name = [] }

abbrev in_postgres : PhysicalQueryResult Text ℕ
unfolding lower_postgres
in_postgres = out_of no_query (lower_postgres plain_host delete_people)

-- The texts of the queries, where `show` writes a marker.
abbrev texts : (ℕ → Text) → List (PhysicalQuery Text ℕ) → List Text
unfolding render
texts show [] = []
texts show (q ∷ qs) = render show q.query ∷ texts show qs

abbrev question : ℕ → Text
question n = codes "?"

abbrev dollar : ℕ → Text
dollar n = b'$' ∷ digits (ℤ.pos n)

-- The statement that is sent for it.
delete_people-postgres :
    texts dollar (queries_of in_postgres)
    ≡ codes
        "DELETE FROM \"public\".\"people\" WHERE ((\"name\" IN ($1, $2) OR \"name\" IS NULL) OR \"name\" LIKE $3 ESCAPE '\\') RETURNING *;"
      ∷ []
unfolding in_postgres texts queries_of
delete_people-postgres = refl

lower_postgres-InOrder_example : All InOrder (queries_of in_postgres)
unfolding in_postgres
lower_postgres-InOrder_example = lower_postgres-InOrder plain_host delete_people in_postgres refl

abbrev in_mysql : PhysicalQueryResult Text ℕ
unfolding lower_mysql
in_mysql = out_of no_query (lower_mysql plain_host delete_people)

lower_mysql-InOrder_example : All InOrder (queries_of in_mysql)
unfolding in_mysql
lower_mysql-InOrder_example = lower_mysql-InOrder plain_host delete_people in_mysql refl

-- CREATE people of three records: two with a name, one with a town.
abbrev named : Text → Text → BoundCreateRecord ℕ
named col value = record {
  assignments = record { field = column col; value = Literal.string value } ∷ [];
}

abbrev three_people : List (BoundCreateRecord ℕ)
three_people =
    named (codes "name") (codes "a")
    ∷ named (codes "name") (codes "b")
    ∷ named (codes "town") (codes "c")
    ∷ []

abbrev create_people : BoundAltrQueryIr ℕ
create_people = record {
  operation = QueryOperation.create;
  entity = people;
  projection = [];
  where_clause = none;
  assignments = [];
  records = three_people;
  sort = [];
  ranking = none;
  limit = none;
  offset = none;
  source_id = codes "s1";
  source_name = codes "main";
}

abbrev in_sqlite : PhysicalQueryResult Text ℕ
unfolding lower_sqlite
in_sqlite = out_of no_query (lower_sqlite plain_host create_people)

-- One INSERT for the two names, one for the town.
create_people-sqlite :
    texts question (queries_of in_sqlite)
    ≡ codes "INSERT INTO \"people\" (\"name\") VALUES (?), (?) RETURNING *;"
      ∷ codes "INSERT INTO \"people\" (\"town\") VALUES (?) RETURNING *;"
      ∷ []
unfolding in_sqlite texts queries_of text_eq
create_people-sqlite = refl

lower_sqlite-InOrder_example : All InOrder (queries_of in_sqlite)
unfolding in_sqlite text_eq
lower_sqlite-InOrder_example = lower_sqlite-InOrder plain_host create_people in_sqlite refl

escape_like_operand-Likes_example :
    (Likes (like_tokens (starts_pattern (codes "50%"))) (codes "50%_off")
      ↔ Begins (codes "50%") (codes "50%_off"))
    × (Likes (like_tokens (ends_pattern (codes "50%"))) (codes "50%_off")
        ↔ Ends (codes "50%") (codes "50%_off"))
    × (Likes (like_tokens (has_pattern (codes "50%"))) (codes "50%_off")
        ↔ Holds (codes "50%") (codes "50%_off"))
escape_like_operand-Likes_example = escape_like_operand-Likes (codes "50%") (codes "50%_off")

abbrev people_rows : List (Row ℕ)
people_rows =
    (codes "name" ∷ [], named (codes "name") (codes "a"))
    ∷ (codes "name" ∷ [], named (codes "name") (codes "b"))
    ∷ (codes "town" ∷ [], named (codes "town") (codes "c"))
    ∷ []

group_records-with_columns_example :
    (ungrouped (group_records people_rows) ≡ three_people)
    × All IsUniform (group_records people_rows)
    × Alternating (group_records people_rows)
unfolding with_columns
group_records-with_columns_example = group_records-with_columns three_people people_rows refl

-- = {1, (> 2 and < 5)}
abbrev one_or_between : List (Element ℕ)
one_or_between =
    Element.literal (Literal.integer (ℤ.pos 1))
    ∷ Element.compound_and (
        record { operator = ComparisonOperator.gt; value = Literal.integer (ℤ.pos 2) }
        ∷ record { operator = ComparisonOperator.lt; value = Literal.integer (ℤ.pos 5) }
        ∷ [])
    ∷ []

sqlite_comparing-HasCompound_example :
    (e : LowerError) × (sqlite_comparing plain_host
        (codes "n")
        false
        ComparisonOperator.eq
        (Operand.value_set one_or_between)
        []
      ≡ err e)
sqlite_comparing-HasCompound_example =
    sqlite_comparing-HasCompound plain_host (codes "n") false one_or_between [] (later first)
