-- ===== src/Tests/Parsing.antt =====
-- Runs of the whole pipeline from text to query.
use altr_stream.Base.{Text, codes, ℕ, pos, true, ◌≡◌, refl, [], ◌∷◌, some, text_eq}
use altr_stream.Base.Result.{ok, err}
use altr_stream.Ast.{
  FieldPath, AltrQueryIr, Literal, Element, Operand, Operator, ComparisonOperator, StringOperator,
  SortDirection, LogicalOperator, field_expression, logical, negation, read, new_ir,
}
use altr_stream.Pipeline.{parse_altrql, semantic}
use altr_stream.Semantic.Validator.{limit_not_positive}
use altr_stream.Tests.Ascii.{ascii}

abbrev path : Text → FieldPath
path s = record { segments = s ∷ [] }

abbrev expected : AltrQueryIr ℕ
expected =
    let ir : AltrQueryIr ℕ = new_ir read (codes "users") in
    record ir {
      projection = record { path = path (codes "id"); alias = some (codes "key") } ∷ [];
      where_clause = some (
          logical LogicalOperator.and
            (negation (
              field_expression (record {
                field = path (codes "name");
                operator = Operator.string StringOperator.has;
                operand = Operand.literal (Literal.string (codes "a"));
              })))
            (field_expression (record {
              field = path (codes "age");
              operator = Operator.comparison ComparisonOperator.eq;
              operand = Operand.value_set (
                  Element.range (record {
                    start = Literal.integer (pos 6);
                    finish = Literal.integer (pos 10);
                    inclusive = true;
                  })
                  ∷ Element.comparison (record {
                    operator = ComparisonOperator.gt;
                    value = Literal.integer (pos 90);
                  })
                  ∷ []);
            })));
      sort = record { field = path (codes "id"); direction = SortDirection.desc } ∷ [];
      limit = some (pos 5);
    }

read_query :
    parse_altrql (
      codes
        "GET users (id AS key) WHERE { NOT name HAS \"a\", age = {6..10, >90} } SORT {id DESC} LIMIT 5;")
    ≡ ok expected
unfolding parse_altrql text_eq
read_query = refl

zero_limit : parse_altrql {F = ℕ} (codes "GET users LIMIT 0;") ≡ err (semantic limit_not_positive)
unfolding parse_altrql text_eq
zero_limit = refl
