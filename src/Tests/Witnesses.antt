-- ===== src/Tests/Witnesses.antt =====
-- The theorems at concrete queries, texts and schemas.
use altr_stream.Base.{
  Text, codes, ℕ, pos, true, false, ◌≡◌, ◌≢◌, ◌↔◌, refl, [], ◌∷◌, none, some, text_eq, All,
  contains, arith,
}
use altr_stream.Base.Result.{ok, err, Passes, for_each}
use altr_stream.Schema.{StandardDataType, FieldSchema, EntitySchema, SourceSchema}
use altr_stream.Ast.{
  FieldPath, AltrQueryIr, Literal, Element, Operand, Operator, ComparisonOperator, StringOperator,
  LogicalOperator, Expression, field_expression, logical, negation, update, delete, new_ir,
}
use altr_stream.BoundAst.{
  LogicalTypeCategory, BoundFieldPath, BoundEntity, BoundExpression, BoundAltrQueryIr,
}
use altr_stream.Tokens.{Kind, Token, TokenType}
use altr_stream.Lexer.Scan.{out_of_fuel}
use altr_stream.Lexer.Tokenize.{tokenize, scan_token}
use altr_stream.Lexer.Fuel.{tokenize-ne-out_of_fuel}
use altr_stream.Lexer.Quoting.{Reads, quoted, scan_token-quoted}
use altr_stream.Parser.Machine
use altr_stream.Parser.Queries.{parse}
use altr_stream.Parser.Printer.{IsPrinted, print_delete}
use altr_stream.Parser.RoundTrip.{parse-print_delete}
use altr_stream.Parser.QueriesEnd.{parse-ne-out_of_fuel}
use altr_stream.Semantic.Validator.{validate_ir}
use altr_stream.Semantic.Normalizer.{normalize_ir}
use altr_stream.Semantic.WellFormed.{WellFormed}
use altr_stream.Semantic.Accepts.{validate_ir-WellFormed}
use altr_stream.Semantic.Idempotent.{normalize_ir_idem, validate_ir-normalize_ir}
use altr_stream.Binding.Binder.{bind_altrql}
use altr_stream.Binding.Kept.{erase, carried_records, carried_assignments, erase-bind_altrql}
use altr_stream.Binding.Sound.{TypedWhere, TypedAssignment}
use altr_stream.Binding.Sound.{bind_altrql_typed}
use altr_stream.Classification.{classify_query}
use altr_stream.Classification.Confirmation.{confirmation_iff}
use altr_stream.Pipeline.{parse_altrql}
use altr_stream.Pipeline.Stages.{parse_altrql-WellFormed}
use altr_stream.Tests.Ascii.{ascii, letter}

abbrev age_field : FieldSchema
age_field = record {
  name = codes "age";
  data_type = StandardDataType.integer;
  native_data_type = codes "int4";
  nullable = false;
  is_primary_key = false;
}

abbrev users_entity : EntitySchema
users_entity = record {
  name = codes "users";
  namespace = codes "public";
  entity_type = codes "table";
  comment = none;
  primary_key = [];
  fields = age_field ∷ [];
}

abbrev users_source : SourceSchema
users_source = record {
  source_id = codes "s1";
  source_name = codes "main";
  entities = users_entity ∷ [];
}

abbrev age_path : FieldPath
age_path = record { segments = codes "age" ∷ [] }

abbrev bound_users : BoundEntity
bound_users = record {
  name = codes "users";
  namespace = codes "public";
  entity_type = codes "table";
  comment = none;
  primary_key = [];
}

abbrev bound_age : BoundFieldPath
bound_age = record {
  path = age_path;
  data_type = StandardDataType.integer;
  logical_category = LogicalTypeCategory.numeric;
  native_type = codes "int4";
  nullable = false;
  is_primary_key = false;
}

-- UPDATE users (age: 3) WHERE { age > 1 };
abbrev update_ages : AltrQueryIr ℕ
update_ages =
    let ir : AltrQueryIr ℕ = new_ir update (codes "users") in
    record ir {
      assignments = record { field = age_path; value = Literal.integer (pos 3) } ∷ [];
      where_clause = some (
          field_expression (record {
            field = age_path;
            operator = Operator.comparison ComparisonOperator.gt;
            operand = Operand.literal (Literal.integer (pos 1));
          }));
    }

abbrev bound_update : BoundAltrQueryIr ℕ
bound_update = record {
  operation = update;
  entity = bound_users;
  projection = [];
  where_clause = some (
      BoundExpression.field_expression (record {
        field = bound_age;
        operator = Operator.comparison ComparisonOperator.gt;
        operand = Operand.literal (Literal.integer (pos 1));
      }));
  assignments = record { field = bound_age; value = Literal.integer (pos 3) } ∷ [];
  records = [];
  sort = [];
  ranking = none;
  limit = none;
  offset = none;
  source_id = codes "s1";
  source_name = codes "main";
}

-- DELETE users;
abbrev delete_users : AltrQueryIr ℕ
delete_users = new_ir delete (codes "users")

abbrev bound_delete : BoundAltrQueryIr ℕ
bound_delete =
    let b : BoundAltrQueryIr ℕ = bound_update in
    record b { operation = delete; where_clause = none; assignments = [] }

abbrev update_text : Text
update_text = codes "UPDATE users (age: 3) WHERE { age > 1 };"

abbrev word : TokenType → Token ℕ
word t = record { kind = Kind.fixed t; at = record { line = 1; column = 1 }; lexeme = [] }

bind_altrql_typed_example :
    TypedWhere bound_update.where_clause
    × All TypedAssignment bound_update.assignments
    × All (λ r. All TypedAssignment r.assignments) bound_update.records
unfolding bind_altrql text_eq
bind_altrql_typed_example = bind_altrql_typed update_ages users_source bound_update refl

erase-bind_altrql_example : erase bound_update ≡ record update_ages {
  records = carried_records update update_ages;
  assignments = carried_assignments update update_ages;
}
unfolding bind_altrql text_eq
erase-bind_altrql_example = erase-bind_altrql update_ages users_source bound_update refl

confirmation_example :
    ((classify_query bound_delete).requires_confirmation ≡ true)
    ↔ ((delete_users.operation ≡ delete) × (delete_users.where_clause ≡ none))
unfolding bind_altrql validate_ir text_eq for_each contains
confirmation_example = confirmation_iff delete_users users_source bound_delete refl refl

validate_ir-WellFormed_example : Passes (validate_ir update_ages) ↔ WellFormed update_ages
validate_ir-WellFormed_example = validate_ir-WellFormed update_ages

normalize_ir_idem_example : normalize_ir (normalize_ir update_ages) ≡ normalize_ir update_ages
normalize_ir_idem_example = normalize_ir_idem update_ages

validate_ir-normalize_ir_example : Passes (validate_ir (normalize_ir update_ages))
unfolding validate_ir text_eq for_each contains
validate_ir-normalize_ir_example = validate_ir-normalize_ir update_ages refl

parse_altrql-WellFormed_example : WellFormed update_ages × (normalize_ir update_ages ≡ update_ages)
unfolding parse_altrql text_eq for_each contains
parse_altrql-WellFormed_example = parse_altrql-WellFormed update_text update_ages refl

parse-ne-out_of_fuel_example :
    parse (word TokenType.get_kw ∷ word TokenType.semicolon ∷ []) ≢ err Machine.out_of_fuel
parse-ne-out_of_fuel_example =
    parse-ne-out_of_fuel (word TokenType.get_kw ∷ word TokenType.semicolon ∷ [])

letter_alnum : (c : ℕ) → letter c ≡ true → ascii.is_alnum c ≡ true
letter_alnum c h = ground arith

tokenize-ne-out_of_fuel_example : tokenize {F = ℕ} update_text ≢ err out_of_fuel
tokenize-ne-out_of_fuel_example = tokenize-ne-out_of_fuel letter_alnum update_text

scan_token-quoted_example :
    Reads
      (codes "a\"b\n")
      (codes " ;")
      (record { line = 1; column = 1 })
      (scan_token {F = ℕ} b'"'
        (quoted (codes "a\"b\n") (codes " ;"))
        (record { line = 1; column = 1 }))
scan_token-quoted_example =
    scan_token-quoted (codes "a\"b\n") (codes " ;") (record { line = 1; column = 1 })

-- NOT { age = {1, >2 & <5, 7..9} } OR name HAS "s"
abbrev condition : Expression ℕ
condition =
    logical LogicalOperator.or
      (negation (
        field_expression (record {
          field = age_path;
          operator = Operator.comparison ComparisonOperator.eq;
          operand = Operand.value_set (
              Element.literal (Literal.integer (pos 1))
              ∷ Element.compound_and (
                  record { operator = ComparisonOperator.gt; value = Literal.integer (pos 2) }
                  ∷ record { operator = ComparisonOperator.lt; value = Literal.integer (pos 5) }
                  ∷ [])
              ∷ Element.range (record {
                start = Literal.integer (pos 7);
                finish = Literal.integer (pos 9);
                inclusive = true;
              })
              ∷ []);
        })))
      (field_expression (record {
        field = record { segments = codes "user" ∷ codes "name" ∷ [] };
        operator = Operator.string StringOperator.has;
        operand = Operand.literal (Literal.string (codes "s"));
      }))

condition-IsPrinted : IsPrinted condition
condition-IsPrinted = ((tt, (tt, ((tt, (tt, tt)), ((tt, tt, refl), tt)))), (tt, tt))

parse-print_delete_example :
    parse (print_delete (codes "users") condition)
    ≡ ok (record delete_users { where_clause = some condition })
parse-print_delete_example = parse-print_delete (codes "users") condition condition-IsPrinted
