-- ===== src/Parser/Payloads.antt =====
-- Assignments and records of CREATE and UPDATE.
use Prim.Native.String.{String}
use altr_stream.Base.{
  Text, contains, ℕ, zero, suc, Bool, true, false, ◌||◌, ◌&&◌, List, [], ◌∷◌, if◌then◌else◌,
}
use altr_stream.Base.Result.{ok, err}
use altr_stream.Base.Python.{Python}
use altr_stream.Ast.{full_path, MutationAssignment, CreateRecord}
use altr_stream.Tokens.{TokenType}
use altr_stream.Parser.Machine.{
  out_of_fuel, Parser, check, is_at_end, ◌>>=◌, ◌>>◌, pure, repeat, run, fail, consume, reject,
  require, strict_separator,
}
use altr_stream.Parser.Values.{parse_field_path, parse_literal}

-- The three loops over assignments: of a CREATE with one record, of a record in a batch, and of an
-- UPDATE. Their messages differ, and what they check of a field.
pub data Payload : Type 0 where
  single in_batch update : Payload

abbrev pub trailing_message : Payload → String
trailing_message in_batch = "Unexpected trailing comma in record payload."
trailing_message _ = "Unexpected trailing comma in mutation payload."

abbrev pub separator_message : Payload → String
separator_message in_batch = "Expected ',' or ')' in record payload."
separator_message _ = "Expected ',' or ')' in mutation payload."

abbrev pub closing_message : Payload → String
closing_message in_batch = "Expected ')' closing record payload."
closing_message _ = "Expected ')' closing mutation payload."

abbrev pub duplicate_message : Payload → String
duplicate_message in_batch = "Duplicate assignment for field in record payload."
duplicate_message _ = "Duplicate assignment for field in mutation payload."

-- The parser itself looks for duplicates in CREATE payloads only.
abbrev pub checks_duplicates : Payload → Bool
checks_duplicates update = false
checks_duplicates _ = true

module _ {F : Type 0} ⦃py : Python F⦄ where
  unfoldable pub reject_mixed : Payload → Parser F (Unit {0})
  unfolding reject
  reject_mixed single =
      reject TokenType.lparen "Cannot mix single-record and batch-record syntax in CREATE payload."
  reject_mixed _ = pure tt

  unfoldable pub reject_duplicate : Payload → Text → List Text → Parser F (Unit {0})
  unfolding fail
  reject_duplicate payload name seen ts =
      if checks_duplicates payload && contains name seen
      then fail (duplicate_message payload) ts
      else ok (tt, ts)

  unfoldable pub parse_assignment : Payload → ℕ → List Text → Parser F (MutationAssignment F)
  unfolding reject_mixed parse_field_path reject_duplicate consume parse_literal
  parse_assignment payload f seen = do
    reject_mixed payload
    field ← parse_field_path f
    reject_duplicate payload (full_path field) seen
    consume TokenType.colon "Expected ':' after field in mutation assignment."
    value ← parse_literal
    pure (record { field = field; value = value })

  unfoldable pub parse_assignments :
      Payload → ℕ → List Text → Parser F (List (MutationAssignment F))
  unfolding parse_assignment strict_separator
  parse_assignments payload zero seen ts = err out_of_fuel
  parse_assignments payload (suc f) seen ts =
      let more = run ts do
        a ← parse_assignment payload f seen
        again ←
            strict_separator TokenType.rparen (trailing_message payload) (separator_message payload)
        rest ← repeat again (parse_assignments payload f (full_path a.field ∷ seen))
        pure (a ∷ rest)
      in if check TokenType.rparen ts || is_at_end ts then ok ([], ts) else more

  -- The loop and the closing parenthesis.
  unfoldable pub parse_payload : Payload → ℕ → Parser F (List (MutationAssignment F))
  unfolding parse_assignments consume
  parse_payload payload f = do
    assignments ← parse_assignments payload f []
    consume TokenType.rparen (closing_message payload)
    pure assignments

  unfoldable pub parse_single_create_record : ℕ → Parser F (List (CreateRecord F))
  unfolding parse_payload
  parse_single_create_record f = do
    assignments ← parse_payload single f
    pure (record { assignments = assignments } ∷ [])

  unfoldable pub parse_create_record : ℕ → Parser F (CreateRecord F)
  unfolding consume reject parse_payload
  parse_create_record f = do
    consume TokenType.lparen "Expected '(' starting record."
    reject TokenType.rparen "Record in CREATE batch cannot be empty."
    assignments ← parse_payload in_batch f
    pure (record { assignments = assignments })

  unfoldable pub record_separator : Parser F Bool
  unfolding strict_separator fail
  record_separator ts =
      if check TokenType.lparen ts
      then fail "Expected ',' between records in CREATE batch payload." ts
      else strict_separator TokenType.rparen "Unexpected trailing comma in CREATE batch payload."
          "Expected ',' or ')' in CREATE batch payload." ts

  unfoldable pub parse_records : ℕ → Parser F (List (CreateRecord F))
  unfolding reject require parse_create_record record_separator
  parse_records zero ts = err out_of_fuel
  parse_records (suc f) ts =
      let more = run ts do
        reject TokenType.identifier
            "Cannot mix single-record and batch-record syntax in CREATE payload."
        require TokenType.lparen "Expected '(' starting record in CREATE batch payload."
        r ← parse_create_record f
        again ← record_separator
        rest ← repeat again (parse_records f)
        pure (r ∷ rest)
      in if check TokenType.rparen ts || is_at_end ts then ok ([], ts) else more

  unfoldable pub parse_batch_create_records : ℕ → Parser F (List (CreateRecord F))
  unfolding parse_records consume
  parse_batch_create_records f = do
    records ← parse_records f
    consume TokenType.rparen "Expected ')' closing CREATE batch payload."
    pure records

  unfoldable pub parse_create_body : ℕ → Parser F (List (CreateRecord F))
  unfolding parse_batch_create_records parse_single_create_record fail
  parse_create_body f ts =
      if check TokenType.lparen ts
      then parse_batch_create_records f ts
      else if check TokenType.identifier ts
      then parse_single_create_record f ts
      else fail "Expected '(' starting record block or field name in CREATE payload." ts

  unfoldable pub parse_create_payload : ℕ → Parser F (List (CreateRecord F))
  unfolding consume reject parse_create_body
  parse_create_payload f = do
    consume TokenType.lparen "Expected '(' starting CREATE payload."
    reject TokenType.rparen "CREATE payload cannot be empty."
    parse_create_body f

  unfoldable pub parse_mutation_payload : ℕ → Parser F (List (MutationAssignment F))
  unfolding consume reject parse_payload
  parse_mutation_payload f = do
    consume TokenType.lparen "Expected '(' starting mutation payload."
    reject TokenType.rparen "Mutation payload cannot be empty."
    parse_payload update f
