-- ===== src/Parser/PayloadsEnd.antt =====
-- The parsers of CREATE and UPDATE payloads never run out of fuel.
use altr_stream.Base.{
  Text, ℕ, zero, suc, ◌-◌, ◌≤◌, ◌<◌, refl, ◌||◌, ◌&&◌, List, [], arith, length, contains,
}
use altr_stream.Base.Python.{Python}
use altr_stream.Tokens.{Token, TokenType}
use altr_stream.Parser.Machine.{check, is_at_end}
use altr_stream.Parser.Payloads.{
  Payload, single, in_batch, update, checks_duplicates, reject_mixed, reject_duplicate,
  parse_assignment, parse_assignments, parse_payload, parse_single_create_record,
  parse_create_record, record_separator, parse_records, parse_batch_create_records,
  parse_create_body, parse_create_payload, parse_mutation_payload,
}
use altr_stream.Parser.Progress.{
  Ends, ends, Ends-if, Ends-bind, Ends-repeat, more_tokens, fail-Ends, consume-Ends, reject-Ends,
  require-Ends, strict_separator-Ends,
}
use altr_stream.Parser.ValuesEnd.{parse_literal-Ends, parse_field_path-Ends}

module _ {F : Type 0} ⦃py : Python F⦄ where
  reject_mixed-Ends :
      (p : Payload) (n : ℕ) (ts : List (Token F)) → length ts ≤ n → Ends n (reject_mixed p ts)
  unfolding reject_mixed
  reject_mixed-Ends single n ts h = reject-Ends TokenType.lparen _ n ts h
  reject_mixed-Ends in_batch n ts h = ends h
  reject_mixed-Ends update n ts h = ends h

  reject_duplicate-Ends :
      (p : Payload) (name : Text) (seen : List Text) (n : ℕ) (ts : List (Token F))
      → length ts ≤ n
      → Ends n (reject_duplicate p name seen ts)
  unfolding reject_duplicate
  reject_duplicate-Ends p name seen n ts h =
      Ends-if (checks_duplicates p && contains name seen) (λ _. fail-Ends _ n ts) (λ _. ends h)

  parse_assignment-Ends :
      (p : Payload) (f n : ℕ) (seen : List Text) (ts : List (Token F))
      → length ts ≤ suc n
      → n < f
      → Ends n (parse_assignment p f seen ts)
  unfolding parse_assignment
  parse_assignment-Ends p f n seen ts h k = Ends-bind (reject_mixed-Ends p (suc n) ts h) λ _ rest l.
      Ends-bind (parse_field_path-Ends f n rest l k) λ field rest l.
        Ends-bind (reject_duplicate-Ends p _ seen n rest l) λ _ rest l.
          Ends-bind (consume-Ends TokenType.colon _ n rest refl (omega arith))
            λ _ rest l. Ends-bind (parse_literal-Ends n rest (omega arith)) λ v rest l. ends l

  parse_assignments-Ends :
      (p : Payload) (f n : ℕ) (seen : List Text) (ts : List (Token F))
      → length ts ≤ n
      → n < f
      → Ends n (parse_assignments p f seen ts)
  unfolding parse_assignments
  parse_assignments-Ends p zero n seen ts h k = absurd (omega arith)
  parse_assignments-Ends p (suc f) n seen ts h k =
      Ends-if (check TokenType.rparen ts || is_at_end ts) (λ _. ends h)
        (λ more.
          let some_left = more_tokens (check TokenType.rparen ts) ts more in
          Ends-bind (parse_assignment-Ends p f (n - 1) seen ts (omega arith) (omega arith))
            λ a rest l.
              Ends-bind (strict_separator-Ends TokenType.rparen _ _ (n - 1) rest l) λ again rest l.
                Ends-bind
                  (Ends-repeat again (parse_assignments p f _) rest l
                    (λ _. parse_assignments-Ends p f (n - 1) _ rest l (omega arith)))
                  λ cs rest l. ends {rest = rest} (omega arith))

  parse_payload-Ends :
      (p : Payload) (f n : ℕ) (ts : List (Token F))
      → length ts ≤ n
      → n < f
      → Ends n (parse_payload p f ts)
  unfolding parse_payload
  parse_payload-Ends p f n ts h k = Ends-bind (parse_assignments-Ends p f n [] ts h k) λ ms rest l.
      Ends-bind (consume-Ends TokenType.rparen _ n rest refl (omega arith)) λ _ rest l. ends l

  parse_create_record-Ends :
      (f n : ℕ) (ts : List (Token F))
      → length ts ≤ suc n
      → n < f
      → Ends n (parse_create_record f ts)
  unfolding parse_create_record
  parse_create_record-Ends f n ts h k =
      Ends-bind (consume-Ends TokenType.lparen _ n ts refl h) λ _ rest l.
        Ends-bind (reject-Ends TokenType.rparen _ n rest l)
          λ _ rest l. Ends-bind (parse_payload-Ends in_batch f n rest l k) λ ms rest l. ends l

  record_separator-Ends :
      (n : ℕ) (ts : List (Token F)) → length ts ≤ n → Ends n (record_separator ts)
  unfolding record_separator
  record_separator-Ends n ts h =
      Ends-if (check TokenType.lparen ts) (λ _. fail-Ends _ n ts)
        (λ _. strict_separator-Ends TokenType.rparen _ _ n ts h)

  parse_records-Ends :
      (f n : ℕ) (ts : List (Token F)) → length ts ≤ n → n < f → Ends n (parse_records f ts)
  unfolding parse_records
  parse_records-Ends zero n ts h k = absurd (omega arith)
  parse_records-Ends (suc f) n ts h k =
      Ends-if (check TokenType.rparen ts || is_at_end ts) (λ _. ends h)
        (λ more.
          let some_left = more_tokens (check TokenType.rparen ts) ts more in
          Ends-bind (reject-Ends TokenType.identifier _ n ts h) λ _ rest l.
            Ends-bind (require-Ends TokenType.lparen _ n rest l) λ _ rest l.
              Ends-bind (parse_create_record-Ends f (n - 1) rest (omega arith) (omega arith))
                λ r rest l. Ends-bind (record_separator-Ends (n - 1) rest l) λ again rest l.
                  Ends-bind
                    (Ends-repeat again (parse_records f) rest l
                      (λ _. parse_records-Ends f (n - 1) rest l (omega arith)))
                    λ rs rest l. ends {rest = rest} (omega arith))

  parse_create_body-Ends :
      (f n : ℕ) (ts : List (Token F)) → length ts ≤ n → n < f → Ends n (parse_create_body f ts)
  unfolding parse_create_body parse_batch_create_records parse_single_create_record
  parse_create_body-Ends f n ts h k =
      Ends-if (check TokenType.lparen ts)
        (λ _. Ends-bind (parse_records-Ends f n ts h k) λ rs rest l.
          Ends-bind (consume-Ends TokenType.rparen _ n rest refl (omega arith)) λ _ rest l. ends l)
        (λ _.
          Ends-if (check TokenType.identifier ts)
            (λ _. Ends-bind (parse_payload-Ends single f n ts h k) λ ms rest l. ends l)
            (λ _. fail-Ends _ n ts))

  pub parse_create_payload-Ends :
      (f n : ℕ) (ts : List (Token F)) → length ts ≤ n → n < f → Ends n (parse_create_payload f ts)
  unfolding parse_create_payload
  parse_create_payload-Ends f n ts h k =
      Ends-bind (consume-Ends TokenType.lparen _ n ts refl (omega arith)) λ _ rest l.
        Ends-bind (reject-Ends TokenType.rparen _ n rest l)
          λ _ rest l. parse_create_body-Ends f n rest l k

  pub parse_mutation_payload-Ends :
      (f n : ℕ) (ts : List (Token F)) → length ts ≤ n → n < f → Ends n (parse_mutation_payload f ts)
  unfolding parse_mutation_payload
  parse_mutation_payload-Ends f n ts h k =
      Ends-bind (consume-Ends TokenType.lparen _ n ts refl (omega arith)) λ _ rest l.
        Ends-bind (reject-Ends TokenType.rparen _ n rest l)
          λ _ rest l. parse_payload-Ends update f n rest l k
