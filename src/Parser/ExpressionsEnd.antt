-- ===== src/Parser/ExpressionsEnd.antt =====
-- The parsers of WHERE blocks pass a token, and never run out of fuel: six units for each token.

use altr_stream.Base.{
  ℕ, zero, suc, ◌-◌, ◌+◌, ◌*◌, ◌≤◌, ◌<◌, refl, ◌||◌, List, [], ◌∷◌, arith, length,
}
use altr_stream.Base.Python.{Python}
use altr_stream.Ast.{ComparisonOperator, StringOperator, LogicalOperator, Expression, logical}
use altr_stream.Tokens.{Token, TokenType}
use altr_stream.Parser.Machine.{check, is_at_end, advance, drop_one}
use altr_stream.Parser.Values.{comparison_of}
use altr_stream.Parser.Expressions.{
  takes_set, parse_string_operand, parse_has_operand, parse_comparison_operand,
  parse_operator_and_operand, parse_atomic_field_expression, parse_or, parse_or_tail, parse_and,
  parse_and_tail, parse_not, parse_primary, parse_conditions, combine, parse_where_block,
}
use altr_stream.Parser.Progress.{
  Ends, ends, Ends-mono, Ends-if, Ends-bind, pass_token, more_tokens, fail-Ends, consume-Ends,
  reject-Ends, reject_end-Ends, take_value-Ends,
}
use altr_stream.Parser.ValuesEnd.{
  parse_literal-Ends, parse_string_literal-Ends, parse_field_path-Ends, parse_range_end-Ends,
  parse_value_set-Ends,
}

module _ {F : Type 0} ⦃py : Python F⦄ where
  parse_string_operand-Ends :
      (op : StringOperator) (n : ℕ) (ts : List (Token F))
      → length ts ≤ suc n
      → Ends n (parse_string_operand op ts)
  unfolding parse_string_operand
  parse_string_operand-Ends op n ts h =
      Ends-bind (parse_string_literal-Ends n ts h) λ l rest k. ends k

  parse_has_operand-Ends :
      (f n : ℕ) (op : StringOperator) (ts : List (Token F))
      → length ts ≤ suc n
      → n < f
      → Ends n (parse_has_operand f op ts)
  unfolding parse_has_operand
  parse_has_operand-Ends f n op ts h k =
      Ends-if (check TokenType.lbrace ts)
        (λ open'.
          let passed = pass_token (suc n) TokenType.lbrace ts open' refl h in
          Ends-bind (parse_value_set-Ends f n (advance ts) (omega arith) k) λ es rest l. ends l)
        (λ _. parse_string_operand-Ends op n ts h)

  parse_comparison_operand-Ends :
      (f n : ℕ) (op : ComparisonOperator) (ts : List (Token F))
      → length ts ≤ suc n
      → n < f
      → Ends n (parse_comparison_operand f op ts)
  unfolding parse_comparison_operand
  parse_comparison_operand-Ends f n op ts h k =
      Ends-if (check TokenType.lbrace ts)
        (λ open'.
          let passed = pass_token (suc n) TokenType.lbrace ts open' refl h in
          Ends-if (takes_set op)
            (λ _.
              Ends-bind (parse_value_set-Ends f n (advance ts) (omega arith) k) λ es rest l. ends l)
            (λ _. fail-Ends _ n (advance ts)))
        (λ _.
          Ends-bind (parse_literal-Ends n ts h)
            λ m rest l. Ends-bind (parse_range_end-Ends m n rest l) λ r rest' l'. ends l')

  parse_operator_and_operand-Ends :
      (f n : ℕ) (ts : List (Token F))
      → length ts ≤ suc n
      → n < f
      → Ends n (parse_operator_and_operand f ts)
  unfolding parse_operator_and_operand
  parse_operator_and_operand-Ends f n ts h k =
      Ends-if (check TokenType.starts_kw ts)
        (λ c.
          let passed = pass_token (suc n) TokenType.starts_kw ts c refl h in
          parse_string_operand-Ends _ n (advance ts) (omega arith))
        (λ _.
          Ends-if (check TokenType.ends_kw ts)
            (λ c.
              let passed = pass_token (suc n) TokenType.ends_kw ts c refl h in
              parse_string_operand-Ends _ n (advance ts) (omega arith))
            (λ _.
              Ends-if (check TokenType.has_kw ts)
                (λ c.
                  let passed = pass_token (suc n) TokenType.has_kw ts c refl h in
                  parse_has_operand-Ends f n _ (advance ts) (omega arith) k)
                (λ _.
                  Ends-if (check TokenType.not_kw ts)
                    (λ c.
                      let passed = pass_token (suc n) TokenType.not_kw ts c refl h in
                      Ends-bind (consume-Ends TokenType.has_kw _ n (advance ts) refl (omega arith))
                        λ _ rest l. parse_has_operand-Ends f n _ rest (omega arith) k)
                    (λ _.
                      Ends-bind (take_value-Ends comparison_of _ n ts refl h)
                        λ op rest l. parse_comparison_operand-Ends f n op rest (omega arith) k))))

  parse_atomic_field_expression-Ends :
      (f n : ℕ) (ts : List (Token F))
      → length ts ≤ suc n
      → n < f
      → Ends n (parse_atomic_field_expression f ts)
  unfolding parse_atomic_field_expression
  parse_atomic_field_expression-Ends f n ts h k =
      Ends-bind (parse_field_path-Ends f n ts h k) λ p rest l.
        Ends-bind (parse_operator_and_operand-Ends f n rest (omega arith) k) λ o rest' l'. ends l'

module _ {F : Type 0} ⦃py : Python F⦄ where
  mutual
    unfolding parse_or

    pub parse_or-Ends :
        (f n : ℕ) (ts : List (Token F))
        → length ts ≤ n
        → 6 * n + 3 < f
        → Ends (n - 1) (parse_or f ts)
    parse_or-Ends zero n ts h k = absurd (omega arith)
    parse_or-Ends (suc f) n ts h k =
        Ends-bind (parse_and-Ends f n ts h (omega arith))
          λ e rest l. parse_or_tail-Ends f (n - 1) e rest l (omega arith)

    parse_or_tail-Ends :
        (f n : ℕ) (e : Expression F) (ts : List (Token F))
        → length ts ≤ n
        → 6 * n < f
        → Ends n (parse_or_tail f e ts)
    parse_or_tail-Ends zero n e ts h k = absurd (omega arith)
    parse_or_tail-Ends (suc f) n e ts h k =
        Ends-if (check TokenType.or_kw ts)
          (λ c.
            let passed = pass_token n TokenType.or_kw ts c refl h in
            Ends-bind (reject_end-Ends _ (n - 1) (advance ts) (omega arith)) λ _ rest l.
              Ends-bind (parse_and-Ends f (n - 1) rest l (omega arith)) λ r rest' l'.
                Ends-mono {m = n - 1 - 1} (omega arith) (
                  parse_or_tail-Ends f (n - 1 - 1) (logical LogicalOperator.or e r) rest' l'
                    (omega arith)))
          (λ _. ends h)

    parse_and-Ends :
        (f n : ℕ) (ts : List (Token F))
        → length ts ≤ n
        → 6 * n + 2 < f
        → Ends (n - 1) (parse_and f ts)
    parse_and-Ends zero n ts h k = absurd (omega arith)
    parse_and-Ends (suc f) n ts h k =
        Ends-bind (parse_not-Ends f n ts h (omega arith))
          λ e rest l. parse_and_tail-Ends f (n - 1) e rest l (omega arith)

    parse_and_tail-Ends :
        (f n : ℕ) (e : Expression F) (ts : List (Token F))
        → length ts ≤ n
        → 6 * n < f
        → Ends n (parse_and_tail f e ts)
    parse_and_tail-Ends zero n e ts h k = absurd (omega arith)
    parse_and_tail-Ends (suc f) n e ts h k =
        Ends-if (check TokenType.and_kw ts)
          (λ c.
            let passed = pass_token n TokenType.and_kw ts c refl h in
            Ends-bind (reject_end-Ends _ (n - 1) (advance ts) (omega arith)) λ _ rest l.
              Ends-bind (parse_not-Ends f (n - 1) rest l (omega arith)) λ r rest' l'.
                Ends-mono {m = n - 1 - 1} (omega arith) (
                  parse_and_tail-Ends f (n - 1 - 1) (logical LogicalOperator.and e r) rest' l'
                    (omega arith)))
          (λ _.
            Ends-if (check TokenType.comma ts)
              (λ c.
                let passed = pass_token n TokenType.comma ts c refl h in
                Ends-if (check TokenType.rbrace (drop_one ts)) (λ _. fail-Ends _ n ts)
                  (λ _.
                    Ends-bind (parse_not-Ends f (n - 1) (advance ts) (omega arith) (omega arith))
                      λ r rest' l'. Ends-mono {m = n - 1 - 1} (omega arith) (
                        parse_and_tail-Ends f (n - 1 - 1) (logical LogicalOperator.and e r) rest' l'
                          (omega arith))))
              (λ _. ends h))

    parse_not-Ends :
        (f n : ℕ) (ts : List (Token F))
        → length ts ≤ n
        → 6 * n + 1 < f
        → Ends (n - 1) (parse_not f ts)
    parse_not-Ends zero n ts h k = absurd (omega arith)
    parse_not-Ends (suc f) n ts h k =
        Ends-if (check TokenType.not_kw ts)
          (λ c.
            let passed = pass_token n TokenType.not_kw ts c refl h in
            Ends-bind (reject_end-Ends _ (n - 1) (advance ts) (omega arith)) λ _ rest l.
              Ends-bind (parse_not-Ends f (n - 1) rest l (omega arith))
                λ e rest' l'. ends {rest = rest'} (omega arith))
          (λ _. parse_primary-Ends f n ts h (omega arith))

    parse_primary-Ends :
        (f n : ℕ) (ts : List (Token F))
        → length ts ≤ n
        → 6 * n < f
        → Ends (n - 1) (parse_primary f ts)
    parse_primary-Ends zero n ts h k = absurd (omega arith)
    parse_primary-Ends (suc f) n ts h k =
        Ends-if (check TokenType.lbrace ts)
          (λ c.
            let passed = pass_token n TokenType.lbrace ts c refl h in
            Ends-bind (reject-Ends TokenType.rbrace _ (n - 1) (advance ts) (omega arith))
              λ _ rest l. Ends-bind (parse_or-Ends f (n - 1) rest l (omega arith)) λ e rest' l'.
                Ends-bind (consume-Ends TokenType.rbrace _ (n - 1) rest' refl (omega arith))
                  λ _ rest'' l''. ends l'')
          (λ _.
            Ends-if (check TokenType.identifier ts)
              (λ c.
                let passed = pass_token n TokenType.identifier ts c refl h in
                parse_atomic_field_expression-Ends f (n - 1) ts (omega arith) (omega arith))
              (λ _. fail-Ends _ (n - 1) ts))

  parse_conditions-Ends :
      (f n : ℕ) (ts : List (Token F))
      → length ts ≤ n
      → 6 * n + 4 < f
      → Ends n (parse_conditions f ts)
  unfolding parse_conditions
  parse_conditions-Ends zero n ts h k = absurd (omega arith)
  parse_conditions-Ends (suc f) n ts h k =
      Ends-if (check TokenType.rbrace ts || is_at_end ts) (λ _. ends h)
        (λ more.
          let some_left = more_tokens (check TokenType.rbrace ts) ts more in
          Ends-bind (parse_or-Ends f n ts h (omega arith)) λ e rest l.
            Ends-if (check TokenType.comma rest)
              (λ c.
                let passed = pass_token (n - 1) TokenType.comma rest c refl l in
                Ends-if (check TokenType.rbrace (advance rest))
                  (λ _. ends {rest = advance rest} (omega arith))
                  (λ _.
                    Ends-bind
                      (parse_conditions-Ends f (n - 1) (advance rest) (omega arith) (omega arith))
                      λ es rest' l'. ends {rest = rest'} (omega arith)))
              (λ _.
                Ends-if (check TokenType.rbrace rest) (λ _. ends {rest = rest} (omega arith))
                  (λ _.
                    Ends-bind (parse_conditions-Ends f (n - 1) rest l (omega arith))
                      λ es rest' l'. ends {rest = rest'} (omega arith))))

  combine-Ends :
      (es : List (Expression F)) (n : ℕ) (ts : List (Token F))
      → length ts ≤ n
      → Ends n (combine es ts)
  unfolding combine
  combine-Ends [] n ts h = fail-Ends _ n ts
  combine-Ends (e ∷ es) n ts h = ends h

  pub parse_where_block-Ends :
      (f n : ℕ) (ts : List (Token F))
      → length ts ≤ n
      → 6 * n + 4 < f
      → Ends n (parse_where_block f ts)
  unfolding parse_where_block
  parse_where_block-Ends f n ts h k =
      Ends-bind (consume-Ends TokenType.lbrace _ n ts refl (omega arith)) λ _ rest l.
        Ends-bind (reject-Ends TokenType.rbrace _ n rest l) λ _ rest l.
          Ends-bind (parse_conditions-Ends f n rest l k) λ es rest l.
            Ends-bind (consume-Ends TokenType.rbrace _ n rest refl (omega arith))
              λ _ rest l. combine-Ends es n rest l
