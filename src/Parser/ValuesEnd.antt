-- ===== src/Parser/ValuesEnd.antt =====
-- The parsers of field paths, literals and value sets pass a token, and never run out of fuel.

use altr_stream.Base.{ℕ, zero, suc, ◌-◌, ◌≤◌, ◌<◌, refl, ◌||◌, List, arith, length, is_some}
use altr_stream.Base.Python.{Python}
use altr_stream.Ast.{Literal}
use altr_stream.Tokens.{Token, TokenType}
use altr_stream.Parser.Machine.{peek, check, is_at_end, advance}
use altr_stream.Parser.Values.{
  identifier_of, string_of, literal_of, comparison_of, parse_literal, parse_string_literal,
  parse_segments, parse_field_path, parse_range_end, parse_comparison_constraint, parse_constraints,
  parse_value_set_element, parse_elements, parse_value_set,
}
use altr_stream.Parser.Progress.{
  Ends, ends, Ends-if, Ends-bind, pass_token, more_tokens, Ends-repeat, consume-Ends, reject-Ends,
  take_value-Ends, lax_separator-Ends,
}

module _ {F : Type 0} ⦃py : Python F⦄ where
  pub parse_literal-Ends :
      (n : ℕ) (ts : List (Token F)) → length ts ≤ suc n → Ends n (parse_literal ts)
  unfolding parse_literal
  parse_literal-Ends n ts h = take_value-Ends literal_of _ n ts refl h

  pub parse_string_literal-Ends :
      (n : ℕ) (ts : List (Token F)) → length ts ≤ suc n → Ends n (parse_string_literal ts)
  unfolding parse_string_literal
  parse_string_literal-Ends n ts h = take_value-Ends string_of _ n ts refl h

  parse_segments-Ends :
      (f n : ℕ) (ts : List (Token F)) → length ts ≤ n → n < f → Ends n (parse_segments f ts)
  unfolding parse_segments
  parse_segments-Ends zero n ts h k = absurd (omega arith)
  parse_segments-Ends (suc f) n ts h k =
      Ends-if (check TokenType.dot ts)
        (λ dot.
          let passed = pass_token n TokenType.dot ts dot refl h in
          Ends-bind (take_value-Ends identifier_of _ (n - 1) (advance ts) refl (omega arith))
            λ s rest l.
              Ends-bind (parse_segments-Ends f (n - 1) rest l (omega arith))
                λ ss rest' l'. ends {rest = rest'} (omega arith))
        (λ _. ends h)

  pub parse_field_path-Ends :
      (f n : ℕ) (ts : List (Token F)) → length ts ≤ suc n → n < f → Ends n (parse_field_path f ts)
  unfolding parse_field_path
  parse_field_path-Ends f n ts h k =
      Ends-bind (take_value-Ends identifier_of _ n ts refl h)
        λ s rest l. Ends-bind (parse_segments-Ends f n rest l k) λ ss rest' l'. ends l'

  pub parse_range_end-Ends :
      (l : Literal F) (n : ℕ) (ts : List (Token F)) → length ts ≤ n → Ends n (parse_range_end l ts)
  unfolding parse_range_end
  parse_range_end-Ends l n ts h =
      Ends-if (check TokenType.dotdot ts)
        (λ dots.
          let passed = pass_token n TokenType.dotdot ts dots refl h in
          Ends-bind (parse_literal-Ends n (advance ts) (omega arith)) λ m rest k. ends k)
        (λ _. ends h)

  parse_comparison_constraint-Ends :
      (n : ℕ) (ts : List (Token F)) → length ts ≤ suc n → Ends n (parse_comparison_constraint ts)
  unfolding parse_comparison_constraint
  parse_comparison_constraint-Ends n ts h =
      Ends-bind (take_value-Ends comparison_of _ n ts refl h)
        λ op rest l. Ends-bind (parse_literal-Ends n rest (omega arith)) λ m rest' k. ends k

  parse_constraints-Ends :
      (f n : ℕ) (ts : List (Token F)) → length ts ≤ n → n < f → Ends n (parse_constraints f ts)
  unfolding parse_constraints
  parse_constraints-Ends zero n ts h k = absurd (omega arith)
  parse_constraints-Ends (suc f) n ts h k =
      Ends-if (check TokenType.ampersand ts)
        (λ amp.
          let passed = pass_token n TokenType.ampersand ts amp refl h in
          Ends-bind (parse_comparison_constraint-Ends (n - 1) (advance ts) (omega arith))
            λ c rest l.
              Ends-bind (parse_constraints-Ends f (n - 1) rest l (omega arith))
                λ cs rest' l'. ends {rest = rest'} (omega arith))
        (λ _. ends h)

  parse_value_set_element-Ends :
      (f n : ℕ) (ts : List (Token F))
      → length ts ≤ suc n
      → n < f
      → Ends n (parse_value_set_element f ts)
  unfolding parse_value_set_element
  parse_value_set_element-Ends f n ts h k =
      Ends-if (is_some (comparison_of (peek ts).kind))
        (λ _.
          Ends-bind (parse_comparison_constraint-Ends n ts h)
            λ c rest l. Ends-bind (parse_constraints-Ends f n rest l k) λ cs rest' l'. ends l')
        (λ _.
          Ends-bind (parse_literal-Ends n ts h)
            λ m rest l. Ends-bind (parse_range_end-Ends m n rest l) λ r rest' l'. ends l')

  parse_elements-Ends :
      (f n : ℕ) (ts : List (Token F)) → length ts ≤ n → n < f → Ends n (parse_elements f ts)
  unfolding parse_elements
  parse_elements-Ends zero n ts h k = absurd (omega arith)
  parse_elements-Ends (suc f) n ts h k =
      Ends-if (check TokenType.rbrace ts || is_at_end ts) (λ _. ends h)
        (λ more.
          let some_left = more_tokens (check TokenType.rbrace ts) ts more in
          Ends-bind (parse_value_set_element-Ends f (n - 1) ts (omega arith) (omega arith))
            λ e rest l.
              Ends-bind (lax_separator-Ends TokenType.rbrace _ (n - 1) rest l) λ again rest' l'.
                Ends-bind
                  (Ends-repeat again (parse_elements f) rest' l'
                    (λ _. parse_elements-Ends f (n - 1) rest' l' (omega arith)))
                  λ es rest'' l''. ends {rest = rest''} (omega arith))

  pub parse_value_set-Ends :
      (f n : ℕ) (ts : List (Token F)) → length ts ≤ n → n < f → Ends n (parse_value_set f ts)
  unfolding parse_value_set
  parse_value_set-Ends f n ts h k = Ends-bind (reject-Ends TokenType.rbrace _ n ts h) λ _ rest l.
      Ends-bind (parse_elements-Ends f n rest l k) λ es rest' l'.
        Ends-bind (consume-Ends TokenType.rbrace _ n rest' refl (omega arith))
          λ _ rest'' l''. ends l''
