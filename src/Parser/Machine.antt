-- ===== src/Parser/Machine.antt =====
-- Inspection and consumption of tokens, errors, and the sequencing of parsers.
use Prim.Native.String.{String}
use altr_stream.Base.{
  Text, codes, Bool, true, false, ◌||◌, List, [], ◌∷◌, Option, none, some, if◌then◌else◌,
}
use altr_stream.Base.Result
use altr_stream.Base.Result.{Result, ok, err}
use altr_stream.Base.Python.{Python}
use altr_stream.Tokens.{
  Kind, Position, Token, TokenType, type_of, type_eq, find_keyword, reserved_keywords,
}

pub data ParseError : Type 0 where
  -- the message, the position, the unexpected token
  syntax : String → Position → Text → ParseError
  -- a keyword that is not in upper case: its lexeme, and the keyword
  keyword_case : Text → Text → Position → ParseError
  -- the fuel of the model ran out
  out_of_fuel : ParseError

module _ {F : Type 0} where
  abbrev pub end_token : Token F
  end_token = record {
    kind = Kind.fixed TokenType.eof;
    at = record { line = 1; column = 1 };
    lexeme = [];
  }

  abbrev pub peek : List (Token F) → Token F
  peek [] = end_token
  peek (t ∷ ts) = t

  abbrev pub drop_one : List (Token F) → List (Token F)
  drop_one [] = []
  drop_one (t ∷ ts) = ts

  abbrev pub peek_type : List (Token F) → TokenType
  peek_type ts = type_of (peek ts).kind

  abbrev pub check : TokenType → List (Token F) → Bool
  check t ts = type_eq (peek_type ts) t

  abbrev pub is_at_end : List (Token F) → Bool
  is_at_end ts = check TokenType.eof ts

  -- `_advance`: it does not pass EOF
  abbrev pub advance : List (Token F) → List (Token F)
  advance ts = if is_at_end ts then ts else drop_one ts

abbrev pub Parser : Type 0 → Type 0 → Type 0
Parser F A = List (Token F) → Result ParseError (A × List (Token F))

module _ {F : Type 0} where
  infixl 1 ◌>>=◌ ◌>>◌
  abbrev pub ◌>>=◌ : {A B : Type 0} → Parser F A → (A → Parser F B) → Parser F B
  ◌>>=◌ p f ts = Result.◌>>=◌ (p ts) (λ (a, rest). f a rest)

  abbrev pub ◌>>◌ : {B : Type 0} → Parser F (Unit {0}) → Parser F B → Parser F B
  p >> q = p >>= λ _. q

  abbrev pub pure : {A : Type 0} → A → Parser F A
  pure a ts = ok (a, ts)

  -- The rest of a loop's list, if the loop goes on.
  abbrev pub repeat : {A : Type 0} → Bool → Parser F (List A) → Parser F (List A)
  repeat true p ts = p ts
  repeat false p ts = ok ([], ts)

  abbrev pub run :
      {A : Type 0} → List (Token F) → Parser F A → Result ParseError (A × List (Token F))
  run ts p = p ts

  unfoldable pub suggest : String → Token F → Text → Option TokenType → ParseError
  suggest message tok keyword (some _) = keyword_case tok.lexeme keyword tok.at
  suggest message tok keyword none = syntax message tok.at tok.lexeme

module _ {F : Type 0} ⦃py : Python F⦄ where
  -- The exception of `_error`, at a token.
  unfoldable pub diagnose : String → Token F → ParseError
  unfolding suggest
  diagnose message tok =
      if type_eq (type_of tok.kind) TokenType.identifier
      then suggest message tok (py.upper tok.lexeme)
          (find_keyword (py.upper tok.lexeme) reserved_keywords)
      else if type_eq (type_of tok.kind) TokenType.eof
      then syntax message tok.at (codes "EOF")
      else syntax message tok.at tok.lexeme

  unfoldable pub fail : {A : Type 0} → String → Parser F A
  unfolding diagnose
  fail message ts = err (diagnose message (peek ts))

  -- `_consume`
  unfoldable pub consume : TokenType → String → Parser F (Unit {0})
  unfolding fail
  consume t message ts = if check t ts then ok (tt, advance ts) else fail message ts

  -- `if self._check(t): self._error(message)`
  unfoldable pub reject : TokenType → String → Parser F (Unit {0})
  unfolding fail
  reject t message ts = if check t ts then fail message ts else ok (tt, ts)

  -- `if not self._check(t): self._error(message)`
  unfoldable pub require : TokenType → String → Parser F (Unit {0})
  unfolding fail
  require t message ts = if check t ts then ok (tt, ts) else fail message ts

  unfoldable pub take_some :
      {A : Type 0} → String → List (Token F) → Option A → Result ParseError (A × List (Token F))
  unfolding fail
  take_some message ts none = fail message ts
  take_some message ts (some a) = ok (a, advance ts)

  -- A token that carries a value of interest is passed, any other is an error.
  unfoldable pub take_value : {A : Type 0} → (Kind F → Option A) → String → Parser F A
  unfolding take_some
  take_value value message ts = take_some message ts (value (peek ts).kind)

  -- `if self._check(RBRACE) or self._is_at_end() or self._check(SEMICOLON): self._error(message)`
  unfoldable pub reject_end : String → Parser F (Unit {0})
  unfolding fail
  reject_end message ts =
      if check TokenType.rbrace ts || (is_at_end ts || check TokenType.semicolon ts)
      then fail message ts
      else ok (tt, ts)

  -- A loop with a trailing comma forbidden: `true` if the loop goes on.
  unfoldable pub strict_separator : TokenType → String → String → Parser F Bool
  unfolding fail
  strict_separator close trailing message ts =
      if check TokenType.comma ts
      then (if check close (advance ts) then fail trailing (advance ts) else ok (true, advance ts))
      else if check close ts
      then ok (false, ts)
      else fail message ts

  -- A loop that allows a trailing comma.
  unfoldable pub lax_separator : TokenType → String → Parser F Bool
  unfolding fail
  lax_separator close message ts =
      if check TokenType.comma ts
      then (if check close (advance ts) then ok (false, advance ts) else ok (true, advance ts))
      else if check close ts
      then ok (false, ts)
      else fail message ts

  unfoldable pub consume_terminating_semicolon : Parser F (Unit {0})
  unfolding consume fail
  consume_terminating_semicolon =
      consume TokenType.semicolon "Expected ';' at end of query." >> λ ts.
      if is_at_end ts then ok (tt, ts) else fail "Unexpected tokens after query terminating ';'." ts
