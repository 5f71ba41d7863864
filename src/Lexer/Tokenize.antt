-- ===== src/Lexer/Tokenize.antt =====
-- `tokenize`: one round of its loop, and the loop.
use altr_stream.Base.{
  Text, ℕ, zero, suc, Bool, ◌&&◌, ◌||◌, List, [], ◌∷◌, Option, none, some, ◌==◌, if◌then◌else◌,
  length,
}
use altr_stream.Base.Result.{Result, ok, err, ◌>>=◌}
use altr_stream.Base.Python.{Python}
use altr_stream.Tokens.{Kind, Position, Token, TokenType}
use altr_stream.Lexer.Scan.{
  LexError, lex_error, unexpected_character, out_of_fuel, Lexed, lexed, move, scan_temporal_literal,
  scan_number, scan_identifier_or_keyword,
}
use altr_stream.Lexer.Strings.{scan_string}

abbrev pub is_whitespace : ℕ → Bool
is_whitespace c = c == 32 || c == 9 || c == 13 || c == 10

-- `single_tokens`
unfoldable pub single_token : ℕ → Option TokenType
single_token c =
    if c == b'('
    then some TokenType.lparen
    else if c == b')'
    then some TokenType.rparen
    else if c == b'{'
    then some TokenType.lbrace
    else if c == b'}'
    then some TokenType.rbrace
    else if c == b','
    then some TokenType.comma
    else if c == b';'
    then some TokenType.semicolon
    else if c == b'.'
    then some TokenType.dot
    else if c == b':'
    then some TokenType.colon
    else if c == b'&'
    then some TokenType.ampersand
    else if c == b'='
    then some TokenType.eq
    else if c == b'>'
    then some TokenType.gt
    else if c == b'<'
    then some TokenType.lt
    else none

-- The structural tokens of two characters.
unfoldable pub double_token : ℕ → ℕ → Option TokenType
double_token c d =
    if c == b'.' && d == b'.'
    then some TokenType.dotdot
    else if c == b'!' && d == b'='
    then some TokenType.neq
    else if c == b'>' && d == b'='
    then some TokenType.gte
    else if c == b'<' && d == b'='
    then some TokenType.lte
    else none

-- `while not at_end and peek != "\n": advance`
unfoldable pub skip_comment : Text → Position → Text × Position
unfolding move
skip_comment [] p = ([], p)
skip_comment (c ∷ cs) p = if c == 10 then (c ∷ cs, p) else skip_comment cs (move c p)

abbrev pub skip : {F : Type 0} → Text × Position → Result LexError (Lexed F)
skip (cs, p) = ok (record { token = none; rest = cs; at = p })

abbrev pub append_token : {F : Type 0} → Option (Token F) → List (Token F) → List (Token F)
append_token none ts = ts
append_token (some t) ts = t ∷ ts

module _ {F : Type 0} ⦃py : Python F⦄ where
  -- Steps 4 to 7: strings, temporal literals, numbers, words, and what is none of these.
  unfoldable pub scan_value : ℕ → Text → Position → Result LexError (Lexed F)
  unfolding scan_string scan_temporal_literal scan_number scan_identifier_or_keyword move
  scan_value c cs p =
      if c == b'"'
      then scan_string cs p (move c p)
      else if c == b'@'
      then scan_temporal_literal cs p (move c p)
      else if py.is_digit c
      then scan_number (c ∷ cs) p
      else if py.is_alpha c || c == b'_'
      then scan_identifier_or_keyword (c ∷ cs) p
      else err (lex_error (unexpected_character c) p)

  -- Step 3: the single-character tokens, then the values.
  unfoldable pub scan_single : ℕ → Text → Position → Option TokenType → Result LexError (Lexed F)
  unfolding scan_value move
  scan_single c cs p (some t) = lexed (Kind.fixed t) p (c ∷ []) cs (move c p)
  scan_single c cs p none = scan_value c cs p

  -- Steps 2 and 3 with one more character in view: comments and two-character tokens.
  unfoldable pub scan_double :
      ℕ → ℕ → Text → Position → Option TokenType → Result LexError (Lexed F)
  unfolding scan_single single_token skip_comment move
  scan_double c d cs p (some t) = lexed (Kind.fixed t) p (c ∷ d ∷ []) cs (move d (move c p))
  scan_double c d cs p none =
      if c == b'/' && d == b'/'
      then skip (skip_comment cs (move d (move c p)))
      else scan_single c (d ∷ cs) p (single_token c)

  -- One round of the loop, at the character `c`.
  unfoldable pub scan_token : ℕ → Text → Position → Result LexError (Lexed F)
  unfolding scan_double scan_single single_token double_token move
  scan_token c [] p =
      if is_whitespace c then skip ([], move c p) else scan_single c [] p (single_token c)
  scan_token c (d ∷ cs) p =
      if is_whitespace c then skip (d ∷ cs, move c p) else scan_double c d cs p (double_token c d)

  unfoldable pub tokenize_loop : ℕ → Text → Position → Result LexError (List (Token F))
  unfolding scan_token
  tokenize_loop zero cs p = err out_of_fuel
  tokenize_loop (suc f) [] p =
      ok (record { kind = Kind.fixed TokenType.eof; at = p; lexeme = [] } ∷ [])
  tokenize_loop (suc f) (c ∷ cs) p = do
    s ← scan_token c cs p
    ts ← tokenize_loop f s.rest s.at
    ok (append_token s.token ts)

  -- One round for each character is enough, and one more for the end.
  unfoldable pub tokenize : Text → Result LexError (List (Token F))
  unfolding tokenize_loop
  tokenize source = tokenize_loop (suc (length source)) source (record { line = 1; column = 1 })
