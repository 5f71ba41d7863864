-- ===== src/Lexer/Scan.antt =====
-- The lexer's state, its errors, and the scans of numbers, words and temporal literals.
use altr_stream.Base.{
  Text, codes, ℕ, ◌+◌, Bool, false, ◌&&◌, ◌||◌, not, [], ◌∷◌, ◌++◌, Option, none, some, ◌==◌,
  if◌then◌else◌,
}
use altr_stream.Base.Result.{Result, ok, err, ◌>>◌, raise_if}
use altr_stream.Base.Python.{Python}
use altr_stream.Tokens.{Kind, Position, Token, find_keyword, reserved_keywords, TokenType}

pub data LexFault : Type 0 where
  unexpected_character : ℕ → LexFault
  malformed_temporal invalid_date : Text → LexFault
  newline_in_string unterminated_escape unterminated_string malformed_float : LexFault
  -- the ValueError of int(raw) and of float(raw), which is no AltrQueryLexError
  value_error : Text → LexFault

pub data LexError : Type 0 where
  lex_error : LexFault → Position → LexError
  -- the fuel of the model ran out
  out_of_fuel : LexError

-- `_peek()`: "\0" at the end
abbrev pub peek : Text → ℕ
peek [] = 0
peek (c ∷ cs) = c

-- The effect of `_advance()` over a character on line and column.
unfoldable pub move : ℕ → Position → Position
move c p =
    if c == 10
    then record { line = p.line + 1; column = 1 }
    else record { line = p.line; column = p.column + 1 }

-- What a scan has passed, what is left, and where it stands.
pub record Scanned : Type 0 where
  pub passed : Text
  pub rest : Text
  pub at : Position

abbrev pub pass : ℕ → Scanned → Scanned
pass c s = record { passed = c ∷ s.passed; rest = s.rest; at = s.at }

-- `while not at_end and test(peek): advance`
unfoldable pub scan_while : (ℕ → Bool) → Text → Position → Scanned
unfolding move
scan_while test [] p = record { passed = []; rest = []; at = p }
scan_while test (c ∷ cs) p =
    if test c
    then pass c (scan_while test cs (move c p))
    else record { passed = []; rest = c ∷ cs; at = p }

-- The characters that end a temporal literal.
abbrev pub temporal_delimiters : Text
temporal_delimiters = 32 ∷ 9 ∷ 13 ∷ 10 ∷ codes ",;)}({&=!<>/"

unfoldable pub one_of : ℕ → Text → Bool
one_of c [] = false
one_of c (d ∷ ds) = c == d || one_of c ds

unfoldable pub scan_temporal : Text → Position → Scanned
unfolding move one_of
scan_temporal [] p = record { passed = []; rest = []; at = p }
scan_temporal (c ∷ cs) p =
    if one_of c temporal_delimiters || (c == b'.' && peek cs == b'.')
    then record { passed = []; rest = c ∷ cs; at = p }
    else pass c (scan_temporal cs (move c p))

-- A token, and the lexer's state after it.
pub record Lexed (F : Type 0) : Type 0 where
  pub token : Option (Token F)
  pub rest : Text
  pub at : Position

module _ {F : Type 0} where
  abbrev pub lexed : Kind F → Position → Text → Text → Position → Result LexError (Lexed F)
  lexed kind start lexeme rest p = ok (record {
    token = some (record { kind = kind; at = start; lexeme = lexeme });
    rest = rest;
    at = p;
  })

  unfoldable pub word_kind : Text → Option TokenType → Kind F
  word_kind word (some t) = Kind.fixed t
  word_kind word none = Kind.identifier word

-- re.fullmatch(r"\d{4}-\d{2}-\d{2}", s), where `decimal` is the class `\d`
unfoldable pub is_date_shape : (ℕ → Bool) → Text → Bool
is_date_shape decimal (a ∷ b ∷ c ∷ d ∷ e ∷ f ∷ g ∷ h ∷ i ∷ j ∷ []) =
    decimal a
    && decimal b
    && decimal c
    && decimal d
    && e == b'-'
    && decimal f
    && decimal g
    && h == b'-'
    && decimal i
    && decimal j
is_date_shape decimal _ = false

abbrev pub is_word_character : (ℕ → Bool) → ℕ → Bool
is_word_character alnum c = alnum c || c == b'_'

module _ {F : Type 0} ⦃py : Python F⦄ where
  -- `_scan_temporal_literal`, after the '@'
  unfoldable pub scan_temporal_literal : Text → Position → Position → Result LexError (Lexed F)
  unfolding scan_temporal is_date_shape
  scan_temporal_literal cs start p =
      let s = scan_temporal cs p in
      raise_if (not (is_date_shape py.is_decimal s.passed))
        (lex_error (malformed_temporal s.passed) start)
      >> raise_if (not (py.is_iso_date s.passed)) (lex_error (invalid_date s.passed) start)
      >> lexed (Kind.temporal_literal s.passed) start (b'@' ∷ s.passed) s.rest s.at

  unfoldable pub integer_token : Scanned → Position → Option ℕ → Result LexError (Lexed F)
  integer_token s start (some n) = lexed (Kind.integer n) start s.passed s.rest s.at
  integer_token s start none = err (lex_error (value_error s.passed) start)

  unfoldable pub float_token : Text → Scanned → Position → Option F → Result LexError (Lexed F)
  float_token raw s start (some x) = lexed (Kind.float x) start raw s.rest s.at
  float_token raw s start none = err (lex_error (value_error raw) start)

  -- The digits after the '.' of a float.
  unfoldable pub scan_fraction : Text → Text → Position → Position → Result LexError (Lexed F)
  unfolding scan_while float_token
  scan_fraction whole cs start p =
      let s = scan_while py.is_digit cs p in
      let raw = whole ++ (b'.' ∷ s.passed) in
      if py.is_digit (peek cs)
      then float_token raw s start (py.float raw)
      else err (lex_error malformed_float start)

  -- The decision between a float, an integer and the start of a range '..'.
  unfoldable pub finish_number : Scanned → Position → Text → Result LexError (Lexed F)
  unfolding scan_fraction integer_token move
  finish_number s start [] = integer_token s start (py.int s.passed)
  finish_number s start (c ∷ cs) =
      if c == b'.' && not (peek cs == b'.')
      then scan_fraction s.passed cs start (move c s.at)
      else integer_token s start (py.int s.passed)

  unfoldable pub scan_number : Text → Position → Result LexError (Lexed F)
  unfolding scan_while finish_number
  scan_number cs start = let s = scan_while py.is_digit cs start in finish_number s start s.rest

  unfoldable pub scan_identifier_or_keyword : Text → Position → Result LexError (Lexed F)
  unfolding scan_while word_kind find_keyword
  scan_identifier_or_keyword cs start =
      let s = scan_while (is_word_character py.is_alnum) cs start in
      lexed (word_kind s.passed (find_keyword s.passed reserved_keywords)) start s.passed s.rest
        s.at
