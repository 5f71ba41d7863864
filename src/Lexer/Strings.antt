-- ===== src/Lexer/Strings.antt =====
-- `_scan_string`
use altr_stream.Base.{Text, ℕ, ◌+◌, zero, suc, [], ◌∷◌, ◌==◌, if◌then◌else◌, length}
use mathlib.Core.List.{reverse}
use altr_stream.Base.Result.{Result, err}
use altr_stream.Tokens.{Kind, Position}
use altr_stream.Lexer.Scan.{
  LexError, lex_error, newline_in_string, unterminated_escape, unterminated_string, Lexed, lexed,
  move,
}

-- `escape_map.get(escaped, escaped)`
unfoldable pub unescape : ℕ → ℕ
unescape c = if c == b'n' then 10 else if c == b't' then 9 else if c == b'r' then 13 else c

abbrev pub take : ℕ → Text → Text
take zero cs = []
take (suc n) [] = []
take (suc n) (c ∷ cs) = c ∷ take n cs

-- `self.source[self.cursor - len(chars) - 2 : self.cursor]`, where `raw` is the source up to the
-- cursor, last character first
unfoldable pub string_lexeme : Text → Text → Text
string_lexeme chars raw = reverse (take (length chars + 2) raw)

module _ {F : Type 0} where
  -- The loop, with `chars` and the source passed so far, both last character first.
  unfoldable pub scan_string_loop :
      Text → Text → Position → Text → Position → Result LexError (Lexed F)
  unfolding move unescape string_lexeme
  scan_string_loop chars raw start [] p = err (lex_error unterminated_string start)
  scan_string_loop chars raw start (c ∷ []) p =
      if c == b'"'
      then lexed (Kind.string (reverse chars)) start (string_lexeme chars (c ∷ raw)) [] (move c p)
      else if c == 10
      then err (lex_error newline_in_string start)
      else if c == 92
      then err (lex_error unterminated_escape start)
      else err (lex_error unterminated_string start)
  scan_string_loop chars raw start (c ∷ d ∷ cs) p =
      let escaped =
        scan_string_loop (unescape d ∷ chars) (d ∷ c ∷ raw) start cs (move d (move c p)) in
      let plain = scan_string_loop (c ∷ chars) (c ∷ raw) start (d ∷ cs) (move c p) in
      if c == b'"'
      then lexed (Kind.string (reverse chars)) start (string_lexeme chars (c ∷ raw)) (d ∷ cs)
          (move c p)
      else if c == 10
      then err (lex_error newline_in_string start)
      else if c == 92
      then escaped
      else plain

  -- After the opening quote.
  unfoldable pub scan_string : Text → Position → Position → Result LexError (Lexed F)
  unfolding scan_string_loop
  scan_string cs start p = scan_string_loop [] (b'"' ∷ []) start cs p
