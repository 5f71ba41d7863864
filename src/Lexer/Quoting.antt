-- ===== src/Lexer/Quoting.antt =====
-- String literals: what the lexer reads back from a quoted text.
use altr_stream.Base.{
  Text, ℕ, ◌≡◌, refl, true, false, ◌||◌, [], ◌∷◌, some, ◌==◌, if◌then◌else◌, arith, Bool-cases, inl,
  inr, ap,
}
use mathlib.Core.List.{reverse, reverse_aux}
use altr_stream.Base.Result.{Result, ok}
use altr_stream.Base.Python.{Python}
use altr_stream.Tokens.{Kind, Position}
use altr_stream.Lexer.Scan.{LexError, Lexed, move}
use altr_stream.Lexer.Strings.{scan_string_loop, scan_string, unescape}
use altr_stream.Lexer.Tokenize.{
  scan_token, scan_single, scan_double, scan_value, single_token, double_token,
}

-- A printer of texts between quotes: a backslash before a quote and a backslash, `\n` for a newline.
abbrev pub escape_character : ℕ → Text → Text
escape_character c rest =
    if c == b'"' || c == 92 then 92 ∷ c ∷ rest else if c == 10 then 92 ∷ b'n' ∷ rest else c ∷ rest

-- The escaped text, the closing quote, and what comes after it.
abbrev pub quoted : Text → Text → Text
quoted [] rest = b'"' ∷ rest
quoted (c ∷ cs) rest = escape_character c (quoted cs rest)

-- The scan read a string token of value `s` that begins at `start`, and stopped before `rest`.
pub data Reads {F : Type 0} (s rest : Text) (start : Position)
    : Result LexError (Lexed F) → Type 0 where
  reads :
      {value lexeme : Text} {p : Position}
      → value ≡ s
      → Reads s rest start (
          ok (record {
            token = some (record { kind = Kind.string value; at = start; lexeme = lexeme });
            rest = rest;
            at = p;
          }))

unescape_self : (c : ℕ) → (c == b'"' || c == 92) ≡ true → unescape c ≡ c
unfolding unescape
unescape_self c h = ground arith

module _ {F : Type 0} where
  closing_quote :
      (chars raw : Text) (start : Position) (rest : Text) (p : Position)
      → Reads {F = F} (reverse chars) rest start (scan_string_loop chars raw start (b'"' ∷ rest) p)
  unfolding scan_string_loop
  closing_quote chars raw start [] p = reads refl
  closing_quote chars raw start (d ∷ rest) p = reads refl

  plain_character :
      (c : ℕ) (chars raw : Text) (start : Position) (cs : Text) (p : Position)
      → (c == b'"' || c == 92) ≡ false
      → (c == 10) ≡ false
      → scan_string_loop {F = F} chars raw start (c ∷ cs) p
        ≡ scan_string_loop (c ∷ chars) (c ∷ raw) start cs (move c p)
  unfolding scan_string_loop
  plain_character c chars raw start [] p h k = ground arith
  plain_character c chars raw start (d ∷ cs) p h k = ground arith

  escaped_character :
      (c : ℕ) (chars raw : Text) (start : Position) (cs : Text) (p : Position)
      → (c == b'"' || c == 92) ≡ true
      → scan_string_loop {F = F} chars raw start (92 ∷ c ∷ cs) p
        ≡ scan_string_loop (c ∷ chars) (c ∷ 92 ∷ raw) start cs (move c (move 92 p))
  unfolding scan_string_loop unescape
  escaped_character c chars raw start cs p h = rw (unescape_self c h) refl

  escaped_newline :
      (c : ℕ) (chars raw : Text) (start : Position) (cs : Text) (p : Position)
      → (c == 10) ≡ true
      → scan_string_loop {F = F} chars raw start (92 ∷ b'n' ∷ cs) p
        ≡ scan_string_loop (c ∷ chars) (b'n' ∷ 92 ∷ raw) start cs (move b'n' (move 92 p))
  unfolding scan_string_loop unescape
  escaped_newline c chars raw start cs p h =
      let same : 10 ≡ c = ground arith in
      ap (λ d. scan_string_loop (d ∷ chars) (b'n' ∷ 92 ∷ raw) start cs (move b'n' (move 92 p))) same

  read_quoted :
      (s : Text) (chars raw : Text) (start : Position) (rest : Text) (p : Position)
      → Reads {F = F}
          (reverse_aux chars s)
          rest
          start
          (scan_string_loop chars raw start (quoted s rest) p)
  read_quoted [] chars raw start rest p = closing_quote chars raw start rest p
  read_quoted (c ∷ cs) chars raw start rest p = elim (Bool-cases (c == b'"' || c == 92)) [
    | inl special ↦
        rw (special, escaped_character c chars raw start (quoted cs rest) p special)
          (read_quoted cs (c ∷ chars) _ start rest _)
    | inr usual ↦ elim (Bool-cases (c == 10)) [
      | inl newline ↦
          rw (usual, newline, escaped_newline c chars raw start (quoted cs rest) p newline)
            (read_quoted cs (c ∷ chars) _ start rest _)
      | inr other ↦
          rw (usual, other, plain_character c chars raw start (quoted cs rest) p usual other)
            (read_quoted cs (c ∷ chars) _ start rest _)
    ]
  ]

module _ {F : Type 0} ⦃py : Python F⦄ where
  quote_starts_string :
      (cs : Text) (p : Position) → scan_token {F = F} b'"' cs p ≡ scan_string cs p (move b'"' p)
  unfolding scan_token scan_single scan_double scan_value double_token single_token
  quote_starts_string [] p = refl
  quote_starts_string (d ∷ cs) p = refl

  -- The lexer reads every text back from its quoted form: one string token with the text for its
  -- value, at the opening quote, and the characters after the closing quote are left.
  pub scan_token-quoted :
      (s rest : Text) (p : Position) → Reads s rest p (scan_token {F = F} b'"' (quoted s rest) p)
  unfolding scan_string
  scan_token-quoted s rest p =
      rw (quote_starts_string (quoted s rest) p) (read_quoted s [] _ p rest _)
