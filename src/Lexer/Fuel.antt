-- ===== src/Lexer/Fuel.antt =====
-- Each round of the lexer passes a character, so that its fuel is enough.
use altr_stream.Base.{
  Text, ℕ, zero, suc, ◌≤◌, ◌<◌, ◌≡◌, ◌≢◌, refl, Bool, true, false, not, ◌&&◌, ◌||◌, List, [], ◌∷◌,
  Option, none, some, ◌==◌, arith, if◌then◌else◌, length,
}
use altr_stream.Base.Result.{Result, ok, err, ◌>>=◌, ◌>>◌, raise_if}
use altr_stream.Base.Python.{Python}
use altr_stream.Tokens.{Position, Token, TokenType}
use altr_stream.Lexer.Scan.{
  LexError, LexFault, lex_error, out_of_fuel, malformed_temporal, invalid_date, peek, move, Scanned,
  scan_while, scan_temporal, Lexed, is_date_shape, is_word_character, scan_temporal_literal,
  integer_token, float_token, scan_fraction, finish_number, scan_number, scan_identifier_or_keyword,
}
use altr_stream.Lexer.Strings.{scan_string_loop, scan_string, unescape}
use altr_stream.Lexer.Tokenize.{
  is_whitespace, single_token, double_token, skip_comment, scan_value, scan_single, scan_double,
  scan_token, append_token, tokenize_loop, tokenize,
}

-- The round kept at most `n` characters for the next, or raised an error of the source.
data Shrinks {F : Type 0} (n : ℕ) : Result LexError (Lexed F) → Type 0 where
  shrunk : {s : Lexed F} → length s.rest ≤ n → Shrinks n (ok s)
  raised : {fault : LexFault} {at : Position} → Shrinks n (err (lex_error fault at))

module _ {F : Type 0} where
  Shrinks-if :
      {n : ℕ} (b : Bool) {x y : Result LexError (Lexed F)}
      → (b ≡ true → Shrinks n x)
      → (b ≡ false → Shrinks n y)
      → Shrinks n (if b then x else y)
  Shrinks-if true hx hy = hx refl
  Shrinks-if false hx hy = hy refl

  Shrinks-mono : {m n : ℕ} {r : Result LexError (Lexed F)} → m ≤ n → Shrinks m r → Shrinks n r
  Shrinks-mono h (shrunk k) = shrunk (omega arith)
  Shrinks-mono h raised = raised

  Shrinks-unless :
      {n : ℕ} (a b : Bool) (fault other : LexFault) (at : Position) {x : Result LexError (Lexed F)}
      → Shrinks n x
      → Shrinks n (raise_if a (lex_error fault at) >> raise_if b (lex_error other at) >> x)
  Shrinks-unless true b fault other at h = raised
  Shrinks-unless false true fault other at h = raised
  Shrinks-unless false false fault other at h = h

scan_while_le :
    (test : ℕ → Bool) (cs : Text) (p : Position) → length (scan_while test cs p).rest ≤ length cs
unfolding scan_while
scan_while_le test [] p = omega arith
scan_while_le test (c ∷ cs) p = ground (arith, scan_while_le test cs (move c p))

-- A scan passes a character that the test accepts.
scan_while_lt :
    (test : ℕ → Bool) (c : ℕ) (cs : Text) (p : Position)
    → test c ≡ true
    → length (scan_while test (c ∷ cs) p).rest ≤ length cs
unfolding scan_while
scan_while_lt test c cs p h = rw h (scan_while_le test cs (move c p))

scan_temporal_le : (cs : Text) (p : Position) → length (scan_temporal cs p).rest ≤ length cs
unfolding scan_temporal
scan_temporal_le [] p = omega arith
scan_temporal_le (c ∷ cs) p = ground (arith, scan_temporal_le cs (move c p))

skip_comment_le : (cs : Text) (p : Position) → length (skip_comment cs p).0 ≤ length cs
unfolding skip_comment
skip_comment_le [] p = omega arith
skip_comment_le (c ∷ cs) p = ground (arith, skip_comment_le cs (move c p))

module _ {F : Type 0} ⦃py : Python F⦄ where
  scan_string_loop-Shrinks :
      (chars raw : Text) (start : Position) (cs : Text) (p : Position)
      → Shrinks {F = F} (length cs) (scan_string_loop chars raw start cs p)
  unfolding scan_string_loop
  scan_string_loop-Shrinks chars raw start [] p = raised
  scan_string_loop-Shrinks chars raw start (c ∷ []) p =
      Shrinks-if (c == b'"') (λ _. shrunk (omega arith))
        (λ _.
          Shrinks-if (c == 10) (λ _. raised)
            (λ _. Shrinks-if (c == 92) (λ _. raised) (λ _. raised)))
  scan_string_loop-Shrinks chars raw start (c ∷ d ∷ cs) p =
      Shrinks-if (c == b'"') (λ _. shrunk (omega arith))
        (λ _.
          Shrinks-if (c == 10) (λ _. raised)
            (λ _.
              Shrinks-if (c == 92)
                (λ _.
                  Shrinks-mono {m = length cs} (omega arith)
                    (scan_string_loop-Shrinks (unescape d ∷ chars) (d ∷ c ∷ raw) start cs _))
                (λ _.
                  Shrinks-mono {m = suc (length cs)} (omega arith)
                    (scan_string_loop-Shrinks (c ∷ chars) (c ∷ raw) start (d ∷ cs) _))))

  scan_temporal_literal-Shrinks :
      (cs : Text) (start p : Position)
      → Shrinks {F = F} (length cs) (scan_temporal_literal cs start p)
  unfolding scan_temporal_literal
  scan_temporal_literal-Shrinks cs start p =
      let t = scan_temporal cs p in
      Shrinks-unless (not (is_date_shape py.is_decimal t.passed)) (not (py.is_iso_date t.passed))
        (malformed_temporal t.passed) (invalid_date t.passed) start (shrunk (scan_temporal_le cs p))

  integer_token-Shrinks :
      (n : ℕ) (s : Scanned) (start : Position) (o : Option ℕ)
      → length s.rest ≤ n
      → Shrinks {F = F} n (integer_token s start o)
  unfolding integer_token
  integer_token-Shrinks n s start (some x) h = shrunk h
  integer_token-Shrinks n s start none h = raised

  float_token-Shrinks :
      (n : ℕ) (raw : Text) (s : Scanned) (start : Position) (o : Option F)
      → length s.rest ≤ n
      → Shrinks {F = F} n (float_token raw s start o)
  unfolding float_token
  float_token-Shrinks n raw s start (some x) h = shrunk h
  float_token-Shrinks n raw s start none h = raised

  finish_number-Shrinks :
      (n : ℕ) (s : Scanned) (start : Position) (rest : Text)
      → length s.rest ≤ n
      → length rest ≤ n
      → Shrinks {F = F} n (finish_number s start rest)
  unfolding finish_number scan_fraction
  finish_number-Shrinks n s start [] h k = integer_token-Shrinks n s start _ h
  finish_number-Shrinks n s start (c ∷ cs) h k =
      Shrinks-if (c == b'.' && not (peek cs == b'.'))
        (λ _.
          Shrinks-if (py.is_digit (peek cs))
            (λ _.
              float_token-Shrinks n _ (scan_while py.is_digit cs (move c s.at)) start _
                (omega (arith, scan_while_le py.is_digit cs (move c s.at))))
            (λ _. raised))
        (λ _. integer_token-Shrinks n s start _ h)

  scan_number-Shrinks :
      (c : ℕ) (cs : Text) (start : Position)
      → py.is_digit c ≡ true
      → Shrinks {F = F} (length cs) (scan_number (c ∷ cs) start)
  unfolding scan_number
  scan_number-Shrinks c cs start h =
      let le = scan_while_lt py.is_digit c cs start h in
      finish_number-Shrinks (length cs) (scan_while py.is_digit (c ∷ cs) start) start _ le le

word_start :
    (alpha alnum : ℕ → Bool) (c : ℕ)
    → (alpha c ≡ true → alnum c ≡ true)
    → (alpha c || c == b'_') ≡ true
    → is_word_character alnum c ≡ true
word_start alpha alnum c letter h = ground (arith, letter)

module _ {F : Type 0} ⦃py : Python F⦄
    (letters : (c : ℕ) → py.is_alpha c ≡ true → py.is_alnum c ≡ true) where
  scan_value-Shrinks :
      (c : ℕ) (cs : Text) (p : Position) → Shrinks {F = F} (length cs) (scan_value c cs p)
  unfolding scan_value scan_string scan_identifier_or_keyword
  scan_value-Shrinks c cs p =
      Shrinks-if (c == b'"') (λ _. scan_string_loop-Shrinks [] _ p cs _)
        (λ _.
          Shrinks-if (c == b'@') (λ _. scan_temporal_literal-Shrinks cs p _)
            (λ _.
              Shrinks-if (py.is_digit c) (λ h. scan_number-Shrinks c cs p h)
                (λ _.
                  Shrinks-if (py.is_alpha c || c == b'_')
                    (λ h. shrunk (
                      scan_while_lt (is_word_character py.is_alnum) c cs p
                        (word_start py.is_alpha py.is_alnum c (letters c) h)))
                    (λ _. raised))))

  scan_single-Shrinks :
      (c : ℕ) (cs : Text) (p : Position) (o : Option TokenType)
      → Shrinks {F = F} (length cs) (scan_single c cs p o)
  unfolding scan_single
  scan_single-Shrinks c cs p (some t) = shrunk (omega arith)
  scan_single-Shrinks c cs p none = scan_value-Shrinks c cs p

  scan_double-Shrinks :
      (c d : ℕ) (cs : Text) (p : Position) (o : Option TokenType)
      → Shrinks {F = F} (suc (length cs)) (scan_double c d cs p o)
  unfolding scan_double
  scan_double-Shrinks c d cs p (some t) = shrunk (omega arith)
  scan_double-Shrinks c d cs p none =
      Shrinks-if (c == b'/' && d == b'/')
        (λ _. shrunk (omega (arith, skip_comment_le cs (move d (move c p)))))
        (λ _. scan_single-Shrinks c (d ∷ cs) p (single_token c))

  scan_token-Shrinks :
      (c : ℕ) (cs : Text) (p : Position) → Shrinks {F = F} (length cs) (scan_token c cs p)
  unfolding scan_token
  scan_token-Shrinks c [] p =
      Shrinks-if (is_whitespace c) (λ _. shrunk (omega arith))
        (λ _. scan_single-Shrinks c [] p (single_token c))
  scan_token-Shrinks c (d ∷ cs) p =
      Shrinks-if (is_whitespace c) (λ _. shrunk (omega arith))
        (λ _. scan_double-Shrinks c d cs p (double_token c d))

-- What the next rounds need: their fuel, and the error that stands for lost fuel.
next_round :
    {F : Type 0} {n : ℕ} {r : Result LexError (Lexed F)}
    {k : Lexed F → Result LexError (List (Token F))}
    → Shrinks n r
    → ((s : Lexed F) → length s.rest ≤ n → k s ≢ err out_of_fuel)
    → (r >>= k) ≢ err out_of_fuel
next_round (shrunk {s} h) k = k s h
next_round raised k = λ e. cc

keep-ne :
    {F : Type 0} (t : Option (Token F)) (r : Result LexError (List (Token F)))
    → r ≢ err out_of_fuel
    → (r >>= λ ts. ok (append_token t ts)) ≢ err out_of_fuel
keep-ne t (ok ts) h = λ e. cc
keep-ne t (err x) h = λ e. h (cc)

module _ {F : Type 0} ⦃py : Python F⦄
    (letters : (c : ℕ) → py.is_alpha c ≡ true → py.is_alnum c ≡ true) where
  tokenize_loop-ne-out_of_fuel :
      (f : ℕ) (cs : Text) (p : Position)
      → length cs < f
      → tokenize_loop {F = F} f cs p ≢ err out_of_fuel
  unfolding tokenize_loop
  tokenize_loop-ne-out_of_fuel zero cs p h = absurd (omega arith)
  tokenize_loop-ne-out_of_fuel (suc f) [] p h = λ e. cc
  tokenize_loop-ne-out_of_fuel (suc f) (c ∷ cs) p h =
      next_round (scan_token-Shrinks letters c cs p)
        λ s l. keep-ne s.token _ (tokenize_loop-ne-out_of_fuel f s.rest s.at (omega arith))

  -- The lexer returns on every text, with tokens or an error of the source, never with the error
  -- that stands for lost fuel, where each letter of `isalpha` is one of `isalnum`.
  pub tokenize-ne-out_of_fuel : (source : Text) → tokenize {F = F} source ≢ err out_of_fuel
  unfolding tokenize
  tokenize-ne-out_of_fuel source =
      tokenize_loop-ne-out_of_fuel (suc (length source)) source _ (omega arith)
