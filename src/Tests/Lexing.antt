-- ===== src/Tests/Lexing.antt =====
-- Runs of the lexer.
use altr_stream.Base.{Text, codes, ℕ, ◌≡◌, refl, List, [], ◌∷◌, map}
use altr_stream.Base.Result.{Result, ok, ◌>>=◌}
use altr_stream.Tokens.{Kind, TokenType}
use altr_stream.Lexer.Scan.{LexError}
use altr_stream.Lexer.Tokenize.{tokenize}
use altr_stream.Tests.Ascii.{ascii}

abbrev kinds : Text → Result LexError (List (Kind ℕ))
kinds s = do ts ← tokenize s; ok (map (λ t. t.kind) ts)

words :
    kinds (codes "GET users // all\n{ age >= 12, x = 3..4 };")
    ≡ ok (
        Kind.fixed TokenType.get_kw
        ∷ Kind.identifier (codes "users")
        ∷ Kind.fixed TokenType.lbrace
        ∷ Kind.identifier (codes "age")
        ∷ Kind.fixed TokenType.gte
        ∷ Kind.integer 12
        ∷ Kind.fixed TokenType.comma
        ∷ Kind.identifier (codes "x")
        ∷ Kind.fixed TokenType.eq
        ∷ Kind.integer 3
        ∷ Kind.fixed TokenType.dotdot
        ∷ Kind.integer 4
        ∷ Kind.fixed TokenType.rbrace
        ∷ Kind.fixed TokenType.semicolon
        ∷ Kind.fixed TokenType.eof
        ∷ [])
unfolding tokenize
words = refl
