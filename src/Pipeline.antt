-- ===== src/Pipeline.antt =====
-- `parse_altrql` of parser.py: text to a validated and normalized query.
pub mod Stages
use altr_stream.Base.{Text}
use altr_stream.Base.Result.{Result, ok, err, ◌>>=◌, ◌>>◌}
use altr_stream.Base.Python.{Python}
use altr_stream.Ast.{AltrQueryIr}
use altr_stream.Lexer.Scan.{LexError}
use altr_stream.Lexer.Tokenize.{tokenize}
use altr_stream.Parser.Machine.{ParseError}
use altr_stream.Parser.Queries
use altr_stream.Semantic.Validator.{SemanticError, validate_ir}
use altr_stream.Semantic.Normalizer.{normalize_ir}

pub data QueryError : Type 0 where
  lex : LexError → QueryError
  parse : ParseError → QueryError
  semantic : SemanticError → QueryError

-- The exceptions of one stage, among those of all.
abbrev pub raised_by {ℓ} :
    {E : Type 0} {A : Type ℓ} → (E → QueryError) → Result E A → Result QueryError A
raised_by stage (ok a) = ok a
raised_by stage (err e) = err (stage e)

module _ {F : Type 0} ⦃py : Python F⦄ where
  unfoldable pub parse_altrql : Text → Result QueryError (AltrQueryIr F)
  unfolding tokenize Queries.parse validate_ir normalize_ir
  parse_altrql query_text = do
    tokens ← raised_by lex (tokenize query_text)
    raw_ir ← raised_by QueryError.parse (Queries.parse tokens)
    raised_by semantic (validate_ir raw_ir)
    raised_by semantic (validate_ir (normalize_ir raw_ir))
    ok (normalize_ir raw_ir)
