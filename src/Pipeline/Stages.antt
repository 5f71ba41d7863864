-- ===== src/Pipeline/Stages.antt =====
-- What the stages of `parse_altrql` guarantee of its result.
use altr_stream.Base.{Text, ◌≡◌}
use altr_stream.Base.Result.{Result, ok, err, >>=-eq-ok, ok-injective}
use altr_stream.Base.Python.{Python}
use altr_stream.Ast.{AltrQueryIr}
use altr_stream.Lexer.Tokenize.{tokenize}
use altr_stream.Parser.Queries
use altr_stream.Semantic.Validator.{validate_ir}
use altr_stream.Semantic.Normalizer.{normalize_ir}
use altr_stream.Semantic.WellFormed.{WellFormed}
use altr_stream.Semantic.Accepts.{validate_ir-WellFormed}
use altr_stream.Semantic.Idempotent.{normalize_ir_idem}
use altr_stream.Pipeline.{QueryError, raised_by, parse_altrql, lex, semantic}

raised_by-ok :
    {E A : Type 0} (stage : E → QueryError) (r : Result E A) {a : A}
    → raised_by stage r ≡ ok a
    → r ≡ ok a
raised_by-ok stage (ok b) h = cc
raised_by-ok stage (err e) h = cc

module _ {F : Type 0} ⦃py : Python F⦄ where
  -- A query that the pipeline returns is well formed, and normalizing it changes nothing.
  pub parse_altrql-WellFormed :
      (text : Text) (ir : AltrQueryIr F)
      → parse_altrql text ≡ ok ir
      → WellFormed ir × (normalize_ir ir ≡ ir)
  unfolding parse_altrql
  parse_altrql-WellFormed text ir h =
      let (tokens, t, p) = >>=-eq-ok (raised_by lex (tokenize text)) _ h in
      let (raw_ir, u, q) = >>=-eq-ok (raised_by QueryError.parse (Queries.parse tokens)) _ p in
      let (x, y, r) = >>=-eq-ok (raised_by semantic (validate_ir raw_ir)) _ q in
      let (z, v, s) = >>=-eq-ok (raised_by semantic (validate_ir (normalize_ir raw_ir))) _ r in
      rw (← ok-injective s) (
        (validate_ir-WellFormed (normalize_ir raw_ir)).0 (raised_by-ok semantic _ v),
        normalize_ir_idem raw_ir,
      )
