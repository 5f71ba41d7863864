-- ===== src/Tests/SqlTexts.antt =====
-- Texts of SQL, split and validated.
use altr_stream.Base.{codes, ℕ, ◌==◌, Bool, [], ◌∷◌, ◌++◌, ◌≡◌, refl}
use altr_stream.Base.Result.{ok, err}
use altr_stream.Lowering.Dialect.{replace}
use altr_stream.Statements.{
  Mode, multi_statement, empty_query, split_sql_statements, validate_query,
}
use altr_stream.Statements.Splitting.{unsplit, pieces, unsplit-scan, scan-quoted}

abbrev is_blank : ℕ → Bool
is_blank c = c == 32

-- A semicolon in quotes, one in a comment, and one in dollar quotes end no statement.
split-kept :
    split_sql_statements is_blank (codes "a ';' /* ; */ $x$ ; $x$ b; c ;")
    ≡ codes "a ';' /* ; */ $x$ ; $x$ b" ∷ codes "c" ∷ []
unfolding split_sql_statements
split-kept = refl

validate_query-single : validate_query is_blank (codes " select 1; -- ;") ≡ ok (codes "select 1")
unfolding validate_query
validate_query-single = refl

validate_query-multi : validate_query is_blank (codes "select 1; drop t") ≡ err multi_statement
unfolding validate_query
validate_query-multi = refl

validate_query-empty : validate_query is_blank (codes " -- nothing") ≡ err empty_query
unfolding validate_query
validate_query-empty = refl

unsplit-scan_example :
    unsplit (pieces Mode.outside 0 [] (codes "a;b ';' -- ;")) ≡ codes "a;b ';' -- ;"
unsplit-scan_example = unsplit-scan (codes "a;b ';' -- ;")

scan-quoted_example :
    pieces Mode.outside 0 [] (39 ∷ (replace 39 (39 ∷ 39 ∷ []) (codes "it's; --") ++ 39 ∷ []))
    ≡ (39 ∷ (replace 39 (39 ∷ 39 ∷ []) (codes "it's; --") ++ 39 ∷ [])) ∷ []
scan-quoted_example = scan-quoted (codes "it's; --")
