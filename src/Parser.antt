-- ===== src/Parser.antt =====
-- src/altr_stream/query_engine/parser/parser.py. The tokens from the cursor on stand for the token
-- list and the cursor; past the end `_peek` returns the last token, which is EOF. Every loop and
-- every recursive method takes fuel. A message of an error is the source's, without the parts that
-- an f-string puts in.
pub mod Machine
pub mod Values
pub mod Expressions
pub mod Clauses
pub mod Payloads
pub mod Queries
pub mod Progress
pub mod ValuesEnd
pub mod ExpressionsEnd
pub mod ClausesEnd
pub mod PayloadsEnd
pub mod QueriesEnd
pub mod Printer
pub mod ConstraintsRoundTrip
pub mod ValuesRoundTrip
pub mod FieldsRoundTrip
pub mod RoundTrip
