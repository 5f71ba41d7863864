-- ===== src/Lexer.antt =====
-- src/altr_stream/query_engine/parser/lexer.py. The text from the cursor on stands for the source
-- and the cursor, and the slices of the source for what a scan has passed.
pub mod Scan
pub mod Strings
pub mod Tokenize
pub mod Fuel
pub mod Quoting
