-- ===== src/Lowering.antt =====
-- src/altr_stream/query_engine/lowering/: bound queries to SQL for PostgreSQL, MySQL and SQLite.
-- The three lowerers have most of their code in common, which stands once, over a `Dialect`.
pub mod Sql
pub mod Dialect
pub mod Strings
pub mod InLists
pub mod Postgres
pub mod Queries
pub mod Creates
pub mod Dialects
pub mod Like
pub mod Groups
pub mod Numbering
pub mod Raising
pub mod Markers
