-- ===== src/Tests.antt =====
-- A concrete instance of the interpreter's operations, test queries, and the witnesses.
mod Ascii
mod Lexing
mod Parsing
mod Merges
mod SqlTexts
mod Statements
mod Versions
mod Updates
mod Registries
mod Plans
mod Witnesses
