-- ===== src/Semantic.antt =====
-- src/altr_stream/query_engine/semantic/: what runs on the IR between parsing and binding.
pub mod Validator
pub mod WellFormed
pub mod Checks
pub mod Operands
pub mod Accepts
pub mod Normalizer
pub mod Idempotent
