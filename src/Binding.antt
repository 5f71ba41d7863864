-- ===== src/Binding.antt =====
-- src/altr_stream/query_engine/binding/: names and types of a query against a schema.
pub mod TypeValidator
pub mod Resolver
pub mod Binder
pub mod Erase
pub mod Kept
pub mod Typed
pub mod Sound
