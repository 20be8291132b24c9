-- ===== src/Query.antt =====
-- The query engine of src/csv/query_engine.cpp: values, WHERE conditions, indexes and the choice of rows.
pub mod Values
pub mod Where
pub mod Indexes
pub mod Selection
mod Agreement
mod Tokens
mod Chains
mod Examples
