-- ===== src/Adapters.antt =====
-- adapters.py: how sources are queried.
pub mod Columns
pub mod Literals
pub mod Rules
pub mod Sql
pub mod ClickHouse
pub mod Trino
pub mod Langfuse
pub mod Schema
pub mod S3
pub mod Registry
