-- ===== src/Backend.antt =====
-- planetmint/backend: the database.
pub mod Mongo
pub mod Documents
pub mod Query
