-- ===== src/Postgres.antt =====
-- internal/repository/postgres: each method as the statement that it executes. A failed statement
-- changes nothing; unique keys and foreign keys are checked as in migrations/*.up.sql, and `mapErr`
-- gives their violations as `already_exists` and `not_found`.
pub mod QuotaRepo
pub mod BlobRepo
pub mod VersionRepo
pub mod FileRepo
pub mod Listings
pub mod UploadRepo
pub mod FolderRepo
pub mod AuditRepo
pub mod SessionRepo
pub mod UserRepo
pub mod ShareRepo
