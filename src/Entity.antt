-- ===== src/Entity.antt =====
-- internal/entity: the records that the other parts keep, and the rules on one record.
-- Ids, instants and SHA-256 digests are numbers; texts are the lists of their bytes.
pub mod Account
pub mod Access
pub mod Storage
pub mod Upload
pub mod Chunks
pub mod Grants
