-- ===== src/Ledger.antt =====
-- The accounts of the tables: the reference counts of the blobs, the usage of the quotas.
pub mod Balance
pub mod Grown
pub mod Attach
pub mod Steps
pub mod Deletion
pub mod Purge
pub mod Trash
pub mod Orphans
pub mod Owners
pub mod Sweep
