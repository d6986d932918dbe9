-- ===== src/Storage.antt =====
-- The storage service (services/storage): a transactional key-value store, and a store of objects
-- with indexes over it.
pub mod Kinds
pub mod Mem
pub mod Listing
pub mod Indexed
