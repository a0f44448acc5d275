-- ===== src/Cache.antt =====
-- apps/api/src/modules/platform/services/cache.service.ts without a remote adapter: entries that
-- expire, and an index from tags to the keys of the entries that carry them.
pub mod Entries
pub mod Indexed
pub mod Invalidate
pub mod Expiry
