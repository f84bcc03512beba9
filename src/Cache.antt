-- ===== src/Cache.antt =====
-- pkg/cache: the cache with expiry, and the manager of the five caches.
pub mod Lru
pub mod Store
pub mod Manager
pub mod Locks
