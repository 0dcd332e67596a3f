-- ===== src/Cache.antt =====
-- internal/cache/cache.go: the LRU map, and the Redis tier in front of it.
pub mod Recency
pub mod Lru
pub mod Redis
