-- ===== src/Cache.antt =====
-- DriverCore/cache/cache.c: the cache of metadata, a tree of leaves for each volume with a list of
-- the leaves in the order of their use. PAYLOAD_ENABLE is undefined in DriverCore/cache/cache.h.
pub mod Radix
pub mod Leaf
pub mod Volume
pub mod Update
pub mod Find
pub mod Entries
pub mod Drop
pub mod Kick
pub mod Evict
pub mod Invalidate
pub mod Store
pub mod Reclaim
pub mod Stored
pub mod Lookups
pub mod Touch
pub mod Walk
pub mod Rounds
pub mod Gather
pub mod Get
pub mod Put
pub mod Table
pub mod Leak
mod ListTree
mod Tests
