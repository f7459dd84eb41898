-- ===== src/Links.antt =====
-- Links between neighbors: daemon/link.c.
pub mod Bucket
pub mod Loss
pub mod Hello
mod Tests
