-- ===== src/MultiPath.antt =====
-- Paths stamped on packets: daemon/multipath.c.
pub mod Mask
pub mod Stamp
mod Tests
