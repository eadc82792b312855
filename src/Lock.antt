-- ===== src/Lock.antt =====
-- cache/redis/lock.go: the distributed lock.
pub mod Redis
pub mod Defs
pub mod AutoExtend
pub mod Acquire
pub mod Holding
pub mod Foreign
pub mod Losing
pub mod Telling
pub mod Steps
pub mod Refinement
