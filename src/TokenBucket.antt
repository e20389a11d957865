-- ===== src/TokenBucket.antt =====
-- The emulation of a token bucket with two servers: Threading/warmup2.c.
pub mod Threads
pub mod Balance
pub mod Order
pub mod Waits
mod Tests
