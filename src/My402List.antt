-- ===== src/My402List.antt =====
-- warmup1/my402list.c: a circular doubly linked list with an anchor.
pub mod Ops
pub mod Links
mod Tests
