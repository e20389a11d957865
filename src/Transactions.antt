-- ===== src/Transactions.antt =====
-- The order of bank transactions: `sortList` of warmup1/warmup1.c.
pub mod Sort
pub mod SortLaws
mod Tests
