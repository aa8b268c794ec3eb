-- ===== src/Domain/Catalog.antt =====
-- The registry of lotteries.
pub mod LotteryRegistry
