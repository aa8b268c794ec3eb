-- ===== src/Domain/Winnings.antt =====
-- How winnings are paid out (packages/domain/src/cash-desk.ts).
pub mod CashDesk
pub mod Payout
