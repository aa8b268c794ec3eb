-- ===== src/Domain/Ledger.antt =====
-- The ledger (packages/domain/src/ledger.ts).
pub mod Entry
pub mod Balance
pub mod Normal
pub mod Totals
pub mod Order
