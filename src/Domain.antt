-- ===== src/Domain.antt =====
-- The domain package (packages/domain/src).
pub mod RequestState
pub mod Draw
pub mod Ledger
pub mod PurchaseDraft
pub mod PurchaseRequest
pub mod Ticket
pub mod Winnings
pub mod Attempt
pub mod Catalog
pub mod Notification
