-- ===== src/Application.antt =====
-- The services of packages/application/src/services over the stores of
-- packages/infrastructure/src: each call takes the contents of the stores and returns them.
pub mod Store
pub mod World
pub mod PurchaseState
pub mod Compatibility
pub mod Orchestration
pub mod LedgerStore
pub mod WalletLedger
pub mod TerminalRetry
pub mod TicketClaim
pub mod Winnings
pub mod NotificationService
pub mod VerificationQueue
