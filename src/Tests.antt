-- ===== src/Tests.antt =====
-- Tests: the code run on concrete inputs.
pub mod Engine
pub mod Wallet
pub mod Purchase
pub mod Draw
pub mod Ticket
pub mod Attempt
pub mod Orders
pub mod Winnings
