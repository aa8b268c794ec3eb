-- ===== src/Application/Winnings.antt =====
-- The services that pay winnings: to the wallet, or at the cash desk.
pub mod Credit
pub mod Desk
pub mod Fulfillment
pub mod Claims
pub mod OnePath
pub mod Past
pub mod Processed
