-- ===== src/Application/Store.antt =====
-- The in-memory stores of packages/infrastructure/src/purchase and packages/infrastructure/src/draw,
-- which implement the ports of packages/application/src/ports. The state of a store is its list of
-- elements; copies of elements are equal to the elements here.
pub mod Requests
pub mod Queue
pub mod Purchases
pub mod Attempts
pub mod Lock
pub mod CashDesk
pub mod Jobs
pub mod Notifications
pub mod Draws
pub mod VerificationJobs
