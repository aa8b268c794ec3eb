-- ===== src/Domain/PurchaseRequest.antt =====
-- Purchase requests and canonical purchases (packages/domain/src/purchase-request.ts).
pub mod Request
pub mod Canonical
pub mod Outcome
pub mod Journal
pub mod Lifecycle
pub mod Recording
