-- ===== src/Domain/PurchaseDraft.antt =====
-- Purchase drafts (packages/domain/src/purchase-draft.ts).
pub mod Payload
