-- ===== src/Domain/Draw.antt =====
-- Draws (packages/domain/src/draw.ts).
pub mod Availability
pub mod Canonical
pub mod Closure
pub mod Lifecycle
pub mod Freshness
