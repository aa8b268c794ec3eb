-- ===== src/Domain/Ticket.antt =====
-- Tickets and the jobs that verify them (packages/domain/src/ticket.ts).
pub mod Record
pub mod Job
pub mod Lifecycle
pub mod Verification
