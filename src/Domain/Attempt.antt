-- ===== src/Domain/Attempt.antt =====
-- Attempts of a purchase at the terminal: when they are retried, how they are recorded, and in which
-- order the queue runs.
pub mod RetryPolicy
pub mod TerminalAttempt
pub mod Queue
