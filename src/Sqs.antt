-- ===== src/Sqs.antt =====
-- src/sqs: the queues that webhooks and the backfill go through, and the handling of failed messages.
pub mod Types
mod Tests
pub mod ErrorHandlers
pub mod RateLimit
pub mod Queue
pub mod BackfillErrorHandler
