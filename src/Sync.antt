-- ===== src/Sync.antt =====
-- src/sync: the backfill, which copies the history of a GitHub installation to Jira task by task.
pub mod Types
mod Tests
pub mod Store
pub mod Scheduler
pub mod Cursor
pub mod Tasks
pub mod Deduplicator
pub mod Process
pub mod Start
pub mod Pages
