-- ===== src/Transforms.antt =====
-- src/transforms: GitHub's data in the form that Jira takes.
pub mod Repository
pub mod RepositoryId
pub mod Author
pub mod PullRequest
pub mod Workflow
pub mod Branch
pub mod Commit
pub mod Alerts
pub mod Deployment
pub mod Push
mod Tests
