-- ===== src/Jira.antt =====
-- src/jira/client: what is sent to Jira, and in what portions.
pub mod JiraId
pub mod Jwt
pub mod IssueKeyParser
pub mod IssueKeys
mod Tests
pub mod Batches
pub mod Axios
