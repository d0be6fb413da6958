-- ===== src/Github.antt =====
-- src/github: the clients of GitHub's API, their errors and the cache of their tokens.
pub mod Errors
pub mod InstallationId
pub mod Tokens
mod Tests
pub mod Failures
