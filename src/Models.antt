-- ===== src/Models.antt =====
-- src/models: the tables of the database.
pub mod Subscriptions
