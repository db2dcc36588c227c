-- ===== src/Postgres.antt =====
-- lib/postgres-db: the store on Postgres, as what its statements do to the tables.
pub mod Tables
pub mod Like
pub mod Queries
pub mod Store
pub mod Search
pub mod Writes
pub mod Integrity
pub mod Groups
pub mod Distinct
pub mod Partners
pub mod Log
pub mod Pages
pub mod Listed
pub mod Chats
