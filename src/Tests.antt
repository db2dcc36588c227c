-- ===== src/Tests.antt =====
-- The theorems at concrete inputs.
mod Base
mod Accounts
mod Feeds
mod Races
mod Store
mod Site
mod Requests
mod Sessions
mod Texts
mod Tables
mod Postgres
mod Chats
mod Http
