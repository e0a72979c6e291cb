-- ===== src/Tests.antt =====
-- Runs of the model and the theorems at concrete inputs, over the database in memory.
mod Settings
mod Keys
mod Sockets
mod Mails
mod Worlds
mod Edges
mod Jobs
mod Runs
mod Inbox
mod Listings
mod Accounts
mod Chats
mod Decisions
