-- ===== src/Tests.antt =====
-- The development's examples at concrete inputs, and the services that stand in for bcrypt, SHA-256
-- and python-jose in them.
mod Tokens
mod Limits
mod Codes
mod Chats
mod Accounts
mod Streams
mod Administration
mod Resets
mod Service
mod Starting
mod Reporting
mod Platform
mod Registration
mod Journeys
mod Races
