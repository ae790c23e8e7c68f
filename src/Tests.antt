-- ===== src/Tests.antt =====
-- The theorems at concrete inputs, and runs of the modelled code on such.
mod Fixtures
mod Traffic
mod Runs
mod Isolation
mod Stores
mod Replies
mod Pruned
mod RoundTrips
mod Locking
mod Signers
mod Drafts
mod Workers
mod Servers
mod Published
mod Clients
mod Startup
