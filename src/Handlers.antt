-- ===== src/Handlers.antt =====
-- src/handlers.rs and src/handlers/: the HTTP interface.
pub mod Errors
pub mod Endpoints
pub mod Answers
pub mod Conflicts
pub mod Acceptance
pub mod LogConflicts
pub mod Isolation
pub mod Fetching
pub mod RoundTrips
